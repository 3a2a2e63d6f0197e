-- ===== src/Trap/TurnTests.antt =====
-- Turns of processes, and the search of mmap, on concrete states.
use jake.Common.{ℕ, ◌≡◌, ◌≤◌, ◌+◌, refl, some, true, arith, [], ◌∷◌, has}
use jake.Nodes.Tests.{two-Ring, machine_with}
use jake.Pt.Lookup.{vma_of}
use jake.Process.State.{Kernel, paused, set_status, to_user, user_heap_base_vpn}
use jake.Trap.Scall.{scall_handler_yield, get_free_vpn}
use jake.Trap.Switch.{Next, Switched, scall_handler_yield-Switched}
use jake.Trap.FreeVpn.{in_heap, HeapIsApart, get_free_vpn-behind, get_free_vpn-empty}
use jake.Trap.Turn.{yield, Turns, done, more, Visits}
use jake.Trap.Fair.{Turns-Visits}
use jake.Trap.Tests.{empty_frame, some_kernel}

-- Process 1 runs, and the one in slot 2 is paused.
abbrev ready_kernel : Kernel
ready_kernel = set_status 2 paused some_kernel

two-Next : Next ready_kernel 0
two-Next = record {
  in_list = omega arith;
  near = omega arith;
  before = λ e l. absurd (omega arith);
  found = refl;
}

abbrev yielded :
    (k' : Kernel) × (scall_handler_yield ready_kernel ≡ to_user empty_frame k')
    × Switched 2 empty_frame ready_kernel k'
yielded = scall_handler_yield-Switched ready_kernel 0 refl two-Next

abbrev one_turn : Turns 1 ready_kernel yielded.0
one_turn = more (yield empty_frame empty_frame ready_kernel.csr yielded.1) done

Turns-Visits_example : Visits 2 one_turn
Turns-Visits_example = Turns-Visits one_turn 0 (omega arith) (omega arith) (omega arith) refl

-- The running process has a ring of one VMA, at the page `vpn`, of `pagen` pages.
abbrev kernel_with : ℕ → ℕ → Kernel
kernel_with vpn pagen = record some_kernel {
  machine = record (machine_with 0) { vmas = λ a. record { vpn = vpn; pagen = pagen; flags = 0 } };
  process_list = λ t. record (some_kernel.process_list t) { uvmas = 100 };
}

apart_heap : HeapIsApart (kernel_with 0x80006 4).machine (200 ∷ [])
apart_heap = record {
  small = λ x h i. omega arith;
  fits = λ x h i. omega arith;
  apart = λ x y h g i l. absurd (omega (arith, l));
  same = λ x y h g i e. refl;
}

get_free_vpn-behind_example :
    (vpn : ℕ) × (get_free_vpn 2 1 (kernel_with 0x80006 4) ≡ some vpn)
    × (user_heap_base_vpn ≤ vpn)
    × ((x : ℕ)
        → has x (200 ∷ []) ≡ true
        → in_heap (vma_of (kernel_with 0x80006 4).machine x) ≡ true
        → (vma_of (kernel_with 0x80006 4).machine x).vpn
            + (vma_of (kernel_with 0x80006 4).machine x).pagen
          ≤ vpn)
get_free_vpn-behind_example =
    get_free_vpn-behind 2 (200 ∷ []) (kernel_with 0x80006 4) two-Ring (omega arith) apart_heap

get_free_vpn-empty_example : get_free_vpn 2 1 (kernel_with 0x80006 0) ≡ some 0x80006
get_free_vpn-empty_example =
    get_free_vpn-empty 1 200 [] (kernel_with 0x80006 0) two-Ring (omega arith) refl refl
      (omega arith) (λ y h. absurd (ground (arith, h)))
