-- ===== src/Trap/Tests.antt =====
-- The library on concrete states: processes, traps, page table entries, and bytes.
use jake.Common.{
  ℕ, zero, suc, ◌%◌, ◌^◌, ◌≤◌, ◌<◌, ◌≡◌, ◌≢◌, refl, none, arith, ◌⊎◌, inr, ℕ_discrete, ◌+◌, ◌-◌,
  pos, false, ◌==◌, if◌then◌else◌, [],
}
use jake.Machine.{word, Machine}
use jake.Pt.Entry.{pte_get_ppn, pte_set_ppn}
use jake.Pt.Alloc.{pt_salloc}
use jake.Pt.Codec.{pte_set_ppn-field}
use jake.Pt.Salloc.{Answer, pt_salloc-Answer}
use jake.Process.State.{
  is_paused, is_free_slot, Status, free_slot, running, paused, reserved, max_processes, TrapFrame,
  Kernel, to_user, set_status,
}
use jake.Process.Scheduler.{context_switch, proc_scheduler, proc_find_free_process_slot}
use jake.Process.Choice.{proc_scheduler-first, proc_find_free_process_slot-least}
use jake.Util.{memcpy}
use jake.Util.Memory.{memcpy-copies}
use jake.Trap.Scall.{timer_handler, scall_handler_yield}
use jake.Trap.Switch.{Next, Switched, slot, scall_handler_yield-Switched, timer_handler-Switched}

abbrev pub empty_frame : TrapFrame
empty_frame = record {
  sp = 0;
  ra = 0;
  t0 = 0;
  t1 = 0;
  t2 = 0;
  a0 = 0;
  a1 = 0;
  a2 = 0;
  a3 = 0;
  a4 = 0;
  a5 = 0;
  a6 = 0;
  a7 = 0;
  t3 = 0;
  t4 = 0;
  t5 = 0;
  t6 = 0;
  satp = 0;
  sepc = 0x1000;
  gp = 0;
  tp = 0;
  s0 = 0;
  s1 = 0;
  s2 = 0;
  s3 = 0;
  s4 = 0;
  s5 = 0;
  s6 = 0;
  s7 = 0;
  s8 = 0;
  s9 = 0;
  s10 = 0;
  s11 = 0;
}

abbrev some_machine : Machine
some_machine = record {
  buddy = record {
    free_lists = λ _. none;
    blocks = λ _. record { refcnt = 1; order = 0; next = none };
  };
  mem = λ _. 0;
  nodes = λ _. record { next = 0; prev = 0 };
  vmas = λ _. record { vpn = 0; pagen = 0; flags = 0 };
  ksatp_at = 8;
  salloc_base = 0x8000_0000;
  salloc_cursor = 64;
  kvmas_head = 0;
}

-- Slot 0 is reserved, slot 1 runs, slots 2 and 3 are free, slot 4 is paused; the rest is free.
abbrev some_status : ℕ → Status
some_status t =
    if t == 0 then reserved else if t == 1 then running else if t == 4 then paused else free_slot

abbrev pub some_kernel : Kernel
some_kernel = record {
  machine = some_machine;
  bytes = λ a. a % 256;
  process_list = λ t. record {
    pid = t;
    status = some_status t;
    uvmas = 0;
    tf = empty_frame;
    elf = record {
      e_entry = 0;
      size_load = 0;
      offset_load = 0;
      virtual_load = 0;
      valid = 0;
      ptr_elf = 0;
    };
  };
  process_list_at = 0x8001_0000;
  proc_running = 1;
  processes_total = 2;
  last_pid = 2;
  tf_user = empty_frame;
  timer_check = 0;
  csr = record { satp = 0; sepc = 0; sip = 0x20; sstatus = 0; stval = 0; scause = 0 };
  output = [];
  testing_at = 0x8000_2000;
  hello_jr_at = 0x8000_4000;
  local_satp_at = 0x8200_0000;
}

-- The same list, but nothing is paused.
abbrev lonely_kernel : Kernel
lonely_kernel = set_status 4 free_slot some_kernel

not_paused_yet : (e : ℕ) → e < 2 → is_paused (some_kernel.process_list (slot 1 e)).status ≡ false
not_paused_yet zero l = refl
not_paused_yet (suc zero) l = refl
not_paused_yet (suc (suc e)) l = absurd (omega arith)

not_free_yet : (e : ℕ) → e < 1 → is_free_slot (some_kernel.process_list (1 + e)).status ≡ false
not_free_yet zero l = refl
not_free_yet (suc e) l = absurd (omega arith)

none_paused : (t : ℕ) → t < max_processes → is_paused (lonely_kernel.process_list t).status ≡ false
none_paused t l = elim (ℕ_discrete t 0) [
  | yes a ↦ rw a refl
  | no a ↦ elim (ℕ_discrete t 1) [
    | yes b ↦ rw b refl
    | no b ↦ elim (ℕ_discrete t 4) [ yes c ↦ rw c refl | no c ↦ ground (arith) ]
  ]
]

four-Next : Next some_kernel 2
four-Next = record {
  in_list = omega arith;
  near = omega arith;
  before = not_paused_yet;
  found = refl;
}

proc_scheduler-first_example :
    proc_scheduler some_kernel
    ≡ context_switch (set_status 4 running (record some_kernel { proc_running = 4 }))
proc_scheduler-first_example = proc_scheduler-first some_kernel 2 (omega arith) not_paused_yet refl

proc_find_free_process_slot-least_example : proc_find_free_process_slot some_kernel ≡ pos 2
proc_find_free_process_slot-least_example =
    proc_find_free_process_slot-least some_kernel 1 (λ e. absurd (omega arith)) (omega arith)
      not_free_yet refl

scall_handler_yield-Switched_example :
    (k' : Kernel) × (scall_handler_yield some_kernel ≡ to_user empty_frame k')
    × Switched 4 empty_frame some_kernel k'
scall_handler_yield-Switched_example = scall_handler_yield-Switched some_kernel 2 refl four-Next

timer_handler-Switched_example :
    (k' : Kernel) × (timer_handler some_kernel ≡ to_user empty_frame k')
    × Switched 4 (record empty_frame { sepc = (empty_frame.sepc + word - 4) % word }) some_kernel k'
timer_handler-Switched_example = timer_handler-Switched some_kernel 2 refl refl refl four-Next

pt_salloc-Answer_example : Answer 40 some_machine (pt_salloc 40 some_machine)
pt_salloc-Answer_example =
    pt_salloc-Answer 40 some_machine (omega arith) (omega arith) (λ e. absurd (omega arith))

pte_set_ppn-field_example :
    (pte_get_ppn (pte_set_ppn 0xcf 0x80123) ≡ 0x80123 % 2 ^ 44)
    × (pte_set_ppn 0xcf 0x80123 % 2 ^ 10 ≡ 0xcf % 2 ^ 10)
pte_set_ppn-field_example = pte_set_ppn-field 0xcf 0x80123

memcpy-copies_example :
    ((j : ℕ) → j < 8 → memcpy 100 10 8 some_kernel.bytes (100 + j) ≡ some_kernel.bytes (10 + j))
    × ((a : ℕ)
        → (a < 100) ⊎ (100 + 8 ≤ a)
        → memcpy 100 10 8 some_kernel.bytes a ≡ some_kernel.bytes a)
memcpy-copies_example = memcpy-copies 100 10 8 some_kernel.bytes (inr (omega arith))

bytes_not_zero : (e : ℕ) → e < 6 → some_kernel.bytes (250 + e) ≢ 0
bytes_not_zero e l = λ z. absurd (omega arith)
