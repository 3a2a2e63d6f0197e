-- ===== src/Debug/Ends.antt =====
-- The loop of `pt_print` in src/kernel/pt.c.
use jake.Common.{
  ℕ, zero, suc, ◌+◌, ◌*◌, ◌%◌, ◌^◌, ◌≤◌, ◌<◌, ◌≡◌, refl, ap, arith, ◌&&◌, ltb, leb, Bool,
  Bool-cases, inl, inr, List, [], ◌++◌, some, ℤ, pos, negsuc, is_neg, if◌then◌else◌,
}
use jake.Machine.{word, page_size, Machine, virt_mem_kernel_base}
use jake.Pt.Entry.{level2depth, level2pagen, phys2ppn}
use jake.Pt.Walk.{no_ptes, pt_get_pte}
use jake.Pt.Vma.{Layout}
use jake.Debug.{kernel_vpn, next_region, print_region, print_loop, pt_print}

literal_bound : (a b : ℕ) → a ≡ b → 1 ≤ b → b ≤ 2 ^ 36 → (1 ≤ a) × (a ≤ 2 ^ 36)
literal_bound a b e l m = (omega arith, omega arith)

-- A page of any depth has at least one page and at most 2 ^ 36.
pages_bound : (d : ℕ) → (1 ≤ level2pagen (level2depth d)) × (level2pagen (level2depth d) ≤ 2 ^ 36)
pages_bound zero =
    literal_bound (level2pagen (level2depth 0)) (2 ^ 36) refl (omega arith) (omega arith)
pages_bound (suc zero) =
    literal_bound (level2pagen (level2depth 1)) (2 ^ 27) refl (omega arith) (omega arith)
pages_bound (suc (suc zero)) =
    literal_bound (level2pagen (level2depth 2)) (2 ^ 18) refl (omega arith) (omega arith)
pages_bound (suc (suc (suc zero))) =
    literal_bound (level2pagen (level2depth 3)) (2 ^ 9) refl (omega arith) (omega arith)
pages_bound (suc (suc (suc (suc d)))) =
    let e : level2depth (suc (suc (suc (suc d)))) ≡ 0 = omega arith in
    literal_bound (level2pagen (level2depth (suc (suc (suc (suc d)))))) 1 (ap level2pagen e)
      (omega arith) (omega arith)

-- The loop goes forward.
jump_ahead :
    (b : Bool) (vpn on limit : ℕ)
    → vpn < 2 ^ 52
    → 1 ≤ on
    → on ≤ 2 ^ 36
    → vpn < (if b && ltb limit vpn && ltb vpn kernel_vpn then kernel_vpn else (vpn + on) % word)
jump_ahead b vpn on limit l m n = ground arith

next_region-ahead :
    (user vpn : ℕ) (depth prev : ℤ) → vpn < 2 ^ 52 → vpn < next_region user vpn depth prev
unfolding next_region
next_region-ahead user vpn (pos d) prev l =
    let (a, b) = pages_bound d in
    jump_ahead (is_neg prev) vpn (level2pagen (level2depth d)) ((user + 256 * page_size) % word) l a
      b
next_region-ahead user vpn (negsuc e) prev l =
    jump_ahead (is_neg prev) vpn (level2pagen 0) ((user + 256 * page_size) % word) l (omega arith)
      (omega arith)

print_loop-ends :
    (rounds user last vpn : ℕ) (prev : ℤ) (s : Machine)
    → last < 2 ^ 52
    → last + 1 < rounds + vpn
    → 0 < rounds
    → (out : List ℕ) × (print_loop rounds user last vpn prev s ≡ some out)
unfolding print_loop
print_loop-ends zero user last vpn prev s small enough l = absurd (omega arith)
print_loop-ends (suc rounds) user last vpn prev s small enough l =
    let depth = (pt_get_pte s.ksatp_at vpn no_ptes s).depth in
    let next = next_region user vpn depth prev in
    elim (Bool-cases (leb vpn last)) [
      | inr e ↦ rw e ([], refl)
      | inl e ↦
          let ahead : vpn < next = next_region-ahead user vpn depth prev (ground (arith, e)) in
          let (out, f) =
            print_loop-ends rounds user last next depth s small (omega (arith, ahead))
              (ground (arith, e)) in
          rw (e, f) (print_region user vpn depth prev ++ out, refl)
    ]

-- pt_print of any page tables, from any page number, ends within 2 ^ 52 + 1 rounds.
pub pt_print-ends :
    (user : ℕ) (layout : Layout) (s : Machine)
    → (out : List ℕ) × (pt_print (2 ^ 52 + 1) user layout s ≡ some out)
unfolding pt_print
pt_print-ends user layout s =
    print_loop-ends (2 ^ 52 + 1) user
      (phys2ppn ((virt_mem_kernel_base + layout.phys_end + layout.kstack_size) % word))
      (if ltb user (2 ^ 63) then user else kernel_vpn) (negsuc 0) s (omega arith) (omega arith)
      (omega arith)
