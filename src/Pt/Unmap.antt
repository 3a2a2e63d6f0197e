-- ===== src/Pt/Unmap.antt =====
-- The loop of `pt_vma_unmap_pages` in src/kernel/pt.c where the first page of a VMA is not mapped.
use jake.Common.{
  ℕ, zero, suc, ◌+◌, ◌-◌, ◌/◌, ◌%◌, ◌^◌, ◌≤◌, ◌<◌, ◌≡◌, ap, ◌∙◌, refl, arith, ltb, true, false,
  negsuc, add_signed, some, dec_le,
}
use jake.Machine.{word, Machine, vma_at}
use jake.Pt.Walk.{pt_unmap_page}
use jake.Pt.Vma.{unmap_next, unmap_loop, pt_vma_unmap_pages}

-- The answer -ENOTMAPPED takes the loop 3 pages back, and from the first pages to the end of the
-- addresses.
unmap_loop-back :
    (rounds satp vpn end : ℕ) (s : Machine)
    → pt_unmap_page satp vpn s ≡ (negsuc 2, s)
    → vpn < end
    → unmap_loop (suc rounds) satp vpn end s
      ≡ unmap_loop rounds satp (add_signed vpn (negsuc 2)) end s
unfolding unmap_loop unmap_next
unmap_loop-back rounds satp vpn end s unmapped before =
    let b : ltb vpn end ≡ true = ground arith in rw (unmapped, b) refl

unmap_loop-past :
    (rounds satp vpn end : ℕ) (s : Machine)
    → end ≤ vpn
    → unmap_loop (suc rounds) satp vpn end s ≡ some s
unfolding unmap_loop
unmap_loop-past rounds satp vpn end s past = let b : ltb vpn end ≡ false = ground arith in rw b refl

unmap_loop-gives_up :
    (rounds satp vpn end : ℕ) (s : Machine)
    → ((v : ℕ) → v ≤ vpn → pt_unmap_page satp v s ≡ (negsuc 2, s))
    → vpn ≤ 2 ^ 52
    → end ≤ 2 ^ 52
    → vpn / 3 + 1 < rounds
    → unmap_loop rounds satp vpn end s ≡ some s
unmap_loop-gives_up zero satp vpn end s unmapped low fits l = absurd (omega arith)
unmap_loop-gives_up (suc zero) satp vpn end s unmapped low fits l = absurd (omega arith)
unmap_loop-gives_up (suc (suc rounds)) satp vpn end s unmapped low fits l = elim (dec_le end vpn) [
  | yes past ↦ unmap_loop-past (suc rounds) satp vpn end s past
  | no before ↦
      unmap_loop-back (suc rounds) satp vpn end s (unmapped vpn (omega arith)) (omega arith)
      ∙ elim (dec_le 3 vpn) [
        | yes high ↦
            let e : add_signed vpn (negsuc 2) ≡ vpn - 3 = omega arith in
            ap (λ (t : ℕ). unmap_loop (suc rounds) satp t end s) e
            ∙ unmap_loop-gives_up (suc rounds) satp (vpn - 3) end s
                (λ v m. unmapped v (omega arith)) (omega arith) fits (omega arith)
        | no small ↦ unmap_loop-past rounds satp (add_signed vpn (negsuc 2)) end s (omega arith)
      ]
]

-- Where neither the first page of a VMA nor any page below it is mapped, so that pt_unmap_page answers
-- -ENOTMAPPED for them and changes nothing, and the VMA ends at 2 ^ 52 at most: pt_vma_unmap_pages ends
-- in every number of rounds above a third of the first page number and 1, and unmaps no page at all,
-- whatever pages of the VMA are mapped behind the first.
pub pt_vma_unmap_pages-gives_up :
    (rounds satp vma : ℕ) (s : Machine)
    → ((v : ℕ) → v ≤ (vma_at s vma).vpn → pt_unmap_page satp v s ≡ (negsuc 2, s))
    → (vma_at s vma).vpn + (vma_at s vma).pagen ≤ 2 ^ 52
    → (vma_at s vma).vpn / 3 + 1 < rounds
    → pt_vma_unmap_pages rounds satp vma s ≡ some s
unfolding pt_vma_unmap_pages
pt_vma_unmap_pages-gives_up rounds satp vma s unmapped fits l =
    unmap_loop-gives_up rounds satp (vma_at s vma).vpn
      (((vma_at s vma).vpn + (vma_at s vma).pagen) % word) s unmapped (omega arith) (omega arith) l
