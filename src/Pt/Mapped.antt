-- ===== src/Pt/Mapped.antt =====
-- What `pt_vma_map_page_at_vpn` of src/kernel/pt.c does at a page that is mapped already.
use jake.Common.{ℕ, zero, suc, ◌⊎◌, inl, inr, ◌≡◌, refl, ap, ◌∙◌, some, ℤ, pos, negsuc}
use jake.Machine.{Vma, Machine}
use jake.Pt.Entry.{page_tera, vpn2prevpageboundary}
use jake.Pt.Walk.{no_ptes, pt_get_pte, find_level_of_highest_empty_pte, pt_set_pte_leaf}
use jake.Pt.Page.{
  Page, zero_page, fit_level, new_page_at_vpn, new_page_of_maxlevel, map_page, map_new_page,
  pt_vma_map_page_at_vpn,
}

pub result_cases :
    (z : ℤ) → (z ≡ pos 0) ⊎ ((n : ℕ) × (z ≡ pos (suc n))) ⊎ ((n : ℕ) × (z ≡ negsuc n))
result_cases (pos zero) = inl refl
result_cases (pos (suc n)) = inr (inl (n, refl))
result_cases (negsuc n) = inr (inr (n, refl))

find_level-mapped :
    (satp vpn depth : ℕ) (s : Machine)
    → (pt_get_pte satp vpn no_ptes s).depth ≡ pos depth
    → find_level_of_highest_empty_pte satp vpn s ≡ negsuc 3
unfolding find_level_of_highest_empty_pte
find_level-mapped satp vpn depth s mapped = rw (mapped, find_level_of_highest_empty_pte) refl

new_page_at_vpn-mapped :
    (satp : ℕ) (vma : Vma) (vpn ppn level depth : ℕ) (out : Page) (s : Machine)
    → fit_level vma vpn page_tera ≡ some level
    → (pt_get_pte satp (vpn2prevpageboundary vpn level) no_ptes s).depth ≡ pos depth
    → new_page_at_vpn satp vma vpn ppn out s ≡ (negsuc 3, out, s)
unfolding new_page_at_vpn new_page_of_maxlevel
new_page_at_vpn-mapped satp vma vpn ppn level depth out s fit mapped =
    rw (fit, new_page_at_vpn)
      (ap (λ (z : ℤ). new_page_of_maxlevel vma vpn ppn level z out s)
        (find_level-mapped satp (vpn2prevpageboundary vpn level) depth s mapped))

map_empty_page :
    (satp : ℕ) (s : Machine)
    → (map_new_page satp (negsuc 3, zero_page, s)).1 ≡ (pt_set_pte_leaf satp 0 0 4 s).1
unfolding map_new_page map_page
map_empty_page satp s = elim (result_cases (pt_set_pte_leaf satp 0 0 4 s).0) [
  | inl e ↦ rw (e, map_new_page, map_page) refl
  | inr (inl (n, e)) ↦ rw (e, map_new_page, map_page) refl
  | inr (inr (n, e)) ↦ rw (e, map_new_page, map_page) refl
]

-- At a page of a VMA that has a mapping, the error -EMAPPED is not taken for one: the code then sets
-- the last-level entry of page number 0 to 0, with the tables on the way to it, and the memory that it
-- leaves is the one after that.
pub pt_vma_map_page_at_vpn-mapped :
    (satp : ℕ) (vma : Vma) (vpn ppn level depth : ℕ) (s : Machine)
    → fit_level vma vpn page_tera ≡ some level
    → (pt_get_pte satp (vpn2prevpageboundary vpn level) no_ptes s).depth ≡ pos depth
    → (pt_vma_map_page_at_vpn satp vma vpn ppn s).1 ≡ (pt_set_pte_leaf satp 0 0 4 s).1
unfolding pt_vma_map_page_at_vpn
pt_vma_map_page_at_vpn-mapped satp vma vpn ppn level depth s fit mapped =
    ap (λ (r : ℤ × Page × Machine). (map_new_page satp r).1)
      (new_page_at_vpn-mapped satp vma vpn ppn level depth zero_page s fit mapped)
    ∙ map_empty_page satp s
