-- ===== src/Pt/Placed.antt =====
-- The page that the last loop of pt_vma_new_page_at_vpn of src/kernel/pt.c finds: its size and place.
use jake.Common.{
  ℕ, zero, suc, ◌≤◌, ◌≡◌, refl, sym, arith, Bool, true, false, ◌&&◌, Option, none, some, ◌==◌,
  if◌then◌else◌, ℤ, inl, inr, ◌⊎◌,
}
use mathlib.Core.Path.{subst}
use jake.Machine.{Machine, Vma}
use jake.Pt.Entry.{phys2ppn, has_flag, vma_identity, vma_populate, vpn2prevpageboundary}
use jake.Pt.Alloc.{pt_alloc}
use jake.Pt.Page.{Page, fill_level, new_page_at_vpn_of_level, page_needs_pte, page_pte_set_perm}
use jake.Pt.Mapped.{result_cases}

-- A page stays where it was put: `__pt_page_needs_pte` gives it an entry and a PPN only.
abbrev pub Place : ℕ → ℕ → Page → Type 0
Place vpn level page = (page.vpn ≡ vpn) × (page.level ≡ level)

Place-if :
    (b : Bool) (vpn level : ℕ) (x y : ℤ × Page × Machine)
    → Place vpn level x.1
    → Place vpn level y.1
    → Place vpn level (if b then x else y).1
Place-if true vpn level x y p q = p
Place-if false vpn level x y p q = q

new_page_at_vpn_of_level-Place :
    (vma : Vma) (vpn ppn level : ℕ) (out : Page) (s : Machine)
    → Place vpn level (new_page_at_vpn_of_level vma vpn ppn level out s).1
unfolding new_page_at_vpn_of_level page_needs_pte page_pte_set_perm
new_page_at_vpn_of_level-Place vma vpn ppn level out s =
    let b₁ = has_flag vma.flags vma_populate && has_flag vma.flags vma_identity in
    let b₂ = has_flag vma.flags vma_identity in
    let b₃ = phys2ppn (pt_alloc level s).0 == 0 in
    Place-if b₁ vpn level _ _ (refl, refl)
      (Place-if b₂ vpn level _ _ (refl, refl) (Place-if b₃ vpn level _ _ (refl, refl) (refl, refl)))

-- What requirement 3 leaves, from `level` down: no page, or one of a level that is no higher.
abbrev pub Placed : ℕ → ℕ → Option ℕ × Page × Machine → Type 0
Placed vpn level r =
    (r.0 ≡ none)
    ⊎ ((found : ℕ) × (r.0 ≡ some found)
        × (found ≤ level)
        × Place (vpn2prevpageboundary vpn found) found r.1)

Placed-suc :
    (vpn level : ℕ) (r r' : Option ℕ × Page × Machine)
    → r ≡ r'
    → Placed vpn level r'
    → Placed vpn (suc level) r
Placed-suc vpn level r r' e w =
    subst (λ (t : Option ℕ × Page × Machine). Placed vpn (suc level) t) (sym e)
      (elim w [ inl q ↦ inl q | inr (found, q, l, p) ↦ inr (found, q, omega arith, p) ])

Placed-here :
    (vpn level : ℕ) (r : Option ℕ × Page × Machine) (page : Page) (s : Machine)
    → r ≡ (some level, page, s)
    → Place (vpn2prevpageboundary vpn level) level page
    → Placed vpn level r
Placed-here vpn level r page s e p =
    subst (λ (t : Option ℕ × Page × Machine). Placed vpn level t) (sym e)
      (inr (level, refl, omega arith, p))

pub fill_level-Placed :
    (vma : Vma) (vpn ppn level : ℕ) (out : Page) (s : Machine)
    → Placed vpn level (fill_level vma vpn ppn level out s)
unfolding fill_level
fill_level-Placed vma vpn ppn zero out s =
    let r = new_page_at_vpn_of_level vma (vpn2prevpageboundary vpn 0) ppn 0 out s in
    let p = new_page_at_vpn_of_level-Place vma (vpn2prevpageboundary vpn 0) ppn 0 out s in
    elim (result_cases r.0) [
      | inl z ↦
          Placed-here vpn 0 (fill_level vma vpn ppn 0 out s) r.1 r.2 (rw (z, fill_level) refl) p
      | inr (inl (n, z)) ↦ inl (rw (z, fill_level) refl)
      | inr (inr (n, z)) ↦ inl (rw (z, fill_level) refl)
    ]
fill_level-Placed vma vpn ppn (suc level) out s =
    let at = vpn2prevpageboundary vpn (suc level) in
    let r = new_page_at_vpn_of_level vma at ppn (suc level) out s in
    let p = new_page_at_vpn_of_level-Place vma at ppn (suc level) out s in
    let lower = fill_level-Placed vma vpn ppn level r.1 r.2 in
    elim (result_cases r.0) [
      | inl z ↦
          Placed-here vpn (suc level) (fill_level vma vpn ppn (suc level) out s) r.1 r.2
            (rw (z, fill_level) refl) p
      | inr (inl (n, z)) ↦
          Placed-suc vpn level (fill_level vma vpn ppn (suc level) out s)
            (fill_level vma vpn ppn level r.1 r.2) (rw (z, fill_level) refl) lower
      | inr (inr (n, z)) ↦
          Placed-suc vpn level (fill_level vma vpn ppn (suc level) out s)
            (fill_level vma vpn ppn level r.1 r.2) (rw (z, fill_level) refl) lower
    ]
