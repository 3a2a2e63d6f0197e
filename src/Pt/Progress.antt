-- ===== src/Pt/Progress.antt =====
-- How far a page of a VMA that pt_vma_new_page_at_vpn of src/kernel/pt.c finds reaches.
use jake.Common.{
  ℕ, zero, suc, ◌+◌, ◌-◌, ◌%◌, ◌^◌, ◌≤◌, ◌<◌, ◌≡◌, refl, sym, ap, ◌∙◌, arith, true, Option, none,
  some, ltb, if◌then◌else◌, ℤ, pos, negsuc, Bool-cases, inl, inr, ◌⊎◌,
}
use mathlib.Core.Path.{subst}
use jake.Machine.{word, Machine, Vma}
use jake.Pt.Entry.{level2pagen, page_tera, vpn2prevpageboundary}
use jake.Pt.Walk.{find_level_of_highest_empty_pte}
use jake.Pt.Page.{Page, fits, fit_level, fill_level, filled, new_page_of_maxlevel, new_page_at_vpn}
use jake.Pt.Boundary.{page_end, page_end_mono, boundary_le, boundary_mono, page_end_near}
use jake.Pt.Placed.{Place, Placed, fill_level-Placed}

fit_level-UpTo :
    (vma : Vma) (vpn level : ℕ)
    → (fit_level vma vpn level ≡ none)
      ⊎ ((found : ℕ) × (fit_level vma vpn level ≡ some found)
          × (found ≤ level)
          × (fits vma vpn found ≡ true))
unfolding fit_level
fit_level-UpTo vma vpn zero = elim (Bool-cases (fits vma vpn 0)) [
  | inl e ↦ inr (0, rw e refl, omega arith, e)
  | inr e ↦ inl (rw e refl)
]
fit_level-UpTo vma vpn (suc level) = elim (Bool-cases (fits vma vpn (suc level))) [
  | inl e ↦ inr (suc level, rw e refl, omega arith, e)
  | inr e ↦ elim (fit_level-UpTo vma vpn level) [
    | inl q ↦ inl (rw e q)
    | inr (found, q, l, f) ↦ inr (found, rw e q, omega arith, f)
  ]
]

-- The page holds the page number, lies in the page of `level` that does, and `n` pages are left of it
-- from the page number on.
record Within (vpn level n : ℕ) (page : Page) : Type 0 where
  small : page.level ≤ level
  low : vpn2prevpageboundary vpn level ≤ page.vpn
  holds : page.vpn ≤ vpn
  progress : vpn + n ≡ page.vpn + level2pagen page.level
  high : vpn + n ≤ page_end vpn level

Within-found :
    (vpn level found n : ℕ) (page : Page)
    → vpn < word
    → level ≤ 3
    → found ≤ level
    → Place (vpn2prevpageboundary vpn found) found page
    → n ≡ page_end vpn found - vpn
    → 0 < n
    → Within vpn level n page
Within-found vpn level found n page b l f (v, d) e pos_n =
    let size : level2pagen page.level ≡ level2pagen found = ap (λ (t : ℕ). level2pagen t) d in
    record {
      small = omega (arith, d);
      low = omega (arith, v, boundary_mono vpn found level b f l);
      holds = omega (arith, v, boundary_le vpn found b (omega arith));
      progress = omega (arith, e, v, size);
      high = omega (arith, e, page_end_mono vpn found level b f l);
    }

filled-Within :
    (vpn level n : ℕ) (r : Option ℕ × Page × Machine)
    → vpn < word
    → level ≤ 3
    → Placed vpn level r
    → (filled vpn r).0 ≡ pos (suc n)
    → Within vpn level (suc n) (filled vpn r).1
unfolding filled
filled-Within vpn level n (none, out, s) b l u e = absurd (zero_ne n e)
  where
    zero_ne : (n : ℕ) → ◌≡◌ {A = ℤ} (pos 0) (pos (suc n)) → ⊥
    zero_ne n e = cc
filled-Within vpn level n (some found, out, s) b l (inl q) e = absurd (none_ne q)
  where
    none_ne : some found ≡ none → ⊥
    none_ne q = cc
filled-Within vpn level n (some found, out, s) b l (inr (other, q, f, p)) e =
    let same : found ≡ other = some_inj found other q in
    Within-found vpn level other (suc n) out b l f p
      (sym (pos_inj _ (suc n) e) ∙ ap (λ (t : ℕ). page_end vpn t - vpn) same) (omega arith)
  where
    pos_inj : (a c : ℕ) → ◌≡◌ {A = ℤ} (pos a) (pos c) → a ≡ c
    pos_inj a c e = cc

    some_inj : (a c : ℕ) → some a ≡ some c → a ≡ c
    some_inj a c e = cc

new_page_of_maxlevel-Within :
    (vma : Vma) (vpn ppn level n : ℕ) (maxlevel : ℤ) (out : Page) (s : Machine)
    → vpn < word
    → level ≤ 3
    → let r = new_page_of_maxlevel vma vpn ppn level maxlevel out s in
      r.0 ≡ pos (suc n) → Within vpn level (suc n) r.1
unfolding new_page_of_maxlevel
new_page_of_maxlevel-Within vma vpn ppn level n (negsuc m) out s b l e = absurd (neg_ne m n e)
  where
    neg_ne : (m n : ℕ) → ◌≡◌ {A = ℤ} (negsuc m) (pos (suc n)) → ⊥
    neg_ne m n e = cc
new_page_of_maxlevel-Within vma vpn ppn level n (pos maxlevel) out s b l e =
    let start = if ltb maxlevel level then maxlevel else level in
    let lower : start ≤ level = ground arith in
    let w =
      filled-Within vpn start n (fill_level vma vpn ppn start out s) b (omega arith)
        (fill_level-Placed vma vpn ppn start out s) e in
    record {
      small = omega (arith, w.small);
      low = omega (arith, w.low, boundary_mono vpn start level b lower l);
      holds = w.holds;
      progress = w.progress;
      high = omega (arith, w.high, page_end_mono vpn start level b lower l);
    }

fits-low :
    (vma : Vma) (vpn level : ℕ)
    → fits vma vpn level ≡ true
    → vma.vpn ≤ vpn2prevpageboundary vpn level
unfolding fits
fits-low vma vpn level f = ground arith

fits-end :
    (vma : Vma) (vpn level : ℕ)
    → fits vma vpn level ≡ true
    → vma.vpn + vma.pagen ≤ 2 ^ 52
    → vpn ≤ 2 ^ 52
    → level ≤ 3
    → page_end vpn level ≤ vma.vpn + vma.pagen
unfolding fits
fits-end vma vpn level f small b l =
    let near = page_end_near vpn level (omega arith) l in
    let g : page_end vpn level % word ≤ (vma.vpn + vma.pagen) % word = ground arith in
    omega (arith, near, g)

-- The page lies in the VMA and holds the page number, and it ends `n` pages from there on.
pub record Inside (vma : Vma) (vpn n : ℕ) (page : Page) : Type 0 where
  pub small : page.level ≤ page_tera
  pub low : vma.vpn ≤ page.vpn
  pub holds : page.vpn ≤ vpn
  pub progress : vpn + n ≡ page.vpn + level2pagen page.level
  pub high : vpn + n ≤ vma.vpn + vma.pagen

-- For a VMA that ends at 2 ^ 52 at most, and a page number up to there: where
-- `pt_vma_new_page_at_vpn` answers `n` pages, with `n` above 0, its page is of one of the four levels,
-- lies in the VMA from its begin to its end, holds the page number, and ends `n` pages behind it.
pub new_page_at_vpn-Inside :
    (satp : ℕ) (vma : Vma) (vpn ppn n : ℕ) (out : Page) (s : Machine)
    → vma.vpn + vma.pagen ≤ 2 ^ 52
    → vpn ≤ 2 ^ 52
    → (new_page_at_vpn satp vma vpn ppn out s).0 ≡ pos (suc n)
    → Inside vma vpn (suc n) (new_page_at_vpn satp vma vpn ppn out s).1
unfolding new_page_at_vpn
new_page_at_vpn-Inside satp vma vpn ppn n out s small b e =
    elim (fit_level-UpTo vma vpn page_tera) [
      | inl q ↦ absurd (zero_ne n (sym (rw (q, new_page_at_vpn) refl) ∙ e))
      | inr (top, q, l, f) ↦
          let z = find_level_of_highest_empty_pte satp (vpn2prevpageboundary vpn top) s in
          let r = new_page_of_maxlevel vma vpn ppn top z out s in
          let same : new_page_at_vpn satp vma vpn ppn out s ≡ r = rw (q, new_page_at_vpn) refl in
          let w =
            new_page_of_maxlevel-Within vma vpn ppn top n z out s (omega arith) l
              (ap (λ (t : ℤ × Page × Machine). t.0) (sym same) ∙ e) in
          subst (λ (t : ℤ × Page × Machine). Inside vma vpn (suc n) t.1) (sym same)
            (record {
              small = omega (arith, w.small, l);
              low = omega (arith, w.low, fits-low vma vpn top f);
              holds = w.holds;
              progress = w.progress;
              high = omega (arith, w.high, fits-end vma vpn top f small b l);
            })
    ]
  where
    zero_ne : (n : ℕ) → ◌≡◌ {A = ℤ} (pos 0) (pos (suc n)) → ⊥
    zero_ne n e = cc
