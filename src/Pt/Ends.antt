-- ===== src/Pt/Ends.antt =====
-- The loop of `__pt_vma_new` in src/kernel/pt.c.
use jake.Common.{
  update_self, ℕ, zero, suc, ◌+◌, ◌-◌, ◌||◌, ◌%◌, ◌^◌, ◌≤◌, ◌<◌, ◌≡◌, ◌≢◌, refl, sym, ap, ◌∙◌,
  arith, Bool, ◌⊎◌, Option, none, true, false, ◌&&◌, not, some, ltb, ◌==◌, if◌then◌else◌, ℤ, pos,
  negsuc, Bool-cases, Option-cases, inl, inr,
}
use jake.Nodes.{is_node_init}
use jake.Machine.{word, kvirt2phys, store, set_vma, vma_at, vma_node_offset, Machine, Vma}
use jake.Pt.Entry.{
  has_flag, vma_identity, vma_populate, page_tera, pte_is_valid, pte_is_leaf, level2depth,
}
use jake.Pt.Alloc.{pt_set_pte_nonleaf}
use jake.Pt.Walk.{Ptes, set_leaf_end, set_leaf_loop, pt_set_pte_leaf}
use jake.Pt.Page.{Page, zero_page, new_page_at_vpn, map_page, map_new_page, pt_vma_map_page_at_vpn}
use jake.Pt.Mapped.{result_cases}
use jake.Pt.Vma.{map_loop, vma_new_mapped, pt_vma_new}
use jake.Pt.Progress.{new_page_at_vpn-Inside}

-- `pt_set_pte_leaf` answers 0 or an error.
abbrev NotMore : ℤ → Type 0
NotMore z = (n : ℕ) → z ≢ pos (suc n)

NotMore-negsuc : (m : ℕ) → NotMore (negsuc m)
NotMore-negsuc m n e = cc

NotMore-zero : NotMore (pos 0)
NotMore-zero n e = cc

NotMore-if :
    (b : Bool) (x y : ℤ × Machine) → NotMore x.0 → NotMore y.0 → NotMore (if b then x else y).0
NotMore-if true x y p q = p
NotMore-if false x y p q = q

NotMore-elim :
    (z : ℤ) (x : ℤ × Machine) (s : Machine)
    → NotMore x.0
    → let r : ℤ × Machine = elim z [
      | pos zero ↦ x
      | pos (suc n) ↦ (negsuc 1, s)
      | negsuc n ↦ (negsuc 1, s)
    ] in
      NotMore r.0
NotMore-elim (pos zero) x s p = p
NotMore-elim (pos (suc n)) x s p = NotMore-negsuc 1
NotMore-elim (negsuc n) x s p = NotMore-negsuc 1

set_leaf_loop-NotMore :
    (rounds j vpn pte curr : ℕ) (ptes : Ptes) (s : Machine)
    → NotMore (set_leaf_loop rounds j vpn pte curr ptes s).0
unfolding set_leaf_loop set_leaf_end
set_leaf_loop-NotMore zero j vpn pte curr ptes s =
    NotMore-if (pte_is_valid (ptes j) && not (pte == 0)) (negsuc 3, s) (pos 0, store curr pte s)
      (NotMore-negsuc 3) NotMore-zero
set_leaf_loop-NotMore (suc rounds) j vpn pte curr ptes s =
    NotMore-if (pte_is_leaf (ptes j)) (negsuc 3, s) _ (NotMore-negsuc 3)
      (NotMore-if (not (pte_is_valid (ptes j))) _ _
        (NotMore-elim (pt_set_pte_nonleaf curr s).0 _ (pt_set_pte_nonleaf curr s).1
          (set_leaf_loop-NotMore rounds (j + 1) vpn pte _ _ (pt_set_pte_nonleaf curr s).1))
        (set_leaf_loop-NotMore rounds (j + 1) vpn pte _ _ s))

pt_set_pte_leaf-NotMore :
    (satp vpn pte depth : ℕ) (s : Machine) → NotMore (pt_set_pte_leaf satp vpn pte depth s).0
unfolding pt_set_pte_leaf
pt_set_pte_leaf-NotMore satp vpn pte depth s = set_leaf_loop-NotMore depth 0 vpn pte satp _ s

map_page-NotMore : (satp : ℕ) (page : Page) (s : Machine) → NotMore (map_page satp page s).0
unfolding map_page
map_page-NotMore satp page s =
    NotMore-if (ltb page_tera page.level) (negsuc 0, s) _ (NotMore-negsuc 0)
      (pt_set_pte_leaf-NotMore satp page.vpn page.pte (level2depth page.level) s)

-- So a positive result of `pt_vma_map_page_at_vpn` is the one of `pt_vma_new_page_at_vpn`.
map_new_page-pagen :
    (satp n : ℕ) (r : ℤ × Page × Machine)
    → (map_new_page satp r).0 ≡ pos (suc n)
    → r.0 ≡ pos (suc n)
unfolding map_new_page
map_new_page-pagen satp n (pos zero, page, s) e = e
map_new_page-pagen satp n (pos (suc m), page, s) e = elim (result_cases (map_page satp page s).0) [
  | inl z ↦ sym (rw (z, map_new_page) refl) ∙ e
  | inr (inl (k, z)) ↦ absurd (map_page-NotMore satp page s k z)
  | inr (inr (k, z)) ↦ absurd (NotMore-negsuc k n (sym (rw (z, map_new_page) refl) ∙ e))
]
map_new_page-pagen satp n (negsuc m, page, s) e = elim (result_cases (map_page satp page s).0) [
  | inl z ↦ sym (rw (z, map_new_page) refl) ∙ e
  | inr (inl (k, z)) ↦ absurd (map_page-NotMore satp page s k z)
  | inr (inr (k, z)) ↦ absurd (NotMore-negsuc k n (sym (rw (z, map_new_page) refl) ∙ e))
]

pt_vma_map_page_at_vpn-end :
    (satp : ℕ) (vma : Vma) (vpn ppn n : ℕ) (s : Machine)
    → vma.vpn + vma.pagen ≤ 2 ^ 52
    → vpn ≤ 2 ^ 52
    → (pt_vma_map_page_at_vpn satp vma vpn ppn s).0 ≡ pos (suc n)
    → vpn + suc n ≤ vma.vpn + vma.pagen
unfolding pt_vma_map_page_at_vpn
pt_vma_map_page_at_vpn-end satp vma vpn ppn n s small b e =
    let w =
      new_page_at_vpn-Inside satp vma vpn ppn n zero_page s small b
        (map_new_page-pagen satp n (new_page_at_vpn satp vma vpn ppn zero_page s) e) in
    w.high

-- The loop goes from one place to another, each time by the pages of a result above 0.
pub data Forward (satp : ℕ) (vma : Vma) : ℕ → ℕ → Machine → ℕ → ℕ → Machine → Type 0 where
  here : {vpn ppn : ℕ} {s : Machine} → Forward satp vma vpn ppn s vpn ppn s
  further :
      {vpn ppn vpn' ppn' : ℕ} {s s₁ s' : Machine} (n : ℕ)
      → pt_vma_map_page_at_vpn satp vma vpn ppn s ≡ (pos (suc n), s₁)
      → Forward satp vma (vpn + suc n) ((ppn + suc n) % word) s₁ vpn' ppn' s'
      → Forward satp vma vpn ppn s vpn' ppn' s'

-- An error is met on the way, at a page number up to the end of the VMA.
pub record Fails (satp : ℕ) (vma : Vma) (vpn ppn : ℕ) (s : Machine) : Type 0 where
  pub vpn_at : ℕ
  pub ppn_at : ℕ
  pub machine_at : Machine
  pub way : Forward satp vma vpn ppn s vpn_at ppn_at machine_at
  pub inside : (vpn ≤ vpn_at) × (vpn_at ≤ vma.vpn + vma.pagen)
  pub error : ℕ
  pub machine_after : Machine
  pub answer :
      pt_vma_map_page_at_vpn satp vma vpn_at ppn_at machine_at ≡ (negsuc error, machine_after)

-- The loop ends within one round more than there are pages from where it stands to the end of the
-- VMA, or meets an error.
map_loop-ends :
    (rounds satp : ℕ) (vma : Vma) (vpn ppn : ℕ) (s : Machine)
    → vma.vpn + vma.pagen ≤ 2 ^ 52
    → vpn ≤ vma.vpn + vma.pagen
    → vma.vpn + vma.pagen < vpn + rounds
    → ((s' : Machine) × (map_loop rounds satp vma vpn ppn s ≡ some (pos 0, s')))
      ⊎ Fails satp vma vpn ppn s
unfolding map_loop
map_loop-ends zero satp vma vpn ppn s small b l = absurd (omega arith)
map_loop-ends (suc rounds) satp vma vpn ppn s small b l =
    let r = pt_vma_map_page_at_vpn satp vma vpn ppn s in
    elim (result_cases r.0) [
      | inl z ↦ inl (r.1, rw (z, map_loop) refl)
      | inr (inr (n, z)) ↦ inr (record {
        vpn_at = vpn;
        ppn_at = ppn;
        machine_at = s;
        way = here;
        inside = (omega arith, b);
        error = n;
        machine_after = r.1;
        answer = ap (λ (x : ℤ). (x, r.1)) z;
      })
      | inr (inl (n, z)) ↦
          let more = pt_vma_map_page_at_vpn-end satp vma vpn ppn n s small (omega arith) z in
          let e : (vpn + suc n) % word ≡ vpn + suc n = omega (arith, more) in
          elim (map_loop-ends rounds satp vma (vpn + suc n) ((ppn + suc n) % word) r.1 small more
            (omega arith)) [
              | inl (s', q) ↦ inl (
                s',
                rw (z, map_loop)
                    (ap (λ (t : ℕ). map_loop rounds satp vma t ((ppn + suc n) % word) r.1) e ∙ q),
              )
              | inr f ↦ inr (record {
                vpn_at = f.vpn_at;
                ppn_at = f.ppn_at;
                machine_at = f.machine_at;
                way = further n (ap (λ (x : ℤ). (x, r.1)) z) f.way;
                inside = (omega (arith, f.inside.0), f.inside.1);
                error = f.error;
                machine_after = f.machine_after;
                answer = f.answer;
              })
            ]
    ]

answered-ret :
    (ret ret' : ℤ) (s s' : Machine)
    → ◌≡◌ {A = Option (ℤ × Machine)} (some (ret, s)) (some (ret', s'))
    → ret' ≡ ret
answered-ret ret ret' s s' e = cc

if-either : (b : Bool) (x y z : Option (ℤ × Machine)) → (if b then x else y) ≡ z → (x ≡ z) ⊎ (y ≡ z)
if-either true x y z e = inl e
if-either false x y z e = inr e

not_answered : (ret : ℤ) (s' : Machine) → ◌≢◌ {A = Option (ℤ × Machine)} none (some (ret, s'))
not_answered ret s' e = cc

-- Whenever the loop ends, it answers 0.
map_loop-zero :
    (rounds satp : ℕ) (vma : Vma) (vpn ppn : ℕ) (s : Machine) (ret : ℤ) (s' : Machine)
    → map_loop rounds satp vma vpn ppn s ≡ some (ret, s')
    → ret ≡ pos 0
unfolding map_loop
map_loop-zero zero satp vma vpn ppn s ret s' e = absurd (not_answered ret s' e)
map_loop-zero (suc rounds) satp vma vpn ppn s ret s' e =
    let r = pt_vma_map_page_at_vpn satp vma vpn ppn s in
    elim (result_cases r.0) [
      | inl z ↦ answered-ret (pos 0) ret r.1 s' (sym (rw (z, map_loop) refl) ∙ e)
      | inr (inl (n, z)) ↦
          map_loop-zero rounds satp vma ((vpn + suc n) % word) ((ppn + suc n) % word) r.1 ret s'
            (sym (rw (z, map_loop) refl) ∙ e)
      | inr (inr (n, z)) ↦
          map_loop-zero rounds satp vma ((vpn + (word - suc n)) % word)
            ((ppn + (word - suc n)) % word) r.1 ret s' (sym (rw (z, map_loop) refl) ∙ e)
    ]

pt_vma_new-answers :
    (rounds satp vpn pagen flags out : ℕ) (s : Machine) (ret : ℤ) (s' : Machine)
    → pt_vma_new rounds satp vpn pagen flags out s ≡ some (ret, s')
    → (ret ≡ pos 0) ⊎ (ret ≡ negsuc 0)
unfolding pt_vma_new vma_new_mapped
pt_vma_new-answers rounds satp vpn pagen flags out s ret s' e =
    let vma : Vma = record { vpn = vpn; pagen = pagen; flags = flags } in
    let s₁ = set_vma out vma s in
    elim (if-either (has_flag flags vma_identity) _ _ _ e) [
      | inl q ↦ inr (answered-ret (negsuc 0) ret s s' q)
      | inr q ↦ elim (if-either (not (is_node_init (out + vma_node_offset) s₁)) _ _ _ q) [
        | inl q' ↦ inr (answered-ret (negsuc 0) ret s₁ s' q')
        | inr q' ↦
            inl
              (elim (if-either (has_flag flags vma_identity || has_flag flags vma_populate) _ _ _
                q') [
                  | inl w ↦ map_loop-zero rounds satp (vma_at s₁ out) vpn 0 s₁ ret s' w
                  | inr w ↦ answered-ret (pos 0) ret s₁ s' w
                ])
      ]
    ]

pt_vma_new-done :
    (rounds satp vpn pagen flags out : ℕ) (s : Machine)
    → vpn + pagen ≤ 2 ^ 52
    → pagen < rounds
    → ((ret : ℤ) × (s' : Machine) × (pt_vma_new rounds satp vpn pagen flags out s ≡ some (ret, s')))
      ⊎ Fails satp
          (record { vpn = vpn; pagen = pagen; flags = flags })
          vpn
          0
          (set_vma out (record { vpn = vpn; pagen = pagen; flags = flags }) s)
unfolding pt_vma_new vma_new_mapped
pt_vma_new-done rounds satp vpn pagen flags out s small l =
    let vma : Vma = record { vpn = vpn; pagen = pagen; flags = flags } in
    let s₁ = set_vma out vma s in
    let same : vma_at s₁ out ≡ vma = update_self s.vmas (kvirt2phys out) vma in
    elim (Bool-cases (has_flag flags vma_identity)) [
      | inl y ↦ inl (negsuc 0, s, rw (y, pt_vma_new) refl)
      | inr n ↦ elim (Bool-cases (is_node_init (out + vma_node_offset) s₁)) [
        | inr m ↦ inl (negsuc 0, s₁, rw (n, pt_vma_new, vma_new_mapped, m) refl)
        | inl m ↦ elim (Bool-cases (has_flag flags vma_populate)) [
          | inr u ↦ inl (pos 0, s₁, rw (n, pt_vma_new, vma_new_mapped, m, u) refl)
          | inl u ↦
              elim (map_loop-ends rounds satp vma vpn 0 s₁ small (omega arith) (omega arith)) [
                | inl (s', q) ↦ inl (
                  pos 0,
                  s',
                  rw (n, pt_vma_new, vma_new_mapped, m, u)
                      (ap (λ (v : Vma). map_loop rounds satp v vpn 0 s₁) same ∙ q),
                )
                | inr f ↦ inr f
              ]
        ]
      ]
    ]

-- `pt_vma_new` of a VMA of `pagen` pages which ends at 2 ^ 52 at most, whatever its flags, the memory and
-- the page tables are, in any number of rounds above `pagen`: either it ends within them and answers 0
-- or -EINVALARGS, so never that a page could not be mapped; or it does not, and then an error of
-- pt_vma_map_page_at_vpn is met, at a page number from the first one up to the end of the VMA, to which
-- results above 0 have taken it.
pub pt_vma_new-ends :
    (rounds satp vpn pagen flags out : ℕ) (s : Machine)
    → vpn + pagen ≤ 2 ^ 52
    → pagen < rounds
    → ((s' : Machine) × ((pt_vma_new rounds satp vpn pagen flags out s ≡ some (pos 0, s'))
          ⊎ (pt_vma_new rounds satp vpn pagen flags out s ≡ some (negsuc 0, s'))))
      ⊎ ((pt_vma_new rounds satp vpn pagen flags out s ≡ none)
          × Fails satp
              (record { vpn = vpn; pagen = pagen; flags = flags })
              vpn
              0
              (set_vma out (record { vpn = vpn; pagen = pagen; flags = flags }) s))
pt_vma_new-ends rounds satp vpn pagen flags out s small l =
    elim (Option-cases (pt_vma_new rounds satp vpn pagen flags out s)) [
      | inl n ↦ elim (pt_vma_new-done rounds satp vpn pagen flags out s small l) [
        | inl (ret, s', e) ↦ absurd (not_answered ret s' (sym n ∙ e))
        | inr f ↦ inr (n, f)
      ]
      | inr ((ret, s'), e) ↦ inl (
        s',
        elim (pt_vma_new-answers rounds satp vpn pagen flags out s ret s' e) [
          | inl z ↦ inl (e ∙ ap (λ (x : ℤ). some (x, s')) z)
          | inr z ↦ inr (e ∙ ap (λ (x : ℤ). some (x, s')) z)
        ],
      )
    ]
