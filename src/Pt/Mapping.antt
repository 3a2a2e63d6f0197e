-- ===== src/Pt/Mapping.antt =====
-- Mapping and unmapping a page where the tables on the way are there, in src/kernel/pt.c, and what
-- the walk finds after it.
use jake.Common.{
  ℕ, zero, suc, ◌+◌, ◌<◌, ◌≡◌, ◌≢◌, refl, sym, ap, ◌∙◌, arith, true, false, ◌==◌, pos, negsuc,
  update,
}
use jake.Machine.{Machine, load, store}
use jake.Pt.Entry.{pt_num_levels, level2depth, level2pagen, pte_is_leaf, pte_is_valid, satp2pte}
use jake.Pt.Walk.{
  Ptes, no_ptes, next_pte, pt_get_pte, set_leaf_end, set_leaf_loop, pt_set_pte_leaf, unmap_found,
  pt_unmap_page,
}
use jake.Pt.Path.{
  pte_at, addr_at, IsTable, next_pte-at, carried, start, pt_get_pte-leaf, pt_get_pte-hole,
}
use jake.Pt.Write.{Spares, IsTable-store, pte_at-store_self}

set_leaf_loop-table :
    (rounds j vpn pte curr : ℕ) (ptes : Ptes) (s : Machine)
    → pte_is_leaf (ptes j) ≡ false
    → pte_is_valid (ptes j) ≡ true
    → let next = next_pte j vpn ptes s in
      set_leaf_loop (suc rounds) j vpn pte curr ptes s
      ≡ set_leaf_loop rounds (suc j) vpn pte next (update ptes (suc j) (load s next)) s
unfolding set_leaf_loop
set_leaf_loop-table rounds j vpn pte curr ptes s e f =
    let z : j + 1 ≡ suc j = omega arith in
    let next = next_pte j vpn ptes s in
    rw (e, f)
      (ap (λ (t : ℕ). set_leaf_loop rounds t vpn pte next (update ptes t (load s next)) s) z)

module _ (satp vpn : ℕ) (s : Machine) where
  set_leaf_loop-tables :
      (n j d pte : ℕ) (ptes : Ptes)
      → d ≡ j + n
      → ptes j ≡ pte_at satp vpn s j
      → ((i : ℕ) → i < d → IsTable satp vpn s i)
      → (ptes' : Ptes) × (set_leaf_loop n j vpn pte (addr_at satp vpn s j) ptes s
          ≡ set_leaf_end d pte (addr_at satp vpn s d) ptes' s)
        × (ptes' d ≡ pte_at satp vpn s d)
  unfolding set_leaf_loop
  set_leaf_loop-tables zero j d pte ptes e p tables =
      let z : j ≡ d = omega arith in
      (
        ptes,
        ap (λ (t : ℕ). set_leaf_end t pte (addr_at satp vpn s t) ptes s) z,
        ap (λ (t : ℕ). ptes t) (sym z) ∙ p ∙ ap (λ (t : ℕ). pte_at satp vpn s t) z,
      )
  set_leaf_loop-tables (suc n) j d pte ptes e p tables =
      let t = tables j (omega arith) in
      let next = next_pte j vpn ptes s in
      let ptes₁ = update ptes (suc j) (load s next) in
      let (ptes', e', p') =
        set_leaf_loop-tables n (suc j) d pte ptes₁ (omega arith) (carried satp vpn s j ptes p)
          tables in
      (
        ptes',
        set_leaf_loop-table n j vpn pte (addr_at satp vpn s j) ptes s
              (ap (λ (x : ℕ). pte_is_leaf x) p ∙ t.0) (ap (λ (x : ℕ). pte_is_valid x) p ∙ t.1)
            ∙ ap (λ (x : ℕ). set_leaf_loop n (suc j) vpn pte x ptes₁ s)
                (next_pte-at satp vpn s j ptes p)
            ∙ e',
        p',
      )

  set_leaf-end :
      (d pte : ℕ)
      → ((i : ℕ) → i < d → IsTable satp vpn s i)
      → (ptes' : Ptes) × (pt_set_pte_leaf satp vpn pte d s
          ≡ set_leaf_end d pte (addr_at satp vpn s d) ptes' s)
        × (ptes' d ≡ pte_at satp vpn s d)
  unfolding pt_set_pte_leaf addr_at
  set_leaf-end d pte tables =
      set_leaf_loop-tables d 0 d pte (update no_ptes 0 (satp2pte (load s satp))) (omega arith)
        (start satp vpn s no_ptes) tables

  -- An entry that is valid already is not overwritten by another: the answer is -EMAPPED, and the memory
  -- is left as it was.
  pub pt_set_pte_leaf-valid :
      (d pte : ℕ)
      → ((i : ℕ) → i < d → IsTable satp vpn s i)
      → pte_is_valid (pte_at satp vpn s d) ≡ true
      → pte ≢ 0
      → pt_set_pte_leaf satp vpn pte d s ≡ (negsuc 3, s)
  unfolding set_leaf_end
  pt_set_pte_leaf-valid d pte tables valid n =
      let (ptes', e, p) = set_leaf-end d pte tables in
      let f : pte_is_valid (ptes' d) ≡ true = ap (λ (t : ℕ). pte_is_valid t) p ∙ valid in
      let g : (pte == 0) ≡ false = ground arith in e ∙ rw (f, g) refl

  set_leaf-free :
      (d pte : ℕ)
      → ((i : ℕ) → i < d → IsTable satp vpn s i)
      → pte_is_valid (pte_at satp vpn s d) ≡ false
      → pt_set_pte_leaf satp vpn pte d s ≡ (pos 0, store (addr_at satp vpn s d) pte s)
  unfolding set_leaf_end
  set_leaf-free d pte tables free =
      let (ptes', e, p) = set_leaf-end d pte tables in
      let f : pte_is_valid (ptes' d) ≡ false = ap (λ (t : ℕ). pte_is_valid t) p ∙ free in
      e ∙ rw f refl

  -- With tables before depth `d`, an entry there that is not valid, and a leaf to put there:
  -- `pt_set_pte_leaf` succeeds, and after it `pt_get_pte` finds that leaf for this page number, at this
  -- depth. The entry's cell is none of those on the way to it, nor ksatp.
  pub pt_set_pte_leaf-walk :
      (d pte : ℕ) (ptes : Ptes)
      → suc d < pt_num_levels
      → ((i : ℕ) → i < suc d → IsTable satp vpn s i)
      → pte_is_valid (pte_at satp vpn s (suc d)) ≡ false
      → pte_is_leaf pte ≡ true
      → Spares (addr_at satp vpn s (suc d)) satp vpn (suc d) s
      → (s' : Machine) × (pt_set_pte_leaf satp vpn pte (suc d) s ≡ (pos 0, s'))
        × ((pt_get_pte satp vpn ptes s').depth ≡ pos (suc d))
        × ((pt_get_pte satp vpn ptes s').ptes (suc d) ≡ pte)
  pt_set_pte_leaf-walk d pte ptes b tables free leaf w =
      let a = addr_at satp vpn s (suc d) in
      let self = pte_at-store_self satp vpn d pte s w in
      let r =
        pt_get_pte-leaf satp vpn (store a pte s) (suc d) ptes b
          (λ (i : ℕ) (l : i < suc d). IsTable-store a pte s satp vpn (suc d) w i l (tables i l))
          (ap (λ (t : ℕ). pte_is_leaf t) self ∙ leaf) in
      (store a pte s, set_leaf-free (suc d) pte tables free, r.0, r.2 ∙ self)

  -- With tables before depth `d` and a leaf there, `pt_unmap_page` answers the number of pages of this
  -- depth, and after it `pt_get_pte` answers -ENOTMAPPED for the page number. The entry's cell is none of
  -- those on the way to it, nor ksatp.
  pub pt_unmap_page-walk :
      (d : ℕ) (ptes : Ptes)
      → suc d < pt_num_levels
      → ((i : ℕ) → i < suc d → IsTable satp vpn s i)
      → pte_is_leaf (pte_at satp vpn s (suc d)) ≡ true
      → Spares (addr_at satp vpn s (suc d)) satp vpn (suc d) s
      → (s' : Machine) × (pt_unmap_page satp vpn s ≡ (pos (level2pagen (level2depth (suc d))), s'))
        × ((pt_get_pte satp vpn ptes s').depth ≡ negsuc 2)
  unfolding pt_unmap_page unmap_found
  pt_unmap_page-walk d ptes b tables leaf w =
      let a = addr_at satp vpn s (suc d) in
      let self = pte_at-store_self satp vpn d 0 s w in
      let f = pt_get_pte-leaf satp vpn s (suc d) no_ptes b tables leaf in
      let r =
        pt_get_pte-hole satp vpn (store a 0 s) (suc d) ptes b
          (λ (i : ℕ) (l : i < suc d). IsTable-store a 0 s satp vpn (suc d) w i l (tables i l))
          (ap (λ (t : ℕ). pte_is_leaf t) self) (ap (λ (t : ℕ). pte_is_valid t) self) in
      (store a 0 s, rw (f.0, f.1) refl, r.0)
