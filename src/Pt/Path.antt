-- ===== src/Pt/Path.antt =====
-- The walk through the page tables as a description of its own, and `pt_get_pte` of src/kernel/pt.c,
-- which follows it.
use jake.Common.{
  ℕ, zero, suc, ◌+◌, ◌-◌, ◌*◌, ◌<◌, ◌≡◌, refl, sym, ap, ◌∙◌, arith, true, false, ltb, none, some,
  pos, negsuc, update, update_self,
}
use jake.Machine.{Machine, load, phys2kvirt}
use jake.Pt.Entry.{
  pt_num_levels, level2depth, pte_get_ppn, pte_is_leaf, pte_is_valid, satp2pte, ppn2phys,
  vpn2vpnlevel,
}
use jake.Pt.Walk.{Ptes, next_pte, Found, get_pte_loop, pt_get_pte}

-- The entry that `pte`, at depth `j`, leads to.
unfoldable pub entry_below : ℕ → Machine → ℕ → ℕ → ℕ
entry_below vpn s j pte =
    phys2kvirt s (ppn2phys (pte_get_ppn pte) + vpn2vpnlevel vpn (level2depth (j + 1)) * 8)

-- The entries on the way to a page number, from the one that satp stands for, and where they lie.
module _ (satp vpn : ℕ) (s : Machine) where
  unfoldable pub pte_at : ℕ → ℕ
  pte_at zero = satp2pte (load s satp)
  pte_at (suc j) = load s (entry_below vpn s j (pte_at j))

  unfoldable pub addr_at : ℕ → ℕ
  addr_at zero = satp
  addr_at (suc j) = entry_below vpn s j (pte_at j)

  -- The entry at depth `j` leads to another table.
  abbrev pub IsTable : ℕ → Type 0
  IsTable j = (pte_is_leaf (pte_at j) ≡ false) × (pte_is_valid (pte_at j) ≡ true)

-- One round of the loop.
module _ (rounds j vpn curr : ℕ) (ptes : Ptes) (s : Machine) where
  round-leaf :
      pte_is_leaf (ptes j) ≡ true
      → get_pte_loop (suc rounds) j vpn curr ptes s
        ≡ record { depth = pos j; ptes = ptes; out = some curr }
  unfolding get_pte_loop
  round-leaf e = rw e refl

  round-hole :
      pte_is_leaf (ptes j) ≡ false
      → pte_is_valid (ptes j) ≡ false
      → get_pte_loop (suc rounds) j vpn curr ptes s
        ≡ record { depth = negsuc 2; ptes = ptes; out = none }
  unfolding get_pte_loop
  round-hole e f = rw (e, f) refl

  round-table :
      pte_is_leaf (ptes j) ≡ false
      → pte_is_valid (ptes j) ≡ true
      → suc j < pt_num_levels
      → let next = next_pte j vpn ptes s in
        get_pte_loop (suc rounds) j vpn curr ptes s
        ≡ get_pte_loop rounds (suc j) vpn next (update ptes (suc j) (load s next)) s
  unfolding get_pte_loop
  round-table e f l =
      let g : ltb j (pt_num_levels - 1) ≡ true = ground arith in
      let z : j + 1 ≡ suc j = omega arith in
      let next = next_pte j vpn ptes s in
      rw (e, f, g)
        (ap (λ (t : ℕ). get_pte_loop rounds t vpn next (update ptes t (load s next)) s) z)

-- What the loop carries at depth `j`.
module _ (satp vpn : ℕ) (s : Machine) where
  pub next_pte-at :
      (j : ℕ) (ptes : Ptes)
      → ptes j ≡ pte_at satp vpn s j
      → next_pte j vpn ptes s ≡ addr_at satp vpn s (suc j)
  unfolding next_pte addr_at entry_below
  next_pte-at j ptes e =
      ap
        (λ (t : ℕ).
          phys2kvirt s (ppn2phys (pte_get_ppn t) + vpn2vpnlevel vpn (level2depth (j + 1)) * 8))
        e

  load-at : (j : ℕ) → load s (addr_at satp vpn s (suc j)) ≡ pte_at satp vpn s (suc j)
  unfolding addr_at pte_at
  load-at j = refl

  pub carried :
      (j : ℕ) (ptes : Ptes)
      → ptes j ≡ pte_at satp vpn s j
      → let next = next_pte j vpn ptes s in
        update ptes (suc j) (load s next) (suc j) ≡ pte_at satp vpn s (suc j)
  carried j ptes e =
      update_self ptes (suc j) (load s (next_pte j vpn ptes s))
      ∙ ap (λ (t : ℕ). load s t) (next_pte-at j ptes e)
      ∙ load-at j

  -- Through `n` tables the loop comes from depth `j` to depth `j` + `n`.
  get_pte_loop-tables :
      (n rounds j d : ℕ) (ptes : Ptes)
      → d ≡ j + n
      → d < pt_num_levels
      → ptes j ≡ pte_at satp vpn s j
      → ((i : ℕ) → i < d → IsTable satp vpn s i)
      → (ptes' : Ptes) × (get_pte_loop (n + rounds) j vpn (addr_at satp vpn s j) ptes s
          ≡ get_pte_loop rounds d vpn (addr_at satp vpn s d) ptes' s)
        × (ptes' d ≡ pte_at satp vpn s d)
  get_pte_loop-tables zero rounds j d ptes e b p tables =
      let z : j ≡ d = omega arith in
      let y : 0 + rounds ≡ rounds = omega arith in
      (
        ptes,
        ap (λ (t : ℕ). get_pte_loop t j vpn (addr_at satp vpn s j) ptes s) y
            ∙ ap (λ (t : ℕ). get_pte_loop rounds t vpn (addr_at satp vpn s t) ptes s) z,
        ap (λ (t : ℕ). ptes t) (sym z) ∙ p ∙ ap (λ (t : ℕ). pte_at satp vpn s t) z,
      )
  get_pte_loop-tables (suc n) rounds j d ptes e b p tables =
      let z : suc n + rounds ≡ suc (n + rounds) = omega arith in
      let t = tables j (omega arith) in
      let curr = addr_at satp vpn s j in
      let next = next_pte j vpn ptes s in
      let ptes₁ = update ptes (suc j) (load s next) in
      let (ptes', e', p') =
        get_pte_loop-tables n rounds (suc j) d ptes₁ (omega arith) b (carried j ptes p) tables in
      (
        ptes',
        ap (λ (t : ℕ). get_pte_loop t j vpn curr ptes s) z
            ∙ round-table (n + rounds) j vpn curr ptes s (ap (λ (t : ℕ). pte_is_leaf t) p ∙ t.0)
                (ap (λ (t : ℕ). pte_is_valid t) p ∙ t.1) (omega arith)
            ∙ ap (λ (t : ℕ). get_pte_loop (n + rounds) (suc j) vpn t ptes₁ s) (next_pte-at j ptes p)
            ∙ e',
        p',
      )

  pub start : (ptes : Ptes) → update ptes 0 (satp2pte (load s satp)) 0 ≡ pte_at satp vpn s 0
  unfolding pte_at
  start ptes = update_self ptes 0 (satp2pte (load s satp))

  -- `pt_get_pte` comes to depth `d` with four or fewer tables before it.
  reach :
      (d : ℕ) (ptes : Ptes)
      → d < pt_num_levels
      → ((i : ℕ) → i < d → IsTable satp vpn s i)
      → (ptes' : Ptes) × (pt_get_pte satp vpn ptes s
          ≡ get_pte_loop (suc (pt_num_levels - 1 - d)) d vpn (addr_at satp vpn s d) ptes' s)
        × (ptes' d ≡ pte_at satp vpn s d)
  unfolding pt_get_pte addr_at
  reach d ptes b tables =
      let z : pt_num_levels ≡ d + suc (pt_num_levels - 1 - d) = omega arith in
      let ptes₁ = update ptes 0 (satp2pte (load s satp)) in
      let (ptes', e, p) =
        get_pte_loop-tables d (suc (pt_num_levels - 1 - d)) 0 d ptes₁ (omega arith) b (start ptes)
          tables in
      (ptes', ap (λ (t : ℕ). get_pte_loop t 0 vpn satp ptes₁ s) z ∙ e, p)

  -- Where the entries before depth `d` lead to tables and the one at depth `d` is a leaf, `pt_get_pte`
  -- answers `d`, that entry, and its address.
  pub pt_get_pte-leaf :
      (d : ℕ) (ptes : Ptes)
      → d < pt_num_levels
      → ((i : ℕ) → i < d → IsTable satp vpn s i)
      → pte_is_leaf (pte_at satp vpn s d) ≡ true
      → let f = pt_get_pte satp vpn ptes s in
        (f.depth ≡ pos d) × (f.out ≡ some (addr_at satp vpn s d)) × (f.ptes d ≡ pte_at satp vpn s d)
  pt_get_pte-leaf d ptes b tables leaf =
      let (ptes', e, p) = reach d ptes b tables in
      let r =
        e
        ∙ round-leaf (pt_num_levels - 1 - d) d vpn (addr_at satp vpn s d) ptes' s
            (ap (λ (t : ℕ). pte_is_leaf t) p ∙ leaf) in
      (
        ap (λ (f : Found). f.depth) r,
        ap (λ (f : Found). f.out) r,
        ap (λ (f : Found). f.ptes d) r ∙ p,
      )

  -- Where the entries before depth `d` lead to tables and the one at depth `d` is neither a leaf nor
  -- valid, `pt_get_pte` answers -ENOTMAPPED, and no address.
  pub pt_get_pte-hole :
      (d : ℕ) (ptes : Ptes)
      → d < pt_num_levels
      → ((i : ℕ) → i < d → IsTable satp vpn s i)
      → pte_is_leaf (pte_at satp vpn s d) ≡ false
      → pte_is_valid (pte_at satp vpn s d) ≡ false
      → let f = pt_get_pte satp vpn ptes s in (f.depth ≡ negsuc 2) × (f.out ≡ none)
  pt_get_pte-hole d ptes b tables leaf valid =
      let (ptes', e, p) = reach d ptes b tables in
      let r =
        e
        ∙ round-hole (pt_num_levels - 1 - d) d vpn (addr_at satp vpn s d) ptes' s
            (ap (λ (t : ℕ). pte_is_leaf t) p ∙ leaf) (ap (λ (t : ℕ). pte_is_valid t) p ∙ valid) in
      (ap (λ (f : Found). f.depth) r, ap (λ (f : Found). f.out) r)
