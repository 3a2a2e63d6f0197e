-- ===== src/Pt/Walk.antt =====
-- The page table walks of pt.c: __pt_next_pte, pt_get_pte, pt_set_pte_leaf, pt_unmap_page and
-- __pt_find_level_of_highest_empty_pte. A `uintptr_t *` is an address, `ptes` a function on depths.
use jake.Common.{
  ℕ, zero, suc, ◌+◌, ◌-◌, ◌*◌, ◌&&◌, not, Option, none, some, ltb, ◌==◌, if◌then◌else◌, update, ℤ,
  pos, negsuc,
}
use jake.Machine.{Machine, phys2kvirt, load, store}
use jake.Pt.Entry.{
  pt_num_levels, level2depth, ppn2phys, pte_get_ppn, vpn2vpnlevel, pte_is_leaf, pte_is_valid,
  satp2pte, level2pagen,
}
use jake.Pt.Alloc.{pt_set_pte_nonleaf}

abbrev pub Ptes : Type 0
Ptes = ℕ → ℕ

abbrev pub no_ptes : Ptes
no_ptes depth = 0

-- `__pt_next_pte`: the address of the next entry; `ptes[depth + 1]` is read from there.
unfoldable pub next_pte : ℕ → ℕ → Ptes → Machine → ℕ
next_pte depth vpn ptes s =
    phys2kvirt s
      (ppn2phys (pte_get_ppn (ptes depth)) + vpn2vpnlevel vpn (level2depth (depth + 1)) * 8)

-- What `pt_get_pte` leaves: its result, the entries that it met, and the address that it puts into
-- `*out`, which is `none` where it writes nothing there.
pub record Found : Type 0 where
  pub depth : ℤ
  pub ptes : Ptes
  pub out : Option ℕ

-- The loop of `pt_get_pte`, with `rounds` rounds left from `depth` on.
unfoldable pub get_pte_loop : ℕ → ℕ → ℕ → ℕ → Ptes → Machine → Found
get_pte_loop zero depth vpn curr ptes s = record { depth = negsuc 0; ptes = ptes; out = none }
get_pte_loop (suc rounds) depth vpn curr ptes s =
    let next = next_pte depth vpn ptes s in
    let deeper =
      get_pte_loop rounds (depth + 1) vpn next (update ptes (depth + 1) (load s next)) s in
    let last = get_pte_loop rounds (depth + 1) vpn curr ptes s in
    if pte_is_leaf (ptes depth)
    then record { depth = pos depth; ptes = ptes; out = some curr }
    else if not (pte_is_valid (ptes depth))
    then record { depth = negsuc 2; ptes = ptes; out = none }
    else if ltb depth (pt_num_levels - 1)
    then deeper
    else last

unfoldable pub pt_get_pte : ℕ → ℕ → Ptes → Machine → Found
pt_get_pte satp vpn ptes s =
    get_pte_loop pt_num_levels 0 vpn satp (update ptes 0 (satp2pte (load s satp))) s

-- The loop of `pt_set_pte_leaf` from depth `j` on, with `rounds` rounds left, and the write behind it.
unfoldable pub set_leaf_end : ℕ → ℕ → ℕ → Ptes → Machine → ℤ × Machine
set_leaf_end depth pte curr ptes s =
    if pte_is_valid (ptes depth) && not (pte == 0) then (negsuc 3, s) else (pos 0, store curr pte s)

unfoldable pub set_leaf_loop : ℕ → ℕ → ℕ → ℕ → ℕ → Ptes → Machine → ℤ × Machine
set_leaf_loop zero j vpn pte curr ptes s = set_leaf_end j pte curr ptes s
set_leaf_loop (suc rounds) j vpn pte curr ptes s =
    let next = next_pte j vpn ptes s in
    let deeper = set_leaf_loop rounds (j + 1) vpn pte next (update ptes (j + 1) (load s next)) s in
    let (failed, s') = pt_set_pte_nonleaf curr s in
    let ptes' = update ptes j (load s' curr) in
    let next' = next_pte j vpn ptes' s' in
    let deeper' =
      set_leaf_loop rounds (j + 1) vpn pte next' (update ptes' (j + 1) (load s' next')) s' in
    if pte_is_leaf (ptes j)
    then (negsuc 3, s)
    else if not (pte_is_valid (ptes j))
    then elim failed [
      | pos zero ↦ deeper'
      | pos (suc n) ↦ (negsuc 1, s')
      | negsuc n ↦ (negsuc 1, s')
    ]
    else deeper

unfoldable pub pt_set_pte_leaf : ℕ → ℕ → ℕ → ℕ → Machine → ℤ × Machine
pt_set_pte_leaf satp vpn pte depth s =
    set_leaf_loop depth 0 vpn pte satp (update no_ptes 0 (satp2pte (load s satp))) s

-- `*out = 0` writes through a pointer that was never set if there is no leaf: the code returns first.
unfoldable pub unmap_found : Found → Machine → ℤ × Machine
unmap_found f s = elim f.depth [
  | negsuc n ↦ (negsuc n, s)
  | pos depth ↦
      let erased : Machine = elim f.out [ none ↦ s | some out ↦ store out 0 s ] in
      (pos (level2pagen (level2depth depth)), erased)
]

unfoldable pub pt_unmap_page : ℕ → ℕ → Machine → ℤ × Machine
pt_unmap_page satp vpn s = unmap_found (pt_get_pte satp vpn no_ptes s) s

-- The second loop of `__pt_find_level_of_highest_empty_pte`.
unfoldable pub empty_level_loop : ℕ → ℕ → Ptes → ℤ
empty_level_loop zero depth ptes = negsuc 0
empty_level_loop (suc rounds) depth ptes =
    let rest = empty_level_loop rounds (depth + 1) ptes in
    if ptes depth == 0 then pos (level2depth depth) else rest

unfoldable pub find_level_of_highest_empty_pte : ℕ → ℕ → Machine → ℤ
find_level_of_highest_empty_pte satp vpn s =
    let f = pt_get_pte satp vpn no_ptes s in
    elim f.depth [ pos depth ↦ negsuc 3 | negsuc n ↦ empty_level_loop pt_num_levels 0 f.ptes ]
