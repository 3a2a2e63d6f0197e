-- ===== src/Pt/Tests.antt =====
-- Page tables and rings of src/kernel/pt.c and util.c on concrete memories.
use jake.Common.{
  none, ℕ, ◌≡◌, ◌≢◌, ◌⊎◌, refl, some, arith, ◌==◌, if◌then◌else◌, pos, negsuc, ◌<◌, [], ◌∷◌, zero,
  suc,
}
use jake.Machine.{set_vma, Vma, Machine, kvirt2phys, phys2kvirt, is_paging_enabled}
use jake.Nodes.Tests.{machine_with, two-Ring}
use jake.Pt.Lookup.{FirstHolds, vpn2vma-FirstHolds}
use jake.Pt.Entry.{
  vma_identity, vma_populate, pte_set_ppn, pte_clear_ppn, level2pagen, level2depth, satp2pte,
  page_tera, vpn2prevpageboundary,
}
use jake.Pt.Walk.{
  find_level_of_highest_empty_pte, empty_level_loop, no_ptes, next_pte, get_pte_loop, pt_get_pte,
  unmap_found, pt_unmap_page, pt_set_pte_leaf,
}
use jake.Pt.Progress.{Inside, new_page_at_vpn-Inside}
use jake.Pt.Page.{
  new_page_at_vpn, zero_page, new_page_of_maxlevel, fill_level, filled, new_page_at_vpn_of_level,
  page_needs_pte, page_pte_set_perm, fits, fit_level, pt_vma_map_page_at_vpn,
}
use jake.Pt.Ends.{Fails, pt_vma_new-ends}
use jake.Pt.Vma.{pt_vma_new, pt_vma_unmap_pages, vpn2vma}
use jake.Pt.Path.{pte_at, addr_at, entry_below, IsTable, pt_get_pte-leaf}
use jake.Pt.Write.{Spares}
use jake.Pt.Mapping.{pt_set_pte_leaf-walk, pt_unmap_page-walk}
use jake.Pt.Unmap.{pt_vma_unmap_pages-gives_up}
use jake.Pt.Mapped.{pt_vma_map_page_at_vpn-mapped}

-- No table maps a page of this VMA, which starts at page 9.
abbrev bare_vma : Machine
bare_vma = record (machine_with 0) { vmas = λ a. record { vpn = 9; pagen = 3; flags = 0 } }

unmapped_page : (v : ℕ) → pt_unmap_page 16 v bare_vma ≡ (negsuc 2, bare_vma)
unfolding pt_unmap_page unmap_found pt_get_pte get_pte_loop next_pte satp2pte pte_set_ppn
    pte_clear_ppn phys2kvirt is_paging_enabled kvirt2phys
unmapped_page v = refl

pt_vma_unmap_pages-gives_up_example : pt_vma_unmap_pages 5 16 176 bare_vma ≡ some bare_vma
pt_vma_unmap_pages-gives_up_example =
    pt_vma_unmap_pages-gives_up 5 16 176 bare_vma (λ v l. unmapped_page v) (omega arith)
      (omega arith)

abbrev small_vma : Vma
small_vma = record { vpn = 0x80006; pagen = 4; flags = 0 }

small_fits : fit_level small_vma 0x80007 page_tera ≡ some 0
unfolding fit_level fits vpn2prevpageboundary
small_fits = refl

leaf_found :
    (pt_get_pte 16 (vpn2prevpageboundary 0x80007 0) no_ptes (machine_with 0xf)).depth ≡ pos 1
unfolding pt_get_pte get_pte_loop next_pte satp2pte pte_set_ppn pte_clear_ppn phys2kvirt
    is_paging_enabled kvirt2phys vpn2prevpageboundary
leaf_found = refl

pt_vma_map_page_at_vpn-mapped_example :
    (pt_vma_map_page_at_vpn 16 small_vma 0x80007 0 (machine_with 0xf)).1
    ≡ (pt_set_pte_leaf 16 0 0 4 (machine_with 0xf)).1
pt_vma_map_page_at_vpn-mapped_example =
    pt_vma_map_page_at_vpn-mapped 16 small_vma 0x80007 0 0 1 (machine_with 0xf) small_fits
      leaf_found

vpn2vma-FirstHolds_example :
    (found : ℕ) × (vpn2vma 2 100 0x80007 (machine_with 0) ≡ some found)
    × FirstHolds (machine_with 0) 0x80007 (200 ∷ []) found
vpn2vma-FirstHolds_example =
    vpn2vma-FirstHolds 2 100 0x80007 (200 ∷ []) (machine_with 0) two-Ring (omega arith)

-- Four tables in a row for page 9, whose last entry is `last`; the cell 16 holds satp.
abbrev tables_to : ℕ → Machine
tables_to last = record (machine_with 0) {
  mem = λ a.
      if a == 16
      then 1
      else if a == 0x1000
      then 0x801
      else if a == 0x2000
      then 0xc01
      else if a == 0x3000
      then 0x1001
      else if a == 0x4048
      then last
      else 0;
}

module _ (last : ℕ) where
  four_tables : (i : ℕ) → i < 4 → IsTable 16 9 (tables_to last) i
  unfolding pte_at entry_below satp2pte pte_set_ppn pte_clear_ppn phys2kvirt is_paging_enabled
      kvirt2phys
  four_tables zero l = (refl, refl)
  four_tables (suc zero) l = (refl, refl)
  four_tables (suc (suc zero)) l = (refl, refl)
  four_tables (suc (suc (suc zero))) l = (refl, refl)
  four_tables (suc (suc (suc (suc i)))) l = absurd (omega arith)

  last_entry : pte_at 16 9 (tables_to last) 4 ≡ last
  unfolding pte_at entry_below satp2pte pte_set_ppn pte_clear_ppn phys2kvirt is_paging_enabled
      kvirt2phys
  last_entry = refl

  last_cell : Spares (addr_at 16 9 (tables_to last) 4) 16 9 4 (tables_to last)
  unfolding addr_at pte_at entry_below satp2pte pte_set_ppn pte_clear_ppn phys2kvirt
      is_paging_enabled kvirt2phys
  last_cell = record {
    mode = λ e. absurd (omega (arith, e));
    entries = λ i l e. absurd (other i l e);
  }
    where
      other :
          (i : ℕ)
          → i < 4
          → kvirt2phys (addr_at 16 9 (tables_to last) i)
            ≢ kvirt2phys (addr_at 16 9 (tables_to last) 4)
      other zero l e = omega (arith, e)
      other (suc zero) l e = omega (arith, e)
      other (suc (suc zero)) l e = omega (arith, e)
      other (suc (suc (suc zero))) l e = omega (arith, e)
      other (suc (suc (suc (suc i)))) l e = omega arith

pt_get_pte-leaf_example :
    let f = pt_get_pte 16 9 no_ptes (tables_to 0xf) in
    (f.depth ≡ pos 4)
    × (f.out ≡ some (addr_at 16 9 (tables_to 0xf) 4))
    × (f.ptes 4 ≡ pte_at 16 9 (tables_to 0xf) 4)
pt_get_pte-leaf_example =
    pt_get_pte-leaf 16 9 (tables_to 0xf) 4 no_ptes (omega arith) (four_tables 0xf)
      (rw (last_entry 0xf) refl)

pt_set_pte_leaf-walk_example :
    (s' : Machine) × (pt_set_pte_leaf 16 9 0xf 4 (tables_to 0) ≡ (pos 0, s'))
    × ((pt_get_pte 16 9 no_ptes s').depth ≡ pos 4)
    × ((pt_get_pte 16 9 no_ptes s').ptes 4 ≡ 0xf)
pt_set_pte_leaf-walk_example =
    pt_set_pte_leaf-walk 16 9 (tables_to 0) 3 0xf no_ptes (omega arith) (four_tables 0)
      (rw (last_entry 0) refl) refl (last_cell 0)

pt_unmap_page-walk_example :
    (s' : Machine) × (pt_unmap_page 16 9 (tables_to 0xf) ≡ (pos (level2pagen (level2depth 4)), s'))
    × ((pt_get_pte 16 9 no_ptes s').depth ≡ negsuc 2)
pt_unmap_page-walk_example =
    pt_unmap_page-walk 16 9 (tables_to 0xf) 3 no_ptes (omega arith) (four_tables 0xf)
      (rw (last_entry 0xf) refl) (last_cell 0xf)

pt_vma_new-ends_example :
    ((s' : Machine) × ((pt_vma_new 4 16 9 3 vma_populate 176 (tables_to 0) ≡ some (pos 0, s'))
        ⊎ (pt_vma_new 4 16 9 3 vma_populate 176 (tables_to 0) ≡ some (negsuc 0, s'))))
    ⊎ ((pt_vma_new 4 16 9 3 vma_populate 176 (tables_to 0) ≡ none)
        × Fails 16
            (record { vpn = 9; pagen = 3; flags = vma_populate })
            9
            0
            (set_vma 176 (record { vpn = 9; pagen = 3; flags = vma_populate }) (tables_to 0)))
pt_vma_new-ends_example =
    pt_vma_new-ends 4 16 9 3 vma_populate 176 (tables_to 0) (omega arith) (omega arith)

abbrev identity_vma : Vma
identity_vma = record { vpn = 8; pagen = 3; flags = vma_identity }

one_page_found : (new_page_at_vpn 16 identity_vma 9 9 zero_page (tables_to 0)).0 ≡ pos 1
unfolding new_page_at_vpn fit_level fits vpn2prevpageboundary find_level_of_highest_empty_pte
    empty_level_loop pt_get_pte get_pte_loop next_pte satp2pte pte_set_ppn pte_clear_ppn phys2kvirt
    is_paging_enabled kvirt2phys new_page_of_maxlevel fill_level filled new_page_at_vpn_of_level
    page_needs_pte page_pte_set_perm
one_page_found = refl

new_page_at_vpn-Inside_example :
    Inside identity_vma 9 1 (new_page_at_vpn 16 identity_vma 9 9 zero_page (tables_to 0)).1
new_page_at_vpn-Inside_example =
    new_page_at_vpn-Inside 16 identity_vma 9 9 0 zero_page (tables_to 0) (omega arith) (omega arith)
      one_page_found
