-- ===== src/Pt/Vma.antt =====
-- Virtual memory areas of pt.c: creating and unmapping them, their lists, and the kernel's own.
-- A loop whose end the code does not bound takes its rounds as an argument; `none`: they ran out.
use jake.Common.{
  ℕ, zero, suc, ◌+◌, ◌-◌, ◌%◌, ◌&&◌, ◌||◌, not, Option, none, some, ltb, leb, ◌==◌, if◌then◌else◌,
  ◌>>=◌, ℤ, pos, negsuc, add_signed, bit_or,
}
use jake.Buddy.{phys_mem_start, phys_mem_end, phys_mem_kernel_stack_size}
use jake.Machine.{
  word, Machine, Vma, vma_at, set_vma, node_at, vma_node_offset, load, store, phys2kvirt,
  virt_mem_kernel_base,
}
use jake.Nodes.{node_init, is_node_init, node_migrate, list_append, list_remove}
use jake.Pt.Entry.{
  has_flag, vma_identity, vma_populate, vma_read, vma_write, vma_exec, level2pagen, page_normal,
  pte_get_ppn, satp_set, satp_mode_bare, satp_mode_sv48, satp_mode_width, satp_mode_shift,
  satp_ppn_width, satp_ppn_shift, phys2ppn, ppn2phys,
}
use jake.Pt.Alloc.{pt_salloc, pt_alloc_pt}
use jake.Pt.Walk.{pt_get_pte, pt_unmap_page, no_ptes}
use jake.Pt.Page.{pt_vma_map_page_at_vpn}

-- The do loop of `__pt_vma_new`. `pagen` is a `size_t` there: an error is a number above 0 and never
-- below it, so the loop does not return it but goes back by it and on.
unfoldable pub map_loop : ℕ → ℕ → Vma → ℕ → ℕ → Machine → Option (ℤ × Machine)
map_loop zero satp vma vpn ppn s = none
map_loop (suc rounds) satp vma vpn ppn s =
    let (pagen, s') = pt_vma_map_page_at_vpn satp vma vpn ppn s in
    let again = λ (n : ℕ). map_loop rounds satp vma ((vpn + n) % word) ((ppn + n) % word) s' in
    elim pagen [
      | negsuc n ↦ again (word - suc n)
      | pos zero ↦ some (pos 0, s')
      | pos (suc n) ↦ again (suc n)
    ]

-- `__pt_vma_new`; `out` is the address of the VMA.
unfoldable pub vma_new_mapped : ℕ → ℕ → ℕ → ℕ → ℕ → ℕ → ℕ → Machine → Option (ℤ × Machine)
vma_new_mapped rounds satp vpn ppn pagen flags out s =
    let s₁ = set_vma out (record { vpn = vpn; pagen = pagen; flags = flags }) s in
    if not (is_node_init (out + vma_node_offset) s₁)
    then some (negsuc 0, s₁)
    else if has_flag flags vma_identity || has_flag flags vma_populate
    then map_loop rounds satp (vma_at s₁ out) vpn ppn s₁
    else some (pos 0, s₁)

unfoldable pub pt_vma_new : ℕ → ℕ → ℕ → ℕ → ℕ → ℕ → Machine → Option (ℤ × Machine)
pt_vma_new rounds satp vpn pagen flags out s =
    if has_flag flags vma_identity
    then some (negsuc 0, s)
    else vma_new_mapped rounds satp vpn 0 pagen flags out s

-- The address that the loop of `pt_vma_unmap_pages` goes on with. `pagen` is 0 for no result of
-- `pt_unmap_page`: an error is negative, and the loop then goes back.
unfoldable pub unmap_next : ℕ → ℤ → ℕ
unmap_next vpn pagen = add_signed vpn (elim pagen [
  | pos zero ↦ pos (level2pagen page_normal)
  | pos (suc n) ↦ pos (suc n)
  | negsuc n ↦ negsuc n
])

unfoldable pub unmap_loop : ℕ → ℕ → ℕ → ℕ → Machine → Option Machine
unmap_loop zero satp vpn end s = none
unmap_loop (suc rounds) satp vpn end s =
    let (pagen, s') = pt_unmap_page satp vpn s in
    let again = unmap_loop rounds satp (unmap_next vpn pagen) end s' in
    if ltb vpn end then again else some s

unfoldable pub pt_vma_unmap_pages : ℕ → ℕ → ℕ → Machine → Option Machine
pt_vma_unmap_pages rounds satp vma s =
    unmap_loop rounds satp (vma_at s vma).vpn (((vma_at s vma).vpn + (vma_at s vma).pagen) % word) s

unfoldable pub pt_vma_destroy : ℕ → ℕ → ℕ → Machine → Option Machine
pt_vma_destroy rounds satp vma s =
    pt_vma_unmap_pages rounds satp vma (list_remove (vma + vma_node_offset) s)

-- `ksatp_init`: the result, and the machine.
unfoldable pub ksatp_init : Machine → ℤ × Machine
ksatp_init s =
    let (pte, s₁) = pt_alloc_pt s in
    let s₂ =
      store s₁.ksatp_at
        (satp_set (load s₁ s₁.ksatp_at) satp_mode_bare satp_mode_width satp_mode_shift) s₁ in
    let s₃ =
      store s₂.ksatp_at
        (satp_set (load s₂ s₂.ksatp_at) (pte_get_ppn pte) satp_ppn_width satp_ppn_shift) s₂ in
    if pte == 0 then (negsuc 0, s₁) else (pos 0, s₃)

-- `ksatp_enable_paging`, without the write to the CSR.
unfoldable pub ksatp_enable_paging : Machine → Machine
ksatp_enable_paging s =
    store s.ksatp_at (satp_set (load s s.ksatp_at) satp_mode_sv48 satp_mode_width satp_mode_shift) s

-- `pt_init_vmas_head`: its result, what it puts into `*vmas_head`, and the machine.
unfoldable pub pt_init_vmas_head : Machine → Option (ℤ × ℕ × Machine)
pt_init_vmas_head s = do
  (head, s') ← pt_salloc 16 s
  some (if head == 0 then (negsuc 1, head, s') else (pos 0, head, node_init head s'))

-- `pt_alloc_vma`: the VMA's address, 0 for NULL.
unfoldable pub pt_alloc_vma : ℕ → Machine → Option (ℕ × Machine)
pt_alloc_vma vmas_head s = do
  (vma, s₁) ← pt_salloc 40 s
  let s₂ = node_init (vma + vma_node_offset) s₁
  some (
      if vma == 0
      then (0, s₁)
      else if not (is_node_init vmas_head s₂)
      then (0, s₂)
      else (vma, list_append vmas_head (vma + vma_node_offset) s₂))

-- `if (__pt_vma_new(&ksatp, …)) return -EINVALARGS;` and what follows it.
unfoldable pub checked :
    Option (ℤ × Machine) → (Machine → Option (ℤ × Machine)) → Option (ℤ × Machine)
checked none next = none
checked (some (pos zero, s)) next = next s
checked (some (pos (suc n), s)) next = some (negsuc 0, s)
checked (some (negsuc n, s)) next = some (negsuc 0, s)

-- `__map_lowhigh` once both VMAs are there.
unfoldable pub map_both : ℕ → ℕ → ℕ → ℕ → ℕ → ℕ → ℕ → Machine → Option (ℤ × Machine)
map_both rounds vpn ppn pagen flags low high s =
    checked (vma_new_mapped rounds s.ksatp_at ppn ppn pagen flags low s) λ s₁.
      checked (vma_new_mapped rounds s₁.ksatp_at vpn ppn pagen flags high s₁) λ s₂. some (pos 0, s₂)

unfoldable pub map_with_high : ℕ → ℕ → ℕ → ℕ → ℕ → ℕ → ℕ × Machine → Option (ℤ × Machine)
map_with_high rounds vpn ppn pagen flags low (high, s) =
    if high == 0 then some (negsuc 1, s) else map_both rounds vpn ppn pagen flags low high s

unfoldable pub map_with_low : ℕ → ℕ → ℕ → ℕ → ℕ → ℕ × Machine → Option (ℤ × Machine)
map_with_low rounds vpn ppn pagen flags (low, s) =
    if low == 0
    then some (negsuc 1, s)
    else pt_alloc_vma s.kvmas_head s >>= map_with_high rounds vpn ppn pagen flags low

-- `__map_lowhigh`
unfoldable pub map_lowhigh : ℕ → ℕ → ℕ → ℕ → ℕ → Machine → Option (ℤ × Machine)
map_lowhigh rounds vpn ppn pagen flags s =
    pt_alloc_vma s.kvmas_head s >>= map_with_low rounds vpn ppn pagen flags

-- The four regions of map_phys_mem_lowhigh, map_kelf_lowhigh, map_kstack_lowhigh and map_io_lowhigh.
pub record Layout : Type 0 where
  pub kelf_base : ℕ
  pub phys_base : ℕ
  pub phys_end : ℕ
  pub kstack_size : ℕ

-- `buddy_layout_init` of buddy.c; `phys_base` is given by the linker.
unfoldable pub buddy_layout_init : ℕ → Layout
buddy_layout_init phys_base = record {
  kelf_base = phys_mem_start;
  phys_base = phys_base;
  phys_end = phys_mem_end - phys_mem_kernel_stack_size;
  kstack_size = phys_mem_kernel_stack_size;
}

abbrev pub high_vpn : ℕ → ℕ
high_vpn ppn = phys2ppn ((virt_mem_kernel_base + ppn2phys ppn) % word)

abbrev pub data_flags : ℕ
data_flags = bit_or (bit_or vma_read vma_write) vma_identity

unfoldable pub map_phys_mem_lowhigh : ℕ → Layout → Machine → Option (ℤ × Machine)
map_phys_mem_lowhigh rounds l s =
    let ppn = phys2ppn l.phys_base in
    map_lowhigh rounds (high_vpn ppn) ppn (phys2ppn (l.phys_end - l.phys_base)) data_flags s

unfoldable pub map_kelf_lowhigh : ℕ → Layout → Machine → Option (ℤ × Machine)
map_kelf_lowhigh rounds l s =
    let ppn = phys2ppn l.kelf_base in
    map_lowhigh rounds (high_vpn ppn) ppn (phys2ppn (l.phys_base - l.kelf_base))
      (bit_or (bit_or (bit_or vma_read vma_write) vma_exec) vma_identity) s

unfoldable pub map_kstack_lowhigh : ℕ → Layout → Machine → Option (ℤ × Machine)
map_kstack_lowhigh rounds l s =
    let ppn = phys2ppn l.phys_end in
    map_lowhigh rounds (high_vpn ppn) ppn (phys2ppn l.kstack_size) data_flags s

unfoldable pub map_io_lowhigh : ℕ → Layout → Machine → Option (ℤ × Machine)
map_io_lowhigh rounds l s =
    map_lowhigh rounds (phys2ppn virt_mem_kernel_base) (phys2ppn 0) (phys2ppn l.kelf_base)
      data_flags s

-- The loop of `vpn2vma` from `node` on; the result is the VMA's address, 0 for NULL.
unfoldable pub find_vma_loop : ℕ → ℕ → ℕ → ℕ → Machine → Option ℕ
find_vma_loop zero vmas_head vpn node s = none
find_vma_loop (suc rounds) vmas_head vpn node s =
    let vma = vma_at s (node - vma_node_offset) in
    let rest = find_vma_loop rounds vmas_head vpn (node_at s node).next s in
    if node == vmas_head
    then some 0
    else if leb vma.vpn vpn && ltb vpn ((vma.vpn + vma.pagen) % word)
    then some (node - vma_node_offset)
    else rest

unfoldable pub vpn2vma : ℕ → ℕ → ℕ → Machine → Option ℕ
vpn2vma rounds vmas_head vpn s = find_vma_loop rounds vmas_head vpn (node_at s vmas_head).next s

-- The loop of `pt_migrate_kvmas` from `node` on.
unfoldable pub migrate_loop : ℕ → ℕ → ℕ → Machine → Option Machine
migrate_loop zero offset node s = none
migrate_loop (suc rounds) offset node s =
    let s' = node_migrate node offset s in
    let rest = migrate_loop rounds offset (node_at s' node).next s' in
    if node == s.kvmas_head then some s else rest

unfoldable pub pt_migrate_kvmas : ℕ → ℕ → Machine → Option Machine
pt_migrate_kvmas rounds offset s =
    let s₁ = record s { kvmas_head = (s.kvmas_head + offset) % word } in
    let s₂ = node_migrate s₁.kvmas_head offset s₁ in
    migrate_loop rounds offset (node_at s₂ s₂.kvmas_head).next s₂

-- The loop of `pt_destroy_low_kvmas` from `node` on; `next` is read before the node may go.
unfoldable pub destroy_low_loop : ℕ → ℕ → Machine → Option Machine
destroy_low_loop zero node s = none
destroy_low_loop (suc rounds) node s =
    let next = (node_at s node).next in
    let vma = node - vma_node_offset in
    let destroyed = pt_vma_destroy rounds s.ksatp_at vma s in
    let kept = destroy_low_loop rounds next s in
    let gone = destroyed >>= λ s'. destroy_low_loop rounds next s' in
    if node == s.kvmas_head
    then some s
    else if ltb (vma_at s vma).vpn (phys2ppn virt_mem_kernel_base)
    then gone
    else kept

unfoldable pub pt_destroy_low_kvmas : ℕ → Machine → Option Machine
pt_destroy_low_kvmas rounds s = destroy_low_loop rounds (node_at s s.kvmas_head).next s

-- `get_kvirt`: 0 for NULL.
unfoldable pub get_kvirt : ℕ → ℕ → Machine → ℕ
get_kvirt satp user_virtual s =
    let f = pt_get_pte satp (phys2ppn user_virtual) no_ptes s in
    elim f.depth [ negsuc n ↦ 0 | pos depth ↦ phys2kvirt s (ppn2phys (pte_get_ppn (f.ptes depth))) ]
