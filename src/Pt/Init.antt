-- ===== src/Pt/Init.antt =====
-- `pt_init` of src/kernel/pt.c. `buddy_migrate`, which shifts the pointers of the allocator, has no
-- counterpart where blocks are indices; the write of satp to the hart is left out.
use jake.Common.{ℕ, Option, some, ◌>>=◌, ℤ, pos}
use jake.Machine.{Machine, virt_mem_kernel_base}
use jake.Pt.Vma.{
  checked, ksatp_init, ksatp_enable_paging, pt_init_vmas_head, Layout, map_phys_mem_lowhigh,
  map_kstack_lowhigh, map_kelf_lowhigh, map_io_lowhigh, pt_migrate_kvmas,
}

-- `pt_init_vmas_head(&kvmas_head)`
unfoldable pub init_kvmas_head : Machine → Option (ℤ × Machine)
init_kvmas_head s = do
  (ret, head, s') ← pt_init_vmas_head s
  some (ret, record s' { kvmas_head = head })

-- What follows the four mappings.
unfoldable pub enable_high : ℕ → Machine → Option (ℤ × Machine)
enable_high rounds s = do
  s' ← pt_migrate_kvmas rounds virt_mem_kernel_base (ksatp_enable_paging s)
  some (pos 0, s')

unfoldable pub pt_init : ℕ → Layout → Machine → Option (ℤ × Machine)
pt_init rounds l s = checked (some (ksatp_init s)) λ s₁. checked (init_kvmas_head s₁) λ s₂.
    checked (map_phys_mem_lowhigh rounds l s₂) λ s₃. checked (map_kstack_lowhigh rounds l s₃) λ s₄.
      checked (map_kelf_lowhigh rounds l s₄)
        λ s₅. checked (map_io_lowhigh rounds l s₅) (enable_high rounds)
