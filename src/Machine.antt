-- ===== src/Machine.antt =====
-- The memory that the kernel's C code works on, behind the buddy allocator: page tables and
-- registers as 64-bit words, the nodes and VMAs of linked lists (types.h, pt.h), and the state of
-- pt.c. An address is a number; `kvirt2phys` is the two identity mappings that pt_init sets up, so a
-- low address and its high alias reach the same cell.
use jake.Common.{ℕ, ◌+◌, ◌-◌, ◌*◌, ◌/◌, ◌%◌, ◌^◌, bit_xor, Bool, leb, ◌==◌, if◌then◌else◌, update}
use jake.Buddy.{Buddy}

abbrev pub word : ℕ
word = 2 ^ 64

-- VIRT_MEM_KERNEL_BASE: 0x1ffff << 47
abbrev pub virt_mem_kernel_base : ℕ
virt_mem_kernel_base = 0x1ffff * 2 ^ 47

abbrev pub page_size : ℕ
page_size = 2 ^ 12

-- `struct node`
pub record Node : Type 0 where
  pub next : ℕ
  pub prev : ℕ

-- `struct vma` without its node, which lies `vma_node_offset` bytes behind its start.
pub record Vma : Type 0 where
  pub vpn : ℕ
  pub pagen : ℕ
  pub flags : ℕ

abbrev pub vma_node_offset : ℕ
vma_node_offset = 24

pub record Machine : Type 0 where
  pub buddy : Buddy
  pub mem : ℕ → ℕ
  pub nodes : ℕ → Node
  pub vmas : ℕ → Vma
  -- where the linker puts `ksatp`
  pub ksatp_at : ℕ
  -- the two static variables of `pt_salloc`
  pub salloc_base : ℕ
  pub salloc_cursor : ℕ
  pub kvmas_head : ℕ

unfoldable pub kvirt2phys : ℕ → ℕ
kvirt2phys virt = if leb virt_mem_kernel_base virt then virt - virt_mem_kernel_base else virt

abbrev pub load : Machine → ℕ → ℕ
load s a = s.mem (kvirt2phys a)

abbrev pub store : ℕ → ℕ → Machine → Machine
store a v s = record s { mem = update s.mem (kvirt2phys a) v }

abbrev pub node_at : Machine → ℕ → Node
node_at s a = s.nodes (kvirt2phys a)

abbrev pub vma_at : Machine → ℕ → Vma
vma_at s a = s.vmas (kvirt2phys a)

abbrev pub set_node : ℕ → Node → Machine → Machine
set_node a n s = record s { nodes = update s.nodes (kvirt2phys a) n }

abbrev pub set_vma : ℕ → Vma → Machine → Machine
set_vma a v s = record s { vmas = update s.vmas (kvirt2phys a) v }

-- `__is_paging_enabled`
unfoldable pub is_paging_enabled : Machine → Bool
is_paging_enabled s = bit_xor (load s s.ksatp_at / 2 ^ 60) 9 == 0

unfoldable pub phys2kvirt : Machine → ℕ → ℕ
phys2kvirt s phys = (virt_mem_kernel_base * (if is_paging_enabled s then 1 else 0) + phys) % word
