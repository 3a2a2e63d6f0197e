-- ===== src/Buddy.antt =====
-- src/kernel/buddy.c and buddy.h: the buddy allocator of physical pages.
-- A `struct block *` is the index of its block in `buddy_blocks`, `none` is NULL, and a result
-- `none` of a function that holds a loop is a loop that has not ended within its rounds.
pub mod Chain
pub mod Remove
pub mod Roles
pub mod Unlink
pub mod Push
pub mod Join
pub mod Merge
pub mod TryMerge
pub mod Free
pub mod Split
pub mod Alloc
pub mod Init
pub mod Pages
pub mod Held
pub mod Client
mod Tests
use jake.Common.{
  ℕ, zero, suc, ◌+◌, ◌-◌, ◌/◌, ◌^◌, bit_xor, Bool, ◌&&◌, ◌||◌, Option, none, some, ltb, leb, ◌==◌,
  if◌then◌else◌, ◌>>=◌, update, ℤ, pos, negsuc,
}

abbrev pub phys_mem_order : ℕ
phys_mem_order = 25

abbrev pub phys_mem_page_order : ℕ
phys_mem_page_order = 12

abbrev pub phys_mem_start : ℕ
phys_mem_start = 0x8000_0000

abbrev pub phys_mem_end : ℕ
phys_mem_end = phys_mem_start + 2 ^ phys_mem_order

abbrev pub phys_mem_kernel_stack_size : ℕ
phys_mem_kernel_stack_size = 2 ^ phys_mem_page_order

abbrev pub buddy_max_order : ℕ
buddy_max_order = 13

-- The length of `buddy_blocks`.
abbrev pub block_count : ℕ
block_count = 2 ^ 13

pub record Block : Type 0 where
  pub refcnt : ℕ
  pub order : ℕ
  pub next : Option ℕ

pub record Buddy : Type 0 where
  pub free_lists : ℕ → Option ℕ
  pub blocks : ℕ → Block

abbrev pub set_block : Buddy → ℕ → Block → Buddy
set_block s i b = record s { blocks = update s.blocks i b }

abbrev pub set_head : Buddy → ℕ → Option ℕ → Buddy
set_head s order h = record s { free_lists = update s.free_lists order h }

abbrev pub set_next : Buddy → ℕ → Option ℕ → Buddy
set_next s i n = set_block s i (record (s.blocks i) { next = n })

abbrev pub is_block_free : Buddy → ℕ → Bool
is_block_free s block = (s.blocks block).refcnt == 0

unfoldable pub block2buddy : ℕ → ℕ → ℕ
block2buddy block order = bit_xor block (2 ^ order)

unfoldable pub buddy_push : ℕ → ℕ → Buddy → Buddy
buddy_push block order s =
    let linked = set_next s block (s.free_lists order) in
    let unused = set_block linked block (record (linked.blocks block) { refcnt = 0 }) in
    set_head unused order (some block)

-- The writes of `buddy_pop` to a list whose head is `block`.
unfoldable pub unlink_head : ℕ → ℕ → Buddy → Buddy
unlink_head block order s =
    let shorter = set_head s order (s.blocks block).next in
    let old = shorter.blocks block in
    set_block shorter block (record old { refcnt = old.refcnt + 1; next = none })

unfoldable pub buddy_pop : ℕ → Buddy → Option ℕ × Buddy
buddy_pop order s = elim (s.free_lists order) [
  | none ↦ (none, s)
  | some block ↦ (some block, unlink_head block order s)
]

-- The walk of `buddy_remove` to the last block of a list: the last block before `block` that it
-- meets, and the last block of the list.
unfoldable pub remove_walk : ℕ → ℕ → (ℕ → Block) → Option ℕ → ℕ → Option (Option ℕ × ℕ)
remove_walk zero block bs prev tail = none
remove_walk (suc rounds) block bs prev tail = elim ((bs tail).next) [
  | none ↦ some (prev, tail)
  | some n ↦ remove_walk rounds block bs (if n == block then some tail else prev) n
]

-- Turns the list round so that `block` is its head. The three writes come in the source's order.
unfoldable pub remove_rotate : ℕ → ℕ → ℕ → ℕ → ℕ → Buddy → Buddy
remove_rotate block order head prev tail s =
    set_next (set_next (set_head s order (some block)) prev none) tail (some head)

unfoldable pub remove_found : ℕ → ℕ → ℕ → Option ℕ × ℕ → Buddy → Option ℕ × Buddy
remove_found block order head (none, tail) s = (none, s)
remove_found block order head (some prev, tail) s =
    buddy_pop order (remove_rotate block order head prev tail s)

unfoldable pub buddy_remove : ℕ → ℕ → Buddy → Option (Option ℕ × Buddy)
buddy_remove block order s = elim (s.free_lists order) [
  | none ↦ some (none, s)
  | some head ↦ if head == block then some (buddy_pop order s) else do
    found ← remove_walk block_count block s.blocks none head
    some (remove_found block order head found s)
]

-- The body of `__buddy_merge` below its swap: `block` lies before `buddy`.
unfoldable pub merge_ordered : ℕ → ℕ → Buddy → Option (ℕ × Buddy)
merge_ordered block buddy s = do
  let order = (s.blocks block).order
  (_, s) ← buddy_remove buddy order s
  (_, s) ← buddy_remove block order s
  let s = set_block s block (record (s.blocks block) { order = (s.blocks block).order + 1 })
  some (block, buddy_push block (s.blocks block).order s)

unfoldable pub buddy_merge : ℕ → ℕ → Buddy → Option (ℕ × Buddy)
buddy_merge block buddy s =
    if ltb buddy block then merge_ordered buddy block s else merge_ordered block buddy s

unfoldable pub try_merge_within : ℕ → ℕ → Buddy → Option Buddy
try_merge_within zero block s = none
try_merge_within (suc rounds) block s =
    let b = s.blocks block in
    let buddy = block2buddy block b.order in
    let deeper = (do (block', s') ← buddy_merge block buddy s; try_merge_within rounds block' s') in
    if b.order == buddy_max_order
    then some s
    else if b.order == (s.blocks buddy).order
    then (if is_block_free s block && is_block_free s buddy then deeper else some s)
    else some s

-- A merge raises the order of the block, so the recursion is at most 14 deep.
unfoldable pub buddy_try_merge : ℕ → Buddy → Option Buddy
buddy_try_merge block s = try_merge_within 14 block s

unfoldable pub free_at : ℕ → ℕ → Buddy → Option (ℤ × Buddy)
free_at zero block s = some (negsuc 0, s)
free_at (suc zero) block s = do
  s' ← buddy_try_merge block (buddy_push block (s.blocks block).order s)
  some (pos 0, s')
free_at (suc (suc n)) block s =
    some (pos 0, set_block s block (record (s.blocks block) { refcnt = suc n }))

unfoldable pub buddy_free : ℕ → Buddy → Option (ℤ × Buddy)
buddy_free block s = free_at (s.blocks block).refcnt block s

unfoldable pub split_block : ℕ → Buddy → Buddy
split_block block s =
    let lower = (s.blocks block).order - 1 in
    let s₁ = set_block s block (record (s.blocks block) { order = lower }) in
    let s₂ = buddy_push block lower s₁ in
    buddy_push (block2buddy block (s₂.blocks block).order) (s₂.blocks block).order s₂

-- What `__buddy_split` does with the result of its pop.
unfoldable pub split_popped : Option ℕ × Buddy → ℤ × Buddy
split_popped (none, s) = (negsuc 1, s)
split_popped (some block, s) = (pos 0, split_block block s)

-- `__buddy_split`
unfoldable pub split_one : ℕ → Buddy → ℤ × Buddy
split_one zero s = (negsuc 0, s)
split_one (suc k) s = split_popped (buddy_pop (suc k) s)

-- The rounds of `buddy_split` that are left, from order `desired + n` down.
unfoldable pub split_rounds : ℕ → ℕ → Buddy → ℤ × Buddy
split_rounds zero desired s = (pos 0, s)
split_rounds (suc n) desired s =
    let (ret, s') = split_one (desired + suc n) s in
    elim ret [
      | pos zero ↦ split_rounds n desired s'
      | pos (suc m) ↦ (pos (suc m), s')
      | negsuc m ↦ (negsuc m, s')
    ]

unfoldable pub buddy_split : ℕ → ℕ → Buddy → ℤ × Buddy
buddy_split smallest_free_order desired_order s =
    split_rounds (smallest_free_order - desired_order) desired_order s

-- The orders that `__buddy_find_smallest_free_order` has left to look at, from `i` on.
unfoldable pub find_free_from : ℕ → ℕ → Buddy → ℤ
find_free_from zero i s = negsuc 0
find_free_from (suc n) i s =
    let rest = find_free_from n (i + 1) s in elim (s.free_lists i) [ none ↦ rest | some b ↦ pos i ]

unfoldable pub find_smallest_free_order : ℕ → Buddy → ℤ
find_smallest_free_order order s = find_free_from (buddy_max_order + 1 - order) order s

unfoldable pub alloc_from : ℤ → ℕ → Buddy → Option ℕ × Buddy
alloc_from (negsuc n) order s = (none, s)
alloc_from (pos smallest) order s =
    let (ret, s') = buddy_split smallest order s in
    elim ret [ pos zero ↦ buddy_pop order s' | pos (suc m) ↦ (none, s') | negsuc m ↦ (none, s') ]

unfoldable pub buddy_alloc : ℕ → Buddy → Option ℕ × Buddy
buddy_alloc order s =
    if ltb buddy_max_order order
    then (none, s)
    else alloc_from (find_smallest_free_order order s) order s

unfoldable pub phys2block : ℕ → ℕ
phys2block phys = (phys - phys_mem_start) / 2 ^ phys_mem_page_order

unfoldable pub ppn2block : ℕ → Option ℕ
ppn2block ppn =
    if ltb ppn (phys_mem_start / 2 ^ 12) || leb (phys_mem_end / 2 ^ 12) ppn
    then none
    else some (ppn - phys_mem_start / 2 ^ 12)

unfoldable pub block2ppn : ℕ → ℕ
block2ppn block = block + phys_mem_start / 2 ^ phys_mem_page_order

-- The loop of `__buddy_init` that frees the pages, with `n` rounds left.
unfoldable pub free_pages : ℕ → ℕ → Buddy → Option Buddy
free_pages zero phys s = some s
free_pages (suc n) phys s = do
  (_, s') ← buddy_free (phys2block phys) s
  free_pages n (phys + 2 ^ phys_mem_page_order) s'

abbrev pub fresh_block : Block
fresh_block = record { refcnt = 1; order = 0; next = none }

-- `__buddy_init` on free lists that are still zero. `phys_base` is the first address behind the
-- kernel's image, which the linker gives.
unfoldable pub buddy_init : ℕ → Option Buddy
buddy_init phys_base =
    free_pages
      ((phys_mem_end - phys_mem_kernel_stack_size + 2 ^ phys_mem_page_order - 1 - phys_base)
        / 2 ^ phys_mem_page_order)
      phys_base (record { free_lists = λ _. none; blocks = λ _. fresh_block })

-- `buddy_reset` clears the lists and the blocks, and starts anew.
unfoldable pub buddy_reset : ℕ → Buddy → Option Buddy
buddy_reset phys_base s = buddy_init phys_base
