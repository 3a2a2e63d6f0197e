-- ===== src/Pt/Alloc.antt =====
-- pt_alloc, pt_free, pt_salloc and pt_alloc_pt of pt.c.
use jake.Common.{
  ℕ, zero, suc, ◌+◌, ◌*◌, ◌^◌, ◌&&◌, Option, none, some, ltb, leb, ◌==◌, if◌then◌else◌, ◌>>=◌, ℤ,
  pos, negsuc,
}
use jake.Buddy.{buddy_alloc, buddy_free, block2ppn, ppn2block, Buddy}
use jake.Machine.{page_size, Machine, kvirt2phys, phys2kvirt, store}
use jake.Pt.Entry.{
  ppn2phys, phys2ppn, level2order, level2size, page_normal, pte_set, pte_set_ppn, pte_valid_shift,
}

-- `memset(at, 0, size)` on the words of `mem`.
unfoldable pub zero_fill : ℕ → ℕ → Machine → Machine
zero_fill at size s = record s {
  mem = λ a. if leb (kvirt2phys at) a && ltb a (kvirt2phys at + size) then 0 else s.mem a;
}

unfoldable pub alloc_block : ℕ → Option ℕ × Buddy → Machine → ℕ × Machine
alloc_block level (none, b) s = (0, record s { buddy = b })
alloc_block level (some block, b) s =
    let s₁ = record s { buddy = b } in
    (
      ppn2phys (block2ppn block),
      zero_fill (phys2kvirt s₁ (ppn2phys (block2ppn block))) (page_size * 2 ^ level2order level) s₁,
    )

unfoldable pub pt_alloc : ℕ → Machine → ℕ × Machine
pt_alloc level s = alloc_block level (buddy_alloc (level2order level) s.buddy) s

-- An address outside of the memory gives NULL, which `buddy_free` reads: no result.
unfoldable pub pt_free : ℕ → Machine → Option (ℤ × Machine)
pt_free phys s = do
  block ← ppn2block (phys2ppn phys)
  (ret, b) ← buddy_free block s.buddy
  some (ret, record s { buddy = b })

-- `if (!base) base = pt_alloc(PAGE_NORMAL)`
unfoldable pub salloc_page : Machine → Machine
salloc_page s =
    let (page, s') = pt_alloc page_normal s in
    if s.salloc_base == 0 then record s' { salloc_base = page } else s

-- The recursive call of `pt_salloc` finds `base` and `cursor` zero, so it does not recur again:
-- two rounds are enough. `none`: the rounds have run out.
unfoldable pub salloc_within : ℕ → ℕ → Machine → Option (ℕ × Machine)
salloc_within zero size s = none
salloc_within (suc rounds) size s =
    let s₁ = salloc_page s in
    let again = salloc_within rounds size (record s₁ { salloc_base = 0; salloc_cursor = 0 }) in
    if size == 0
    then some (0, s)
    else if ltb (level2size page_normal) size
    then some (0, s)
    else if s₁.salloc_base == 0
    then some (0, s₁)
    else if ltb (level2size page_normal) (s₁.salloc_cursor + size)
    then again
    else some (
      phys2kvirt s₁ (s₁.salloc_base + s₁.salloc_cursor),
      record s₁ { salloc_cursor = s₁.salloc_cursor + size },
    )

unfoldable pub pt_salloc : ℕ → Machine → Option (ℕ × Machine)
pt_salloc size s = salloc_within 2 size s

unfoldable pub pt_alloc_pt : Machine → ℕ × Machine
pt_alloc_pt s =
    let (phys, s') = pt_alloc 0 s in
    if phys2ppn phys == 0
    then (0, s')
    else (pte_set (pte_set_ppn 0 (phys2ppn phys)) pte_valid_shift, s')

-- `pt_set_pte_nonleaf`; the flush of the TLB has no counterpart.
unfoldable pub pt_set_pte_nonleaf : ℕ → Machine → ℤ × Machine
pt_set_pte_nonleaf pte_ptr s =
    let (pte, s') = pt_alloc_pt s in
    if pte == 0 then (negsuc 1, s') else (pos 0, store pte_ptr pte s')
