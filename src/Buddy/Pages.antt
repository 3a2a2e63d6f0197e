-- ===== src/Buddy/Pages.antt =====
-- The numbers of pages and the blocks of src/kernel/buddy.c.
use jake.Common.{ℕ, ◌<◌, ◌≡◌, arith, some, ◌↔◌}
use jake.Buddy.{block_count, ppn2block, block2ppn}

-- `ppn2block` finds a block for a page number just if the block is in the array and the number is the
-- one that `block2ppn` gives for it.
pub ppn2block_iff-block2ppn :
    (ppn b : ℕ) → (ppn2block ppn ≡ some b) ↔ ((block2ppn b ≡ ppn) × (b < block_count))
unfolding ppn2block block2ppn
ppn2block_iff-block2ppn ppn b = (λ e. ground arith, λ e. ground arith)
