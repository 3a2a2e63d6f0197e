-- ===== src/Buddy/Free.antt =====
-- `buddy_free` of buddy.c on a block in use and on a free block.
use jake.Common.{
  Bool-cases, ◌==◌, ==→eq, ℕ, suc, ◌≡◌, ◌≢◌, none, some, arith, inl, inr, pos, negsuc,
}
use jake.Buddy.{Buddy, buddy_free, free_at, buddy_try_merge, set_block}
use jake.Buddy.Roles.{Roles, free, used, IsHeap, free-RoleOk, used-RoleOk}
use jake.Buddy.Push.{buddy_push-Gave, Gave-IsHeap}
use jake.Buddy.Merge.{Keeps}
use jake.Buddy.TryMerge.{try_merge_within-IsHeap}
use jake.Buddy.Chain.{Seg-frame}

-- The outcome of giving back the last reference to `b`: `b` is no longer in use, and all else that
-- is in use stays so, with its order and counter.
pub record Released (s s' : Buddy) (roles roles' : Roles) (b : ℕ) : Type 0 where
  pub gone : (j : ℕ) → roles' b ≢ used j
  pub stays : (a j : ℕ) → a ≢ b → roles a ≡ used j → roles' a ≡ used j
  pub counts : (a j : ℕ) → a ≢ b → roles a ≡ used j → (s'.blocks a).refcnt ≡ (s.blocks a).refcnt
  pub only : (a j : ℕ) → roles' a ≡ used j → roles a ≡ used j

buddy_try_merge-IsHeap :
    {s : Buddy} {roles : Roles} (w : IsHeap s roles) (b k : ℕ)
    → roles b ≡ free k
    → (s' : Buddy) × (roles' : Roles) × (buddy_try_merge b s ≡ some s')
      × IsHeap s' roles'
      × Keeps s s' roles roles'
unfolding buddy_try_merge
buddy_try_merge-IsHeap w b k f = try_merge_within-IsHeap 14 w b k f (omega arith)

-- In a well-formed allocator, giving back the last reference to a block in use ends, merging included,
-- with result 0 and a well-formed allocator; that block is no longer in use, and all others stay.
pub buddy_free-last :
    {s : Buddy} {roles : Roles} (w : IsHeap s roles) (b k : ℕ)
    → roles b ≡ used k
    → (s.blocks b).refcnt ≡ 1
    → (s' : Buddy) × (roles' : Roles) × (buddy_free b s ≡ some (pos 0, s'))
      × IsHeap s' roles'
      × Released s s' roles roles' b
unfolding buddy_free free_at
buddy_free-last {s} {roles} w b k u one =
    let r = used-RoleOk w b k u in
    let g = buddy_push-Gave s b k in
    let w₁ = Gave-IsHeap w b k u g in
    let (s', roles', e, w', f) = buddy_try_merge-IsHeap w₁ b k (ground arith) in
    (
      s',
      roles',
      rw (one, r.1, e),
      w',
      record {
        gone = λ j h. ground (arith, f.only b j);
        stays = λ a j ne h. f.stays a j (ground arith);
        counts = λ a j ne h. ground (arith, f.counts a j, g.others a);
        only = λ a j h. ground (arith, f.only a j);
      },
    )

-- In a well-formed allocator, giving back one of several references to a block in use ends with
-- result 0 and a well-formed allocator with the same blocks, and counts one reference less.
pub buddy_free-shared :
    {s : Buddy} {roles : Roles} (w : IsHeap s roles) (b k n : ℕ)
    → roles b ≡ used k
    → (s.blocks b).refcnt ≡ suc (suc n)
    → (s' : Buddy) × (buddy_free b s ≡ some (pos 0, s'))
      × IsHeap s' roles
      × ((s'.blocks b).refcnt ≡ suc n)
unfolding buddy_free free_at
buddy_free-shared {s} {roles} w b k n u more =
    let s' = set_block s b (record (s.blocks b) { refcnt = suc n }) in
    (
      s',
      rw more,
      record {
        lists = w.lists;
        chain = λ j.
            Seg-frame s.blocks s'.blocks none (w.lists j) (s.free_lists j) (w.chain j)
              (λ a h. ground arith);
        distinct = w.distinct;
        listed = w.listed;
        ok = λ i. elim (Bool-cases (i == b)) [
          | inl p ↦ let r = used-RoleOk w b k u in rw (p, ==→eq i b p, u) (omega arith, r.1, r.2)
          | inr p ↦ rw p (w.ok i)
        ];
      },
      ground arith,
    )

-- In a well-formed allocator, freeing a free block is refused with -1, and nothing changes.
pub buddy_free-free :
    {s : Buddy} {roles : Roles} (w : IsHeap s roles) (b k : ℕ)
    → roles b ≡ free k
    → buddy_free b s ≡ some (negsuc 0, s)
unfolding buddy_free free_at
buddy_free-free w b k f = rw ((free-RoleOk w b k f).0)
