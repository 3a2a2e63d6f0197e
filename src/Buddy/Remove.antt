-- ===== src/Buddy/Remove.antt =====
-- `buddy_remove` and `buddy_pop` of buddy.c on the list of an order: what they unlink, what stays.
use mathlib.Core.List.{append-nil}
use jake.Common.{
  has, has-append, ℕ, zero, suc, ◌+◌, ◌≤◌, ◌<◌, ◌≡◌, refl, ◌≢◌, ap, false, Option, none, some, List,
  [], ◌∷◌, ◌++◌, arith, ◌==◌, if◌then◌else◌, length, length-append, update_self, eq→==, ne→==,
}
use jake.Buddy.{
  Block, Buddy, block_count, remove_walk, remove_rotate, remove_found, buddy_remove, buddy_pop,
  unlink_head,
}
use jake.Buddy.Chain.{
  Seg, Distinct, last_of, last_of-mem, Distinct-split, Seg-frame, Seg-append, Seg-split, Seg-relink,
}

remove_walk-miss :
    (rounds block : ℕ) (bs : ℕ → Block) (prev : Option ℕ) (t : ℕ) (ys : List ℕ)
    → Seg bs none (bs t).next ys
    → has block ys ≡ false
    → length ys < rounds
    → remove_walk rounds block bs prev t ≡ some (prev, last_of t ys)
unfolding remove_walk
remove_walk-miss zero block bs prev t ys s out h = absurd (omega arith)
remove_walk-miss (suc r) block bs prev t [] s out h = ground arith
remove_walk-miss (suc r) block bs prev t (y ∷ ys) s out h =
    ground (arith, remove_walk-miss r block bs prev y ys s.1)

remove_walk-hit :
    (rounds block : ℕ) (bs : ℕ → Block) (prev : Option ℕ) (t : ℕ) (us vs : List ℕ)
    → Seg bs none (bs t).next (us ++ (block ∷ vs))
    → has block us ≡ false
    → has block vs ≡ false
    → length us + length vs + 1 < rounds
    → remove_walk rounds block bs prev t ≡ some (some (last_of t us), last_of block vs)
unfolding remove_walk
remove_walk-hit zero block bs prev t us vs s p q h = absurd (omega arith)
remove_walk-hit (suc r) block bs prev t [] vs s p q h =
    ground (arith, remove_walk-miss r block bs (some t) block vs s.1)
remove_walk-hit (suc r) block bs prev t (u ∷ us) vs s p q h =
    ground (arith, remove_walk-hit r block bs prev u us vs s.1)

-- `s'` is `s` without `block` in the list `before` of order `k`, which `after` now lists.
pub record Removed (s s' : Buddy) (k block : ℕ) (before after : List ℕ) : Type 0 where
  pub chain : Seg s'.blocks none (s'.free_lists k) after
  pub lists : (j : ℕ) → j ≢ k → s'.free_lists j ≡ s.free_lists j
  pub refcnt : (s'.blocks block).refcnt ≡ (s.blocks block).refcnt + 1
  pub order : (s'.blocks block).order ≡ (s.blocks block).order
  pub others :
      (a : ℕ)
      → a ≢ block
      → ((s'.blocks a).refcnt ≡ (s.blocks a).refcnt) × ((s'.blocks a).order ≡ (s.blocks a).order)
  pub nexts : (a : ℕ) → has a before ≡ false → (s'.blocks a).next ≡ (s.blocks a).next

pub buddy_pop-some :
    (s : Buddy) (k block : ℕ)
    → s.free_lists k ≡ some block
    → buddy_pop k s ≡ (some block, unlink_head block k s)
unfolding buddy_pop
buddy_pop-some s k block e = ground arith

pub unlink_head-Removed :
    (s : Buddy) (k block : ℕ) (xs : List ℕ)
    → Seg s.blocks none (s.free_lists k) (block ∷ xs)
    → Distinct (block ∷ xs)
    → Removed s (unlink_head block k s) k block (block ∷ xs) xs
unfolding unlink_head
unlink_head-Removed s k block xs c d = record {
  chain = rw (update_self s.free_lists k (s.blocks block).next) (
      Seg-frame s.blocks (unlink_head block k s).blocks none xs (s.blocks block).next c.1
        (λ a h. ground arith));
  lists = λ j h. ground arith;
  refcnt = ground arith;
  order = ground arith;
  others = λ a h. ground arith;
  nexts = λ a h. ground arith;
}

-- The writes of a rotation and of the pop that follows it, at each block.
module _ (s : Buddy) (k block head prev tail : ℕ) where
  rotated : Buddy
  rotated = unlink_head block k (remove_rotate block k head prev tail s)

  rotated_next :
      (a : ℕ)
      → (rotated.blocks a).next ≡ (
          if a == block
          then none
          else if a == tail
          then some head
          else if a == prev
          then none
          else (s.blocks a).next)
  unfolding rotated unlink_head remove_rotate
  rotated_next a = ground arith

  rotated_refcnt :
      (a : ℕ) → (rotated.blocks a).refcnt ≡ (s.blocks a).refcnt + (if a == block then 1 else 0)
  unfolding rotated unlink_head remove_rotate
  rotated_refcnt a = ground arith

  rotated_order : (a : ℕ) → (rotated.blocks a).order ≡ (s.blocks a).order
  unfolding rotated unlink_head remove_rotate
  rotated_order a = ground arith

  rotated_lists : (j : ℕ) → j ≢ k → rotated.free_lists j ≡ s.free_lists j
  unfolding rotated unlink_head remove_rotate
  rotated_lists j h = ground arith

  rotated_head :
      prev ≢ block
      → rotated.free_lists k ≡ (if block == tail then some head else (s.blocks block).next)
  unfolding rotated unlink_head remove_rotate
  rotated_head h = ground arith

abbrev rest : Buddy → ℕ → ℕ → ℕ → List ℕ → List ℕ → Buddy
rest s k block head us vs = rotated s k block head (last_of head us) (last_of block vs)

-- `block` stands behind the head of the list.
module _ (s : Buddy) (k block head : ℕ) (us vs : List ℕ)
    (c : Seg s.blocks none (s.free_lists k) ((head ∷ us) ++ (block ∷ vs)))
    (d : Distinct ((head ∷ us) ++ (block ∷ vs))) where
  front : Seg (rest s k block head us vs).blocks none (some head) (head ∷ us)
  front =
      let p = Distinct-split (head ∷ us) (block ∷ vs) d in
      Seg-relink s.blocks (rest s k block head us vs).blocks (some block) none head us (some head)
        p.0 (refl, (Seg-split s.blocks none block (head ∷ us) vs (s.free_lists k) c).0.1)
        (λ a i h. ground (
          arith,
          p.2 a,
          last_of-mem block vs,
          rotated_next s k block head (last_of head us) (last_of block vs) a,
        ))
        (ground (
          arith,
          p.2 (last_of head us),
          last_of-mem head us,
          last_of-mem block vs,
          rotated_next s k block head (last_of head us) (last_of block vs) (last_of head us),
        ))

ne_prev :
    (s : Buddy) (k block head : ℕ) (us vs : List ℕ)
    → Seg s.blocks none (s.free_lists k) ((head ∷ us) ++ (block ∷ vs))
    → Distinct ((head ∷ us) ++ (block ∷ vs))
    → last_of head us ≢ block
ne_prev s k block head us vs c d e =
    let p = Distinct-split (head ∷ us) (block ∷ vs) d in
    ground (arith, p.2 (last_of head us), last_of-mem head us)

-- The blocks behind the removed one come to stand before those in front of it.
back :
    (s : Buddy) (k block head : ℕ) (us vs : List ℕ)
    → Seg s.blocks none (s.free_lists k) ((head ∷ us) ++ (block ∷ vs))
    → Distinct ((head ∷ us) ++ (block ∷ vs))
    → let after = rest s k block head us vs in
      Seg after.blocks none (after.free_lists k) (vs ++ (head ∷ us))
back s k block head us [] c d =
    rw
      (
        rotated_head s k block head (last_of head us) block (ne_prev s k block head us [] c d),
        eq→== block block refl,
      )
      (front s k block head us [] c d)
back s k block head us (v ∷ vs) c d =
    let after = rest s k block head us (v ∷ vs) in
    let p = Distinct-split (head ∷ us) (block ∷ v ∷ vs) d in
    let q = (Seg-split s.blocks none block (head ∷ us) (v ∷ vs) (s.free_lists k) c).1 in
    let far : block ≢ last_of v vs = λ e. ground (arith, last_of-mem v vs) in
    rw
      (
        rotated_head s k block head (last_of head us) (last_of v vs)
            (ne_prev s k block head us (v ∷ vs) c d),
        ne→== block (last_of v vs) far,
      )
      (Seg-append after.blocks none (some head) (v ∷ vs) (head ∷ us) (s.blocks block).next
        (Seg-relink s.blocks after.blocks none (some head) v vs (s.blocks block).next p.1.1 q
          (λ a i h. ground (
            arith,
            p.2 a,
            p.1,
            last_of-mem head us,
            p.2 (last_of head us),
            rotated_next s k block head (last_of head us) (last_of v vs) a,
          ))
          (ground (
            arith,
            p.1,
            last_of-mem v vs,
            rotated_next s k block head (last_of head us) (last_of v vs) (last_of v vs),
          )))
        (front s k block head us (v ∷ vs) c d))

rest-Removed :
    (s : Buddy) (k block head : ℕ) (us vs : List ℕ)
    → Seg s.blocks none (s.free_lists k) ((head ∷ us) ++ (block ∷ vs))
    → Distinct ((head ∷ us) ++ (block ∷ vs))
    → Removed s
        (rest s k block head us vs)
        k
        block
        ((head ∷ us) ++ (block ∷ vs))
        (vs ++ (head ∷ us))
rest-Removed s k block head us vs c d = record {
  chain = back s k block head us vs c d;
  lists = rotated_lists s k block head (last_of head us) (last_of block vs);
  refcnt = ground (arith, rotated_refcnt s k block head (last_of head us) (last_of block vs) block);
  order = rotated_order s k block head (last_of head us) (last_of block vs) block;
  others = λ a h. ground (
    arith,
    rotated_refcnt s k block head (last_of head us) (last_of block vs) a,
    rotated_order s k block head (last_of head us) (last_of block vs) a,
  );
  nexts = λ a h. ground (
    arith,
    has-append a (head ∷ us) (block ∷ vs),
    last_of-mem head us,
    last_of-mem block vs,
    rotated_next s k block head (last_of head us) (last_of block vs) a,
  );
}

buddy_remove-head :
    (s : Buddy) (k block : ℕ)
    → s.free_lists k ≡ some block
    → buddy_remove block k s ≡ some (some block, unlink_head block k s)
unfolding buddy_remove
buddy_remove-head s k block e =
    rw (e, buddy_remove) (rw (eq→== block block refl, buddy_pop-some s k block e))

rotate_head :
    (s : Buddy) (k block head prev tail : ℕ)
    → (remove_rotate block k head prev tail s).free_lists k ≡ some block
unfolding remove_rotate
rotate_head s k block head prev tail = ground arith

buddy_remove-behind :
    (s : Buddy) (k block head : ℕ) (us vs : List ℕ)
    → s.free_lists k ≡ some head
    → head ≢ block
    → remove_walk block_count block s.blocks none head
      ≡ some (some (last_of head us), last_of block vs)
    → last_of head us ≢ block
    → buddy_remove block k s ≡ some (some block, rest s k block head us vs)
unfolding buddy_remove remove_found rotated
buddy_remove-behind s k block head us vs e ne w np =
    rw (e, buddy_remove)
      (rw (ne→== head block ne, w)
        (ap (λ r. some r)
          (buddy_pop-some (remove_rotate block k head (last_of head us) (last_of block vs) s) k
            block (rotate_head s k block head (last_of head us) (last_of block vs)))))

-- On a list without repetitions that holds the block and has at most as many blocks as there are,
-- the walk of `buddy_remove` ends, and the block is unlinked and returned.
pub buddy_remove-Removed :
    (s : Buddy) (k block : ℕ) (us vs : List ℕ)
    → Seg s.blocks none (s.free_lists k) (us ++ (block ∷ vs))
    → Distinct (us ++ (block ∷ vs))
    → length (us ++ (block ∷ vs)) ≤ block_count
    → (s' : Buddy) × (buddy_remove block k s ≡ some (some block, s'))
      × Removed s s' k block (us ++ (block ∷ vs)) (vs ++ us)
buddy_remove-Removed s k block [] vs c d h = (
  unlink_head block k s,
  buddy_remove-head s k block c.0,
  rw append-nil (unlink_head-Removed s k block vs c d),
)
buddy_remove-Removed s k block (head ∷ us) vs c d h =
    let p = Distinct-split (head ∷ us) (block ∷ vs) d in
    (
      rest s k block head us vs,
      buddy_remove-behind s k block head us vs c.0 (ground (arith, p.2 head))
          (remove_walk-hit block_count block s.blocks none head us vs c.1
            (ground (arith, p.2 block)) p.1.0 (omega (arith, length-append us (block ∷ vs))))
          (ne_prev s k block head us vs c d),
      rest-Removed s k block head us vs c d,
    )
