-- ===== src/Buddy/Unlink.antt =====
-- Taking a free block off its list, at its place or at the head: the block is then in use.
use jake.Common.{
  has, has-append, ℕ, ◌≤◌, ◌≡◌, refl, ◌≢◌, false, ◌&&◌, not, none, some, List, ◌∷◌, ◌++◌, arith,
  ◌==◌, Bool-cases, inl, inr, length, update, sym, ◌∙◌, ap, ==→ne, ==→eq, eq→==,
}
use jake.Buddy.{Buddy, buddy_pop, buddy_remove, block_count, unlink_head}
use jake.Buddy.Chain.{Seg, Distinct, Distinct-split, Distinct-append, split_at, Seg-frame, Seg-head}
use jake.Buddy.Remove.{Removed, buddy_remove-Removed, unlink_head-Removed, buddy_pop-some}
use jake.Buddy.Roles.{
  Roles, RoleOk, free, used, is_free, IsHeap, RoleOk-frame, free-RoleOk, length-lists, is_free-eq,
}

-- `s'` differs from `s` in the counter of `b` and in the links only.
pub record Took (s s' : Buddy) (b k : ℕ) : Type 0 where
  pub refcnt : (s'.blocks b).refcnt ≡ 1
  pub others : (a : ℕ) → a ≢ b → (s'.blocks a).refcnt ≡ (s.blocks a).refcnt
  pub order : (a : ℕ) → (s'.blocks a).order ≡ (s.blocks a).order
  pub lists : (j : ℕ) → j ≢ k → s'.free_lists j ≡ s.free_lists j

module _ {s s' : Buddy} {roles : Roles} (w : IsHeap s roles) (b k : ℕ) (after : List ℕ)
    (e : roles b ≡ free k) (r : Removed s s' k b (w.lists k) after) (d : Distinct after)
    (keep : (a : ℕ) → has a after ≡ (has a (w.lists k) && not (a == b))) where
  Removed-chain : (j : ℕ) → Seg s'.blocks none (s'.free_lists j) (update w.lists k after j)
  Removed-chain j = elim (Bool-cases (j == k)) [
    | inl p ↦ rw (p, ==→eq j k p) r.chain
    | inr p ↦
        rw (p, r.lists j (==→ne j k p))
          (Seg-frame s.blocks s'.blocks none (w.lists j) (s.free_lists j) (w.chain j)
            (λ a h. r.nexts a (ground (arith, w.listed j a, w.listed k a, is_free-eq j (roles a)))))
  ]

  Removed-Distinct : (j : ℕ) → Distinct (update w.lists k after j)
  Removed-Distinct j = elim (Bool-cases (j == k)) [ inl p ↦ rw p d | inr p ↦ rw p (w.distinct j) ]

  Removed-listed :
      (j i : ℕ) → has i (update w.lists k after j) ≡ is_free j (update roles b (used k) i)
  Removed-listed j i = elim (Bool-cases (j == k)) [
    | inl p ↦ rw p (ground (arith, keep i, w.listed k i, is_free-eq k (roles i)))
    | inr p ↦ rw p (ground (arith, w.listed j i, is_free-eq j (roles i)))
  ]

  Removed-ok :
      (i : ℕ) → RoleOk (update roles b (used k)) i (s'.blocks i) (update roles b (used k) i)
  Removed-ok i = elim (Bool-cases (i == b)) [
    | inl p ↦
        let f = free-RoleOk w b k e in
        rw (==→eq i b p, eq→== b b refl)
          (
            omega (arith, r.refcnt),
            r.order ∙ f.1,
            (f.2.0, f.2.1, f.2.2, λ m p q. ground (arith, f.2.3 m)),
          )
    | inr p ↦
        let o = r.others i (==→ne i b p) in
        rw p (
          RoleOk-frame roles (update roles b (used k)) i (s.blocks i) (s'.blocks i) (roles i)
            (λ j m h p q z. ground arith) o.0 o.1 (w.ok i))
  ]

  Removed-IsHeap : IsHeap s' (update roles b (used k))
  Removed-IsHeap = record {
    lists = update w.lists k after;
    chain = Removed-chain;
    distinct = Removed-Distinct;
    listed = Removed-listed;
    ok = Removed-ok;
  }

  Removed-Took : Took s s' b k
  Removed-Took = record {
    refcnt = omega (arith, r.refcnt, (free-RoleOk w b k e).0);
    others = λ a h. (r.others a h).0;
    order = λ a. elim (Bool-cases (a == b)) [
      | inl p ↦ rw (==→eq a b p) r.order
      | inr p ↦ (r.others a (==→ne a b p)).1
    ];
    lists = r.lists;
  }

-- A list without its head.
head_keep :
    (b : ℕ) (xs : List ℕ) (a : ℕ) → has b xs ≡ false → has a xs ≡ (has a (b ∷ xs) && not (a == b))
head_keep b xs a h = elim (Bool-cases (a == b)) [
  | inl p ↦ rw (==→eq a b p) (ground arith)
  | inr p ↦ ground arith
]

-- `buddy_pop` of an order takes the first free block of that order into use, with one reference.
pub buddy_pop-IsHeap :
    {s : Buddy} {roles : Roles} (w : IsHeap s roles) (b k : ℕ)
    → s.free_lists k ≡ some b
    → (roles b ≡ free k)
      × (buddy_pop k s ≡ (some b, unlink_head b k s))
      × IsHeap (unlink_head b k s) (update roles b (used k))
      × Took s (unlink_head b k s) b k
buddy_pop-IsHeap {s} {roles} w b k e =
    let (ys, p) = Seg-head s.blocks (s.free_lists k) b (w.lists k) (w.chain k) e in
    let c : Seg s.blocks none (s.free_lists k) (b ∷ ys) = rw p at (w.chain k) in
    let d : Distinct (b ∷ ys) = rw p at (w.distinct k) in
    let f : roles b ≡ free k =
      is_free-eq k (roles b) (sym (w.listed k b) ∙ ap (has b) p ∙ ground arith) in
    let r : Removed s (unlink_head b k s) k b (w.lists k) ys =
      rw p (unlink_head-Removed s k b ys c d) in
    let keep : (a : ℕ) → has a ys ≡ (has a (w.lists k) && not (a == b)) =
      λ a. rw p (head_keep b ys a d.0) in
    (
      f,
      buddy_pop-some s k b e,
      Removed-IsHeap w b k ys f r d.1 keep,
      Removed-Took w b k ys f r d.1 keep,
    )

-- A list without one of its members, turned round.
member_keep :
    (b : ℕ) (us vs : List ℕ) (a : ℕ)
    → has b us ≡ false
    → has b vs ≡ false
    → has a (vs ++ us) ≡ (has a (us ++ (b ∷ vs)) && not (a == b))
member_keep b us vs a p q = elim (Bool-cases (a == b)) [
  | inl h ↦ rw (==→eq a b h) (ground (arith, has-append b vs us, has-append b us (b ∷ vs)))
  | inr h ↦ ground (arith, has-append a vs us, has-append a us (b ∷ vs))
]

-- `buddy_remove` of a free block of the order takes it into use, with one reference.
pub buddy_remove-IsHeap :
    {s : Buddy} {roles : Roles} (w : IsHeap s roles) (b k : ℕ)
    → roles b ≡ free k
    → (s' : Buddy) × (buddy_remove b k s ≡ some (some b, s'))
      × IsHeap s' (update roles b (used k))
      × Took s s' b k
buddy_remove-IsHeap {s} {roles} w b k f =
    let (us, vs, p) = split_at b (w.lists k) (w.listed k b ∙ ap (is_free k) f ∙ eq→== k k refl) in
    let c : Seg s.blocks none (s.free_lists k) (us ++ (b ∷ vs)) = rw p at (w.chain k) in
    let d : Distinct (us ++ (b ∷ vs)) = rw p at (w.distinct k) in
    let n : length (us ++ (b ∷ vs)) ≤ block_count = rw p at (length-lists w k) in
    let (s', e, removed) = buddy_remove-Removed s k b us vs c d n in
    let q = Distinct-split us (b ∷ vs) d in
    let r : Removed s s' k b (w.lists k) (vs ++ us) = rw p removed in
    let d' : Distinct (vs ++ us) = Distinct-append vs us q.1.1 q.0 (λ a h. ground (arith, q.2 a)) in
    let keep : (a : ℕ) → has a (vs ++ us) ≡ (has a (w.lists k) && not (a == b)) =
      λ a. rw p (member_keep b us vs a (ground (arith, q.2 b)) q.1.0) in
    (s', e, Removed-IsHeap w b k (vs ++ us) f r d' keep, Removed-Took w b k (vs ++ us) f r d' keep)
