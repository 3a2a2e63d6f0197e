-- ===== src/Buddy/Push.antt =====
-- `buddy_push` of buddy.c: a block in use comes to stand in front of the free list of its order.
use jake.Common.{
  has, ℕ, ◌≡◌, refl, ◌≢◌, none, some, ◌∷◌, arith, ◌==◌, Bool-cases, inl, inr, update, ◌∙◌, ap,
  ==→ne, ==→eq, eq→==,
}
use jake.Buddy.{Buddy, buddy_push}
use jake.Buddy.Chain.{Seg, Distinct, Seg-frame}
use jake.Buddy.Roles.{
  Roles, RoleOk, free, used, is_free, IsHeap, RoleOk-frame, used-RoleOk, is_free-eq,
}

-- What `buddy_push` writes.
pub record Gave (s s' : Buddy) (b k : ℕ) : Type 0 where
  pub refcnt : (s'.blocks b).refcnt ≡ 0
  pub others : (a : ℕ) → a ≢ b → (s'.blocks a).refcnt ≡ (s.blocks a).refcnt
  pub order : (a : ℕ) → (s'.blocks a).order ≡ (s.blocks a).order
  pub next : (s'.blocks b).next ≡ s.free_lists k
  pub nexts : (a : ℕ) → a ≢ b → (s'.blocks a).next ≡ (s.blocks a).next
  pub head : s'.free_lists k ≡ some b
  pub lists : (j : ℕ) → j ≢ k → s'.free_lists j ≡ s.free_lists j

pub buddy_push-Gave : (s : Buddy) (b k : ℕ) → Gave s (buddy_push b k s) b k
unfolding buddy_push
buddy_push-Gave s b k = record {
  refcnt = ground arith;
  others = λ a h. ground arith;
  order = λ a. ground arith;
  next = ground arith;
  nexts = λ a h. ground arith;
  head = ground arith;
  lists = λ j h. ground arith;
}

module _ {s s' : Buddy} {roles : Roles} (w : IsHeap s roles) (b k : ℕ) (e : roles b ≡ used k)
    (g : Gave s s' b k) where
  Gave-chain : (j : ℕ) → Seg s'.blocks none (s'.free_lists j) (update w.lists k (b ∷ w.lists k) j)
  Gave-chain j = elim (Bool-cases (j == k)) [
    | inl p ↦
        rw (p, ==→eq j k p)
          (
            g.head,
            rw g.next (
                Seg-frame s.blocks s'.blocks none (w.lists k) (s.free_lists k) (w.chain k)
                  (λ a h. g.nexts a (λ q. ground (arith, w.listed k a, is_free-eq k (roles a))))),
          )
    | inr p ↦
        rw (p, g.lists j (==→ne j k p))
          (Seg-frame s.blocks s'.blocks none (w.lists j) (s.free_lists j) (w.chain j)
            (λ a h. g.nexts a (λ q. ground (arith, w.listed j a, is_free-eq j (roles a)))))
  ]

  Gave-Distinct : (j : ℕ) → Distinct (update w.lists k (b ∷ w.lists k) j)
  Gave-Distinct j = elim (Bool-cases (j == k)) [
    | inl p ↦ rw p (w.listed k b ∙ ap (is_free k) e, w.distinct k)
    | inr p ↦ rw p (w.distinct j)
  ]

  Gave-listed :
      (j i : ℕ) → has i (update w.lists k (b ∷ w.lists k) j) ≡ is_free j (update roles b (free k) i)
  Gave-listed j i = elim (Bool-cases (j == k)) [
    | inl p ↦ rw p (ground (arith, w.listed k i))
    | inr p ↦ rw p (ground (arith, w.listed j i, w.listed j b))
  ]

  Gave-ok : (i : ℕ) → RoleOk (update roles b (free k)) i (s'.blocks i) (update roles b (free k) i)
  Gave-ok i = elim (Bool-cases (i == b)) [
    | inl p ↦
        let f = used-RoleOk w b k e in
        rw (==→eq i b p, eq→== b b refl)
          (g.refcnt, g.order b ∙ f.1, (f.2.0, f.2.1, f.2.2, λ m p q. ground (arith, f.2.3 m)))
    | inr p ↦ rw p (
        RoleOk-frame roles (update roles b (free k)) i (s.blocks i) (s'.blocks i) (roles i)
          (λ j m h p q z. ground arith) (g.others i (==→ne i b p)) (g.order i) (w.ok i))
  ]

  pub Gave-IsHeap : IsHeap s' (update roles b (free k))
  Gave-IsHeap = record {
    lists = update w.lists k (b ∷ w.lists k);
    chain = Gave-chain;
    distinct = Gave-Distinct;
    listed = Gave-listed;
    ok = Gave-ok;
  }
