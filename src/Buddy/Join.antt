-- ===== src/Buddy/Join.antt =====
-- One block of order `k + 1` as two of order `k`, and back: what the writes to an `order` field in
-- `__buddy_merge` and `__buddy_split` do to the roles.
use native.Mathlib.Nat.{pow-suc, one-le-pow}
use jake.Common.{
  has, ℕ, zero, suc, ◌+◌, ◌*◌, ◌^◌, ◌<◌, ◌≡◌, refl, ◌≢◌, none, arith, ◌==◌, Bool-cases, inl, inr,
  update, ap, ==→ne, ==→eq, eq→==, ◌⊎◌,
}
use jake.Buddy.{Buddy, set_block, buddy_max_order}
use jake.Buddy.Chain.{Seg, Seg-frame}
use jake.Buddy.Roles.{
  Roles, RoleOk, inner, free, used, is_free, IsHeap, Covers, free-RoleOk, RoleOk-frame, used-RoleOk,
  inner-RoleOk,
}

abbrev pub reorder : Buddy → ℕ → ℕ → Buddy
reorder s b o = set_block s b (record (s.blocks b) { order = o })

-- Links do not see the orders.
reorder-chain :
    {s : Buddy} {roles : Roles} (w : IsHeap s roles) (b o j : ℕ)
    → Seg (reorder s b o).blocks none (s.free_lists j) (w.lists j)
reorder-chain {s} w b o j =
    Seg-frame s.blocks (reorder s b o).blocks none (w.lists j) (s.free_lists j) (w.chain j)
      (λ a h. ground arith)

-- The roles after the block at `lo` has taken in the one at `hi`.
abbrev pub joined : Roles → ℕ → ℕ → ℕ → Roles
joined roles lo hi k = update (update roles hi inner) lo (used (suc k))

-- The roles after the block at `lo` has been cut in two.
abbrev pub parted : Roles → ℕ → ℕ → ℕ → Roles
parted roles lo hi k = update (update roles hi (used k)) lo (used k)

module _ {s : Buddy} {roles : Roles} (w : IsHeap s roles) (lo hi k q : ℕ) (eh : hi ≡ lo + 2 ^ k)
    (el : lo ≡ 2 * q * 2 ^ k) where
  Join-ok :
      roles lo ≡ used k
      → roles hi ≡ used k
      → (s.blocks hi).refcnt ≡ 1
      → k < buddy_max_order
      → (i : ℕ)
      → RoleOk (joined roles lo hi k) i ((reorder s lo (suc k)).blocks i) (joined roles lo hi k i)
  Join-ok ul uh one small i = elim (Bool-cases (i == lo)) [
    | inl p ↦
        let l = used-RoleOk w lo k ul in
        let h = used-RoleOk w hi k uh in
        rw (==→eq i lo p, eq→== lo lo refl)
          (
            l.0,
            refl,
            (
              small,
              (q, omega (arith, pow-suc 2 k, ap (λ (t : ℕ). q * t) (pow-suc 2 k))),
              omega (arith, pow-suc 2 k, h.2.2),
              λ m a b. ground (arith, pow-suc 2 k, l.2.3 m, h.2.3 m),
            ),
          )
    | inr p ↦ elim (Bool-cases (i == hi)) [
      | inl p' ↦
          let h = used-RoleOk w hi k uh in
          rw (p, p', ==→eq i hi p')
            (one, (q, rw h.1 (omega (arith, ap (λ (t : ℕ). q * t) (pow-suc 2 k)))))
      | inr p' ↦
          rw (p, p')
            (RoleOk-frame roles (joined roles lo hi k) i (s.blocks i) (s.blocks i) (roles i)
              (λ j m h p q z. ground arith) refl refl (w.ok i))
    ]
  ]

  Join-listed :
      roles lo ≡ used k
      → roles hi ≡ used k
      → (j i : ℕ) → has i (w.lists j) ≡ is_free j (joined roles lo hi k i)
  Join-listed ul uh j i = ground (arith, w.listed j i)

  -- Two halves in use, the upper one with one reference, are one block in use of the next order.
  pub Join-IsHeap :
      roles lo ≡ used k
      → roles hi ≡ used k
      → (s.blocks hi).refcnt ≡ 1
      → k < buddy_max_order
      → IsHeap (reorder s lo (suc k)) (joined roles lo hi k)
  Join-IsHeap ul uh one small = record {
    lists = w.lists;
    chain = reorder-chain w lo (suc k);
    distinct = w.distinct;
    listed = Join-listed ul uh;
    ok = Join-ok ul uh one small;
  }

-- The trailing zero bits of a number are determined by it.
odd_part_unique : (a b o k : ℕ) → (2 * a + 1) * 2 ^ o ≡ (2 * b + 1) * 2 ^ k → o ≡ k
odd_part_unique a b zero zero h = refl
odd_part_unique a b zero (suc k) h =
    absurd (omega (arith, pow-suc 2 k, ap (λ (t : ℕ). b * t) (pow-suc 2 k)))
odd_part_unique a b (suc o) zero h =
    absurd (omega (arith, pow-suc 2 o, ap (λ (t : ℕ). a * t) (pow-suc 2 o)))
odd_part_unique a b (suc o) (suc k) h = ap suc (
    odd_part_unique a b o k (
      omega (
        arith,
        pow-suc 2 o,
        pow-suc 2 k,
        ap (λ (t : ℕ). a * t) (pow-suc 2 o),
        ap (λ (t : ℕ). b * t) (pow-suc 2 k),
      )))

module _ {s : Buddy} {roles : Roles} (w : IsHeap s roles) (lo hi k : ℕ) (eh : hi ≡ lo + 2 ^ k)
    (ul : roles lo ≡ used (suc k)) where
  hi-inner : roles hi ≡ inner
  hi-inner =
      (used-RoleOk w lo (suc k) ul).2.3 hi (omega (arith, one-le-pow k 2))
        (omega (arith, pow-suc 2 k, one-le-pow k 2))

  -- The upper half has one reference, and its order is that of the halves.
  pub hi_fields : ((s.blocks hi).refcnt ≡ 1) × ((s.blocks hi).order ≡ k)
  hi_fields =
      let l = used-RoleOk w lo (suc k) ul in
      let h = inner-RoleOk w hi 0 hi-inner in
      let (q, e) = l.2.1 in
      let (r, f) = h.1 in
      (
        h.0,
        odd_part_unique r q (s.blocks hi).order k
            (omega (arith, pow-suc 2 k, ap (λ (t : ℕ). q * t) (pow-suc 2 k))),
      )

  covers : (i j : ℕ) → ((roles i ≡ free j) ⊎ (roles i ≡ used j)) → Covers roles i j
  covers i j (inl e) = (free-RoleOk w i j e).2.3
  covers i j (inr e) = (used-RoleOk w i j e).2.3

  hi_apart :
      (i j : ℕ) → i ≢ lo → ((roles i ≡ free j) ⊎ (roles i ≡ used j)) → i < hi → hi < i + 2 ^ j → ⊥
  hi_apart i j ne r a b =
      ground (arith, pow-suc 2 k, covers i j r lo, (used-RoleOk w lo (suc k) ul).2.3 i)

  -- No block but the one at `lo` has its upper half inside.
  apart :
      (i j m : ℕ)
      → i ≢ lo
      → ((roles i ≡ free j) ⊎ (roles i ≡ used j))
      → i < m
      → m < i + 2 ^ j
      → roles m ≡ inner
      → parted roles lo hi k m ≡ inner
  apart i j m ne r a b e = ground (arith, hi_apart i j ne r, used-RoleOk w lo (suc k) ul)

  Part-ok :
      (i : ℕ) → RoleOk (parted roles lo hi k) i ((reorder s lo k).blocks i) (parted roles lo hi k i)
  Part-ok i = elim (Bool-cases (i == lo)) [
    | inl p ↦
        let l = used-RoleOk w lo (suc k) ul in
        let (q, e) = l.2.1 in
        rw (==→eq i lo p, eq→== lo lo refl)
          (
            l.0,
            refl,
            (
              omega (arith, l.2.0),
              (2 * q, omega (arith, ap (λ (t : ℕ). q * t) (pow-suc 2 k))),
              omega (arith, pow-suc 2 k, l.2.2),
              λ m a b. ground (arith, pow-suc 2 k, l.2.3 m),
            ),
          )
    | inr p ↦ elim (Bool-cases (i == hi)) [
      | inl p' ↦
          let l = used-RoleOk w lo (suc k) ul in
          let (q, e) = l.2.1 in
          rw (p, p', ==→eq i hi p')
            (
              omega (arith, hi_fields.0),
              hi_fields.1,
              (
                omega (arith, l.2.0),
                (2 * q + 1, omega (arith, ap (λ (t : ℕ). q * t) (pow-suc 2 k))),
                omega (arith, pow-suc 2 k, l.2.2),
                λ m a b. ground (arith, pow-suc 2 k, l.2.3 m),
              ),
            )
      | inr p' ↦
          rw (p, p')
            (RoleOk-frame roles (parted roles lo hi k) i (s.blocks i) (s.blocks i) (roles i)
              (λ j m r a b z. apart i j m (==→ne i lo p) r a b z) refl refl (w.ok i))
    ]
  ]

  Part-listed : (j i : ℕ) → has i (w.lists j) ≡ is_free j (parted roles lo hi k i)
  Part-listed j i = ground (arith, w.listed j i, hi-inner)

  -- A block in use is two halves in use.
  pub Part-IsHeap : IsHeap (reorder s lo k) (parted roles lo hi k)
  Part-IsHeap = record {
    lists = w.lists;
    chain = reorder-chain w lo k;
    distinct = w.distinct;
    listed = Part-listed;
    ok = Part-ok;
  }
