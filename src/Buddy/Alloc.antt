-- ===== src/Buddy/Alloc.antt =====
-- `buddy_alloc` of buddy.c: which block it gives, and when it has none.
use jake.Common.{
  ℕ_discrete, dec_lt, ℕ, zero, suc, ◌+◌, ◌-◌, ◌^◌, ◌≤◌, ◌<◌, ◌≡◌, refl, ◌≢◌, none, some, arith, inl,
  inr, update, ◌∙◌, ap, ℤ, pos, negsuc, ◌⊎◌, Option-cases, le→ltb,
}
use jake.Buddy.{
  Buddy, buddy_max_order, buddy_split, buddy_alloc, alloc_from, find_free_from,
  find_smallest_free_order, unlink_head, buddy_pop,
}
use jake.Buddy.Chain.{Seg-none}
use jake.Buddy.Roles.{Roles, free, used, IsHeap, free-RoleOk}
use jake.Buddy.Unlink.{buddy_pop-IsHeap}
use jake.Buddy.Merge.{Keeps}
use jake.Buddy.Split.{split_rounds-IsHeap}

-- Either the first of `n` orders from `i` on with a free block, or none of them has one.
abbrev pub Found : Buddy → ℕ → ℕ → ℤ → Type 0
Found s n i r =
    ((j : ℕ) × (b : ℕ) × (r ≡ pos j) × (i ≤ j) × (j < i + n) × (s.free_lists j ≡ some b))
    ⊎ ((r ≡ negsuc 0) × ((j : ℕ) → i ≤ j → j < i + n → s.free_lists j ≡ none))

Found-suc :
    (s : Buddy) (n i : ℕ) (r : ℤ)
    → s.free_lists i ≡ none
    → Found s n (i + 1) r
    → Found s (suc n) i r
Found-suc s n i r e (inl (j, b, p, lo, up, f)) = inl (j, b, p, omega arith, omega arith, f)
Found-suc s n i r e (inr (p, all)) = inr (
  p,
  λ j lo up. elim (ℕ_discrete j i) [ yes q ↦ rw q e | no q ↦ all j (omega arith) (omega arith) ],
)

alloc_from-none : (order : ℕ) (s : Buddy) → alloc_from (negsuc 0) order s ≡ (none, s)
unfolding alloc_from
alloc_from-none order s = refl

find_free_from-Found : (n i : ℕ) (s : Buddy) → Found s n i (find_free_from n i s)
unfolding find_free_from
find_free_from-Found zero i s = inr (refl, λ j p q. absurd (omega arith))
find_free_from-Found (suc n) i s = elim (Option-cases (s.free_lists i)) [
  | inr (b, e) ↦ inl (i, b, rw (e, find_free_from), omega arith, omega arith, e)
  | inl e ↦
      rw (e, find_free_from)
        (Found-suc s n i (find_free_from n (i + 1) s) e (find_free_from-Found n (i + 1) s))
]

-- `buddy_split` from an order at or above the desired one.
buddy_split-IsHeap :
    (smallest desired b : ℕ) {s : Buddy} {roles : Roles} (w : IsHeap s roles)
    → desired ≤ smallest
    → s.free_lists smallest ≡ some b
    → (s' : Buddy) × (roles' : Roles) × (c : ℕ) × (buddy_split smallest desired s ≡ (pos 0, s'))
      × IsHeap s' roles'
      × Keeps s s' roles roles'
      × (s'.free_lists desired ≡ some c)
      × (b ≤ c)
      × (c + 2 ^ desired ≤ b + 2 ^ smallest)
unfolding buddy_split
buddy_split-IsHeap smallest d b {s} w h e =
    let z : d + (smallest - d) ≡ smallest = omega arith in
    let r = split_rounds-IsHeap (smallest - d) d b w (ap s.free_lists z ∙ e) in
    (r.0, r.1, r.2, r.3, r.4, r.5, r.6, r.7, rw z at r.8)

-- A block given out: it is in use with one reference, its pages come from one free block, and no
-- other block comes into use or goes out of it.
pub record Given (s s' : Buddy) (roles roles' : Roles) (order b : ℕ) : Type 0 where
  pub block : roles' b ≡ used order
  pub refcnt : (s'.blocks b).refcnt ≡ 1
  pub was_free : (i : ℕ) × (k : ℕ) × (roles i ≡ free k) × (i ≤ b) × (b + 2 ^ order ≤ i + 2 ^ k)
  pub stays : (a j : ℕ) → roles a ≡ used j → roles' a ≡ used j
  pub counts : (a j : ℕ) → roles a ≡ used j → (s'.blocks a).refcnt ≡ (s.blocks a).refcnt
  pub only : (a j : ℕ) → a ≢ b → roles' a ≡ used j → roles a ≡ used j

alloc_from-split :
    (smallest order : ℕ) (s s' : Buddy)
    → buddy_split smallest order s ≡ (pos 0, s')
    → alloc_from (pos smallest) order s ≡ buddy_pop order s'
unfolding alloc_from
alloc_from-split smallest order s s' e =
    rw (e, alloc_from) (ap (λ (r : ℤ × Buddy). buddy_pop order r.1) e)

alloc_from-Given :
    {s : Buddy} {roles : Roles} (w : IsHeap s roles) (smallest order b : ℕ)
    → order ≤ smallest
    → s.free_lists smallest ≡ some b
    → (c : ℕ) × (s' : Buddy) × (roles' : Roles) × (alloc_from (pos smallest) order s ≡ (some c, s'))
      × IsHeap s' roles'
      × Given s s' roles roles' order c
alloc_from-Given {s} {roles} w smallest order b h e =
    let (s₁, roles₁, c, p, w₁, f, e₁, lo, up) = buddy_split-IsHeap smallest order b w h e in
    let (fc, p', w', t) = buddy_pop-IsHeap w₁ c order e₁ in
    let fb = (buddy_pop-IsHeap w b smallest e).0 in
    (
      c,
      unlink_head c order s₁,
      update roles₁ c (used order),
      alloc_from-split smallest order s s₁ p ∙ p',
      w',
      record {
        block = ground arith;
        refcnt = t.refcnt;
        was_free = (b, smallest, fb, lo, up);
        stays = λ a j u. ground (arith, f.stays a j);
        counts = λ a j u. t.others a (λ q. ground (arith, f.stays a j)) ∙ f.counts a j u;
        only = λ a j ne u. f.only a j (ground arith);
      },
    )

no_free :
    {s : Buddy} {roles : Roles} (w : IsHeap s roles) (order : ℕ)
    → ((j : ℕ) → order ≤ j → j < order + (buddy_max_order + 1 - order) → s.free_lists j ≡ none)
    → (i k : ℕ) → roles i ≡ free k
    → k < order
no_free {s} {roles} w order all i k f = elim (dec_lt k order) [
  | yes h ↦ h
  | no h ↦
      let r = free-RoleOk w i k f in
      let e = all k (omega arith) (omega (arith, r.2.0)) in
      let x = Seg-none s.blocks (s.free_lists k) (w.lists k) i (w.chain k) e in
      ground (arith, w.listed k i)
]

-- In a well-formed allocator, `buddy_alloc` of an order up to the largest gives a block of that order
-- cut from a free block, with the allocator well-formed again; or no free block is large enough, and
-- it gives none and changes nothing.
pub buddy_alloc-IsHeap :
    {s : Buddy} {roles : Roles} (w : IsHeap s roles) (order : ℕ)
    → order ≤ buddy_max_order
    → ((b : ℕ) × (s' : Buddy) × (roles' : Roles) × (buddy_alloc order s ≡ (some b, s'))
        × IsHeap s' roles'
        × Given s s' roles roles' order b)
      ⊎ ((buddy_alloc order s ≡ (none, s)) × ((i k : ℕ) → roles i ≡ free k → k < order))
unfolding buddy_alloc find_smallest_free_order
buddy_alloc-IsHeap {s} {roles} w order h = rw (le→ltb buddy_max_order order h) (
    go (find_free_from (buddy_max_order + 1 - order) order s)
      (find_free_from-Found (buddy_max_order + 1 - order) order s))
  where
    go :
        (r : ℤ)
        → Found s (buddy_max_order + 1 - order) order r
        → ((b : ℕ) × (s' : Buddy) × (roles' : Roles) × (alloc_from r order s ≡ (some b, s'))
            × IsHeap s' roles'
            × Given s s' roles roles' order b)
          ⊎ ((alloc_from r order s ≡ (none, s)) × ((i k : ℕ) → roles i ≡ free k → k < order))
    go r (inl (j, b, e, lo, up, l)) = rw e (inl (alloc_from-Given w j order b lo l))
    go r (inr (e, all)) = rw e (inr (alloc_from-none order s, λ i k f. no_free w order all i k f))
