-- ===== src/Buddy/Roles.antt =====
-- The invariant of the allocator of buddy.c. Each index of `buddy_blocks` has a role: the head of a
-- free block, the head of a block in use, a page inside a larger block, or outside of the array.
use native.Mathlib.Nat.{one-le-pow}
use jake.Common.{
  has, ℕ, ◌+◌, ◌*◌, ◌^◌, ◌≤◌, ◌<◌, ◌≡◌, refl, Bool, true, false, none, List, arith, ◌==◌, ==→eq,
  ◌⊎◌, inl, inr, sym, ◌∙◌, length,
}
use jake.Buddy.{Block, Buddy, block_count, buddy_max_order}
use jake.Buddy.Chain.{Seg, Distinct, length-Distinct}

pub data Role : Type 0 where
  outside : Role
  inner : Role
  free : ℕ → Role
  used : ℕ → Role

abbrev pub Roles : Type 0
Roles = ℕ → Role

abbrev pub is_free : ℕ → Role → Bool
is_free k (free j) = j == k
is_free k outside = false
is_free k inner = false
is_free k (used j) = false

abbrev pub Aligned : ℕ → ℕ → Type 0
Aligned k i = (q : ℕ) × (i ≡ q * 2 ^ k)

-- All pages of the block of order `k` at `i` but the first are inside of it.
abbrev pub Covers : Roles → ℕ → ℕ → Type 0
Covers roles i k = (m : ℕ) → i < m → m < i + 2 ^ k → roles m ≡ inner

abbrev pub HeadAt : Roles → ℕ → ℕ → Type 0
HeadAt roles i k =
    (k ≤ buddy_max_order) × Aligned k i × (i + 2 ^ k ≤ block_count) × Covers roles i k

-- What the fields of block `i` are in each role. The order of a page inside a block is the number
-- of its trailing zero bits, which a later split relies on.
abbrev pub RoleOk : Roles → ℕ → Block → Role → Type 0
RoleOk roles i b outside = block_count ≤ i
RoleOk roles i b inner = (b.refcnt ≡ 1) × ((q : ℕ) × (i ≡ (2 * q + 1) * 2 ^ b.order))
RoleOk roles i b (free k) = (b.refcnt ≡ 0) × (b.order ≡ k) × HeadAt roles i k
RoleOk roles i b (used k) = (0 < b.refcnt) × (b.order ≡ k) × HeadAt roles i k

pub record IsHeap (s : Buddy) (roles : Roles) : Type 0 where
  pub lists : ℕ → List ℕ
  pub chain : (k : ℕ) → Seg s.blocks none (s.free_lists k) (lists k)
  pub distinct : (k : ℕ) → Distinct (lists k)
  pub listed : (k i : ℕ) → has i (lists k) ≡ is_free k (roles i)
  pub ok : (i : ℕ) → RoleOk roles i (s.blocks i) (roles i)

pub is_free-eq : (k : ℕ) (r : Role) → is_free k r ≡ true → r ≡ free k
is_free-eq k (free j) h = ground (arith, ==→eq j k)
is_free-eq k outside h = ground arith
is_free-eq k inner h = ground arith
is_free-eq k (used j) h = ground arith

-- The facts of a block's role, where the role is known.
module _ {s : Buddy} {roles : Roles} (w : IsHeap s roles) (i k : ℕ) where
  pub free-RoleOk : roles i ≡ free k → RoleOk roles i (s.blocks i) (free k)
  free-RoleOk e = rw e at (w.ok i)

  pub used-RoleOk : roles i ≡ used k → RoleOk roles i (s.blocks i) (used k)
  used-RoleOk e = rw e at (w.ok i)

  pub inner-RoleOk : roles i ≡ inner → RoleOk roles i (s.blocks i) inner
  inner-RoleOk e = rw e at (w.ok i)

-- A head keeps its pages under a change of roles that keeps the pages of its block.
pub RoleOk-frame :
    (roles roles' : Roles) (i : ℕ) (b c : Block) (r : Role)
    → ((k m : ℕ)
        → (r ≡ free k) ⊎ (r ≡ used k)
        → i < m
        → m < i + 2 ^ k
        → roles m ≡ inner
        → roles' m ≡ inner)
    → c.refcnt ≡ b.refcnt
    → c.order ≡ b.order
    → RoleOk roles i b r
    → RoleOk roles' i c r
RoleOk-frame roles roles' i b c outside keep e f h = h
RoleOk-frame roles roles' i b c inner keep e f h = (omega arith, rw f h.1)
RoleOk-frame roles roles' i b c (free k) keep e f h = (
  omega arith,
  omega arith,
  (h.2.0, h.2.1, h.2.2, λ m p q. keep k m (inl refl) p q (h.2.3 m p q)),
)
RoleOk-frame roles roles' i b c (used k) keep e f h = (
  omega arith,
  omega arith,
  (h.2.0, h.2.1, h.2.2, λ m p q. keep k m (inr refl) p q (h.2.3 m p q)),
)

-- The free list of an order has at most as many blocks as the array.
pub length-lists :
    {s : Buddy} {roles : Roles} (w : IsHeap s roles) (k : ℕ) → length (w.lists k) ≤ block_count
length-lists {s} {roles} w k = length-Distinct block_count (w.lists k) (w.distinct k) λ a h.
    let r = free-RoleOk w a k (is_free-eq k (roles a) (sym (w.listed k a) ∙ h)) in
    omega (arith, one-le-pow k 2, r.2.2)
