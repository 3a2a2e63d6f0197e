-- ===== src/Buddy/TryMerge.antt =====
-- `__buddy_try_merge` of buddy.c: where the buddy of a block lies, and that the merging ends in a
-- state that satisfies the invariant.
use native.Mathlib.Nat.{pow-suc}
use jake.Common.{
  dec_lt, ℕ_discrete, bit_xor, ℕ, zero, suc, ◌+◌, ◌-◌, ◌*◌, ◌/◌, ◌%◌, ◌^◌, ◌≤◌, ◌<◌, ◌≡◌, refl, ◌≢◌,
  some, arith, ◌==◌, Bool-cases, inl, inr, sym, ◌∙◌, ap, eq→==, le→ltb, lt→ltb, ne→==, ◌⊎◌,
}
use jake.Common.Bits.{two_pow_pos, bit_xor_clear, bit_xor_set, two_pow_add}
use jake.Buddy.{Buddy, buddy_max_order, block_count, buddy_merge, block2buddy, try_merge_within}
use jake.Buddy.Roles.{Role, Roles, RoleOk, inner, outside, free, used, IsHeap, free-RoleOk}
use jake.Buddy.Merge.{Keeps, Keeps-refl, Keeps-trans, merged, merge_ordered-IsHeap}

-- A block and its buddy are the two halves of a block of the next order.
abbrev pub Halves : ℕ → ℕ → ℕ → Type 0
Halves b buddy k =
    (lo : ℕ) × (q : ℕ) × (lo ≡ 2 * q * 2 ^ k)
    × (((b ≡ lo) × (buddy ≡ lo + 2 ^ k)) ⊎ ((b ≡ lo + 2 ^ k) × (buddy ≡ lo)))

Halves-buddies : (k a : ℕ) → Halves (a * 2 ^ k) (block2buddy (a * 2 ^ k) k) k
unfolding block2buddy
Halves-buddies k a =
    let q = a / 2 in
    elim (Bool-cases (a % 2 == 0)) [
      | inl e ↦
          let h : a ≡ 2 * q = ground arith in
          (
            2 * q * 2 ^ k,
            q,
            refl,
            inl (
              ap (λ (t : ℕ). t * 2 ^ k) h,
              ap (λ (t : ℕ). bit_xor (t * 2 ^ k) (2 ^ k)) h ∙ bit_xor_clear k q,
            ),
          )
      | inr e ↦
          let h : a ≡ 2 * q + 1 = ground arith in
          (
            2 * q * 2 ^ k,
            q,
            refl,
            inr (
              ap (λ (t : ℕ). t * 2 ^ k) h ∙ omega arith,
              ap (λ (t : ℕ). bit_xor (t * 2 ^ k) (2 ^ k)) h ∙ bit_xor_set k q,
            ),
          )
    ]

pub block2buddy-Halves : (b k q : ℕ) → b ≡ q * 2 ^ k → Halves b (block2buddy b k) k
block2buddy-Halves b k q e = rw e (Halves-buddies k q)

mul_mono : (a b p : ℕ) → a ≤ b → a * p ≤ b * p
mul_mono a b p h = grind arith

odd_multiple_lt : (p q r n : ℕ) → 0 < p → n ≡ r * (p * 2) → 2 * q * p + p ≤ n → 2 * q * p + p < n
odd_multiple_lt p q r n pos e h = elim (dec_lt q r) [
  | yes x ↦ grind (arith, mul_mono (suc q) r p x)
  | no x ↦ grind (arith, mul_mono r q p (omega arith))
]

-- A block that lies inside the array and is below the largest order has its buddy inside.
upper_half_in :
    (k q lo : ℕ)
    → k < buddy_max_order
    → lo ≡ 2 * q * 2 ^ k
    → lo + 2 ^ k ≤ block_count
    → lo + 2 ^ k < block_count
upper_half_in k q lo small e h =
    let r = 2 ^ (buddy_max_order - suc k) in
    let x : buddy_max_order - suc k + suc k ≡ buddy_max_order = omega arith in
    let y : 2 ^ buddy_max_order ≡ r * 2 ^ suc k =
      ap (λ (t : ℕ). 2 ^ t) (sym x) ∙ two_pow_add (buddy_max_order - suc k) (suc k) in
    omega (
      arith,
      odd_multiple_lt (2 ^ k) q r block_count (two_pow_pos k)
          (omega (arith, ap (λ (t : ℕ). r * t) (pow-suc 2 k))) (omega arith),
    )

Halves-in :
    (b buddy k : ℕ)
    → k < buddy_max_order
    → Halves b buddy k
    → b + 2 ^ k ≤ block_count
    → buddy < block_count
Halves-in b buddy k small (lo, q, el, inl (p, p')) h =
    omega (arith, upper_half_in k q lo small el (omega arith))
Halves-in b buddy k small (lo, q, el, inr (p, p')) h = omega (arith, two_pow_pos k)

-- A block that counts no reference heads a free block, or lies outside.
free_of_refcnt :
    {s : Buddy} {roles : Roles} (w : IsHeap s roles) (i : ℕ)
    → i < block_count
    → (s.blocks i).refcnt ≡ 0
    → roles i ≡ free (s.blocks i).order
free_of_refcnt {s} {roles} w i h z = go (roles i) (w.ok i)
  where
    go : (r : Role) → RoleOk roles i (s.blocks i) r → r ≡ free (s.blocks i).order
    go outside x = absurd (omega arith)
    go inner x = absurd (omega arith)
    go (free k) x = ap free (sym x.1)
    go (used k) x = absurd (omega arith)

-- Merging a free block with its free buddy, whichever of the two lies first.
buddy_merge-IsHeap :
    {s : Buddy} {roles : Roles} (w : IsHeap s roles) (b buddy k : ℕ)
    → roles b ≡ free k
    → roles buddy ≡ free k
    → k < buddy_max_order
    → (h : Halves b buddy k)
    → (s' : Buddy) × (roles' : Roles) × (buddy_merge b buddy s ≡ some (h.0, s'))
      × IsHeap s' roles'
      × (roles' h.0 ≡ free (suc k))
      × Keeps s s' roles roles'
unfolding buddy_merge
buddy_merge-IsHeap w b buddy k fb fy small (lo, q, el, inl (p, p')) =
    let pos = two_pow_pos k in
    let (s', e, w', f) = merge_ordered-IsHeap w lo buddy k q p' el (rw p at fb) fy small in
    (s', merged _ lo buddy k, rw (p, le→ltb buddy lo (omega arith)) e, w', ground arith, f)
buddy_merge-IsHeap w b buddy k fb fy small (lo, q, el, inr (p, p')) =
    let pos = two_pow_pos k in
    let (s', e, w', f) = merge_ordered-IsHeap w lo b k q p el (rw p' at fy) fb small in
    (s', merged _ lo b k, rw (p', lt→ltb lo b (omega arith)) e, w', ground arith, f)

-- What a round of `__buddy_try_merge` finds, as equations.
module _ (s : Buddy) (rounds b k : ℕ) (o : (s.blocks b).order ≡ k) where
  try_merge-top : k ≡ buddy_max_order → try_merge_within (suc rounds) b s ≡ some s
  unfolding try_merge_within
  try_merge-top e = rw (o, eq→== k buddy_max_order e)

  try_merge-stop :
      k ≢ buddy_max_order
      → ((k ≡ (s.blocks (block2buddy b k)).order) × ((s.blocks (block2buddy b k)).refcnt ≡ 0) → ⊥)
      → try_merge_within (suc rounds) b s ≡ some s
  unfolding try_merge_within
  try_merge-stop ne h = rw (o, ne→== k buddy_max_order ne) (ground arith)

  try_merge-step :
      k ≢ buddy_max_order
      → k ≡ (s.blocks (block2buddy b k)).order
      → (s.blocks (block2buddy b k)).refcnt ≡ 0
      → (s.blocks b).refcnt ≡ 0
      → (lo : ℕ) (s' : Buddy) → buddy_merge b (block2buddy b k) s ≡ some (lo, s')
      → try_merge_within (suc rounds) b s ≡ try_merge_within rounds lo s'
  unfolding try_merge_within
  try_merge-step ne e z z' lo s' m =
      rw (o, ne→== k buddy_max_order ne, ← e, eq→== k k refl, z, z', m)

-- In a well-formed allocator, with a round for each order from that of a free block up to the largest,
-- the merging of it ends. The invariant holds again, and the blocks in use are as before.
pub try_merge_within-IsHeap :
    (rounds : ℕ) {s : Buddy} {roles : Roles} (w : IsHeap s roles) (b k : ℕ)
    → roles b ≡ free k
    → buddy_max_order < rounds + k
    → (s' : Buddy) × (roles' : Roles) × (try_merge_within rounds b s ≡ some s')
      × IsHeap s' roles'
      × Keeps s s' roles roles'
try_merge_within-IsHeap zero w b k f n = absurd (omega (arith, (free-RoleOk w b k f).2.0))
try_merge_within-IsHeap (suc rounds) {s} {roles} w b k f n =
    let r = free-RoleOk w b k f in
    let (q, e) = r.2.1 in
    let buddy = block2buddy b k in
    let halves = block2buddy-Halves b k q e in
    elim (ℕ_discrete k buddy_max_order) [
      | yes top ↦ (s, roles, try_merge-top s rounds b k r.1 top, w, Keeps-refl s roles)
      | no ne ↦ elim (ℕ_discrete k (s.blocks buddy).order) [
        | no d ↦ (s, roles, try_merge-stop s rounds b k r.1 ne (λ h. d h.0), w, Keeps-refl s roles)
        | yes same ↦ elim (ℕ_discrete (s.blocks buddy).refcnt 0) [
          | no d ↦
              (s, roles, try_merge-stop s rounds b k r.1 ne (λ h. d h.1), w, Keeps-refl s roles)
          | yes z ↦
              let small : k < buddy_max_order = omega (arith, r.2.0) in
              let inside : buddy < block_count = Halves-in b buddy k small halves r.2.2 in
              let fy : roles buddy ≡ free k =
                free_of_refcnt w buddy inside z ∙ ap free (sym same) in
              let (s', roles', m, w', f', g) = buddy_merge-IsHeap w b buddy k f fy small halves in
              let (s'', roles'', m', w'', g') =
                try_merge_within-IsHeap rounds w' halves.0 (suc k) f' (omega arith) in
              (
                s'',
                roles'',
                try_merge-step s rounds b k r.1 ne same z r.0 halves.0 s' m ∙ m',
                w'',
                Keeps-trans g g',
              )
        ]
      ]
    ]
