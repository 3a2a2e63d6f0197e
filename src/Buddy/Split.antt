-- ===== src/Buddy/Split.antt =====
-- `__buddy_split` and `buddy_split` of buddy.c: cutting a free block down to an order.
use native.Mathlib.Nat.{pow-suc}
use jake.Common.{
  ℕ, zero, suc, ◌+◌, ◌-◌, ◌*◌, ◌^◌, ◌≤◌, ◌≡◌, refl, ◌≢◌, some, arith, update, ◌∙◌, ap, ℤ, pos,
  fun_ext,
}
use jake.Common.Bits.{two_pow_pos, bit_xor_clear}
use jake.Buddy.{Buddy, buddy_push, split_block, split_popped, split_one, split_rounds, block2buddy}
use jake.Buddy.Roles.{Roles, inner, free, used, IsHeap, free-RoleOk, used-RoleOk}
use jake.Buddy.Unlink.{buddy_pop-IsHeap}
use jake.Buddy.Push.{buddy_push-Gave, Gave-IsHeap}
use jake.Buddy.Join.{reorder, parted, Part-IsHeap}
use jake.Buddy.Merge.{Keeps, Keeps-refl, Keeps-trans}

-- The roles after a free block has been cut in two free halves.
abbrev pub halved : Roles → ℕ → ℕ → ℕ → Roles
halved roles lo hi k = update (update roles lo (free k)) hi (free k)

block2buddy-double : (b k q : ℕ) → b ≡ q * 2 ^ suc k → block2buddy b k ≡ b + 2 ^ k
unfolding block2buddy
block2buddy-double b k q e =
    let h : b ≡ 2 * q * 2 ^ k = omega (arith, pow-suc 2 k, ap (λ (t : ℕ). q * t) (pow-suc 2 k)) in
    rw h (bit_xor_clear k q)

-- What `__buddy_split` does below the pop.
module _ {s : Buddy} {roles : Roles} (w : IsHeap s roles) (b k hi : ℕ) (eh : hi ≡ b + 2 ^ k)
    (u : roles b ≡ used (suc k)) where
  abbrev low : Buddy
  low = buddy_push b k (reorder s b k)

  abbrev both : Buddy
  both = buddy_push hi k low

  split_block-eq : split_block b s ≡ both
  unfolding split_block
  split_block-eq =
      let r = used-RoleOk w b (suc k) u in
      let (q, e) = r.2.1 in
      let g = buddy_push-Gave (reorder s b k) b k in
      let o : (low.blocks b).order ≡ k = g.order b ∙ ground arith in
      let p : suc k - 1 ≡ k = omega arith in rw (r.1, p, o, block2buddy-double b k q e, eh)

  split_popped-eq : split_popped (some b, s) ≡ (pos 0, both)
  unfolding split_popped
  split_popped-eq = ap (λ (t : Buddy). (pos 0, t)) split_block-eq

  both-IsHeap : IsHeap both (halved roles b hi k)
  both-IsHeap =
      let pos = two_pow_pos k in
      let w₁ = Part-IsHeap w b hi k eh u in
      let w₂ = Gave-IsHeap w₁ b k (ground arith) (buddy_push-Gave (reorder s b k) b k) in
      let w₃ = Gave-IsHeap w₂ hi k (ground arith) (buddy_push-Gave low hi k) in
      let same : update (update (parted roles b hi k) b (free k)) hi (free k)
          ≡ halved roles b hi k =
        fun_ext λ a. ground arith in
      rw same at w₃

  both-refcnt : (a : ℕ) → a ≢ b → a ≢ hi → (both.blocks a).refcnt ≡ (s.blocks a).refcnt
  both-refcnt a ne ne' =
      let g = buddy_push-Gave (reorder s b k) b k in
      let g' = buddy_push-Gave low hi k in g'.others a ne' ∙ g.others a ne ∙ ground arith

both-Keeps :
    {s s₀ : Buddy} {roles : Roles} (b k hi : ℕ)
    → roles b ≡ free (suc k)
    → roles hi ≡ inner
    → ((a : ℕ) → a ≢ b → a ≢ hi → (s.blocks a).refcnt ≡ (s₀.blocks a).refcnt)
    → Keeps s₀ s roles (halved roles b hi k)
both-Keeps b k hi f i same = record {
  stays = λ a j e. ground arith;
  counts = λ a j e. same a (λ p. ground arith) (λ p. ground arith);
  only = λ a j e. ground arith;
}

-- `__buddy_split` cuts the first free block of its order in two, the upper half in front.
pub split_one-IsHeap :
    {s : Buddy} {roles : Roles} (w : IsHeap s roles) (b k : ℕ)
    → s.free_lists (suc k) ≡ some b
    → (s' : Buddy) × (roles' : Roles) × (split_one (suc k) s ≡ (pos 0, s'))
      × IsHeap s' roles'
      × Keeps s s' roles roles'
      × (s'.free_lists k ≡ some (b + 2 ^ k))
unfolding split_one
split_one-IsHeap {s} {roles} w b k e =
    let (f, p, w₁, t) = buddy_pop-IsHeap w b (suc k) e in
    let u : update roles b (used (suc k)) b ≡ used (suc k) = ground arith in
    let hi = b + 2 ^ k in
    let i : roles hi ≡ inner =
      (free-RoleOk w b (suc k) f).2.3 hi (omega (arith, two_pow_pos k))
        (omega (arith, pow-suc 2 k, two_pow_pos k)) in
    let g = buddy_push-Gave (low w₁ b k hi refl u) hi k in
    let same : halved (update roles b (used (suc k))) b hi k ≡ halved roles b hi k =
      fun_ext λ a. ground arith in
    (
      both w₁ b k hi refl u,
      halved roles b hi k,
      ap split_popped p ∙ split_popped-eq w₁ b k hi refl u,
      rw same at (both-IsHeap w₁ b k hi refl u),
      both-Keeps b k hi f i (λ a ne ne'. both-refcnt w₁ b k hi refl u a ne ne' ∙ t.others a ne),
      g.head,
    )

split_rounds-next :
    (n d : ℕ) (s s' : Buddy)
    → split_one (d + suc n) s ≡ (pos 0, s')
    → split_rounds (suc n) d s ≡ split_rounds n d s'
unfolding split_rounds
split_rounds-next n d s s' e = rw (e, split_rounds) (ap (λ (r : ℤ × Buddy). split_rounds n d r.1) e)

-- In a well-formed allocator, `buddy_split` from an order with a free block succeeds, leaves a
-- well-formed allocator with the same blocks in use, and leaves a free block of the desired order, cut
-- from the first free block of the order that it started at, in front of its list.
pub split_rounds-IsHeap :
    (n desired b : ℕ) {s : Buddy} {roles : Roles} (w : IsHeap s roles)
    → s.free_lists (desired + n) ≡ some b
    → (s' : Buddy) × (roles' : Roles) × (c : ℕ) × (split_rounds n desired s ≡ (pos 0, s'))
      × IsHeap s' roles'
      × Keeps s s' roles roles'
      × (s'.free_lists desired ≡ some c)
      × (b ≤ c)
      × (c + 2 ^ desired ≤ b + 2 ^ (desired + n))
unfolding split_rounds
split_rounds-IsHeap zero d b {s} {roles} w e =
    let z : d + 0 ≡ d = omega arith in
    (s, roles, b, refl, w, Keeps-refl s roles, rw z at e, omega arith, rw z (omega arith))
split_rounds-IsHeap (suc n) d b {s} {roles} w e =
    let z : d + suc n ≡ suc (d + n) = omega arith in
    let (s₁, roles₁, p, w₁, f, h) = split_one-IsHeap w b (d + n) (rw z at e) in
    let (s', roles', c, p', w', f', h', lo, up) = split_rounds-IsHeap n d (b + 2 ^ (d + n)) w₁ h in
    (
      s',
      roles',
      c,
      split_rounds-next n d s s₁ (ap (λ (t : ℕ). split_one t s) z ∙ p) ∙ p',
      w',
      Keeps-trans f f',
      h',
      omega arith,
      rw z (omega (arith, pow-suc 2 (d + n))),
    )
