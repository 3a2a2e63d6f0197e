-- ===== src/Buddy/Merge.antt =====
-- `__buddy_merge` and `__buddy_try_merge` of buddy.c keep the invariant and end.
use jake.Common.{
  ℕ, suc, ◌+◌, ◌*◌, ◌^◌, ◌<◌, ◌≡◌, refl, ◌≢◌, some, arith, update, sym, ◌∙◌, eq→==, fun_ext,
}
use jake.Common.Bits.{two_pow_pos}
use jake.Buddy.{Buddy, buddy_remove, buddy_max_order, buddy_push, merge_ordered}
use jake.Buddy.Roles.{Roles, inner, free, used, IsHeap, free-RoleOk}
use jake.Buddy.Unlink.{buddy_remove-IsHeap, Took}
use jake.Buddy.Push.{buddy_push-Gave, Gave-IsHeap}
use jake.Buddy.Join.{reorder, Join-IsHeap, joined}

-- The blocks in use stay in use, with their orders and counters, and no block comes into use.
pub record Keeps (s s' : Buddy) (roles roles' : Roles) : Type 0 where
  pub stays : (a j : ℕ) → roles a ≡ used j → roles' a ≡ used j
  pub counts : (a j : ℕ) → roles a ≡ used j → (s'.blocks a).refcnt ≡ (s.blocks a).refcnt
  pub only : (a j : ℕ) → roles' a ≡ used j → roles a ≡ used j

pub Keeps-trans : {s t u : Buddy} {p q r : Roles} → Keeps s t p q → Keeps t u q r → Keeps s u p r
Keeps-trans f g = record {
  stays = λ a j e. g.stays a j (f.stays a j e);
  counts = λ a j e. g.counts a j (f.stays a j e) ∙ f.counts a j e;
  only = λ a j e. f.only a j (g.only a j e);
}

pub Keeps-refl : (s : Buddy) (p : Roles) → Keeps s s p p
Keeps-refl s p = record { stays = λ a j e. e; counts = λ a j e. refl; only = λ a j e. e }

-- The roles after two free buddies have become one free block.
abbrev pub merged : Roles → ℕ → ℕ → ℕ → Roles
merged roles lo hi k = update (update roles hi inner) lo (free (suc k))

module _ {s s₁ s₂ : Buddy} {roles : Roles} (w : IsHeap s roles) (lo hi k q : ℕ)
    (eh : hi ≡ lo + 2 ^ k) (el : lo ≡ 2 * q * 2 ^ k) (fl : roles lo ≡ free k)
    (fh : roles hi ≡ free k) (small : k < buddy_max_order) (ne : lo ≢ hi)
    (e₁ : buddy_remove hi k s ≡ some (some hi, s₁)) (t₁ : Took s s₁ hi k)
    (e₂ : buddy_remove lo k s₁ ≡ some (some lo, s₂)) (t₂ : Took s₁ s₂ lo k)
    (w₂ : IsHeap s₂ (update (update roles hi (used k)) lo (used k))) where
  merge_result : Buddy
  merge_result = buddy_push lo (suc k) (reorder s₂ lo (suc k))

  merge_ordered-eq : merge_ordered lo hi s ≡ some (lo, merge_result)
  unfolding merge_ordered merge_result
  merge_ordered-eq =
      let o = (free-RoleOk w lo k fl).1 in
      let o₂ : (s₂.blocks lo).order ≡ k = t₂.order lo ∙ t₁.order lo ∙ o in
      let p : k + 1 ≡ suc k = omega arith in rw (o, e₁, e₂, eq→== lo lo refl, o₂, p)

  merge_result-IsHeap : IsHeap merge_result (merged roles lo hi k)
  unfolding merge_result
  merge_result-IsHeap =
      let w₃ =
        Join-IsHeap w₂ lo hi k q eh el (ground arith) (ground arith)
          (t₂.others hi (λ e. ne (sym e)) ∙ t₁.refcnt) small in
      let g = buddy_push-Gave (reorder s₂ lo (suc k)) lo (suc k) in
      let same : update (joined (update (update roles hi (used k)) lo (used k)) lo hi k) lo
            (free (suc k))
          ≡ merged roles lo hi k =
        fun_ext λ a. ground arith in
      rw same at (Gave-IsHeap w₃ lo (suc k) (ground arith) g)

  merge_result-Keeps : Keeps s merge_result roles (merged roles lo hi k)
  unfolding merge_result
  merge_result-Keeps =
      let g = buddy_push-Gave (reorder s₂ lo (suc k)) lo (suc k) in
      record {
        stays = λ a j e. ground arith;
        counts = λ a j e. ground (arith, g.others a, t₂.others a, t₁.others a);
        only = λ a j e. ground arith;
      }

module _ {s : Buddy} {roles : Roles} (w : IsHeap s roles) (lo hi k q : ℕ) (eh : hi ≡ lo + 2 ^ k)
    (el : lo ≡ 2 * q * 2 ^ k) (fl : roles lo ≡ free k) (fh : roles hi ≡ free k)
    (small : k < buddy_max_order) where
  -- Two free buddies become one free block of the next order.
  pub merge_ordered-IsHeap :
      (s' : Buddy) × (merge_ordered lo hi s ≡ some (lo, s'))
      × IsHeap s' (merged roles lo hi k)
      × Keeps s s' roles (merged roles lo hi k)
  merge_ordered-IsHeap =
      let ne : lo ≢ hi = λ e. ground (arith, two_pow_pos k) in
      let (s₁, e₁, w₁, t₁) = buddy_remove-IsHeap w hi k fh in
      let (s₂, e₂, w₂, t₂) = buddy_remove-IsHeap w₁ lo k (ground arith) in
      (
        merge_result w lo hi k q eh el fl fh small ne e₁ t₁ e₂ t₂ w₂,
        merge_ordered-eq w lo hi k q eh el fl fh small ne e₁ t₁ e₂ t₂ w₂,
        merge_result-IsHeap w lo hi k q eh el fl fh small ne e₁ t₁ e₂ t₂ w₂,
        merge_result-Keeps w lo hi k q eh el fl fh small ne e₁ t₁ e₂ t₂ w₂,
      )
