-- ===== src/Buddy/Client.antt =====
-- The allocator of src/kernel/buddy.c under any sequence of calls: what its client holds.
use jake.Common.{
  ℕ, ◌+◌, ◌-◌, ◌*◌, ◌^◌, ◌≤◌, ◌<◌, ◌≡◌, ◌≢◌, refl, sym, ap, ◌∙◌, arith, Option, none, some, [], ◌∷◌,
  dec_lt, ◌⊎◌, inl, inr, pos, ℤ, ℕ_discrete,
}
use mathlib.Core.Path.{subst}
use jake.Common.Bits.{two_pow_pos}
use jake.Buddy.{
  Buddy, block_count, buddy_max_order, phys_mem_start, phys_mem_page_order, buddy_init, buddy_alloc,
  buddy_free,
}
use jake.Buddy.Held.{
  Held, Holds, give_back, Apart, Holds-give_back, give_back-Holds, Apart-give_back,
}
use jake.Buddy.Roles.{Roles, free, used, IsHeap, free-RoleOk, used-RoleOk}
use jake.Buddy.Init.{buddy_init-IsHeap}
use jake.Buddy.Alloc.{Given, buddy_alloc-IsHeap}
use jake.Buddy.Free.{Released, buddy_free-last}

-- A run of the allocator: `__buddy_init` on a kernel image of `image` pages, then calls of buddy_alloc,
-- served or not, and of buddy_free on blocks that are held.
pub data Run (image : ℕ) : Buddy → Held → Type 0 where
  start :
      {s : Buddy}
      → buddy_init (phys_mem_start + image * 2 ^ phys_mem_page_order) ≡ some s
      → Run image s []
  served :
      {s s' : Buddy} {held : Held} (order b : ℕ)
      → Run image s held
      → order ≤ buddy_max_order
      → buddy_alloc order s ≡ (some b, s')
      → Run image s' ((b, order) ∷ held)
  refused :
      {s s' : Buddy} {held : Held} (order : ℕ)
      → Run image s held
      → order ≤ buddy_max_order
      → buddy_alloc order s ≡ (none, s')
      → Run image s' held
  returned :
      {s s' : Buddy} {held : Held} (b k : ℕ) (ret : ℤ)
      → Run image s held
      → Holds b k held
      → buddy_free b s ≡ some (ret, s')
      → Run image s' (give_back b held)

-- The allocator and its client agree: the pages of the image and of the stack are kept from the
-- client, what it holds is in use with one reference and all apart, and nothing else is in use.
pub record Owns (image : ℕ) (s : Buddy) (roles : Roles) (held : Held) : Type 0 where
  pub heap : IsHeap s roles
  pub image_kept : (a : ℕ) → a < image → roles a ≡ used 0
  pub stack_kept : roles (block_count - 1) ≡ used 0
  pub in_use : (b k : ℕ) → Holds b k held → (roles b ≡ used k) × ((s.blocks b).refcnt ≡ 1)
  pub place : (b k : ℕ) → Holds b k held → (image ≤ b) × (b + 2 ^ k ≤ block_count - 1)
  pub apart : Apart held
  pub complete : (a j : ℕ) → image ≤ a → a < block_count - 1 → roles a ≡ used j → Holds a j held

module _ {s : Buddy} {roles : Roles} (w : IsHeap s roles) where
  -- Blocks in use with different heads lie apart.
  pub used_apart : (a b j k : ℕ) → roles a ≡ used j → roles b ≡ used k → a < b → a + 2 ^ j ≤ b
  used_apart a b j k u v l = let r = used-RoleOk w a j u in ground (arith, r.2.3 b)

  -- A page of a free block is no head of a block in use.
  pub free_unused : (i k b j : ℕ) → roles i ≡ free k → i ≤ b → b < i + 2 ^ k → roles b ≢ used j
  free_unused i k b j f l h e = elim (ℕ_discrete i b) [
    | yes q ↦ ground (arith, f, e, ap roles q)
    | no q ↦ let r = free-RoleOk w i k f in ground (arith, r.2.3 b, e)
  ]

  used_either :
      (a b j k : ℕ)
      → roles a ≡ used j
      → roles b ≡ used k
      → a ≢ b
      → (a + 2 ^ j ≤ b) ⊎ (b + 2 ^ k ≤ a)
  used_either a b j k u v n = elim (dec_lt a b) [
    | yes l ↦ inl (used_apart a b j k u v l)
    | no l ↦ inr (used_apart b a k j v u (omega arith))
  ]

-- Each call keeps the agreement.
module _ (image : ℕ) (s s' : Buddy) (roles : Roles) (held : Held)
    (o : Owns image s roles held) where
  Given-Owns :
      (order b : ℕ) (roles' : Roles)
      → image < block_count
      → IsHeap s' roles'
      → Given s s' roles roles' order b
      → Owns image s' roles' ((b, order) ∷ held)
  Given-Owns order b roles' small w g =
      let (i, k, f, lo, up) = g.was_free in
      let pos_order = two_pow_pos order in
      let unused : (a j : ℕ) → roles a ≡ used j → a ≢ b =
        λ a j u q. free_unused o.heap i k a j f (omega arith) (omega arith) u in
      let new_apart : (c j : ℕ) → Holds c j held → (b + 2 ^ order ≤ c) ⊎ (c + 2 ^ j ≤ b) = λ c j h.
        let u = (o.in_use c j h).0 in
        used_either w b c order j g.block (g.stays c j u) (λ q. unused c j u (sym q)) in
      let above : image ≤ b = at_least b (λ l. unused b 0 (o.image_kept b l) refl) in
      let below : b + 2 ^ order ≤ block_count - 1 =
        let r = used-RoleOk w b order g.block in
        elim (used_either w b (block_count - 1) order 0 g.block (g.stays _ 0 o.stack_kept)
          (λ q. unused (block_count - 1) 0 o.stack_kept (sym q))) [
            | inl l ↦ l
            | inr l ↦ absurd (omega (arith, r.2.2, l))
          ] in
      record {
        heap = w;
        image_kept = λ a l. g.stays a 0 (o.image_kept a l);
        stack_kept = g.stays _ 0 o.stack_kept;
        in_use = λ a j h. elim h [
          | inl (p, q) ↦ (rw (p, q) g.block, rw p g.refcnt)
          | inr h' ↦ let (u, one) = o.in_use a j h' in (g.stays a j u, g.counts a j u ∙ one)
        ];
        place = λ a j h. elim h [ inl (p, q) ↦ rw (p, q) (above, below) | inr h' ↦ o.place a j h' ];
        apart = (new_apart, o.apart);
        complete = λ a j lo up u. elim (ℕ_discrete a b) [
          | yes q ↦ inl (q, used_inj j order (sym u ∙ ap roles' q ∙ g.block))
          | no q ↦ inr (o.complete a j lo up (g.only a j q u))
        ];
      }
    where
      at_least : (b : ℕ) → (b < image → ⊥) → image ≤ b
      at_least b n = ground (arith, n)

      used_inj : (j k : ℕ) → used j ≡ used k → j ≡ k
      used_inj j k e = cc

  Released-Owns :
      (b k : ℕ) (roles' : Roles)
      → Holds b k held
      → IsHeap s' roles'
      → Released s s' roles roles' b
      → Owns image s' roles' (give_back b held)
  Released-Owns b k roles' h w r =
      let (lo, up) = o.place b k h in
      let size = two_pow_pos k in
      record {
        heap = w;
        image_kept = λ a l. r.stays a 0 (λ q. absurd (omega arith)) (o.image_kept a l);
        stack_kept = r.stays _ 0 (λ q. absurd (omega (arith, q))) o.stack_kept;
        in_use = λ a j g.
            let (g', n) = Holds-give_back b a j held g in
            let (u, one) = o.in_use a j g' in (r.stays a j n u, r.counts a j n u ∙ one);
        place = λ a j g. o.place a j (Holds-give_back b a j held g).0;
        apart = Apart-give_back b held o.apart;
        complete = λ a j l m u.
            give_back-Holds b a j held (o.complete a j l m (r.only a j u))
              (λ q. r.gone j (ap roles' (sym q) ∙ u));
      }

-- The agreement behind a call with a result.
abbrev AfterAlloc : ℕ → ℕ → Held → Option ℕ × Buddy → Type 0
AfterAlloc image order held (some b, s) = (roles : Roles) × Owns image s roles ((b, order) ∷ held)
AfterAlloc image order held (none, s) = (roles : Roles) × Owns image s roles held

abbrev AfterFree : ℕ → ℕ → Held → Option (ℤ × Buddy) → Type 0
AfterFree image b held none = Unit
AfterFree image b held (some (ret, s)) = (roles : Roles) × Owns image s roles (give_back b held)

module _ (image : ℕ) (s : Buddy) (roles : Roles) (held : Held) (o : Owns image s roles held) where
  buddy_alloc-Owns :
      (order : ℕ)
      → image < block_count
      → order ≤ buddy_max_order
      → AfterAlloc image order held (buddy_alloc order s)
  buddy_alloc-Owns order small h = elim (buddy_alloc-IsHeap o.heap order h) [
    | inl (b, s', roles', e, w, g) ↦
        subst (λ (r : Option ℕ × Buddy). AfterAlloc image order held r) (sym e)
          (roles', Given-Owns image s s' roles held o order b roles' small w g)
    | inr (e, all) ↦
        subst (λ (r : Option ℕ × Buddy). AfterAlloc image order held r) (sym e) (roles, o)
  ]

  buddy_free-Owns : (b k : ℕ) → Holds b k held → AfterFree image b held (buddy_free b s)
  buddy_free-Owns b k h =
      let (u, one) = o.in_use b k h in
      let (s', roles', e, w, r) = buddy_free-last o.heap b k u one in
      subst (λ (r : Option (ℤ × Buddy)). AfterFree image b held r) (sym e)
        (roles', Released-Owns image s s' roles held o b k roles' h w r)

-- In every run on a kernel image that leaves the last page, of the initialisation and then of any
-- sequence of buddy_alloc, served or refused, and of buddy_free of blocks that the client holds: the
-- allocator stays well-formed, the pages
-- of the image and of the last page stay in use, the blocks that the client holds are in use with one
-- reference, lie between these pages and have no page in common, and no other block there is in use.
pub Run-Owns :
    {image : ℕ} {s : Buddy} {held : Held}
    → Run image s held
    → image < block_count
    → (roles : Roles) × Owns image s roles held
Run-Owns {image} (start {s = s} e) small =
    let (s₀, roles, e₀, w, kept, others, stack) = buddy_init-IsHeap image small in
    subst (λ (t : Buddy). (roles : Roles) × Owns image t roles []) (some_inj s₀ s (sym e₀ ∙ e))
      (
        roles,
        record {
          heap = w;
          image_kept = kept;
          stack_kept = stack;
          in_use = λ b k h. absurd h;
          place = λ b k h. absurd h;
          apart = tt;
          complete = λ a j lo up u. absurd (others a j lo up u);
        },
      )
  where
    some_inj : (s t : Buddy) → some s ≡ some t → s ≡ t
    some_inj s t e = cc
Run-Owns {image} (served {s = s₁} {held = held} order b run h e) small =
    let (roles, o) = Run-Owns run small in
    subst (λ (r : Option ℕ × Buddy). AfterAlloc image order held r) e
      (buddy_alloc-Owns image s₁ roles held o order small h)
Run-Owns {image} (refused {s = s₁} {held = held} order run h e) small =
    let (roles, o) = Run-Owns run small in
    subst (λ (r : Option ℕ × Buddy). AfterAlloc image order held r) e
      (buddy_alloc-Owns image s₁ roles held o order small h)
Run-Owns {image} (returned {s = s₁} {held = held} b k ret run h e) small =
    let (roles, o) = Run-Owns run small in
    subst (λ (r : Option (ℤ × Buddy)). AfterFree image b held r) e
      (buddy_free-Owns image s₁ roles held o b k h)

-- In every run on a kernel image that leaves the last page, a block that the client holds can be given
-- back: buddy_free ends with 0, merging included, and the run goes on without that block.
pub Run-returned :
    {image : ℕ} {s : Buddy} {held : Held} (b k : ℕ)
    → Run image s held
    → image < block_count
    → Holds b k held
    → (s' : Buddy) × (buddy_free b s ≡ some (pos 0, s')) × Run image s' (give_back b held)
Run-returned b k run small h =
    let (roles, o) = Run-Owns run small in
    let (u, one) = o.in_use b k h in
    let (s', roles', e, w, r) = buddy_free-last o.heap b k u one in
    (s', e, returned b k (pos 0) run h e)
