-- ===== src/Buddy/Init.antt =====
-- `__buddy_init` of buddy.c: from all blocks in use to the first state of the allocator.
use jake.Common.{
  ℕ, zero, suc, ◌+◌, ◌-◌, ◌*◌, ◌/◌, ◌^◌, ◌≤◌, ◌<◌, ◌≡◌, refl, ◌≢◌, none, some, arith, ◌∙◌, ap, pos,
  [], Bool-cases, inl, inr, if◌then◌else◌, ltb, ltb→lt, ltb→le, lt→ltb, ℕ_discrete,
}
use jake.Buddy.{
  Buddy, block_count, buddy_free, buddy_init, free_pages, phys2block, fresh_block, phys_mem_start,
  phys_mem_end, phys_mem_kernel_stack_size, phys_mem_page_order,
}
use jake.Buddy.Roles.{Roles, RoleOk, outside, used, IsHeap}
use jake.Buddy.Free.{buddy_free-last}

-- Before the pages are freed: every block is in use, with order 0.
abbrev pub first_roles : Roles
first_roles i = if ltb i block_count then used 0 else outside

abbrev pub first_state : Buddy
first_state = record { free_lists = λ _. none; blocks = λ _. fresh_block }

first_ok : (i : ℕ) → RoleOk first_roles i fresh_block (first_roles i)
first_ok i = elim (Bool-cases (ltb i block_count)) [
  | inl h ↦ rw h (
    omega arith,
    refl,
    (
      omega arith,
      (i, omega arith),
      omega (arith, ltb→lt i block_count h),
      λ m p q. absurd (omega arith),
    ),
  )
  | inr h ↦ rw h (ltb→le i block_count h)
]

pub first-IsHeap : IsHeap first_state first_roles
first-IsHeap = record {
  lists = λ _. [];
  chain = λ k. refl;
  distinct = λ k. tt;
  listed = λ k i. ground arith;
  ok = first_ok;
}

-- The blocks from `b` on are in use, with order 0 and one reference.
abbrev Untouched : Buddy → Roles → ℕ → Type 0
Untouched s roles b =
    (a : ℕ) → b ≤ a → a < block_count → (roles a ≡ used 0) × ((s.blocks a).refcnt ≡ 1)

-- The outcome of freeing the pages of the blocks from `b` up to `e`.
record Opened (roles roles' : Roles) (b e : ℕ) : Type 0 where
  freed : (a j : ℕ) → b ≤ a → a < e → roles' a ≢ used j
  below : (a j : ℕ) → a < b → roles a ≡ used j → roles' a ≡ used j
  only : (a j : ℕ) → roles' a ≡ used j → roles a ≡ used j

phys2block-image :
    (image : ℕ) → phys2block (phys_mem_start + image * 2 ^ phys_mem_page_order) ≡ image
unfolding phys2block
phys2block-image image = omega arith

phys2block-next :
    (phys : ℕ)
    → phys_mem_start ≤ phys
    → phys2block (phys + 2 ^ phys_mem_page_order) ≡ suc (phys2block phys)
unfolding phys2block
phys2block-next phys h = omega arith

free_pages-next :
    (n phys b : ℕ) (s s' : Buddy)
    → phys2block phys ≡ b
    → buddy_free b s ≡ some (pos 0, s')
    → free_pages (suc n) phys s ≡ free_pages n (phys + 2 ^ phys_mem_page_order) s'
unfolding free_pages
free_pages-next n phys b s s' e p = rw (e, p)

free_pages-IsHeap :
    (n phys b : ℕ) {s : Buddy} {roles : Roles} (w : IsHeap s roles)
    → Untouched s roles b
    → phys2block phys ≡ b
    → phys_mem_start ≤ phys
    → b + n ≤ block_count
    → (s' : Buddy) × (roles' : Roles) × (free_pages n phys s ≡ some s')
      × IsHeap s' roles'
      × Untouched s' roles' (b + n)
      × Opened roles roles' b (b + n)
unfolding free_pages
free_pages-IsHeap zero phys b {s} {roles} w u e h n = (
  s,
  roles,
  refl,
  w,
  λ a p q. u a (omega arith) q,
  record { freed = λ a j p q. absurd (omega arith); below = λ a j p q. q; only = λ a j p. p },
)
free_pages-IsHeap (suc n) phys b {s} {roles} w u e h fits =
    let now = u b (omega arith) (omega arith) in
    let (s₁, roles₁, p, w₁, r) = buddy_free-last w b 0 now.0 now.1 in
    let u₁ : Untouched s₁ roles₁ (suc b) = λ a lo up.
      let x = u a (omega arith) up in
      (
        r.stays a 0 (λ q. absurd (omega arith)) x.0,
        r.counts a 0 (λ q. absurd (omega arith)) x.0 ∙ x.1,
      ) in
    let (s', roles', p', w', u', o) =
      free_pages-IsHeap n (phys + 2 ^ phys_mem_page_order) (suc b) w₁ u₁
        (phys2block-next phys h ∙ ap suc e) (omega arith) (omega arith) in
    (
      s',
      roles',
      free_pages-next n phys b s s₁ e p ∙ p',
      w',
      λ a lo up. u' a (omega arith) up,
      record {
        freed = λ a j lo up. elim (ℕ_discrete a b) [
          | yes q ↦ rw q (λ x. r.gone j (o.only b j x))
          | no q ↦ o.freed a j (omega arith) (omega arith)
        ];
        below = λ a j lo x. o.below a j (omega arith) (r.stays a j (λ q. absurd (omega arith)) x);
        only = λ a j x. r.only a j (o.only a j x);
      },
    )

-- With the end of the kernel's image page-aligned and below its stack, `__buddy_init` ends and
-- establishes the invariant: the blocks of the image and of the stack stay in use, the rest is free.
pub buddy_init-IsHeap :
    (image : ℕ)
    → image < block_count
    → (s : Buddy) × (roles : Roles) × (buddy_init (phys_mem_start + image * 2 ^ phys_mem_page_order)
        ≡ some s)
      × IsHeap s roles
      × ((a : ℕ) → a < image → roles a ≡ used 0)
      × ((a j : ℕ) → image ≤ a → a < block_count - 1 → roles a ≢ used j)
      × (roles (block_count - 1) ≡ used 0)
unfolding buddy_init
buddy_init-IsHeap image h =
    let n = block_count - 1 - image in
    let rounds : (phys_mem_end
            - phys_mem_kernel_stack_size
            + 2 ^ phys_mem_page_order
            - 1
            - (phys_mem_start + image * 2 ^ phys_mem_page_order))
          / 2 ^ phys_mem_page_order
        ≡ n =
      omega arith in
    let u : Untouched first_state first_roles image =
      λ a lo up. (rw (lt→ltb a block_count up), refl) in
    let (s, roles, p, w, u', o) =
      free_pages-IsHeap n (phys_mem_start + image * 2 ^ phys_mem_page_order) image first-IsHeap u
        (phys2block-image image) (omega arith) (omega arith) in
    (
      s,
      roles,
      ap (λ (t : ℕ). free_pages t (phys_mem_start + image * 2 ^ phys_mem_page_order) first_state)
            rounds
          ∙ p,
      w,
      λ a q. o.below a 0 q (rw (lt→ltb a block_count (omega arith))),
      λ a j lo up. o.freed a j lo (omega arith),
      (u' (block_count - 1) (omega arith) (omega arith)).0,
    )
