-- ===== src/Buddy/Tests.antt =====
-- The allocator of src/kernel/buddy.c on concrete states.
use jake.Common.{
  ℕ, ◌+◌, ◌-◌, ◌*◌, ◌^◌, ◌≤◌, ◌<◌, ◌≡◌, ◌≢◌, refl, none, some, arith, pos, [], ◌∷◌, update, ltb,
  Bool-cases, inl, inr, ◌⊎◌, ltb→lt, ltb→le,
}
use jake.Buddy.Client.{Run, start, served, Owns, Run-Owns, Run-returned}
use jake.Buddy.{
  free_pages, free_at, phys2block, buddy_try_merge, block2buddy, find_smallest_free_order,
  find_free_from, alloc_from, buddy_split, buddy_pop, unlink_head, Buddy, block_count,
  phys_mem_start, phys_mem_page_order, fresh_block, buddy_push, buddy_free, buddy_alloc,
  buddy_remove, buddy_init, split_rounds, try_merge_within, merge_ordered,
}
use jake.Buddy.Roles.{Roles, RoleOk, free, used, IsHeap}
use jake.Buddy.Push.{buddy_push-Gave, Gave-IsHeap}
use jake.Buddy.Merge.{Keeps, merged, merge_ordered-IsHeap}
use jake.Buddy.Remove.{Removed, buddy_remove-Removed}
use jake.Buddy.TryMerge.{try_merge_within-IsHeap}
use jake.Buddy.Free.{Released, buddy_free-last}
use jake.Buddy.Alloc.{Given, buddy_alloc-IsHeap}
use jake.Buddy.Init.{first_state, first_roles, first-IsHeap, buddy_init-IsHeap}

-- Block 6 is free, then block 7 too, and then both are one free block of order 1.
abbrev one_free : Buddy
one_free = buddy_push 6 0 first_state

abbrev one_free_roles : Roles
one_free_roles = update first_roles 6 (free 0)

one_free-IsHeap : IsHeap one_free one_free_roles
one_free-IsHeap = Gave-IsHeap first-IsHeap 6 0 refl (buddy_push-Gave first_state 6 0)

abbrev two_free : Buddy
two_free = buddy_push 7 0 one_free

abbrev two_free_roles : Roles
two_free_roles = update one_free_roles 7 (free 0)

two_free-IsHeap : IsHeap two_free two_free_roles
two_free-IsHeap = Gave-IsHeap one_free-IsHeap 7 0 refl (buddy_push-Gave one_free 7 0)

pair_merged :
    (s' : Buddy) × (merge_ordered 6 7 two_free ≡ some (6, s'))
    × IsHeap s' (merged two_free_roles 6 7 0)
    × Keeps two_free s' two_free_roles (merged two_free_roles 6 7 0)
pair_merged = merge_ordered-IsHeap two_free-IsHeap 6 7 0 3 refl refl refl refl (omega arith)

-- All blocks are in use with two references.
abbrev shared_state : Buddy
shared_state = record { free_lists = λ _. none; blocks = λ _. record fresh_block { refcnt = 2 } }

shared_ok : (i : ℕ) → RoleOk first_roles i (record fresh_block { refcnt = 2 }) (first_roles i)
shared_ok i = elim (Bool-cases (ltb i block_count)) [
  | inl h ↦ rw h (
    omega arith,
    refl,
    (
      omega arith,
      (i, omega arith),
      omega (arith, ltb→lt i block_count h),
      λ m p q. absurd (omega arith),
    ),
  )
  | inr h ↦ rw h (ltb→le i block_count h)
]

shared-IsHeap : IsHeap shared_state first_roles
shared-IsHeap = record {
  lists = λ _. [];
  chain = λ k. refl;
  distinct = λ k. tt;
  listed = λ k i. ground arith;
  ok = shared_ok;
}

buddy_free-last_example :
    (s' : Buddy) × (roles' : Roles) × (buddy_free 7 one_free ≡ some (pos 0, s'))
    × IsHeap s' roles'
    × Released one_free s' one_free_roles roles' 7
unfolding buddy_push
buddy_free-last_example = buddy_free-last one_free-IsHeap 7 0 refl refl

buddy_alloc-IsHeap_example :
    ((b : ℕ) × (s' : Buddy) × (roles' : Roles) × (buddy_alloc 0 one_free ≡ (some b, s'))
      × IsHeap s' roles'
      × Given one_free s' one_free_roles roles' 0 b)
    ⊎ ((buddy_alloc 0 one_free ≡ (none, one_free))
        × ((i k : ℕ) → one_free_roles i ≡ free k → k < 0))
buddy_alloc-IsHeap_example = buddy_alloc-IsHeap one_free-IsHeap 0 (omega arith)

buddy_init-IsHeap_example :
    (s : Buddy) × (roles : Roles) × (buddy_init (phys_mem_start + 20 * 2 ^ phys_mem_page_order)
      ≡ some s)
    × IsHeap s roles
    × ((a : ℕ) → a < 20 → roles a ≡ used 0)
    × ((a j : ℕ) → 20 ≤ a → a < block_count - 1 → roles a ≢ used j)
    × (roles (block_count - 1) ≡ used 0)
buddy_init-IsHeap_example = buddy_init-IsHeap 20 (omega arith)

try_merge_within-IsHeap_example :
    (s' : Buddy) × (roles' : Roles) × (try_merge_within 14 7 two_free ≡ some s')
    × IsHeap s' roles'
    × Keeps two_free s' two_free_roles roles'
try_merge_within-IsHeap_example = try_merge_within-IsHeap 14 two_free-IsHeap 7 0 refl (omega arith)

buddy_remove-Removed_example :
    (s' : Buddy) × (buddy_remove 6 0 two_free ≡ some (some 6, s'))
    × Removed two_free s' 0 6 (7 ∷ 6 ∷ []) (7 ∷ [])
unfolding buddy_push
buddy_remove-Removed_example =
    buddy_remove-Removed two_free 0 6 (7 ∷ []) [] (refl, (refl, refl)) (refl, (refl, tt))
      (omega arith)

-- A kernel image that leaves one page, which a client gets.
abbrev one_page : Buddy
one_page = buddy_push 8190 0 (record { free_lists = λ _. none; blocks = λ _. fresh_block })

one_page_ready : buddy_init (phys_mem_start + 8190 * 2 ^ phys_mem_page_order) ≡ some one_page
unfolding buddy_init free_pages buddy_free free_at phys2block buddy_try_merge try_merge_within
    block2buddy buddy_push
one_page_ready = refl

abbrev page_taken : Buddy
page_taken = (buddy_alloc 0 one_page).1

page_served : buddy_alloc 0 one_page ≡ (some 8190, page_taken)
unfolding buddy_alloc find_smallest_free_order find_free_from alloc_from buddy_split split_rounds
    buddy_pop unlink_head buddy_push
page_served = refl

abbrev page_run : Run 8190 page_taken ((8190, 0) ∷ [])
page_run = served 0 8190 (start one_page_ready) (omega arith) page_served

Run-Owns_example : (roles : Roles) × Owns 8190 page_taken roles ((8190, 0) ∷ [])
Run-Owns_example = Run-Owns page_run (omega arith)

Run-returned_example :
    (s' : Buddy) × (buddy_free 8190 page_taken ≡ some (pos 0, s')) × Run 8190 s' []
Run-returned_example = Run-returned 8190 0 page_run (omega arith) (inl (refl, refl))
