-- ===== src/Pt/Salloc.antt =====
-- `pt_salloc` of src/kernel/pt.c, the allocator of small objects.
use jake.Common.{
  ℕ, suc, ◌+◌, ◌<◌, ◌≤◌, ◌≡◌, ◌≢◌, refl, sym, ap, ◌∙◌, arith, true, false, Option, none, some, ltb,
  ◌==◌, ◌⊎◌, inl, inr, ℕ_discrete, dec_le,
}
use jake.Machine.{page_size, Machine, phys2kvirt, is_paging_enabled}
use jake.Buddy.{Buddy, buddy_alloc}
use jake.Pt.Entry.{level2order, level2size, page_normal}
use jake.Pt.Alloc.{zero_fill, alloc_block, pt_alloc, salloc_page, salloc_within, pt_salloc}

-- What a piece of `size` bytes at `v` is, after it was served: bytes `off` to `off + size` of the
-- current page, which are the last that the cursor has passed. They begin where the cursor stood, or
-- at the start of the page that pt_alloc gives, where there was no page or no room in it.
pub record Served (size v : ℕ) (s s' : Machine) : Type 0 where
  pub off : ℕ
  pub place : v ≡ phys2kvirt s' (s'.salloc_base + off)
  pub cursor : s'.salloc_cursor ≡ off + size
  pub inside : off + size ≤ page_size
  pub page : s'.salloc_base ≢ 0
  pub fresh :
      ((s'.salloc_base ≡ s.salloc_base) × (off ≡ s.salloc_cursor))
      ⊎ ((off ≡ 0)
          × (s'.salloc_base ≡ (pt_alloc page_normal s).0)
          × ((s.salloc_base ≡ 0) ⊎ (page_size < s.salloc_cursor + size)))

alloc_block-cursor :
    (level : ℕ) (r : Option ℕ × Buddy) (s : Machine)
    → (alloc_block level r s).1.salloc_cursor ≡ s.salloc_cursor
unfolding alloc_block zero_fill
alloc_block-cursor level (none, b) s = refl
alloc_block-cursor level (some block, b) s = refl

alloc_block-page :
    (level : ℕ) (r : Option ℕ × Buddy) (s : Machine)
    → (alloc_block level r (record s { salloc_base = 0; salloc_cursor = 0 })).0
      ≡ (alloc_block level r s).0
unfolding alloc_block
alloc_block-page level (none, b) s = refl
alloc_block-page level (some block, b) s = refl

salloc_page-cursor : (s : Machine) → (salloc_page s).salloc_cursor ≡ s.salloc_cursor
unfolding salloc_page pt_alloc
salloc_page-cursor s = elim (ℕ_discrete s.salloc_base 0) [
  | yes e ↦
      let f : (s.salloc_base == 0) ≡ true = ground arith in
      rw f (alloc_block-cursor page_normal (buddy_alloc (level2order page_normal) s.buddy) s)
  | no n ↦ let f : (s.salloc_base == 0) ≡ false = ground arith in rw f refl
]

salloc_page-new :
    (s : Machine) → s.salloc_base ≡ 0 → (salloc_page s).salloc_base ≡ (pt_alloc page_normal s).0
unfolding salloc_page
salloc_page-new s e = let f : (s.salloc_base == 0) ≡ true = ground arith in rw f refl

-- The page that pt_alloc gives does not hang on the one that is there.
pt_alloc-page :
    (s : Machine)
    → (pt_alloc page_normal (record s { salloc_base = 0; salloc_cursor = 0 })).0
      ≡ (pt_alloc page_normal s).0
unfolding pt_alloc
pt_alloc-page s = given (buddy_alloc (level2order page_normal) s.buddy)
  where
    given :
        (r : Option ℕ × Buddy)
        → (alloc_block page_normal r (record s { salloc_base = 0; salloc_cursor = 0 })).0
          ≡ (alloc_block page_normal r s).0
    given r = alloc_block-page page_normal r s

-- A page that is there stays.
salloc_page-kept : (s : Machine) → s.salloc_base ≢ 0 → salloc_page s ≡ s
unfolding salloc_page
salloc_page-kept s n = let f : (s.salloc_base == 0) ≡ false = ground arith in rw f refl

-- What `pt_salloc` answers: NULL with no page kept, or a piece.
abbrev pub Answer : ℕ → Machine → Option (ℕ × Machine) → Type 0
Answer size s r =
    ((s' : Machine) × (r ≡ some (0, s')) × (s'.salloc_base ≡ 0) × (s'.salloc_cursor ≡ 0))
    ⊎ ((v : ℕ) × (s' : Machine) × (r ≡ some (v, s')) × Served size v s s')

-- A round with room in the page.
module _ (size : ℕ) (s : Machine) (positive : 0 < size) (fits : size ≤ page_size) where
  salloc_within-room :
      (rounds : ℕ)
      → (salloc_page s).salloc_base ≢ 0
      → s.salloc_cursor + size ≤ page_size
      → ((salloc_page s).salloc_base ≡ s.salloc_base)
        ⊎ ((s.salloc_cursor ≡ 0) × (s.salloc_base ≡ 0))
      → Answer size s (salloc_within (suc rounds) size s)
  unfolding salloc_within phys2kvirt is_paging_enabled
  salloc_within-room rounds page room fresh =
      let s₁ = salloc_page s in
      let a : (size == 0) ≡ false = ground arith in
      let b : ltb (level2size page_normal) size ≡ false = ground arith in
      let c : (s₁.salloc_base == 0) ≡ false = ground arith in
      let d : ltb (level2size page_normal) (s₁.salloc_cursor + size) ≡ false =
        ground (arith, salloc_page-cursor s) in
      inr (
        phys2kvirt s₁ (s₁.salloc_base + s₁.salloc_cursor),
        record s₁ { salloc_cursor = s₁.salloc_cursor + size },
        rw (a, b, c, d) refl,
        record {
          off = s₁.salloc_cursor;
          place = refl;
          cursor = refl;
          inside = omega (arith, salloc_page-cursor s);
          page = page;
          fresh = elim fresh [
            | inl e ↦ inl (e, salloc_page-cursor s)
            | inr (e, no_page) ↦
                inr (salloc_page-cursor s ∙ e, salloc_page-new s no_page, inl no_page)
          ];
        },
      )

  salloc_within-empty :
      (rounds : ℕ)
      → s.salloc_cursor ≡ 0
      → (salloc_page s).salloc_base ≡ 0
      → Answer size s (salloc_within (suc rounds) size s)
  unfolding salloc_within
  salloc_within-empty rounds start out =
      let a : (size == 0) ≡ false = ground arith in
      let b : ltb (level2size page_normal) size ≡ false = ground arith in
      let c : ((salloc_page s).salloc_base == 0) ≡ true = ground arith in
      inl (salloc_page s, rw (a, b, c) refl, out, salloc_page-cursor s ∙ start)

  salloc_within-full :
      (rounds : ℕ)
      → (salloc_page s).salloc_base ≢ 0
      → page_size < s.salloc_cursor + size
      → salloc_within (suc rounds) size s
        ≡ salloc_within rounds size (record (salloc_page s) { salloc_base = 0; salloc_cursor = 0 })
  unfolding salloc_within
  salloc_within-full rounds page over =
      let a : (size == 0) ≡ false = ground arith in
      let b : ltb (level2size page_normal) size ≡ false = ground arith in
      let c : ((salloc_page s).salloc_base == 0) ≡ false = ground arith in
      let d : ltb (level2size page_normal) ((salloc_page s).salloc_cursor + size) ≡ true =
        ground (arith, salloc_page-cursor s) in
      rw (a, b, c, d) refl

-- A round that begins with no page.
salloc_within-start :
    (rounds size : ℕ) (s : Machine)
    → 0 < size
    → size ≤ page_size
    → s.salloc_cursor ≡ 0
    → s.salloc_base ≡ 0
    → Answer size s (salloc_within (suc rounds) size s)
salloc_within-start rounds size s positive fits start no_page =
    elim (ℕ_discrete (salloc_page s).salloc_base 0) [
      | yes e ↦ salloc_within-empty size s positive fits rounds start e
      | no n ↦ salloc_within-room size s positive fits rounds n (omega arith) (inr (start, no_page))
    ]

-- The piece that a new page serves, seen from the state whose page had no room.
from_new_page :
    (size : ℕ) (s : Machine) (r : Option (ℕ × Machine))
    → page_size < s.salloc_cursor + size
    → Answer size (record s { salloc_base = 0; salloc_cursor = 0 }) r
    → Answer size s r
from_new_page size s r over (inl e) = inl e
from_new_page size s r over (inr (v, s', e, served)) = inr (
  v,
  s',
  e,
  record {
    off = served.off;
    place = served.place;
    cursor = served.cursor;
    inside = served.inside;
    page = served.page;
    fresh = elim served.fresh [
      | inl (same, at) ↦ absurd (served.page same)
      | inr (start, new, reason) ↦ inr (start, new ∙ pt_alloc-page s, inr over)
    ];
  },
)

-- For every size from 1 byte to a page, `pt_salloc` ends within its two rounds. Either it answers
-- NULL, and keeps no page; or it serves a piece that lies inside of its page, behind all that it
-- served of this page before; or at the start of the page that pt_alloc gives, where there was no page
-- before or no room in it. The cursor is 0 before while there is no page, and so it is after NULL.
pub pt_salloc-Answer :
    (size : ℕ) (s : Machine)
    → 0 < size
    → size ≤ page_size
    → (s.salloc_base ≡ 0 → s.salloc_cursor ≡ 0)
    → Answer size s (pt_salloc size s)
unfolding pt_salloc
pt_salloc-Answer size s positive fits start = elim (ℕ_discrete s.salloc_base 0) [
  | yes e ↦ salloc_within-start 1 size s positive fits (start e) e
  | no n ↦
      let kept = salloc_page-kept s n in
      let page : (salloc_page s).salloc_base ≢ 0 =
        λ z. n (sym (ap (λ (m : Machine). m.salloc_base) kept) ∙ z) in
      elim (dec_le (s.salloc_cursor + size) page_size) [
        | yes room ↦
            salloc_within-room size s positive fits 1 page room
              (inl (ap (λ (m : Machine). m.salloc_base) kept))
        | no over ↦
            let s₀ = record s { salloc_base = 0; salloc_cursor = 0 } in
            let e : pt_salloc size s ≡ salloc_within 1 size s₀ =
              salloc_within-full size s positive fits 1 page (omega arith)
              ∙ ap
                  (λ (m : Machine).
                    salloc_within 1 size (record m { salloc_base = 0; salloc_cursor = 0 }))
                  kept in
            rw e (
              from_new_page size s (salloc_within 1 size s₀) (omega arith)
                (salloc_within-start 0 size s₀ positive fits refl refl))
      ]
]
