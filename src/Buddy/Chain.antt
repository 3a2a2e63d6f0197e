-- ===== src/Buddy/Chain.antt =====
-- The linked lists of blocks in buddy.c: what a head pointer and the `next` fields stand for, and
-- what a write to a `next` field does to it.
use jake.Common.{
  has, has-append, zero, suc, ◌<◌, ◌≤◌, length, length-append, ℕ, ◌≡◌, refl, ◌≢◌, inl, inr, true,
  false, Option, none, some, ap, List, [], ◌∷◌, ◌++◌, arith, ◌==◌, Bool-cases,
}
use jake.Buddy.{Block}

-- From `h` the `next` fields lead through the blocks `xs` to `stop`.
abbrev pub Seg : (ℕ → Block) → Option ℕ → Option ℕ → List ℕ → Type 0
Seg bs stop h [] = h ≡ stop
Seg bs stop h (x ∷ xs) = (h ≡ some x) × Seg bs stop (bs x).next xs

abbrev pub Distinct : List ℕ → Type 0
Distinct [] = Unit
Distinct (x ∷ xs) = (has x xs ≡ false) × Distinct xs

-- The last of `t ∷ xs`.
abbrev pub last_of : ℕ → List ℕ → ℕ
last_of t [] = t
last_of t (x ∷ xs) = last_of x xs

pub Distinct-append :
    (xs ys : List ℕ)
    → Distinct xs
    → Distinct ys
    → ((a : ℕ) → has a xs ≡ true → has a ys ≡ false)
    → Distinct (xs ++ ys)
Distinct-append [] ys p q apart = q
Distinct-append (x ∷ xs) ys p q apart = (
  ground (arith, has-append x xs ys, apart x),
  Distinct-append xs ys p.1 q (λ a h. ground (arith, apart a)),
)

-- The halves of a list without repetitions.
pub Distinct-split :
    (xs ys : List ℕ)
    → Distinct (xs ++ ys)
    → Distinct xs × Distinct ys × ((a : ℕ) → has a xs ≡ true → has a ys ≡ false)
Distinct-split [] ys d = (tt, d, λ a h. ground arith)
Distinct-split (x ∷ xs) ys d =
    let r = Distinct-split xs ys d.1 in
    (
      (ground (arith, has-append x xs ys), r.0),
      r.1,
      λ a h. ground (arith, r.2 a, has-append x xs ys),
    )

-- A member splits the list.
pub split_at :
    (a : ℕ) (xs : List ℕ) → has a xs ≡ true → (us : List ℕ) × (vs : List ℕ) × (xs ≡ us ++ (a ∷ vs))
split_at a [] h = ground arith
split_at a (x ∷ xs) h = elim (Bool-cases (a == x)) [
  | inl e ↦ ([], xs, ground arith)
  | inr e ↦ let (us, vs, p) = split_at a xs (ground arith) in (x ∷ us, vs, ap (λ l. x ∷ l) p)
]

pub last_of-mem : (x : ℕ) (xs : List ℕ) → has (last_of x xs) (x ∷ xs) ≡ true
last_of-mem x [] = ground arith
last_of-mem x (y ∷ ys) = ground (arith, last_of-mem y ys)

pub last_of-append : (x y : ℕ) (xs ys : List ℕ) → last_of x (xs ++ (y ∷ ys)) ≡ last_of y ys
last_of-append x y [] ys = refl
last_of-append x y (z ∷ zs) ys = last_of-append z y zs ys

-- A segment survives what leaves the `next` fields of its blocks alone.
pub Seg-frame :
    (bs cs : ℕ → Block) (stop : Option ℕ) (xs : List ℕ) (h : Option ℕ)
    → Seg bs stop h xs
    → ((a : ℕ) → has a xs ≡ true → (cs a).next ≡ (bs a).next)
    → Seg cs stop h xs
Seg-frame bs cs stop [] h s same = s
Seg-frame bs cs stop (x ∷ xs) h s same = (
  s.0,
  rw (same x (ground arith))
      (Seg-frame bs cs stop xs (bs x).next s.1 (λ a i. same a (ground arith))),
)

pub Seg-append :
    (bs : ℕ → Block) (stop mid : Option ℕ) (xs ys : List ℕ) (h : Option ℕ)
    → Seg bs mid h xs
    → Seg bs stop mid ys
    → Seg bs stop h (xs ++ ys)
Seg-append bs stop mid [] ys h s t = rw s t
Seg-append bs stop mid (x ∷ xs) ys h s t = (s.0, Seg-append bs stop mid xs ys (bs x).next s.1 t)

pub Seg-split :
    (bs : ℕ → Block) (stop : Option ℕ) (y : ℕ) (xs ys : List ℕ) (h : Option ℕ)
    → Seg bs stop h (xs ++ (y ∷ ys))
    → Seg bs (some y) h xs × Seg bs stop (bs y).next ys
Seg-split bs stop y [] ys h s = s
Seg-split bs stop y (x ∷ xs) ys h s =
    let r = Seg-split bs stop y xs ys (bs x).next s.1 in ((s.0, r.0), r.1)

-- A new `next` in the last block moves the end of the segment.
pub Seg-relink :
    (bs cs : ℕ → Block) (stop n : Option ℕ) (x : ℕ) (xs : List ℕ) (h : Option ℕ)
    → Distinct (x ∷ xs)
    → Seg bs stop h (x ∷ xs)
    → ((a : ℕ) → has a (x ∷ xs) ≡ true → a ≢ last_of x xs → (cs a).next ≡ (bs a).next)
    → (cs (last_of x xs)).next ≡ n
    → Seg cs n h (x ∷ xs)
Seg-relink bs cs stop n x [] h d s same e = (s.0, e)
Seg-relink bs cs stop n x (y ∷ ys) h d s same e = (
  s.0,
  rw (same x (ground arith) (λ p. ground (arith, last_of-mem y ys)))
      (Seg-relink bs cs stop n y ys (bs x).next d.1 s.1 (λ a i. same a (ground arith)) e),
)

Distinct-drop :
    (a : ℕ) (us vs : List ℕ)
    → Distinct (us ++ (a ∷ vs))
    → Distinct (us ++ vs) × (has a (us ++ vs) ≡ false)
Distinct-drop a us vs d =
    let p = Distinct-split us (a ∷ vs) d in
    (
      Distinct-append us vs p.0 p.1.1 (λ b h. ground (arith, p.2 b)),
      ground (arith, p.2 a, has-append a us vs),
    )

has-drop : (b a : ℕ) (us vs : List ℕ) → has b (us ++ vs) ≡ true → has b (us ++ (a ∷ vs)) ≡ true
has-drop b a us vs h = ground (arith, has-append b us vs, has-append b us (a ∷ vs))

-- Numbers below `n` without repetition are at most `n`.
pub length-Distinct :
    (n : ℕ) (xs : List ℕ) → Distinct xs → ((a : ℕ) → has a xs ≡ true → a < n) → length xs ≤ n
length-Distinct zero [] d h = omega arith
length-Distinct zero (x ∷ xs) d h = absurd (omega (arith, h x (ground arith)))
length-Distinct (suc n) xs d h = elim (Bool-cases (has n xs)) [
  | inl e ↦
      let (us, vs, p) = split_at n xs e in
      let q = Distinct-drop n us vs (rw p at d) in
      omega (
        arith,
        length-Distinct n (us ++ vs) q.0 (λ a i. grind (arith, h a, has-drop a n us vs i)),
        ap length p,
        length-append us vs,
        length-append us (n ∷ vs),
      )
  | inr e ↦ omega (arith, length-Distinct n xs d (λ a i. ground (arith, h a)))
]

pub Seg-head :
    (bs : ℕ → Block) (h : Option ℕ) (b : ℕ) (xs : List ℕ)
    → Seg bs none h xs
    → h ≡ some b
    → (ys : List ℕ) × (xs ≡ b ∷ ys)
Seg-head bs h b [] s e = ground arith
Seg-head bs h b (x ∷ xs) s e = (xs, ground arith)

pub Seg-none :
    (bs : ℕ → Block) (h : Option ℕ) (xs : List ℕ) (a : ℕ)
    → Seg bs none h xs
    → h ≡ none
    → has a xs ≡ false
Seg-none bs h [] a s e = refl
Seg-none bs h (x ∷ xs) a s e = ground arith
