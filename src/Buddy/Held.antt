-- ===== src/Buddy/Held.antt =====
-- The blocks that a client of src/kernel/buddy.c holds.
use jake.Common.{
  ℕ, ◌+◌, ◌^◌, ◌≤◌, ◌≡◌, ◌≢◌, arith, false, ◌==◌, if◌then◌else◌, List, [], ◌∷◌, ◌⊎◌, inl, inr,
  Bool-cases,
}

-- What a client holds: the heads and orders of its blocks.
abbrev pub Held : Type 0
Held = List (ℕ × ℕ)

abbrev pub Holds : ℕ → ℕ → Held → Type 0
Holds b k [] = ⊥
Holds b k ((c, j) ∷ held) = ((b ≡ c) × (k ≡ j)) ⊎ Holds b k held

abbrev pub give_back : ℕ → Held → Held
give_back b [] = []
give_back b ((c, j) ∷ held) = if c == b then give_back b held else (c, j) ∷ give_back b held

-- No two of the blocks have a page in common.
abbrev pub Apart : Held → Type 0
Apart [] = Unit
Apart ((b, k) ∷ held) =
    ((c j : ℕ) → Holds c j held → (b + 2 ^ k ≤ c) ⊎ (c + 2 ^ j ≤ b)) × Apart held

pub Holds-give_back :
    (b a j : ℕ) (held : Held) → Holds a j (give_back b held) → Holds a j held × (a ≢ b)
Holds-give_back b a j [] h = absurd h
Holds-give_back b a j ((c, i) ∷ held) h = elim (Bool-cases (c == b)) [
  | inl e ↦ let (h', n) = Holds-give_back b a j held (rw e at h) in (inr h', n)
  | inr e ↦ elim (rw e at h) [
    | inl (p, q) ↦ (inl (p, q), λ r. ground (arith, e, p, r))
    | inr h' ↦ let (h'', n) = Holds-give_back b a j held h' in (inr h'', n)
  ]
]

pub give_back-Holds :
    (b a j : ℕ) (held : Held) → Holds a j held → a ≢ b → Holds a j (give_back b held)
give_back-Holds b a j [] h n = absurd h
give_back-Holds b a j ((c, i) ∷ held) (inl (p, q)) n =
    let e : (c == b) ≡ false = ground (arith, p, n) in rw e (inl (p, q))
give_back-Holds b a j ((c, i) ∷ held) (inr h) n = elim (Bool-cases (c == b)) [
  | inl e ↦ rw e (give_back-Holds b a j held h n)
  | inr e ↦ rw e (inr (give_back-Holds b a j held h n))
]

pub Apart-give_back : (b : ℕ) (held : Held) → Apart held → Apart (give_back b held)
Apart-give_back b [] h = tt
Apart-give_back b ((c, i) ∷ held) (h, rest) = elim (Bool-cases (c == b)) [
  | inl e ↦ rw e (Apart-give_back b held rest)
  | inr e ↦ rw e (λ d j g. h d j (Holds-give_back b d j held g).0, Apart-give_back b held rest)
]
