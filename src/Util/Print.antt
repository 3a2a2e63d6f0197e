-- ===== src/Util/Print.antt =====
-- What `__printnum` of src/kernel/util.c prints.
use jake.Common.{
  ℕ, zero, suc, ◌+◌, ◌-◌, ◌*◌, ◌/◌, ◌%◌, ◌^◌, ◌≤◌, ◌<◌, ◌≡◌, refl, sym, ap, ◌∙◌, arith, false, ◌==◌,
  ==→eq, ltb, ◌&&◌, not, Bool-cases, inl, inr, ◌⊎◌, List, [], ◌∷◌, if◌then◌else◌, get_or, length,
}
use native.Mathlib.Nat.{pow-suc, div-div-eq-div-mul}
use jake.Util.{hex_digits, ctox, cstox_loop, word_bytes, skip, printnum}

-- The number that a text of hexadecimal digits denotes, read after `acc`.
abbrev pub digit_value : ℕ → ℕ
digit_value c = if ltb c 58 then c - 48 else c - 87

abbrev pub hex_value : ℕ → List ℕ → ℕ
hex_value acc [] = acc
hex_value acc (c ∷ cs) = hex_value (acc * 16 + digit_value c) cs

-- Digits that denote `k`, `k` + 1 and so on.
abbrev Counting : ℕ → List ℕ → Type 0
Counting k [] = Unit
Counting k (c ∷ cs) = (digit_value c ≡ k) × Counting (suc k) cs

Counting-digit :
    (cs : List ℕ) (k n : ℕ) → Counting k cs → n < length cs → digit_value (get_or cs n 0) ≡ k + n
Counting-digit [] k n w l = absurd (omega arith)
Counting-digit (c ∷ cs) k zero (e, w) l = e ∙ omega arith
Counting-digit (c ∷ cs) k (suc n) (e, w) l =
    Counting-digit cs (suc k) n w (omega arith) ∙ omega arith

digit_read : (n : ℕ) → n < 16 → digit_value (get_or hex_digits n 0) ≡ n
digit_read n l =
    (Counting-digit hex_digits 0 n
      (
        refl,
        (
          refl,
          (
            refl,
            (
              refl,
              (
                refl,
                (
                  refl,
                  (
                    refl,
                    (refl, (refl, (refl, (refl, (refl, (refl, (refl, (refl, (refl, tt))))))))),
                  ),
                ),
              ),
            ),
          ),
        ),
      )
      l)
    ∙ omega arith

-- The two digits of a byte.
ctox-value :
    (acc c : ℕ)
    → c < 256
    → (acc * 16 + digit_value (ctox c).0) * 16 + digit_value (ctox c).1 ≡ acc * 256 + c
unfolding ctox
ctox-value acc c l =
    let high = digit_read (c / 16 % 16) (omega arith) in
    let low = digit_read (c % 16) (omega arith) in rw (high, low) (omega arith)

div_step : (w n : ℕ) → w / 256 ^ n ≡ w / 256 ^ suc n * 256 + w / 256 ^ n % 256
div_step w n =
    let e : w / 256 ^ n / 256 ≡ w / 256 ^ suc n =
      div-div-eq-div-mul w (256 ^ n) 256 ∙ ap (λ (p : ℕ). w / p) (omega (arith, pow-suc 256 n)) in
    omega (arith, e)

-- All the digits of the low `n` bytes of a word, after those above.
cstox_loop-value :
    (n i first w : ℕ) → hex_value (w / 256 ^ n) (cstox_loop (word_bytes n w) i first).0 ≡ w
unfolding cstox_loop word_bytes
cstox_loop-value zero i first w = omega arith
cstox_loop-value (suc n) i first w =
    let c = w / 256 ^ n % 256 in
    let e : (w / 256 ^ suc n * 16 + digit_value (ctox c).0) * 16 + digit_value (ctox c).1
        ≡ w / 256 ^ n =
      ctox-value (w / 256 ^ suc n) c (omega arith) ∙ sym (div_step w n) in
    let first' = if ltb (2 * i) first && not (c == 0) then 2 * i else first in
    ap (λ (acc : ℕ). hex_value acc (cstox_loop (word_bytes n w) (i + 1) first').0) e
    ∙ cstox_loop-value n (i + 1) first' w

-- Once a byte was not 0, the index stays.
cstox_loop-found : (cs : List ℕ) (i first : ℕ) → first ≤ 2 * i → (cstox_loop cs i first).1 ≡ first
unfolding cstox_loop
cstox_loop-found [] i first l = refl
cstox_loop-found (c ∷ cs) i first l =
    let e : ltb (2 * i) first ≡ false = ground arith in
    rw e (cstox_loop-found cs (i + 1) first (omega arith))

skip-nil : (n : ℕ) → skip n [] ≡ []
unfolding skip
skip-nil zero = refl
skip-nil (suc n) = refl

-- Nothing is skipped.
all_read :
    (last start : ℕ) (out : List ℕ)
    → last ≡ start
    → (start ≤ last) × (hex_value 0 (skip (last - start) out) ≡ hex_value 0 out)
unfolding skip
all_read last start out e = let z : last - start ≡ 0 = omega arith in (omega arith, rw z refl)

-- The digits of a byte that is 0 are skipped.
zeros_skipped :
    (last start c : ℕ) (out : List ℕ)
    → c ≡ 0
    → (start + 2 ≤ last) × (hex_value 0 (skip (last - (start + 2)) out) ≡ hex_value 0 out)
    → (start ≤ last)
      × (hex_value 0 (skip (last - start) ((ctox c).0 ∷ (ctox c).1 ∷ out))
          ≡ hex_value 0 ((ctox c).0 ∷ (ctox c).1 ∷ out))
unfolding skip
zeros_skipped last start c out z (l, h) =
    let e : last - start ≡ suc (suc (last - (start + 2))) = omega arith in
    let v : (0 * 16 + digit_value (ctox c).0) * 16 + digit_value (ctox c).1 ≡ 0 =
      ctox-value 0 c (omega arith) ∙ omega arith in
    (omega arith, rw e (h ∙ sym (ap (λ (acc : ℕ). hex_value acc out) v)))

-- The digits before the index are zeros: without them the number is the same.
cstox_loop-skip :
    (cs : List ℕ) (i h : ℕ)
    → i ≤ h
    → (2 * i ≤ (cstox_loop cs i (2 * h)).1)
      × (hex_value 0 (skip ((cstox_loop cs i (2 * h)).1 - 2 * i) (cstox_loop cs i (2 * h)).0)
          ≡ hex_value 0 (cstox_loop cs i (2 * h)).0)
unfolding cstox_loop skip
cstox_loop-skip [] i h l = (omega arith, ap (hex_value 0) (skip-nil (2 * h - 2 * i)))
cstox_loop-skip (c ∷ cs) i h l = elim (Bool-cases (ltb (2 * i) (2 * h))) [
  | inr e ↦
      rw e (
        all_read _ _ _
          (cstox_loop-found cs (i + 1) (2 * h) (ground (arith, e)) ∙ ground (arith, e)))
  | inl e ↦ elim (Bool-cases (c == 0)) [
    | inr n ↦ rw (e, n) (all_read _ _ _ (cstox_loop-found cs (i + 1) (2 * i) (omega arith)))
    | inl z ↦
        let (a, b) = cstox_loop-skip cs (i + 1) h (ground (arith, e)) in
        let d : 2 * (i + 1) ≡ 2 * i + 2 = omega arith in
        rw (e, z) (zeros_skipped _ (2 * i) c _ (==→eq c 0 z) (omega (arith, a), rw d at b))
  ]
]

-- The characters 0 to 9 and a to f.
abbrev pub IsHexDigit : ℕ → Type 0
IsHexDigit c = ((b'0' ≤ c) × (c ≤ b'9')) ⊎ ((b'a' ≤ c) × (c ≤ b'f'))

abbrev pub AllHex : List ℕ → Type 0
AllHex [] = Unit
AllHex (c ∷ cs) = IsHexDigit c × AllHex cs

AllHex-get : (cs : List ℕ) (n : ℕ) → AllHex cs → n < length cs → IsHexDigit (get_or cs n 0)
AllHex-get [] n h l = absurd (omega arith)
AllHex-get (c ∷ cs) zero (h, hs) l = h
AllHex-get (c ∷ cs) (suc n) (h, hs) l = AllHex-get cs n hs (omega arith)

hex_digits-AllHex : AllHex hex_digits
hex_digits-AllHex = (
  inl (omega arith, omega arith),
  (
    inl (omega arith, omega arith),
    (
      inl (omega arith, omega arith),
      (
        inl (omega arith, omega arith),
        (
          inl (omega arith, omega arith),
          (
            inl (omega arith, omega arith),
            (
              inl (omega arith, omega arith),
              (
                inl (omega arith, omega arith),
                (
                  inl (omega arith, omega arith),
                  (
                    inl (omega arith, omega arith),
                    (
                      inr (omega arith, omega arith),
                      (
                        inr (omega arith, omega arith),
                        (
                          inr (omega arith, omega arith),
                          (
                            inr (omega arith, omega arith),
                            (inr (omega arith, omega arith), (inr (omega arith, omega arith), tt)),
                          ),
                        ),
                      ),
                    ),
                  ),
                ),
              ),
            ),
          ),
        ),
      ),
    ),
  ),
)

cstox_loop-AllHex : (cs : List ℕ) (i first : ℕ) → AllHex (cstox_loop cs i first).0
unfolding cstox_loop ctox
cstox_loop-AllHex [] i first = tt
cstox_loop-AllHex (c ∷ cs) i first = (
  AllHex-get hex_digits (c / 16 % 16) hex_digits-AllHex (omega arith),
  (
    AllHex-get hex_digits (c % 16) hex_digits-AllHex (omega arith),
    cstox_loop-AllHex cs (i + 1) (if ltb (2 * i) first && not (c == 0) then 2 * i else first),
  ),
)

skip-AllHex : (n : ℕ) (cs : List ℕ) → AllHex cs → AllHex (skip n cs)
unfolding skip
skip-AllHex zero cs h = h
skip-AllHex (suc n) [] h = tt
skip-AllHex (suc n) (c ∷ cs) (h, hs) = skip-AllHex n cs hs

-- The index never goes up, and there are two digits to a byte.
cstox_loop-down : (cs : List ℕ) (i first : ℕ) → (cstox_loop cs i first).1 ≤ first
unfolding cstox_loop
cstox_loop-down [] i first = omega arith
cstox_loop-down (c ∷ cs) i first =
    let first' = if ltb (2 * i) first && not (c == 0) then 2 * i else first in
    let rest = cstox_loop-down cs (i + 1) first' in
    let here : first' ≤ first = ground arith in omega (arith, rest, here)

cstox_loop-length : (cs : List ℕ) (i first : ℕ) → length (cstox_loop cs i first).0 ≡ 2 * length cs
unfolding cstox_loop
cstox_loop-length [] i first = refl
cstox_loop-length (c ∷ cs) i first =
    let first' = if ltb (2 * i) first && not (c == 0) then 2 * i else first in
    let rest = cstox_loop-length cs (i + 1) first' in omega (arith, rest)

length-skip : (n : ℕ) (cs : List ℕ) → length (skip n cs) ≡ length cs - n
unfolding skip
length-skip zero cs = omega arith
length-skip (suc n) [] = omega arith
length-skip (suc n) (c ∷ cs) = length-skip n cs ∙ omega arith

length-word_bytes : (n w : ℕ) → length (word_bytes n w) ≡ n
unfolding word_bytes
length-word_bytes zero w = refl
length-word_bytes (suc n) w = let e = length-word_bytes n w in omega (arith, e)

-- The text that __printnum prints of a 64-bit word is 0x and then at least two digits, each of 0 to 9 or
-- of a to f, which denote it.
pub printnum-hex_value :
    (w : ℕ)
    → w < 2 ^ 64
    → (digits : List ℕ) × (printnum w ≡ b'0' ∷ b'x' ∷ digits)
      × AllHex digits
      × (2 ≤ length digits)
      × (hex_value 0 digits ≡ w)
unfolding printnum
printnum-hex_value w l =
    let (buf, first) = cstox_loop (word_bytes 8 w) 0 14 in
    let none_above : w / 256 ^ 8 ≡ 0 = omega arith in
    let start : first ≡ first - 2 * 0 = omega arith in
    let few : first ≤ 14 = cstox_loop-down (word_bytes 8 w) 0 14 in
    let long : length buf ≡ 16 =
      cstox_loop-length (word_bytes 8 w) 0 14 ∙ ap (λ (n : ℕ). 2 * n) (length-word_bytes 8 w) in
    (
      skip first buf,
      refl,
      skip-AllHex first buf (cstox_loop-AllHex (word_bytes 8 w) 0 14),
      omega (arith, length-skip first buf, few, long),
      ap (λ (n : ℕ). hex_value 0 (skip n buf)) start
          ∙ (cstox_loop-skip (word_bytes 8 w) 0 7 (omega arith)).1
          ∙ ap (λ (acc : ℕ). hex_value acc buf) (sym none_above)
          ∙ cstox_loop-value 8 0 14 w,
    )
