-- ===== src/Tester/Values.antt =====
-- What the assignments 1.0 to 2.0 of asm/assignments answer.
use jake.Common.{
  ℕ, zero, suc, ◌+◌, ◌-◌, ◌*◌, ◌/◌, ◌%◌, ◌^◌, ◌<◌, ◌≡◌, refl, sym, ap, ◌∙◌, arith, Bool, true,
  false, ◌==◌, ltb, leb, ◌&&◌, ◌||◌, if◌then◌else◌, bit_and, bit_xor, ℕ_discrete, ==→eq,
}
use jake.Common.Bits.{bit_xor_step, bit_and_mask, two_pow_pos}
use native.Mathlib.Nat.{pow-suc, one-le-pow}
use jake.Machine.{word}
use jake.Process.State.{sign_extend}
use jake.Tester.{int_size, truth}
use jake.Tester.Assignments.{
  sub, srl, assignment_1_0, assignment_1_1, assignment_1_2, assignment_1_4, assignment_1_5,
  assignment_1_6, assignment_1_7, assignment_2_0,
}
use jake.Tester.Rounds.{repeat_test, high_ones, as_int}
use jake.Tester.MemoryPasses.{eq→==}

pub repeat_test-passes :
    {S : Type 0} (round : S → Bool × S) (n : ℕ) (s : S)
    → ((s : S) → (round s).0 ≡ true)
    → (repeat_test round n s).0 ≡ true
unfolding repeat_test
repeat_test-passes round zero s h = refl
repeat_test-passes round (suc n) s h = rw (h s) (repeat_test-passes round n (round s).1 h)

-- A decision on each of the first `n` numbers.
abbrev all_below : ℕ → (ℕ → Bool) → Bool
all_below zero p = true
all_below (suc n) p = p n && all_below n p

all_below-holds : (n i : ℕ) (p : ℕ → Bool) → all_below n p ≡ true → i < n → p i ≡ true
all_below-holds zero i p h l = absurd (omega arith)
all_below-holds (suc n) i p h l = elim (ℕ_discrete i n) [
  | yes e ↦ ap p e ∙ ground (arith, h)
  | no e ↦ all_below-holds n i p (ground (arith, h)) (omega arith)
]

pub sign_extend_small : (a : ℕ) → a < 2 ^ 31 → sign_extend a ≡ a
sign_extend_small a l = ground arith

pub assignment_1_0-sum : (a b : ℕ) → (assignment_1_0 a b == (a + b) % word) ≡ true
unfolding assignment_1_0
assignment_1_0-sum a b = eq→== _ _ (omega arith)

pub assignment_1_1-equal :
    (a b : ℕ) → a < 2 ^ 31 → b < 2 ^ 31 → as_int (assignment_1_1 a b) ≡ truth (a == b)
unfolding assignment_1_1
assignment_1_1-equal a b l m = elim (ℕ_discrete a b) [
  | yes e ↦
      let z : ltb 0 (sub a b) ≡ false = ground arith in
      let w : (a == b) ≡ true = ground arith in rw (z, w) refl
  | no n ↦
      let z : ltb 0 (sub a b) ≡ true = ground arith in
      let w : (a == b) ≡ false = ground arith in rw (z, w) refl
]

pub assignment_1_2-sign : (a : ℕ) → a < 2 ^ 31 → as_int (assignment_1_2 a) ≡ truth (leb (2 ^ 31) a)
unfolding assignment_1_2
assignment_1_2-sign a l = let w : leb (2 ^ 31) a ≡ false = ground arith in rw w (omega arith)

bit_xor_ones : (k a : ℕ) → a < 2 ^ k → bit_xor a (2 ^ k - 1) ≡ 2 ^ k - 1 - a
bit_xor_ones zero a l = let e : a ≡ 0 = omega arith in rw e refl
bit_xor_ones (suc k) a l =
    let u : 2 ^ suc k ≡ 2 * 2 ^ k = omega (arith, pow-suc 2 k) in
    let half : (2 ^ suc k - 1) / 2 ≡ 2 ^ k - 1 = omega (arith, u) in
    let odd : (2 ^ suc k - 1) % 2 ≡ 1 = omega (arith, u, one-le-pow k 2) in
    let rest : bit_xor (a / 2) ((2 ^ suc k - 1) / 2) ≡ 2 ^ k - 1 - a / 2 =
      ap (λ (t : ℕ). bit_xor (a / 2) t) half ∙ bit_xor_ones k (a / 2) (omega (arith, l, u)) in
    bit_xor_step a (2 ^ suc k - 1) ∙ omega (arith, odd, rest, u, l)

pub assignment_1_4-inverse : (a : ℕ) → a < 2 ^ 31 → as_int (assignment_1_4 a) ≡ int_size - 1 - a
unfolding assignment_1_4
assignment_1_4-inverse a l = omega (arith, bit_xor_ones 64 a (omega arith))

pub assignment_1_5-high : (a : ℕ) → a < 32 → 0 < a → as_int (assignment_1_5 a) ≡ high_ones a
unfolding assignment_1_5
assignment_1_5-high a l p = ==→eq _ _ (
    ground (
      arith,
      all_below-holds 32 a (λ (t : ℕ). (t == 0) || (as_int (assignment_1_5 t) == high_ones t)) refl
          l,
    ))

pub assignment_1_6-low :
    (a b : ℕ)
    → b < 32
    → 0 < b
    → as_int (assignment_1_6 a b) ≡ bit_and a (int_size - 1 - high_ones b)
unfolding assignment_1_6
assignment_1_6-low a b l p =
    let low : srl (srl (word - 1) b) 32 ≡ 2 ^ (32 - b) - 1 =
      ==→eq _ _
        (all_below-holds 32 b (λ (t : ℕ). srl (srl (word - 1) t) 32 == 2 ^ (32 - t) - 1) refl l) in
    let same : int_size - 1 - high_ones b ≡ 2 ^ (32 - b) - 1 = ==→eq _ _ (
      ground (
        arith,
        all_below-holds 32 b
            (λ (t : ℕ). (t == 0) || (int_size - 1 - high_ones t == 2 ^ (32 - t) - 1)) refl l,
      )) in
    let small : ltb (2 ^ (32 - b)) int_size ≡ true =
      ground
        (arith, all_below-holds 32 b (λ (t : ℕ). (t == 0) || ltb (2 ^ (32 - t)) int_size) refl l) in
    ap (λ (t : ℕ). as_int (bit_and a t)) low
    ∙ masked_small (32 - b) a (ground (arith, small))
    ∙ sym (ap (λ (t : ℕ). bit_and a t) same)
  where
    mod_below : (a p : ℕ) → 0 < p → a % p < p
    mod_below a p h = grind arith

    masked_small :
        (k a : ℕ) → 2 ^ k < int_size → as_int (bit_and a (2 ^ k - 1)) ≡ bit_and a (2 ^ k - 1)
    masked_small k a h = omega (arith, bit_and_mask k a, mod_below a (2 ^ k) (two_pow_pos k), h)

-- The two assignments that choose between two numbers.
pub assignment_1_7-choice :
    (a b c : ℕ)
    → a < 2
    → b < 2 ^ 31
    → c < 2 ^ 31
    → as_int (assignment_1_7 a b c) ≡ (if a == 0 then b else c)
unfolding assignment_1_7
assignment_1_7-choice zero b c h l m = omega arith
assignment_1_7-choice (suc zero) b c h l m = omega arith
assignment_1_7-choice (suc (suc a)) b c h l m = absurd (omega arith)

pub assignment_2_0-choice :
    (a b c : ℕ)
    → a < 2
    → b < 2 ^ 31
    → c < 2 ^ 31
    → as_int (assignment_2_0 a b c) ≡ (if a == 0 then b else c)
unfolding assignment_2_0
assignment_2_0-choice zero b c h l m = omega arith
assignment_2_0-choice (suc zero) b c h l m = omega arith
assignment_2_0-choice (suc (suc a)) b c h l m = absurd (omega arith)
