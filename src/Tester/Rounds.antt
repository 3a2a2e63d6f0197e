-- ===== src/Tester/Rounds.antt =====
-- The tests of the assignments 1.0 to 2.1 in asm/tester_src/tester_main.c. A test takes `rand` and the
-- assignment, and answers with the state of the generator behind it. Prints are left out.
use jake.Common.{
  ℕ, zero, suc, ◌+◌, ◌-◌, ◌/◌, ◌%◌, ◌^◌, Bool, true, false, ◌==◌, leb, if◌then◌else◌, bit_and,
  Option, none, some,
}
use jake.Machine.{word}
use jake.Process.State.{sign_extend}
use jake.Tester.{int_size, truth, fibonacci}

-- `for (int i = 0; i < num_reps; i++)`, left with `is_success = 0` at the first round that fails.
unfoldable pub repeat_test : {S : Type 0} → (S → Bool × S) → ℕ → S → Bool × S
repeat_test round zero s = (true, s)
repeat_test round (suc num_reps) s =
    let (ok, s') = round s in
    let rest = repeat_test round num_reps s' in if ok then rest else (false, s')

-- `(1 << 31) >> (a - 1)`, an arithmetic shift of the least `int`.
abbrev pub high_ones : ℕ → ℕ
high_ones a = int_size - 2 ^ 31 / 2 ^ (a - 1)

-- `int got = …` keeps 32 bits of a result.
abbrev pub as_int : ℕ → ℕ
as_int x = x % int_size

unfoldable pub round_1_0 : {S : Type 0} → (S → ℕ × S) → (ℕ → ℕ → ℕ) → S → Bool × S
round_1_0 rand assignment s =
    let (a, s₁) = rand s in
    let (b, s₂) = rand s₁ in (assignment (sign_extend a) (sign_extend b) == (a + b) % word, s₂)

unfoldable pub test_assignment_1_0 : {S : Type 0} → (S → ℕ × S) → (ℕ → ℕ → ℕ) → ℕ → S → Bool × S
test_assignment_1_0 rand assignment num_reps s = repeat_test (round_1_0 rand assignment) num_reps s

unfoldable pub round_1_1 : {S : Type 0} → (S → ℕ × S) → (ℕ → ℕ → ℕ) → S → Bool × S
round_1_1 rand assignment s =
    let (must_be_equal, s₁) = rand s in
    let (a, s₂) = rand s₁ in
    let (other, s₃) = rand s₂ in
    let equal = must_be_equal % 2 == 1 in
    let b = if equal then a else other in
    (
      as_int (assignment (sign_extend a) (sign_extend b)) == truth (a == b),
      if equal then s₂ else s₃,
    )

unfoldable pub test_assignment_1_1 : {S : Type 0} → (S → ℕ × S) → (ℕ → ℕ → ℕ) → ℕ → S → Bool × S
test_assignment_1_1 rand assignment num_reps s = repeat_test (round_1_1 rand assignment) num_reps s

unfoldable pub round_1_2 : {S : Type 0} → (S → ℕ × S) → (ℕ → ℕ) → S → Bool × S
round_1_2 rand assignment s =
    let (a, s') = rand s in (as_int (assignment (sign_extend a)) == truth (leb (2 ^ 31) a), s')

unfoldable pub test_assignment_1_2 : {S : Type 0} → (S → ℕ × S) → (ℕ → ℕ) → ℕ → S → Bool × S
test_assignment_1_2 rand assignment num_reps s = repeat_test (round_1_2 rand assignment) num_reps s

unfoldable pub test_assignment_1_3 : ℕ → Bool
test_assignment_1_3 got = 0xbadcab1e == got

unfoldable pub round_1_4 : {S : Type 0} → (S → ℕ × S) → (ℕ → ℕ) → S → Bool × S
round_1_4 rand assignment s =
    let (a, s') = rand s in (as_int (assignment (sign_extend a)) == int_size - 1 - a, s')

unfoldable pub test_assignment_1_4 : {S : Type 0} → (S → ℕ × S) → (ℕ → ℕ) → ℕ → S → Bool × S
test_assignment_1_4 rand assignment num_reps s = repeat_test (round_1_4 rand assignment) num_reps s

unfoldable pub round_1_5 : {S : Type 0} → (S → ℕ × S) → (ℕ → ℕ) → S → Bool × S
round_1_5 rand assignment s =
    let (r, s') = rand s in let a = 1 + r % 31 in (as_int (assignment a) == high_ones a, s')

unfoldable pub test_assignment_1_5 : {S : Type 0} → (S → ℕ × S) → (ℕ → ℕ) → ℕ → S → Bool × S
test_assignment_1_5 rand assignment num_reps s = repeat_test (round_1_5 rand assignment) num_reps s

-- The first of the three numbers is drawn and not used.
unfoldable pub round_1_6 : {S : Type 0} → (S → ℕ × S) → (ℕ → ℕ → ℕ) → S → Bool × S
round_1_6 rand assignment s =
    let (_, s₁) = rand s in
    let (a, s₂) = rand s₁ in
    let (r, s₃) = rand s₂ in
    let b = 1 + r % 31 in
    (as_int (assignment (sign_extend a) b) == bit_and a (int_size - 1 - high_ones b), s₃)

unfoldable pub test_assignment_1_6 : {S : Type 0} → (S → ℕ × S) → (ℕ → ℕ → ℕ) → ℕ → S → Bool × S
test_assignment_1_6 rand assignment num_reps s = repeat_test (round_1_6 rand assignment) num_reps s

-- The tests of 1.7 and of 2.0 do the same; the first of the four numbers is drawn and not used.
unfoldable pub round_choice : {S : Type 0} → (S → ℕ × S) → (ℕ → ℕ → ℕ → ℕ) → S → Bool × S
round_choice rand assignment s =
    let (_, s₁) = rand s in
    let (r, s₂) = rand s₁ in
    let (b, s₃) = rand s₂ in
    let (c, s₄) = rand s₃ in
    let a = r % 2 in
    let expected = if a == 0 then b else c in
    (as_int (assignment a (sign_extend b) (sign_extend c)) == expected, s₄)

unfoldable pub test_assignment_1_7 : {S : Type 0} → (S → ℕ × S) → (ℕ → ℕ → ℕ → ℕ) → ℕ → S → Bool × S
test_assignment_1_7 rand assignment num_reps s =
    repeat_test (round_choice rand assignment) num_reps s

unfoldable pub test_assignment_2_0 : {S : Type 0} → (S → ℕ × S) → (ℕ → ℕ → ℕ → ℕ) → ℕ → S → Bool × S
test_assignment_2_0 rand assignment num_reps s =
    repeat_test (round_choice rand assignment) num_reps s

-- An assignment that does not end leaves the test without an answer; a round then fails here.
unfoldable pub round_2_1 : {S : Type 0} → (S → ℕ × S) → (ℕ → Option ℕ) → S → Bool × S
round_2_1 rand assignment s =
    let (r, s') = rand s in
    let a = r % 48 in
    (elim (assignment a) [ none ↦ false | some got ↦ as_int got == fibonacci a ], s')

unfoldable pub test_assignment_2_1 : {S : Type 0} → (S → ℕ × S) → (ℕ → Option ℕ) → ℕ → S → Bool × S
test_assignment_2_1 rand assignment num_reps s = repeat_test (round_2_1 rand assignment) num_reps s
