-- ===== src/Tester/Passes.antt =====
-- The assignments 1.0 to 2.1 of asm/assignments pass their tests in asm/tester_src/tester_main.c.
use jake.Common.{
  some, ◌≤◌, ℕ, ◌+◌, ◌-◌, ◌*◌, ◌%◌, ◌^◌, ◌<◌, ◌≡◌, refl, arith, true, ◌==◌, leb, if◌then◌else◌,
  bit_and,
}
use jake.Machine.{word}
use jake.Process.State.{sign_extend}
use jake.Tester.{int_size, truth, fibonacci}
use jake.Tester.Assignments.{
  assignment_1_0, assignment_1_1, assignment_1_2, assignment_1_3, assignment_1_4, assignment_1_5,
  assignment_1_6, assignment_1_7, assignment_2_0, assignment_2_1,
}
use jake.Tester.Rounds.{
  high_ones, as_int, round_1_0, round_1_1, round_1_2, round_1_4, round_1_5, round_1_6, round_choice,
  round_2_1, test_assignment_1_0, test_assignment_1_1, test_assignment_1_2, test_assignment_1_3,
  test_assignment_1_4, test_assignment_1_5, test_assignment_1_6, test_assignment_1_7,
  test_assignment_2_0, test_assignment_2_1,
}
use jake.Tester.Memory.{
  Words, assignment_3_0, assignment_3_1, assignment_3_3, test_assignment_3_0, test_assignment_3_1,
  test_assignment_3_3,
}
use jake.Tester.Recursion.{Course, Compiled, test_assignment_4_1}
use jake.Tester.RecursionPasses.{IsCompiled, assignment_4_1-passes}
use jake.Tester.MemoryPasses.{
  eq→==, assignment_3_0-passes, assignment_3_1-passes, assignment_3_3-passes,
}
use jake.Tester.Fibonacci.{assignment_2_1-fibonacci}
use jake.Tester.Values.{
  sign_extend_small, assignment_1_0-sum, assignment_1_1-equal, assignment_1_2-sign,
  assignment_1_4-inverse, assignment_1_5-high, assignment_1_6-low, assignment_1_7-choice,
  assignment_2_0-choice, repeat_test-passes,
}

-- Each round passes, where `rand` keeps to its documented range.
module _ {S : Type 0} (rand : S → ℕ × S) (range : (s : S) → (rand s).0 < 2 ^ 31) where
  round_1_0-passes : (s : S) → (round_1_0 rand assignment_1_0 s).0 ≡ true
  unfolding round_1_0
  round_1_0-passes s =
      let a = rand s in
      let b = rand a.1 in
      rw (sign_extend_small a.0 (range s), sign_extend_small b.0 (range a.1))
        (assignment_1_0-sum a.0 b.0)

  round_1_1-passes : (s : S) → (round_1_1 rand assignment_1_1 s).0 ≡ true
  unfolding round_1_1
  round_1_1-passes s =
      let equal = rand s in
      let a = rand equal.1 in
      let other = rand a.1 in
      let b = if equal.0 % 2 == 1 then a.0 else other.0 in
      let m : b < 2 ^ 31 = ground (arith, range equal.1, range a.1) in
      eq→== (as_int (assignment_1_1 (sign_extend a.0) (sign_extend b))) (truth (a.0 == b)) (
        rw (sign_extend_small a.0 (range equal.1), sign_extend_small b m)
          (assignment_1_1-equal a.0 b (range equal.1) m))

  round_1_2-passes : (s : S) → (round_1_2 rand assignment_1_2 s).0 ≡ true
  unfolding round_1_2
  round_1_2-passes s =
      let a = rand s in
      eq→== (as_int (assignment_1_2 (sign_extend a.0))) (truth (leb (2 ^ 31) a.0))
        (rw (sign_extend_small a.0 (range s)) (assignment_1_2-sign a.0 (range s)))

  round_1_4-passes : (s : S) → (round_1_4 rand assignment_1_4 s).0 ≡ true
  unfolding round_1_4
  round_1_4-passes s =
      let a = rand s in
      eq→== (as_int (assignment_1_4 (sign_extend a.0))) (int_size - 1 - a.0)
        (rw (sign_extend_small a.0 (range s)) (assignment_1_4-inverse a.0 (range s)))

  round_1_5-passes : (s : S) → (round_1_5 rand assignment_1_5 s).0 ≡ true
  unfolding round_1_5
  round_1_5-passes s =
      let a = 1 + (rand s).0 % 31 in
      eq→== (as_int (assignment_1_5 a)) (high_ones a)
        (assignment_1_5-high a (omega arith) (omega arith))

  round_1_6-passes : (s : S) → (round_1_6 rand assignment_1_6 s).0 ≡ true
  unfolding round_1_6
  round_1_6-passes s =
      let a = rand (rand s).1 in
      let b = 1 + (rand a.1).0 % 31 in
      eq→== (as_int (assignment_1_6 (sign_extend a.0) b)) (bit_and a.0 (int_size - 1 - high_ones b))
        (rw (sign_extend_small a.0 (range (rand s).1))
          (assignment_1_6-low a.0 b (omega arith) (omega arith)))

  round_choice-passes :
      (f : ℕ → ℕ → ℕ → ℕ)
      → ((a b c : ℕ)
          → a < 2
          → b < 2 ^ 31
          → c < 2 ^ 31
          → as_int (f a b c) ≡ (if a == 0 then b else c))
      → (s : S) → (round_choice rand f s).0 ≡ true
  unfolding round_choice
  round_choice-passes f h s =
      let r = rand (rand s).1 in
      let b = rand r.1 in
      let c = rand b.1 in
      let a = r.0 % 2 in
      eq→== (as_int (f a (sign_extend b.0) (sign_extend c.0))) (if a == 0 then b.0 else c.0) (
        rw (sign_extend_small b.0 (range r.1), sign_extend_small c.0 (range b.1))
          (h a b.0 c.0 (omega arith) (range r.1) (range b.1)))

  round_2_1-passes : (s : S) → (round_2_1 rand (assignment_2_1 48) s).0 ≡ true
  unfolding round_2_1
  round_2_1-passes s =
      let a = (rand s).0 % 48 in
      let (got, e, q) = assignment_2_1-fibonacci 48 a (omega arith) (omega arith) in
      rw (e, round_2_1) (eq→== (as_int got) (fibonacci a) q)

-- With `rand` in its documented range, from 0 to 2 ^ 31 - 1, the assignments 1.0 to 2.1, 3.0, 3.1, 3.3
-- and 4.1 pass their tests, in any number of repetitions, from any state of the generator, on any memory,
-- and with the array and the bytes that the tests of 3.0 to 3.3 use anywhere below 2 ^ 64. The calls of
-- 2.1 and 4.1 end within the 48 and 30 rounds that they are given. For 4.1 the stack has room for 30
-- frames of assignment 4.1 and of recursive_call_4_1, which writes on its own frame only, and the address
-- that assignment 4.1 returns to is below 2 ^ 31.
pub assignments-pass :
    {S : Type 0} (rand : S → ℕ × S)
    → ((s : S) → (rand s).0 < 2 ^ 31)
    → (num_reps : ℕ) (s : S) (arr : ℕ) (mem : Words) (at : ℕ) (bytes : ℕ → ℕ) → arr + 4000 ≤ word
    → at + 4 ≤ word
    → (compiled : Compiled) (c : Course) → IsCompiled compiled
    → 30 * (compiled.frame + 8) ≤ c.sp
    → c.sp < word
    → ((test_assignment_1_0 rand assignment_1_0 num_reps s).0 ≡ true)
      × ((test_assignment_1_1 rand assignment_1_1 num_reps s).0 ≡ true)
      × ((test_assignment_1_2 rand assignment_1_2 num_reps s).0 ≡ true)
      × (test_assignment_1_3 assignment_1_3 ≡ true)
      × ((test_assignment_1_4 rand assignment_1_4 num_reps s).0 ≡ true)
      × ((test_assignment_1_5 rand assignment_1_5 num_reps s).0 ≡ true)
      × ((test_assignment_1_6 rand assignment_1_6 num_reps s).0 ≡ true)
      × ((test_assignment_1_7 rand assignment_1_7 num_reps s).0 ≡ true)
      × ((test_assignment_2_0 rand assignment_2_0 num_reps s).0 ≡ true)
      × ((test_assignment_2_1 rand (assignment_2_1 48) num_reps s).0 ≡ true)
      × ((test_assignment_3_0 rand assignment_3_0 arr num_reps mem s).0 ≡ true)
      × ((test_assignment_3_1 rand assignment_3_1 arr num_reps mem s).0 ≡ true)
      × ((test_assignment_3_3 rand assignment_3_3 at num_reps bytes s).0 ≡ true)
      × (test_assignment_4_1 30 compiled num_reps c ≡ some true)
unfolding test_assignment_1_0 test_assignment_1_1 test_assignment_1_2 test_assignment_1_3
    test_assignment_1_4 test_assignment_1_5 test_assignment_1_6 test_assignment_1_7
    test_assignment_2_0 test_assignment_2_1 assignment_1_3
assignments-pass rand range n s arr mem at bytes room fits compiled c w stack high = (
  repeat_test-passes (round_1_0 rand assignment_1_0) n s (round_1_0-passes rand range),
  repeat_test-passes (round_1_1 rand assignment_1_1) n s (round_1_1-passes rand range),
  repeat_test-passes (round_1_2 rand assignment_1_2) n s (round_1_2-passes rand range),
  refl,
  repeat_test-passes (round_1_4 rand assignment_1_4) n s (round_1_4-passes rand range),
  repeat_test-passes (round_1_5 rand assignment_1_5) n s (round_1_5-passes rand range),
  repeat_test-passes (round_1_6 rand assignment_1_6) n s (round_1_6-passes rand range),
  repeat_test-passes (round_choice rand assignment_1_7) n s
      (round_choice-passes rand range assignment_1_7 assignment_1_7-choice),
  repeat_test-passes (round_choice rand assignment_2_0) n s
      (round_choice-passes rand range assignment_2_0 assignment_2_0-choice),
  repeat_test-passes (round_2_1 rand (assignment_2_1 48)) n s (round_2_1-passes rand range),
  assignment_3_0-passes rand arr n mem s,
  assignment_3_1-passes rand arr n mem s room,
  assignment_3_3-passes rand at n bytes s range fits,
  assignment_4_1-passes compiled w n c stack high,
)
