-- ===== src/Tester/Tests.antt =====
-- The tester of the assembly course on concrete numbers.
use jake.Common.{
  ◌<◌, ◌-◌, ◌/◌, ℕ, ◌+◌, ◌*◌, ◌%◌, ◌^◌, ◌≡◌, refl, some, arith, true, update, update_ne,
}
use jake.Tester.{
  int_size, fill_expected_recursive_call_args, fibonacci, Matrices, int16_size, ref_mult_matrices,
}
use jake.Tester.Product.{dot, ref_mult_matrices-dot}
use jake.Tester.Assignments.{
  assignment_1_0, assignment_1_1, assignment_1_2, assignment_1_3, assignment_1_4, assignment_1_5,
  assignment_1_6, assignment_1_7, assignment_2_0, assignment_2_1,
}
use jake.Tester.Rounds.{
  as_int, test_assignment_1_0, test_assignment_1_1, test_assignment_1_2, test_assignment_1_3,
  test_assignment_1_4, test_assignment_1_5, test_assignment_1_6, test_assignment_1_7,
  test_assignment_2_0, test_assignment_2_1,
}
use jake.Tester.Fibonacci.{assignment_2_1-fibonacci}
use jake.Tester.Memory.{
  assignment_3_0, assignment_3_1, assignment_3_3, test_assignment_3_0, test_assignment_3_1,
  test_assignment_3_3,
}
use jake.Tester.Recursion.{
  Course, Compiled, strays, after_jalr, assignment_4_1, leave, test_assignment_4_1, recursive_call,
}
use jake.Tester.RecursionPasses.{IsCompiled, Summed, recursive_call-Summed}
use jake.Tester.Passes.{assignments-pass}

-- A generator of the same kind as `rand`.
abbrev some_rand : ℕ → ℕ × ℕ
some_rand s = (s / 2 ^ 16 % 2 ^ 31, (s * 1103515245 + 12345) % 2 ^ 47)

abbrev some_memory : ℕ → ℕ
some_memory a = a % 256

some_rand-range : (s : ℕ) → (some_rand s).0 < 2 ^ 31
some_rand-range s = omega arith

assignment_2_1-fibonacci_example :
    (got : ℕ) × (assignment_2_1 48 47 ≡ some got) × (got % int_size ≡ fibonacci 47)
assignment_2_1-fibonacci_example = assignment_2_1-fibonacci 48 47 (omega arith) (omega arith)

-- A code that keeps its return address on a frame of 16 bytes.
abbrev some_code : Compiled
some_code = record { back = 0x10200; frame = 16; spill = λ sp mem. update mem sp 2 }

some_code-IsCompiled : IsCompiled some_code
some_code-IsCompiled = record {
  back_low = omega arith;
  spill_above = λ sp mem x l. update_ne mem sp x 2 (λ e. omega (arith, e));
}

abbrev some_course : Course
some_course = record { sp = 0x8000; mem = some_memory; index = 0; success = true }

assignments-pass_example :
    ((test_assignment_1_0 some_rand assignment_1_0 100 1).0 ≡ true)
    × ((test_assignment_1_1 some_rand assignment_1_1 100 1).0 ≡ true)
    × ((test_assignment_1_2 some_rand assignment_1_2 100 1).0 ≡ true)
    × (test_assignment_1_3 assignment_1_3 ≡ true)
    × ((test_assignment_1_4 some_rand assignment_1_4 100 1).0 ≡ true)
    × ((test_assignment_1_5 some_rand assignment_1_5 100 1).0 ≡ true)
    × ((test_assignment_1_6 some_rand assignment_1_6 100 1).0 ≡ true)
    × ((test_assignment_1_7 some_rand assignment_1_7 100 1).0 ≡ true)
    × ((test_assignment_2_0 some_rand assignment_2_0 100 1).0 ≡ true)
    × ((test_assignment_2_1 some_rand (assignment_2_1 48) 100 1).0 ≡ true)
    × ((test_assignment_3_0 some_rand assignment_3_0 4096 100 some_memory 1).0 ≡ true)
    × ((test_assignment_3_1 some_rand assignment_3_1 4096 100 some_memory 1).0 ≡ true)
    × ((test_assignment_3_3 some_rand assignment_3_3 64 100 some_memory 1).0 ≡ true)
    × (test_assignment_4_1 30 some_code 100 some_course ≡ some true)
assignments-pass_example =
    assignments-pass some_rand some_rand-range 100 1 4096 some_memory 64 some_memory (omega arith)
      (omega arith) some_code some_course some_code-IsCompiled (omega arith) (omega arith)

recursive_call-Summed_example :
    Summed
      (recursive_call 30 some_code (fill_expected_recursive_call_args 7) 7 some_course)
      28
      7
      some_course
recursive_call-Summed_example =
    recursive_call-Summed some_code some_code-IsCompiled 30 7 7 some_course (omega arith)
      (omega arith) (omega arith) (omega arith) (omega arith)

-- With a return address of 2 ^ 31 or more assignment 4.1 does not come back.
far_return :
    recursive_call 3
      (record some_code { back = 0x80010200 })
      (fill_expected_recursive_call_args 1)
      1
      some_course
    ≡ some strays
unfolding recursive_call fill_expected_recursive_call_args assignment_4_1 after_jalr leave
far_return = refl

-- The `int` -1 is negative, but the result of assignment 1.2 for it is not 1.
negative_int : as_int (assignment_1_2 (2 ^ 64 - 1)) ≡ 2 ^ 32 - 1
unfolding assignment_1_2
negative_int = refl

-- A matrix of 2 rows and 3 columns, and one of 3 rows and 4 columns.
abbrev two_matrices : Matrices
two_matrices = record {
  m0_width = 3;
  m0_height = 2;
  m1_width = 4;
  m1_height = 3;
  m0 = λ a. a * 1000;
  m1 = λ a. a + 7;
  m2 = λ a. 5;
  m2_ref = λ a. a;
}

ref_mult_matrices-dot_example :
    (ref_mult_matrices two_matrices).m2_ref (1 * 4 + 2) ≡ dot two_matrices 1 2 3 % int16_size
ref_mult_matrices-dot_example =
    ref_mult_matrices-dot two_matrices 1 2 (omega arith) (omega arith) (omega arith) (omega arith)
