-- ===== src/Tester.antt =====
-- The program that checks the assignments of the assembly course, asm/tester_src/tester_main.c. An
-- `int` is a number below 2 ^ 32, an `int16_t` one below 2 ^ 16, in two's complement. The assignments
-- are arguments, and so is `rand`, a function on the state of the generator.
use jake.Common.{
  ℕ, zero, suc, ◌+◌, ◌-◌, ◌*◌, ◌/◌, ◌%◌, ◌^◌, Bool, true, false, ◌==◌, leb, if◌then◌else◌, update,
  bit_and, Option, none, some,
}
pub mod Assignments
pub mod Rounds
pub mod Recursion
pub mod Slots
pub mod RecursionPasses
pub mod Memory
pub mod MemoryPasses
pub mod Fibonacci
pub mod Values
pub mod Passes
pub mod Product
mod Tests

abbrev pub int_size : ℕ
int_size = 2 ^ 32

abbrev pub int16_size : ℕ
int16_size = 2 ^ 16

abbrev pub truth : Bool → ℕ
truth b = if b then 1 else 0

-- The loop of `fibonacci` with `n` rounds left.
unfoldable pub fibonacci_loop : ℕ → ℕ → ℕ → ℕ
fibonacci_loop zero a0 a1 = a1
fibonacci_loop (suc n) a0 a1 = fibonacci_loop n a1 ((a1 + a0) % int_size)

unfoldable pub fibonacci : ℕ → ℕ
fibonacci zero = 0
fibonacci (suc n) = fibonacci_loop n 0 1

-- `expected_recursive_call_args` as `fill_expected_recursive_call_args` leaves it: -1 is 2 ^ 32 - 1.
unfoldable pub fill_expected_recursive_call_args : ℕ → ℕ → ℕ
fill_expected_recursive_call_args initial_n i =
    if leb i initial_n then initial_n - i else int_size - 1

abbrev pub max_matr_side : ℕ
max_matr_side = 15

-- The matrices and their sides.
pub record Matrices : Type 0 where
  pub m0_width : ℕ
  pub m0_height : ℕ
  pub m1_width : ℕ
  pub m1_height : ℕ
  pub m0 : ℕ → ℕ
  pub m1 : ℕ → ℕ
  pub m2 : ℕ → ℕ
  pub m2_ref : ℕ → ℕ

-- The inner loop of `populate_matrices_5_0` from `j` on, and the outer one from `i` on.
unfoldable pub populate_row : {S : Type 0} → (S → ℕ × S) → ℕ → ℕ → ℕ → Matrices → S → Matrices × S
populate_row rand zero i j m s = (m, s)
populate_row rand (suc rounds) i j m s =
    let (x, s₁) = rand s in
    let (y, s₂) = rand s₁ in
    populate_row rand rounds i (j + 1)
      (record m {
        m0 = update m.m0 (i * max_matr_side + j) (x % int16_size);
        m1 = update m.m1 (i * max_matr_side + j) (y % int16_size);
      })
      s₂

unfoldable pub populate_rows : {S : Type 0} → (S → ℕ × S) → ℕ → ℕ → Matrices → S → Matrices × S
populate_rows rand zero i m s = (m, s)
populate_rows rand (suc rounds) i m s =
    let (m', s') = populate_row rand max_matr_side i 0 m s in
    populate_rows rand rounds (i + 1) m' s'

unfoldable pub populate_matrices : {S : Type 0} → (S → ℕ × S) → Matrices → S → Matrices × S
populate_matrices rand m s = populate_rows rand max_matr_side 0 m s

-- The first two loops of `ref_mult_matrices_5_0`, on one of the two matrices that they clear.
unfoldable pub clear_row : ℕ → ℕ → ℕ → (ℕ → ℕ) → ℕ → ℕ
clear_row zero i j m = m
clear_row (suc rounds) i j m = clear_row rounds i (j + 1) (update m (i * max_matr_side + j) 0)

unfoldable pub clear_rows : ℕ → ℕ → (ℕ → ℕ) → ℕ → ℕ
clear_rows zero i m = m
clear_rows (suc rounds) i m = clear_rows rounds (i + 1) (clear_row max_matr_side i 0 m)

-- The three loops of the multiplication on the result `r`, from `k`, `j` and `i` on: the row `i` and
-- the column `j`, the widths of the factors, and the factors.
unfoldable pub mult_cell : ℕ → ℕ → ℕ → ℕ → Matrices → (ℕ → ℕ) → ℕ → ℕ
mult_cell zero i j k m r = r
mult_cell (suc rounds) i j k m r =
    let at = i * m.m1_width + j in
    mult_cell rounds i j (k + 1) m
      (update r at ((r at + m.m0 (i * m.m0_width + k) * m.m1 (k * m.m1_width + j)) % int16_size))

unfoldable pub mult_row : ℕ → ℕ → ℕ → ℕ → Matrices → (ℕ → ℕ) → ℕ → ℕ
mult_row depth zero i j m r = r
mult_row depth (suc rounds) i j m r = mult_row depth rounds i (j + 1) m (mult_cell depth i j 0 m r)

unfoldable pub mult_rows : ℕ → ℕ → ℕ → Matrices → (ℕ → ℕ) → ℕ → ℕ
mult_rows depth zero i m r = r
mult_rows depth (suc rounds) i m r =
    mult_rows depth rounds (i + 1) m (mult_row depth m.m1_width i 0 m r)

unfoldable pub ref_mult_matrices : Matrices → Matrices
ref_mult_matrices m = record m {
  m2 = clear_rows max_matr_side 0 m.m2;
  m2_ref = mult_rows m.m1_height m.m0_height 0 m (clear_rows max_matr_side 0 m.m2_ref);
}

unfoldable pub dummy_solution : Matrices → Matrices
dummy_solution m = record m { m2 = mult_rows m.m0_width m.m0_height 0 m m.m2 }

-- The two loops of `compare_matrices_5_0`.
unfoldable pub compare_row : ℕ → ℕ → ℕ → Matrices → Bool
compare_row zero i j m = true
compare_row (suc rounds) i j m =
    let rest = compare_row rounds i (j + 1) m in
    if m.m2_ref (i * m.m1_width + j) == m.m2 (i * m.m1_width + j) then rest else false

unfoldable pub compare_rows : ℕ → ℕ → Matrices → Bool
compare_rows zero i m = true
compare_rows (suc rounds) i m =
    let rest = compare_rows rounds (i + 1) m in if compare_row m.m1_width i 0 m then rest else false

unfoldable pub compare_matrices : Matrices → Bool
compare_matrices m = compare_rows m.m0_height 0 m

-- `test_assignment_5_0` from round `i` on, for an assignment that gives the matrix M2.
unfoldable pub side : {S : Type 0} → (S → ℕ × S) → S → ℕ × S
side rand s = let (r, s') = rand s in (1 + r % (max_matr_side - 1), s')

unfoldable pub set_sides : {S : Type 0} → (S → ℕ × S) → ℕ → Matrices → S → Matrices × S
set_sides rand zero m s = (record m { m0_height = 1; m0_width = 1; m1_width = 1; m1_height = 1 }, s)
set_sides rand (suc i) m s =
    let (height, s₁) = side rand s in
    let (width, s₂) = side rand s₁ in
    let (other, s₃) = side rand s₂ in
    (record m { m0_height = height; m0_width = width; m1_width = other; m1_height = width }, s₃)

unfoldable pub matrix_rounds :
    {S : Type 0} → (S → ℕ × S) → (Matrices → ℕ → ℕ) → ℕ → ℕ → Matrices → S → Bool × Matrices × S
matrix_rounds rand assignment zero i m s = (true, m, s)
matrix_rounds rand assignment (suc num_reps) i m s =
    let (sized, s₁) = set_sides rand i m s in
    let (filled, s₂) = populate_matrices rand sized s₁ in
    let expected = ref_mult_matrices filled in
    let got = record expected { m2 = assignment expected } in
    let rest = matrix_rounds rand assignment num_reps (i + 1) got s₂ in
    if compare_matrices got then rest else (false, got, s₂)

unfoldable pub test_assignment_5_0 :
    {S : Type 0} → (S → ℕ × S) → (Matrices → ℕ → ℕ) → ℕ → Matrices → S → Bool × Matrices × S
test_assignment_5_0 rand assignment num_reps m s = matrix_rounds rand assignment num_reps 0 m s
