-- ===== src/Tester/Memory.antt =====
-- The assignments 3.0 to 3.3 of asm/assignments, which read and write memory, and their tests in
-- asm/tester_src/tester_main.c. `Words` is the memory by the address of an `int`; bytes are by their
-- own. A test is given the address of its variable, and what the memory holds before.
use jake.Common.{
  ◌>>=◌, ℕ, zero, suc, ◌+◌, ◌*◌, ◌/◌, ◌%◌, ◌^◌, Bool, true, false, ◌==◌, if◌then◌else◌, update,
  Option, none, some,
}
use jake.Machine.{word}
use jake.Process.State.{sign_extend}
use jake.Tester.{int_size}
use jake.Tester.Assignments.{sub, sll}
use jake.Tester.Rounds.{as_int}

abbrev pub Words : Type 0
Words = ℕ → ℕ

-- lw, addi 1 and sw at one address.
unfoldable pub assignment_3_0 : ℕ → Words → Words
assignment_3_0 a0 mem = let a1 = (sign_extend (mem a0) + 1) % word in update mem a0 (as_int a1)

unfoldable pub assignment_3_1 : ℕ → ℕ → Words → Words
assignment_3_1 a0 a1 mem =
    let a2 = (sll a1 2 + a0) % word in
    let a3 = (sign_extend (mem a2) + 1) % word in update mem a2 (as_int a3)

-- The loop of assignment 3.2; `none`: the rounds have run out.
unfoldable pub zero_rounds : ℕ → ℕ → ℕ → Words → Option ℕ
zero_rounds zero a0 a1 mem = none
zero_rounds (suc rounds) a0 a1 mem =
    let rest = zero_rounds rounds ((a0 + 4) % word) ((a1 + 1) % word) mem in
    if sign_extend (mem a0) == 0 then some a1 else rest

unfoldable pub assignment_3_2 : ℕ → ℕ → Words → Option ℕ
assignment_3_2 rounds a0 mem = zero_rounds rounds a0 0 mem

-- The loop of assignment 3.3 with `rounds` in a7.
unfoldable pub byte_rounds : ℕ → ℕ → ℕ → ℕ → (ℕ → ℕ) → ℕ
byte_rounds zero a0 a1 a2 bytes = a2
byte_rounds (suc rounds) a0 a1 a2 bytes =
    byte_rounds rounds ((a0 + 1) % word) (sub a1 8) ((a2 + sll (bytes a0) a1) % word) bytes

abbrev pub load_int : ℕ → (ℕ → ℕ) → ℕ
load_int a bytes = bytes a + bytes (a + 1) * 2 ^ 8 + bytes (a + 2) * 2 ^ 16 + bytes (a + 3) * 2 ^ 24

unfoldable pub assignment_3_3 : ℕ → ℕ → (ℕ → ℕ) → ℕ
assignment_3_3 a0 a1 bytes =
    if a1 == 0 then sign_extend (load_int a0 bytes) else byte_rounds 4 a0 24 0 bytes

-- One round of the tests 3.0 and 3.1: what an assignment does to the element that `rand` chooses.
unfoldable pub increment_round :
    {S : Type 0} → (S → ℕ × S) → (ℕ → ℕ → Words → Words) → ℕ → Words → S → Bool × Words × S
increment_round rand assignment arr mem s =
    let (r, s') = rand s in
    let id_in_arr = r % 1000 in
    let a = arr + 4 * id_in_arr in
    let mem' = assignment arr id_in_arr mem in (mem' a == (mem a + 1) % int_size, mem', s')

unfoldable pub increment_rounds :
    {S : Type 0} → (S → ℕ × S) → (ℕ → ℕ → Words → Words) → ℕ → ℕ → Words → S → Bool × Words × S
increment_rounds rand assignment arr zero mem s = (true, mem, s)
increment_rounds rand assignment arr (suc num_reps) mem s =
    let (ok, mem', s') = increment_round rand assignment arr mem s in
    let rest = increment_rounds rand assignment arr num_reps mem' s' in
    if ok then rest else (false, mem', s')

unfoldable pub test_assignment_3_0 :
    {S : Type 0} → (S → ℕ × S) → (ℕ → Words → Words) → ℕ → ℕ → Words → S → Bool × Words × S
test_assignment_3_0 rand assignment arr num_reps mem s =
    increment_rounds rand (λ (base : ℕ) (id : ℕ) (m : Words). assignment (base + 4 * id) m) arr
      num_reps mem s

unfoldable pub test_assignment_3_1 :
    {S : Type 0} → (S → ℕ × S) → (ℕ → ℕ → Words → Words) → ℕ → ℕ → Words → S → Bool × Words × S
test_assignment_3_1 rand assignment arr num_reps mem s =
    increment_rounds rand assignment arr num_reps mem s

-- The four assignments to the bytes of `my_int_location`, in the two orders.
abbrev pub put_int : Bool → ℕ → ℕ → (ℕ → ℕ) → ℕ → ℕ
put_int big at x bytes =
    let b0 = x % 2 ^ 8 in
    let b1 = x / 2 ^ 8 % 2 ^ 8 in
    let b2 = x / 2 ^ 16 % 2 ^ 8 in
    let b3 = x / 2 ^ 24 % 2 ^ 8 in
    let put = λ (w : ℕ) (x : ℕ) (y : ℕ) (z : ℕ).
      update (update (update (update bytes at w) (at + 1) x) (at + 2) y) (at + 3) z in
    if big then put b3 b2 b1 b0 else put b0 b1 b2 b3

unfoldable pub endian_rounds :
    {S : Type 0} → (S → ℕ × S) → (ℕ → ℕ → (ℕ → ℕ) → ℕ) → ℕ → ℕ → (ℕ → ℕ) → S → Bool × S
endian_rounds rand assignment at zero bytes s = (true, s)
endian_rounds rand assignment at (suc num_reps) bytes s =
    let (r, s₁) = rand s in
    let (my_int, s₂) = rand s₁ in
    let is_big_endian = r % 2 in
    let bytes' = put_int (is_big_endian == 1) at my_int bytes in
    let rest = endian_rounds rand assignment at num_reps bytes' s₂ in
    if as_int (assignment at is_big_endian bytes') == my_int then rest else (false, s₂)

unfoldable pub test_assignment_3_3 :
    {S : Type 0} → (S → ℕ × S) → (ℕ → ℕ → (ℕ → ℕ) → ℕ) → ℕ → ℕ → (ℕ → ℕ) → S → Bool × S
test_assignment_3_3 rand assignment at num_reps bytes s =
    endian_rounds rand assignment at num_reps bytes s

-- `while (!arr[j]) arr[j] = rand() % 1024` at the address `a`; `none`: the rounds have run out.
unfoldable pub fill_element : {S : Type 0} → (S → ℕ × S) → ℕ → ℕ → Words → S → Option (Words × S)
fill_element rand zero a mem s = none
fill_element rand (suc rounds) a mem s =
    let (r, s') = rand s in
    let rest = fill_element rand rounds a (update mem a (r % 1024)) s' in
    if mem a == 0 then rest else some (mem, s)

-- The loop over the elements of `test_assignment_3_2`, from `j` on with `n` of them left.
unfoldable pub fill_array :
    {S : Type 0} → (S → ℕ × S) → ℕ → ℕ → ℕ → ℕ → ℕ → Words → S → Option (Words × S)
fill_array rand rounds arr zero_index zero j mem s = some (mem, s)
fill_array rand rounds arr zero_index (suc n) j mem s = do
  (mem', s') ←
      if j == zero_index
      then some (update mem (arr + 4 * j) 0, s)
      else fill_element rand rounds (arr + 4 * j) mem s
  fill_array rand rounds arr zero_index n (j + 1) mem' s'

unfoldable pub zero_tests :
    {S : Type 0} → (S → ℕ × S) → (ℕ → Words → Option ℕ) → ℕ → ℕ → ℕ → Words → S → Option (Bool × S)
zero_tests rand assignment rounds arr zero mem s = some (true, s)
zero_tests rand assignment rounds arr (suc num_reps) mem s = do
  let (r, s₁) = rand s
  (mem', s₂) ← fill_array rand rounds arr (r % 1000) 1000 0 mem s₁
  got ← assignment arr mem'
  let rest = zero_tests rand assignment rounds arr num_reps mem' s₂
  if as_int got == r % 1000 then rest else some (false, s₂)

unfoldable pub test_assignment_3_2 :
    {S : Type 0} → (S → ℕ × S) → (ℕ → Words → Option ℕ) → ℕ → ℕ → ℕ → Words → S → Option (Bool × S)
test_assignment_3_2 rand assignment rounds arr num_reps mem s =
    zero_tests rand assignment rounds arr num_reps mem s
