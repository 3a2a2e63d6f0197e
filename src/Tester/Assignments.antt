-- ===== src/Tester/Assignments.antt =====
-- The assignments of asm/assignments, each a function from the registers of its arguments to a0. A
-- register holds 64 bits.
use jake.Common.{
  ℕ, zero, suc, ◌+◌, ◌-◌, ◌*◌, ◌/◌, ◌%◌, ◌^◌, ◌==◌, ltb, if◌then◌else◌, bit_and, bit_xor, Option,
  none, some,
}
use jake.Machine.{word}

-- The instructions sub, srl and sll.
abbrev pub sub : ℕ → ℕ → ℕ
sub a b = (a + word - b) % word

abbrev pub srl : ℕ → ℕ → ℕ
srl a b = a / 2 ^ (b % 64)

abbrev pub sll : ℕ → ℕ → ℕ
sll a b = a * 2 ^ (b % 64) % word

unfoldable pub assignment_1_0 : ℕ → ℕ → ℕ
assignment_1_0 a0 a1 = (a1 + a0) % word

unfoldable pub assignment_1_1 : ℕ → ℕ → ℕ
assignment_1_1 a0 a1 =
    let diff = sub a0 a1 in let differs = if ltb 0 diff then 1 else 0 in bit_xor differs 1

unfoldable pub assignment_1_2 : ℕ → ℕ
assignment_1_2 a0 = srl a0 31

unfoldable pub assignment_1_3 : ℕ
assignment_1_3 =
    let sum = (0x7adca000 + 0x40000000) % word in
    let low = (srl sum 4 + 0xb1) % word in (sll low 4 + 0xe) % word

unfoldable pub assignment_1_4 : ℕ → ℕ
assignment_1_4 a0 = bit_xor a0 (word - 1)

unfoldable pub assignment_1_5 : ℕ → ℕ
assignment_1_5 a0 = let a6 = sub 32 a0 in sll (srl (word - 1) a6) a6

unfoldable pub assignment_1_6 : ℕ → ℕ → ℕ
assignment_1_6 a0 a1 = bit_and a0 (srl (srl (word - 1) a1) 32)

unfoldable pub assignment_1_7 : ℕ → ℕ → ℕ → ℕ
assignment_1_7 a0 a1 a2 =
    let a4 = sub 1 a0 in
    let a7 = sub (sll a0 5) a0 in
    let a6 = sub (sll a4 5) a4 in (srl (srl a2 a6) a4 + srl (srl a1 a7) a0) % word

unfoldable pub assignment_2_0 : ℕ → ℕ → ℕ → ℕ
assignment_2_0 a0 a1 a2 = if a0 == 0 then a1 else a2

-- The loop of assignment 2.1; `none`: the rounds have run out.
unfoldable pub fib_rounds : ℕ → ℕ → ℕ → ℕ → ℕ → Option ℕ
fib_rounds zero a0 a1 a2 a7 = none
fib_rounds (suc rounds) a0 a1 a2 a7 =
    let rest = fib_rounds rounds a0 a2 ((a2 + a1) % word) ((a7 + 1) % word) in
    if a7 == a0 then some a1 else rest

unfoldable pub assignment_2_1 : ℕ → ℕ → Option ℕ
assignment_2_1 rounds a0 = if a0 == 0 then some 0 else fib_rounds rounds a0 0 1 0
