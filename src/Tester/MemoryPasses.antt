-- ===== src/Tester/MemoryPasses.antt =====
-- The assignments 3.0 to 3.3 of asm/assignments, and the tests of all but 3.2.
use jake.Common.{
  ℕ, zero, suc, ◌+◌, ◌*◌, ◌/◌, ◌%◌, ◌^◌, ◌≤◌, ◌<◌, ◌≡◌, ◌≢◌, refl, ap, ◌∙◌, arith, true, false,
  ◌==◌, update, update_self, some,
}
use jake.Machine.{word}
use jake.Process.State.{sign_extend}
use jake.Tester.{int_size}
use jake.Tester.Assignments.{sll}
use jake.Tester.Rounds.{as_int}
use jake.Tester.Memory.{
  Words, assignment_3_0, assignment_3_1, zero_rounds, assignment_3_2, byte_rounds, load_int,
  assignment_3_3, increment_round, increment_rounds, test_assignment_3_0, test_assignment_3_1,
  put_int, endian_rounds, test_assignment_3_3,
}

pub eq→== : (a b : ℕ) → a ≡ b → (a == b) ≡ true
eq→== a b e = ground arith

as_int_next : (x : ℕ) → as_int ((sign_extend x + 1) % word) ≡ (x + 1) % int_size
as_int_next x = ground arith

increment_rounds-passes :
    {S : Type 0} (rand : S → ℕ × S) (assignment : ℕ → ℕ → Words → Words) (arr num_reps : ℕ)
    → ((id : ℕ) (mem : Words)
        → id < 1000
        → assignment arr id mem (arr + 4 * id) ≡ (mem (arr + 4 * id) + 1) % int_size)
    → (mem : Words) (s : S) → (increment_rounds rand assignment arr num_reps mem s).0 ≡ true
unfolding increment_rounds increment_round
increment_rounds-passes rand assignment arr zero h mem s = refl
increment_rounds-passes rand assignment arr (suc num_reps) h mem s =
    let r = rand s in
    let id = r.0 % 1000 in
    rw (eq→== _ _ (h id mem (omega arith)))
      (increment_rounds-passes rand assignment arr num_reps h (assignment arr id mem) r.1)

pub assignment_3_0-passes :
    {S : Type 0} (rand : S → ℕ × S) (arr num_reps : ℕ) (mem : Words) (s : S)
    → (test_assignment_3_0 rand assignment_3_0 arr num_reps mem s).0 ≡ true
unfolding test_assignment_3_0 assignment_3_0
assignment_3_0-passes rand arr num_reps mem s =
    increment_rounds-passes rand
      (λ (base : ℕ) (id : ℕ) (m : Words). assignment_3_0 (base + 4 * id) m) arr num_reps
      (λ id m l.
        update_self m (arr + 4 * id) (as_int ((sign_extend (m (arr + 4 * id)) + 1) % word))
        ∙ as_int_next (m (arr + 4 * id)))
      mem s

pub assignment_3_1-passes :
    {S : Type 0} (rand : S → ℕ × S) (arr num_reps : ℕ) (mem : Words) (s : S)
    → arr + 4000 ≤ word
    → (test_assignment_3_1 rand assignment_3_1 arr num_reps mem s).0 ≡ true
unfolding test_assignment_3_1 assignment_3_1
assignment_3_1-passes rand arr num_reps mem s room =
    increment_rounds-passes rand assignment_3_1 arr num_reps
      (λ id m l.
        let e : (sll id 2 + arr) % word ≡ arr + 4 * id = omega arith in
        rw e (
          update_self m (arr + 4 * id) (as_int ((sign_extend (m (arr + 4 * id)) + 1) % word))
          ∙ as_int_next (m (arr + 4 * id))))
      mem s

-- Four bytes one behind the other.
record Holds4 (at w x y z : ℕ) (bytes : ℕ → ℕ) : Type 0 where
  first : bytes at ≡ w
  second : bytes (at + 1) ≡ x
  third : bytes (at + 2) ≡ y
  fourth : bytes (at + 3) ≡ z

Holds4-put :
    (at w x y z : ℕ) (bytes : ℕ → ℕ)
    → Holds4 at w x y z
        (update (update (update (update bytes at w) (at + 1) x) (at + 2) y) (at + 3) z)
Holds4-put at w x y z bytes = record {
  first = ground arith;
  second = ground arith;
  third = ground arith;
  fourth = ground arith;
}

load_int-little :
    (at n : ℕ) (bytes : ℕ → ℕ)
    → n < 2 ^ 31
    → Holds4 at (n % 2 ^ 8) (n / 2 ^ 8 % 2 ^ 8) (n / 2 ^ 16 % 2 ^ 8) (n / 2 ^ 24 % 2 ^ 8) bytes
    → as_int (assignment_3_3 at 0 bytes) ≡ n
unfolding assignment_3_3
load_int-little at n bytes l h =
    let e : load_int at bytes ≡ n = omega (arith, h.first, h.second, h.third, h.fourth) in
    rw e (ground arith)

byte_rounds-big :
    (at n : ℕ) (bytes : ℕ → ℕ)
    → n < 2 ^ 31
    → at + 4 ≤ word
    → Holds4 at (n / 2 ^ 24 % 2 ^ 8) (n / 2 ^ 16 % 2 ^ 8) (n / 2 ^ 8 % 2 ^ 8) (n % 2 ^ 8) bytes
    → as_int (assignment_3_3 at 1 bytes) ≡ n
unfolding assignment_3_3 byte_rounds
byte_rounds-big at n bytes l room h =
    let e₁ : (at + 1) % word ≡ at + 1 = omega arith in
    let e₂ : (at + 1 + 1) % word ≡ at + 2 = omega arith in
    let e₃ : (at + 2 + 1) % word ≡ at + 3 = omega arith in
    rw (e₁, e₂, e₃, h.first, h.second, h.third, h.fourth) (omega arith)

endian_round :
    (at n is_big_endian : ℕ) (bytes : ℕ → ℕ)
    → n < 2 ^ 31
    → at + 4 ≤ word
    → is_big_endian < 2
    → as_int (assignment_3_3 at is_big_endian (put_int (is_big_endian == 1) at n bytes)) ≡ n
endian_round at n zero bytes l room b =
    load_int-little at n (put_int false at n bytes) l (Holds4-put at _ _ _ _ bytes)
endian_round at n (suc zero) bytes l room b =
    byte_rounds-big at n (put_int true at n bytes) l room (Holds4-put at _ _ _ _ bytes)
endian_round at n (suc (suc m)) bytes l room b = absurd (omega arith)

pub assignment_3_3-passes :
    {S : Type 0} (rand : S → ℕ × S) (at num_reps : ℕ) (bytes : ℕ → ℕ) (s : S)
    → ((s : S) → (rand s).0 < 2 ^ 31)
    → at + 4 ≤ word
    → (test_assignment_3_3 rand assignment_3_3 at num_reps bytes s).0 ≡ true
unfolding test_assignment_3_3 endian_rounds
assignment_3_3-passes rand at zero bytes s range room = refl
assignment_3_3-passes rand at (suc num_reps) bytes s range room =
    let r = rand s in
    let n = rand r.1 in
    let big = r.0 % 2 in
    let bytes' = put_int (big == 1) at n.0 bytes in
    rw
      (eq→== (as_int (assignment_3_3 at big bytes')) n.0
        (endian_round at n.0 big bytes (range r.1) room (omega arith)))
      (assignment_3_3-passes rand at num_reps bytes' n.1 range room)

zero_rounds-first :
    (d a0 a1 : ℕ) (mem : Words)
    → a0 + 4 * d < word
    → a1 + d < word
    → ((i : ℕ) → i < d → sign_extend (mem (a0 + 4 * i)) ≢ 0)
    → sign_extend (mem (a0 + 4 * d)) ≡ 0
    → zero_rounds (suc d) a0 a1 mem ≡ some (a1 + d)
unfolding zero_rounds
zero_rounds-first zero a0 a1 mem l m before here =
    let e : a0 + 4 * 0 ≡ a0 = omega arith in
    let z : (sign_extend (mem a0) == 0) ≡ true = eq→== _ _ (rw e at here) in
    rw z (ap (λ (t : ℕ). some t) (omega arith))
zero_rounds-first (suc d) a0 a1 mem l m before here =
    let e : a0 + 4 * 0 ≡ a0 = omega arith in
    let n : (sign_extend (mem a0) == 0) ≡ false =
      ground (arith, rw e at (before 0 (omega arith))) in
    let at : (a0 + 4) % word ≡ a0 + 4 = omega arith in
    let count : (a1 + 1) % word ≡ a1 + 1 = omega arith in
    let sum : a1 + suc d ≡ a1 + 1 + d = omega arith in
    rw (n, at, count, sum)
      (zero_rounds-first d (a0 + 4) (a1 + 1) mem (omega arith) (omega arith)
        (λ (i : ℕ) (l : i < d).
          let e : a0 + 4 + 4 * i ≡ a0 + 4 * suc i = omega arith in
          rw e (before (suc i) (omega arith)))
        (let e : a0 + 4 + 4 * d ≡ a0 + 4 * suc d = omega arith in rw e here))

-- On an array whose first zero element has index `d`, and that ends below 2 ^ 64, assignment 3.2 ends
-- within `d` + 1 rounds and answers `d`.
pub assignment_3_2-first :
    (d arr : ℕ) (mem : Words)
    → arr + 4 * d < word
    → d < word
    → ((i : ℕ) → i < d → sign_extend (mem (arr + 4 * i)) ≢ 0)
    → sign_extend (mem (arr + 4 * d)) ≡ 0
    → assignment_3_2 (suc d) arr mem ≡ some d
unfolding assignment_3_2
assignment_3_2-first d arr mem l m before here =
    let e : 0 + d ≡ d = omega arith in
    zero_rounds-first d arr 0 mem l (omega arith) before here ∙ ap (λ (t : ℕ). some t) e
