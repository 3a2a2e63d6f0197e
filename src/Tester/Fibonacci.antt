-- ===== src/Tester/Fibonacci.antt =====
-- The helper `fibonacci` of asm/tester_src/tester_main.c and assignment 2.1.
use jake.Common.{ℕ, zero, suc, ◌+◌, ◌%◌, ◌<◌, ◌≡◌, refl, ap, ◌∙◌, arith, true, false, ◌==◌, some}
use jake.Machine.{word}
use jake.Tester.{int_size, fibonacci_loop, fibonacci}
use jake.Tester.Assignments.{fib_rounds, assignment_2_1}

-- The Fibonacci numbers, without bounds.
unfoldable pub fib : ℕ → ℕ
fib zero = 0
fib (suc zero) = 1
fib (suc (suc n)) = fib (suc n) + fib n

fib_next : (n : ℕ) → fib (suc (suc n)) ≡ fib (suc n) + fib n
unfolding fib
fib_next n = refl

fibonacci_loop-fib :
    (n m : ℕ)
    → fibonacci_loop n (fib m % int_size) (fib (suc m) % int_size) ≡ fib (suc m + n) % int_size
unfolding fibonacci_loop
fibonacci_loop-fib zero m = ap (λ (t : ℕ). fib t % int_size) (omega arith)
fibonacci_loop-fib (suc n) m =
    let e : (fib (suc m) % int_size + fib m % int_size) % int_size ≡ fib (suc (suc m)) % int_size =
      omega (arith, fib_next m) in
    ap (λ (t : ℕ). fibonacci_loop n (fib (suc m) % int_size) t) e
    ∙ fibonacci_loop-fib n (suc m)
    ∙ ap (λ (t : ℕ). fib t % int_size) (omega arith)

pub fibonacci-fib : (n : ℕ) → fibonacci n ≡ fib n % int_size
unfolding fibonacci fib
fibonacci-fib zero = refl
fibonacci-fib (suc n) =
    let e : 1 + n ≡ suc n = omega arith in
    fibonacci_loop-fib n 0 ∙ ap (λ (t : ℕ). fib t % int_size) e

fib_rounds-fib :
    (rounds n m : ℕ)
    → n < rounds
    → m + n < word
    → fib_rounds rounds (m + n) (fib m % word) (fib (suc m) % word) m ≡ some (fib (m + n) % word)
unfolding fib_rounds
fib_rounds-fib zero n m l b = absurd (omega arith)
fib_rounds-fib (suc rounds) zero m l b =
    let e : (m == m + 0) ≡ true = ground arith in
    rw e (ap (λ (t : ℕ). some (fib t % word)) (omega arith))
fib_rounds-fib (suc rounds) (suc n) m l b =
    let e : (m == m + suc n) ≡ false = ground arith in
    let next : (fib (suc m) % word + fib m % word) % word ≡ fib (suc (suc m)) % word =
      omega (arith, fib_next m) in
    let count : (m + 1) % word ≡ suc m = omega arith in
    let same : m + suc n ≡ suc m + n = omega arith in
    rw e (rw (next, count, same) (fib_rounds-fib rounds n (suc m) (omega arith) (omega arith)))

-- Assignment 2.1 of a number below 2 ^ 64 ends within one round more than this number, and its result,
-- cut to an `int`, is the one of `fibonacci`.
pub assignment_2_1-fibonacci :
    (rounds a : ℕ)
    → a < rounds
    → a < word
    → (got : ℕ) × (assignment_2_1 rounds a ≡ some got) × (got % int_size ≡ fibonacci a)
unfolding assignment_2_1 fibonacci fib
assignment_2_1-fibonacci rounds zero l b = (0, refl, refl)
assignment_2_1-fibonacci rounds (suc a) l b =
    let e : 0 + suc a ≡ suc a = omega arith in
    let n : (suc a == 0) ≡ false = ground arith in
    (
      fib (suc a) % word,
      rw n (rw e at (fib_rounds-fib rounds (suc a) 0 l (omega arith))),
      omega (arith, fibonacci-fib (suc a)),
    )
