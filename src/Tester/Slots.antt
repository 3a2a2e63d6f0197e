-- ===== src/Tester/Slots.antt =====
-- The two words that assignment 4.1 of asm/assignments puts on the stack, at `sp` and `sp` + 4.
use jake.Common.{ℕ, ◌+◌, ◌/◌, ◌%◌, ◌^◌, ◌≤◌, ◌<◌, ◌≡◌, refl, ◌∙◌, arith, false}
use jake.Tester.Memory.{load_int, put_int}

put_int-load : (at x : ℕ) (mem : ℕ → ℕ) → x < 2 ^ 31 → load_int at (put_int false at x mem) ≡ x
put_int-load at x mem l =
    let e₀ : put_int false at x mem at ≡ x % 2 ^ 8 = ground arith in
    let e₁ : put_int false at x mem (at + 1) ≡ x / 2 ^ 8 % 2 ^ 8 = ground arith in
    let e₂ : put_int false at x mem (at + 2) ≡ x / 2 ^ 16 % 2 ^ 8 = ground arith in
    let e₃ : put_int false at x mem (at + 3) ≡ x / 2 ^ 24 % 2 ^ 8 = ground arith in
    omega (arith, e₀, e₁, e₂, e₃)

pub put_int-above : (at x : ℕ) (mem : ℕ → ℕ) (y : ℕ) → at + 4 ≤ y → put_int false at x mem y ≡ mem y
put_int-above at x mem y l = ground arith

pub load_int-same :
    (at : ℕ) (mem mem' : ℕ → ℕ)
    → ((i : ℕ) → at ≤ i → mem' i ≡ mem i)
    → load_int at mem' ≡ load_int at mem
load_int-same at mem mem' h =
    rw
      (
        h at (omega arith),
        h (at + 1) (omega arith),
        h (at + 2) (omega arith),
        h (at + 3) (omega arith),
      )
      refl

pub saved-ra :
    (sp ra k : ℕ) (mem : ℕ → ℕ)
    → ra < 2 ^ 31
    → load_int sp (put_int false sp ra (put_int false (sp + 4) k mem)) ≡ ra
saved-ra sp ra k mem l = put_int-load sp ra (put_int false (sp + 4) k mem) l

pub saved-k :
    (sp ra k : ℕ) (mem : ℕ → ℕ)
    → k < 2 ^ 31
    → load_int (sp + 4) (put_int false sp ra (put_int false (sp + 4) k mem)) ≡ k
saved-k sp ra k mem l =
    let inner = put_int false (sp + 4) k mem in
    load_int-same (sp + 4) inner (put_int false sp ra inner) (λ i m. put_int-above sp ra inner i m)
    ∙ put_int-load (sp + 4) k mem l
