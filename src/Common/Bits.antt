-- ===== src/Common/Bits.antt =====
-- Laws of the bit operations that the kernel's macros use: `^` with one bit, `|` with one bit and
-- `&` with a mask of low bits, as arithmetic at every width.
use Prim.Native.Nat.{
  ℕ, zero, suc, ◌+◌, ◌*◌, ◌/◌, ◌%◌, ◌^◌, ◌-◌, ◌≤◌, ◌<◌, min, differ, bit_and, bit_xor, digits,
  bitwise, bit_and-bitwise, bit_xor-bitwise,
}
use mathlib.Core.Path.{◌≡◌, refl, sym, ap, ◌∙◌}
use native.Mathlib.Nat.{pow-suc, one-le-pow, div-div-eq-div-mul}
use Prim.Native.Nat.add
use native.Mathlib.Omega.{arith}

-- A number of rounds that is at least the first number gives the digits.
module _ (rest : ℕ → ℕ) (op : ℕ → ℕ → ℕ) where
  rounds : (n m x y : ℕ) → x ≤ n → x ≤ m → digits rest op n x y ≡ digits rest op m x y
  rounds zero (suc m) (suc x) y small _ = absurd (omega arith)
  rounds (suc n) zero (suc x) y _ small = absurd (omega arith)
  rounds zero zero x y _ _ = refl
  rounds zero (suc m) zero y _ _ = refl
  rounds (suc n) zero zero y _ _ = refl
  rounds (suc n) (suc m) zero y _ _ = refl
  rounds (suc n) (suc m) (suc x) y fst snd =
      omega (arith, rounds n m (suc x / 2) (y / 2) (omega arith) (omega arith))

  lowest_digit :
      (x y : ℕ)
      → bitwise rest op (suc x) y ≡ op (suc x % 2) (y % 2) + 2 * bitwise rest op (suc x / 2) (y / 2)
  lowest_digit x y =
      omega (arith, rounds x (suc x / 2) (suc x / 2) (y / 2) (omega arith) (omega arith))

differ_digits : (x y : ℕ) → x < 2 → y < 2 → differ x y ≡ (x + y) % 2
differ_digits zero y p q = omega arith
differ_digits (suc zero) zero p q = refl
differ_digits (suc zero) (suc zero) p q = refl
differ_digits (suc zero) (suc (suc y)) p q = absurd (omega arith)
differ_digits (suc (suc x)) y p q = absurd (omega arith)

-- One equation for the lowest digit of each operation.
pub bit_xor_step : (a b : ℕ) → bit_xor a b ≡ (a % 2 + b % 2) % 2 + 2 * bit_xor (a / 2) (b / 2)
bit_xor_step zero b = simp bit_xor-bitwise (omega arith)
bit_xor_step (suc a) b = simp bit_xor-bitwise (
    omega (
      arith,
      lowest_digit (λ y. y) differ a b,
      differ_digits (suc a % 2) (b % 2) (omega arith) (omega arith),
    ))

pub bit_and_step : (a b : ℕ) → bit_and a b ≡ min (a % 2) (b % 2) + 2 * bit_and (a / 2) (b / 2)
bit_and_step zero b = simp bit_and-bitwise (omega arith)
bit_and_step (suc a) b = simp bit_and-bitwise (lowest_digit (λ _. 0) min a b)

-- Recursion from `a / 2` to `a` runs on a bound of `a`.
bit_xor-zero_below : (n a : ℕ) → a ≤ n → bit_xor a 0 ≡ a
bit_xor-zero_below n zero h = refl
bit_xor-zero_below zero (suc a) h = absurd (omega arith)
bit_xor-zero_below (suc n) (suc a) h =
    omega (arith, bit_xor_step (suc a) 0, bit_xor-zero_below n (suc a / 2) (omega arith))

bit_xor-self_below : (n a : ℕ) → a ≤ n → bit_xor a a ≡ 0
bit_xor-self_below n zero h = refl
bit_xor-self_below zero (suc a) h = absurd (omega arith)
bit_xor-self_below (suc n) (suc a) h =
    omega (arith, bit_xor_step (suc a) (suc a), bit_xor-self_below n (suc a / 2) (omega arith))

bit_and-zero_below : (n a : ℕ) → a ≤ n → bit_and a 0 ≡ 0
bit_and-zero_below n zero h = refl
bit_and-zero_below zero (suc a) h = absurd (omega arith)
bit_and-zero_below (suc n) (suc a) h =
    omega (arith, bit_and_step (suc a) 0, bit_and-zero_below n (suc a / 2) (omega arith))

pub bit_xor-zero : (a : ℕ) → bit_xor a 0 ≡ a
bit_xor-zero a = bit_xor-zero_below a a (omega arith)

pub bit_xor_self : (a : ℕ) → bit_xor a a ≡ 0
bit_xor_self a = bit_xor-self_below a a (omega arith)

pub bit_and-zero : (a : ℕ) → bit_and a 0 ≡ 0
bit_and-zero a = bit_and-zero_below a a (omega arith)

mul-two-pow : (q k : ℕ) → q * 2 ^ suc k ≡ 2 * (q * 2 ^ k)
mul-two-pow q k = omega (arith, ap (λ (t : ℕ). q * t) (pow-suc 2 k))

-- `^` with a number whose low `k` bits are 0 leaves the low `k` bits alone.
pub bit_xor_shift :
    (k a b l : ℕ) → l < 2 ^ k → bit_xor (a * 2 ^ k + l) (b * 2 ^ k) ≡ bit_xor a b * 2 ^ k + l
bit_xor_shift zero a b l h =
    let e : l ≡ 0 = omega arith in
    let p : a * 1 + l ≡ a = omega arith in
    let q : b * 1 ≡ b = omega arith in rw (p, q) (omega arith)
bit_xor_shift (suc k) a b l h = ground (
  arith,
  bit_xor_step (a * 2 ^ suc k + l) (b * 2 ^ suc k),
  mul-two-pow a k,
  mul-two-pow b k,
  mul-two-pow (bit_xor a b) k,
  pow-suc 2 k,
  bit_xor_shift k a b (l / 2),
)

-- `^` with a number of `w` bits leaves the digits above them alone.
pub bit_xor_low :
    (w h m n : ℕ) → m < 2 ^ w → n < 2 ^ w → bit_xor (h * 2 ^ w + m) n ≡ h * 2 ^ w + bit_xor m n
bit_xor_low zero h m n p q =
    let e : m ≡ 0 = omega arith in
    let f : n ≡ 0 = omega arith in rw (e, f) (omega (arith, bit_xor-zero (h * 1 + 0)))
bit_xor_low (suc w) h m n p q = ground (
  arith,
  bit_xor_step (h * 2 ^ suc w + m) n,
  bit_xor_step m n,
  mul-two-pow h w,
  pow-suc 2 w,
  bit_xor_low w h (m / 2) (n / 2),
)

mod_double : (a p : ℕ) → 0 < p → a % (p * 2) ≡ (a / 2 % p) * 2 + a % 2
mod_double a p h = grind arith

mod_small : (a p : ℕ) → a < p → a % p ≡ a
mod_small a p h = grind arith

-- A mask of `k` low bits is the remainder by `2 ^ k`.
pub bit_and_mask : (k a : ℕ) → bit_and a (2 ^ k - 1) ≡ a % 2 ^ k
bit_and_mask zero a = omega (arith, bit_and-zero a)
bit_and_mask (suc k) a = ground (
  arith,
  bit_and_step a (2 ^ suc k - 1),
  pow-suc 2 k,
  one-le-pow k 2,
  bit_and_mask k (a / 2),
  mod_double a (2 ^ k),
)

pub two_pow_pos : (k : ℕ) → 0 < 2 ^ k
two_pow_pos k = omega (arith, one-le-pow k 2)

bit_xor_even_one : (q : ℕ) → bit_xor (2 * q) 1 ≡ 2 * q + 1
bit_xor_even_one q = ground (arith, bit_xor_step (2 * q) 1, bit_xor-zero (2 * q / 2))

bit_xor_odd_one : (q : ℕ) → bit_xor (2 * q + 1) 1 ≡ 2 * q
bit_xor_odd_one q = ground (arith, bit_xor_step (2 * q + 1) 1, bit_xor-zero ((2 * q + 1) / 2))

bit_xor_bit : (k a : ℕ) → bit_xor (a * 2 ^ k) (2 ^ k) ≡ bit_xor a 1 * 2 ^ k
bit_xor_bit k a =
    let x : a * 2 ^ k + 0 ≡ a * 2 ^ k = omega arith in
    let y : 1 * 2 ^ k ≡ 2 ^ k = omega arith in
    omega (arith, rw (x, y) at (bit_xor_shift k a 1 0 (two_pow_pos k)))

-- `^` with one bit sets it where it is clear, and clears it where it is set.
pub bit_xor_clear : (k q : ℕ) → bit_xor (2 * q * 2 ^ k) (2 ^ k) ≡ 2 * q * 2 ^ k + 2 ^ k
bit_xor_clear k q =
    omega (arith, bit_xor_bit k (2 * q), ap (λ (t : ℕ). t * 2 ^ k) (bit_xor_even_one q))

pub bit_xor_set : (k q : ℕ) → bit_xor ((2 * q + 1) * 2 ^ k) (2 ^ k) ≡ 2 * q * 2 ^ k
bit_xor_set k q =
    omega (arith, bit_xor_bit k (2 * q + 1), ap (λ (t : ℕ). t * 2 ^ k) (bit_xor_odd_one q))

pub two_pow_add : (d k : ℕ) → 2 ^ (d + k) ≡ 2 ^ d * 2 ^ k
two_pow_add zero k = ground (arith, ap (λ (t : ℕ). 2 ^ t) (add.zero k))
two_pow_add (suc d) k =
    let e : suc d + k ≡ suc (d + k) = omega arith in
    rw e (
      omega (
        arith,
        pow-suc 2 (d + k),
        pow-suc 2 d,
        two_pow_add d k,
        ap (λ (t : ℕ). t * 2 ^ k) (pow-suc 2 d),
      ))

-- A mask of `d` ones above `k` zeros rounds a number of `d + k` bits down.
pub bit_and_high :
    (d k a : ℕ) → a < 2 ^ (d + k) → bit_and a (2 ^ (d + k) - 2 ^ k) ≡ a / 2 ^ k * 2 ^ k
bit_and_high d zero a h =
    let e : d + 0 ≡ d = omega arith in
    let q : 2 ^ (d + 0) ≡ 2 ^ d = ap (λ (t : ℕ). 2 ^ t) e in
    ap (λ (t : ℕ). bit_and a (t - 1)) q
    ∙ omega (arith, bit_and_mask d a, mod_small a (2 ^ d) (omega (arith, q, h)))
bit_and_high d (suc k) a h =
    let e : d + suc k ≡ suc (d + k) = omega arith in
    let u : 2 ^ (d + suc k) ≡ 2 * 2 ^ (d + k) =
      ap (λ (t : ℕ). 2 ^ t) e ∙ omega (arith, pow-suc 2 (d + k)) in
    let v : 2 ^ suc k ≡ 2 * 2 ^ k = omega (arith, pow-suc 2 k) in
    let x = 2 ^ (d + suc k) - 2 ^ suc k in
    let half : x / 2 ≡ 2 ^ (d + k) - 2 ^ k = omega (arith, u, v) in
    let even : x % 2 ≡ 0 = omega (arith, u, v) in
    let rest : bit_and (a / 2) (x / 2) ≡ a / 2 / 2 ^ k * 2 ^ k =
      ap (λ (t : ℕ). bit_and (a / 2) t) half ∙ bit_and_high d k (a / 2) (omega (arith, h, u)) in
    let same : a / 2 / 2 ^ k ≡ a / 2 ^ suc k =
      div-div-eq-div-mul a 2 (2 ^ k) ∙ sym (ap (λ (t : ℕ). a / t) v) in
    let twice : a / 2 ^ suc k * 2 ^ suc k ≡ 2 * (a / 2 / 2 ^ k * 2 ^ k) =
      mul-two-pow (a / 2 ^ suc k) k ∙ ap (λ (t : ℕ). 2 * (t * 2 ^ k)) (sym same) in
    bit_and_step a x ∙ omega (arith, even, rest, twice)
