-- ===== src/Pt/Codec.antt =====
-- Page table entries and satp values: what the macros of pt.h write is what they read.
use jake.Common.{
  ℕ, zero, suc, ◌+◌, ◌*◌, ◌/◌, ◌%◌, ◌^◌, bit_xor, ◌≡◌, refl, sym, ap, ◌∙◌, arith, ◌<◌, ◌≤◌,
}
use jake.Common.Bits.{bit_xor_shift, bit_xor_low, bit_xor_self, bit_xor_step, two_pow_pos}
use native.Mathlib.Nat.{mul-add-div_right, div-eq_of_lt, mul-add-mod_self_right, mod-eq_of_lt}
use jake.Pt.Entry.{pte_get_ppn, pte_clear_ppn, pte_set_ppn, satp_get, satp_clear, satp_set}

bit_xor_zero_left_below : (m n : ℕ) → n ≤ m → bit_xor 0 n ≡ n
bit_xor_zero_left_below m zero h = refl
bit_xor_zero_left_below zero (suc n) h = absurd (omega arith)
bit_xor_zero_left_below (suc m) (suc n) h =
    omega (arith, bit_xor_step 0 (suc n), bit_xor_zero_left_below m (suc n / 2) (omega arith))

bit_xor_zero_left : (n : ℕ) → bit_xor 0 n ≡ n
bit_xor_zero_left n = bit_xor_zero_left_below n n (omega arith)

-- A field of `w` bits behind `s` bits: the parts of a number.
field_parts : (x w s : ℕ) → (x / 2 ^ s / 2 ^ w * 2 ^ w + x / 2 ^ s % 2 ^ w) * 2 ^ s + x % 2 ^ s ≡ x
field_parts x w s = grind (arith, two_pow_pos w, two_pow_pos s)

mod_below : (x s : ℕ) → x % 2 ^ s < 2 ^ s
mod_below x s = omega (arith, two_pow_pos s)

-- `^` with a field of a number, and with another.
xor_field :
    (h f n l w s : ℕ)
    → f < 2 ^ w
    → n < 2 ^ w
    → l < 2 ^ s
    → bit_xor ((h * 2 ^ w + f) * 2 ^ s + l) (n * 2 ^ s) ≡ (h * 2 ^ w + bit_xor f n) * 2 ^ s + l
xor_field h f n l w s p q r =
    bit_xor_shift s (h * 2 ^ w + f) n l r ∙ ap (λ (t : ℕ). t * 2 ^ s + l) (bit_xor_low w h f n p q)

module _ (x new w s : ℕ) where
  abbrev high : ℕ
  high = x / 2 ^ s / 2 ^ w

  field_clear : bit_xor x (x / 2 ^ s % 2 ^ w * 2 ^ s) ≡ (high * 2 ^ w + 0) * 2 ^ s + x % 2 ^ s
  field_clear =
      ap (λ (t : ℕ). bit_xor t (x / 2 ^ s % 2 ^ w * 2 ^ s)) (sym (field_parts x w s))
      ∙ xor_field high (x / 2 ^ s % 2 ^ w) (x / 2 ^ s % 2 ^ w) (x % 2 ^ s) w s
          (mod_below (x / 2 ^ s) w) (mod_below (x / 2 ^ s) w) (mod_below x s)
      ∙ ap (λ (t : ℕ). (high * 2 ^ w + t) * 2 ^ s + x % 2 ^ s) (bit_xor_self (x / 2 ^ s % 2 ^ w))

  field_set :
      bit_xor (bit_xor x (x / 2 ^ s % 2 ^ w * 2 ^ s)) (new % 2 ^ w * 2 ^ s)
      ≡ (high * 2 ^ w + new % 2 ^ w) * 2 ^ s + x % 2 ^ s
  field_set =
      ap (λ (t : ℕ). bit_xor t (new % 2 ^ w * 2 ^ s)) field_clear
      ∙ xor_field high 0 (new % 2 ^ w) (x % 2 ^ s) w s (two_pow_pos w) (mod_below new w)
          (mod_below x s)
      ∙ ap (λ (t : ℕ). (high * 2 ^ w + t) * 2 ^ s + x % 2 ^ s) (bit_xor_zero_left (new % 2 ^ w))

-- The parts of a number that is put together from two.
join_parts : (q r p : ℕ) → r < p → ((q * p + r) / p ≡ q) × ((q * p + r) % p ≡ r)
join_parts q r p h = (
  omega (arith, mul-add-div_right {m = p} (omega arith) q r, div-eq_of_lt h),
  mul-add-mod_self_right q p r ∙ mod-eq_of_lt h,
)

-- `satp_set` writes its field: the field then holds the new value cut to the width of the mask, and
-- the bits below and above are those of before.
pub satp_set-field :
    (satp new width shift : ℕ)
    → (satp_get (satp_set satp new width shift) width shift ≡ new % 2 ^ width)
      × (satp_set satp new width shift % 2 ^ shift ≡ satp % 2 ^ shift)
      × (satp_set satp new width shift / 2 ^ shift / 2 ^ width ≡ satp / 2 ^ shift / 2 ^ width)
unfolding satp_set satp_clear
satp_set-field satp new width shift =
    let e = field_set satp new width shift in
    let h = satp / 2 ^ shift / 2 ^ width in
    let n = new % 2 ^ width in
    let ps = join_parts (h * 2 ^ width + n) (satp % 2 ^ shift) (2 ^ shift) (mod_below satp shift) in
    let ls = join_parts h n (2 ^ width) (mod_below new width) in
    (
      ap (λ (t : ℕ). t / 2 ^ shift % 2 ^ width) e ∙ ap (λ (t : ℕ). t % 2 ^ width) ps.0 ∙ ls.1,
      ap (λ (t : ℕ). t % 2 ^ shift) e ∙ ps.1,
      ap (λ (t : ℕ). t / 2 ^ shift / 2 ^ width) e ∙ ap (λ (t : ℕ). t / 2 ^ width) ps.0 ∙ ls.0,
    )

-- `pte_set_ppn` writes the page number of an entry, cut to 44 bits, and keeps the ten bits of
-- permissions below it.
pub pte_set_ppn-field :
    (pte new : ℕ)
    → (pte_get_ppn (pte_set_ppn pte new) ≡ new % 2 ^ 44)
      × (pte_set_ppn pte new % 2 ^ 10 ≡ pte % 2 ^ 10)
unfolding pte_set_ppn pte_clear_ppn
pte_set_ppn-field pte new =
    let e = field_set pte new 44 10 in
    let h = pte / 2 ^ 10 / 2 ^ 44 in
    let n = new % 2 ^ 44 in
    let ps = join_parts (h * 2 ^ 44 + n) (pte % 2 ^ 10) (2 ^ 10) (mod_below pte 10) in
    (
      ap (λ (t : ℕ). t / 2 ^ 10 % 2 ^ 44) e
          ∙ ap (λ (t : ℕ). t % 2 ^ 44) ps.0
          ∙ (join_parts h n (2 ^ 44) (mod_below new 44)).1,
      ap (λ (t : ℕ). t % 2 ^ 10) e ∙ ps.1,
    )
