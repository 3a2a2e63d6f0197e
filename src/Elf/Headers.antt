-- ===== src/Elf/Headers.antt =====
-- Which program header the parser of src/kernel/elfpars.c takes.
use jake.Common.{
  ℕ, zero, suc, ◌+◌, ◌*◌, ◌%◌, ◌<◌, ◌≡◌, ◌≢◌, refl, sym, ap, ◌∙◌, arith, true, false, ◌==◌, ℤ, pos,
}
use jake.Machine.{word}
use jake.Util.{Bytes}
use jake.Elf.{read_le, Elf, pt_load, find_load, parse_elf}

-- The program header with index `i` of the binary at `ptr_elf`, and how many there are.
abbrev pub header_at : ℕ → ℕ → Bytes → ℕ
header_at ptr_elf i m =
    (ptr_elf + read_le 8 (ptr_elf + 0x20) m + i * read_le 2 (ptr_elf + 0x36) m) % word

abbrev pub headers : ℕ → Bytes → ℕ
headers ptr_elf m = read_le 2 (ptr_elf + 0x38) m

abbrev pub IsLoad : ℕ → ℕ → Bytes → Type 0
IsLoad ptr_elf i m = read_le 4 (header_at ptr_elf i m) m ≡ pt_load

pair : {a b c d : ℕ} → a ≡ b → c ≡ d → ◌≡◌ {A = ℕ × ℕ} (a, c) (b, d)
pair {a} {b} {c} {d} p q = ap (λ (t : ℕ). (t, c)) p ∙ ap (λ (t : ℕ). (b, t)) q

mod_shift : (x y : ℕ) → (x % word + y) % word ≡ (x + y) % word
mod_shift x y = omega arith

shifted : (at size i : ℕ) → ((at + size) % word + i * size) % word ≡ (at + suc i * size) % word
shifted at size i = mod_shift (at + size) (i * size) ∙ ap (λ (x : ℕ). x % word) (omega arith)

-- The loop, from an address `at` on, for headers of `size` bytes.
find_load-first :
    (n d at size : ℕ) (m : Bytes)
    → at < word
    → d < n
    → ((i : ℕ) → i < d → read_le 4 ((at + i * size) % word) m ≢ pt_load)
    → read_le 4 ((at + d * size) % word) m ≡ pt_load
    → find_load n at size m ≡ ((at + d * size) % word, 1)
unfolding find_load
find_load-first zero d at size m w l before found = absurd (omega arith)
find_load-first (suc n) zero at size m w l before found =
    let e : (at + 0 * size) % word ≡ at = omega arith in
    let f : read_le 4 at m ≡ pt_load = ap (λ (a : ℕ). read_le 4 a m) (sym e) ∙ found in
    let g : (read_le 4 at m == pt_load) ≡ true = ground (arith, f) in rw g (pair (sym e) refl)
find_load-first (suc n) (suc d) at size m w l before found =
    let e : (at + 0 * size) % word ≡ at = omega arith in
    let shift : (i : ℕ) → ((at + size) % word + i * size) % word ≡ (at + suc i * size) % word =
      λ i. shifted at size i in
    let f : read_le 4 at m ≢ pt_load =
      λ q. before 0 (omega arith) (ap (λ (a : ℕ). read_le 4 a m) e ∙ q) in
    let g : (read_le 4 at m == pt_load) ≡ false = ground (arith, f) in
    let rest =
      find_load-first n d ((at + size) % word) size m (omega arith) (omega arith)
        (λ i k q. before (suc i) (omega arith) (ap (λ (a : ℕ). read_le 4 a m) (sym (shift i)) ∙ q))
        (ap (λ (a : ℕ). read_le 4 a m) (shift d) ∙ found) in
    rw g (rest ∙ pair (shift d) refl)

find_load-none :
    (n at size : ℕ) (m : Bytes)
    → at < word
    → ((i : ℕ) → i < n → read_le 4 ((at + i * size) % word) m ≢ pt_load)
    → find_load n at size m ≡ ((at + n * size) % word, 0)
unfolding find_load
find_load-none zero at size m w none_loads = pair (omega arith) refl
find_load-none (suc n) at size m w none_loads =
    let e : (at + 0 * size) % word ≡ at = omega arith in
    let f : read_le 4 at m ≢ pt_load =
      λ q. none_loads 0 (omega arith) (ap (λ (a : ℕ). read_le 4 a m) e ∙ q) in
    let g : (read_le 4 at m == pt_load) ≡ false = ground (arith, f) in
    let rest = find_load-none n ((at + size) % word) size m (omega arith) (λ i k q.
      none_loads (suc i) (omega arith)
        (ap (λ (a : ℕ). read_le 4 a m) (sym (shifted at size i)) ∙ q)) in
    rw g (rest ∙ pair (shifted at size n) refl)

-- What the parser takes from the header at `ph`.
abbrev pub taken_from : ℕ → ℕ → ℕ → Bytes → Elf
taken_from ptr_elf ph valid m = record {
  e_entry = read_le 8 (ptr_elf + 0x18) m;
  virtual_load = read_le 8 (ph + 0x10) m;
  offset_load = read_le 8 (ph + 0x08) m;
  size_load = read_le 8 (ph + 0x20) m;
  valid = valid;
  ptr_elf = ptr_elf;
}

-- Where header `i` lies, counted from the first one, which is below 2 ^ 64.
from_first :
    (ptr_elf i : ℕ) (m : Bytes)
    → ((ptr_elf + read_le 8 (ptr_elf + 0x20) m) % word + i * read_le 2 (ptr_elf + 0x36) m) % word
      ≡ header_at ptr_elf i m
from_first ptr_elf i m =
    mod_shift (ptr_elf + read_le 8 (ptr_elf + 0x20) m) (i * read_le 2 (ptr_elf + 0x36) m)

module _ (ptr_elf : ℕ) (m : Bytes) where
  at_header :
      {a b : ℕ} (valid : ℕ)
      → a ≡ b
      → ◌≡◌ {A = ℤ × Elf}
          (pos 0, taken_from ptr_elf a valid m)
          (pos 0, taken_from ptr_elf b valid m)
  at_header valid e = ap (λ (ph : ℕ). (pos 0, taken_from ptr_elf ph valid m)) e

  -- Where header `d` of the binary is the first with the type PT_LOAD, parse_elf answers 0, and takes
  -- the address, the offset and the size of the segment from that header, and says that it is valid.
  pub parse_elf-first :
      (d : ℕ)
      → d < headers ptr_elf m
      → ((i : ℕ) → i < d → ¬ IsLoad ptr_elf i m)
      → IsLoad ptr_elf d m
      → parse_elf ptr_elf m ≡ (pos 0, taken_from ptr_elf (header_at ptr_elf d m) 1 m)
  unfolding parse_elf
  parse_elf-first d l before found =
      let e =
        find_load-first (headers ptr_elf m) d ((ptr_elf + read_le 8 (ptr_elf + 0x20) m) % word)
          (read_le 2 (ptr_elf + 0x36) m) m (omega arith) l
          (λ i k q. before i k (ap (λ (a : ℕ). read_le 4 a m) (sym (from_first ptr_elf i m)) ∙ q))
          (ap (λ (a : ℕ). read_le 4 a m) (from_first ptr_elf d m) ∙ found) in
      rw e (at_header 1 (from_first ptr_elf d m))

  -- Where no header of the binary has the type PT_LOAD, parse_elf answers 0 all the same, and takes the
  -- address, the offset and the size from behind the last header, but says that it is not valid.
  pub parse_elf-none :
      ((i : ℕ) → i < headers ptr_elf m → ¬ IsLoad ptr_elf i m)
      → parse_elf ptr_elf m
        ≡ (pos 0, taken_from ptr_elf (header_at ptr_elf (headers ptr_elf m) m) 0 m)
  unfolding parse_elf
  parse_elf-none none_loads =
      let e =
        find_load-none (headers ptr_elf m) ((ptr_elf + read_le 8 (ptr_elf + 0x20) m) % word)
          (read_le 2 (ptr_elf + 0x36) m) m (omega arith)
          (λ i k q.
            none_loads i k (ap (λ (a : ℕ). read_le 4 a m) (sym (from_first ptr_elf i m)) ∙ q)) in
      rw e (at_header 0 (from_first ptr_elf (headers ptr_elf m) m))
