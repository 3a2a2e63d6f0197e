-- ===== src/Elf/Tests.antt =====
-- A small binary: two program headers of 56 bytes, of which the second is to be loaded.
use jake.Common.{ℕ, zero, suc, ◌<◌, ◌≡◌, ◌↔◌, refl, arith, ◌==◌, if◌then◌else◌, inl, inr, pos}
use jake.Util.{Bytes}
use jake.Elf.{read_le, parse_elf, parse_header}
use jake.Elf.Headers.{header_at, headers, IsLoad, taken_from, parse_elf-first, parse_elf-none}
use jake.Elf.Check.{IsRiscvElf, parse_header_iff}

-- The binary lies at 1000, and ELFMAG at 500.
abbrev binary : ℕ → Bytes
binary second a =
    if a == 1000
    then 127
    else if a == 1001
    then 69
    else if a == 1002
    then 76
    else if a == 1003
    then 70
    else if a == 1016
    then 2
    else if a == 1018
    then 243
    else if a == 1032
    then 64
    else if a == 1054
    then 56
    else if a == 1056
    then 2
    else if a == 1120
    then second
    else if a == 1136
    then 9
    else if a == 500
    then 127
    else if a == 501
    then 69
    else if a == 502
    then 76
    else if a == 503
    then 70
    else 0

not_first : (i : ℕ) → i < 1 → ¬ IsLoad 1000 i (binary 1)
unfolding read_le
not_first zero l e = absurd (omega (arith, e))
not_first (suc i) l e = absurd (omega arith)

second_loads : IsLoad 1000 1 (binary 1)
unfolding read_le
second_loads = refl

two_headers : 1 < headers 1000 (binary 1)
unfolding read_le
two_headers = omega arith

parse_elf-first_example :
    parse_elf 1000 (binary 1) ≡ (pos 0, taken_from 1000 (header_at 1000 1 (binary 1)) 1 (binary 1))
parse_elf-first_example = parse_elf-first 1000 (binary 1) 1 two_headers not_first second_loads

not_loaded : (i : ℕ) → i < headers 1000 (binary 2) → ¬ IsLoad 1000 i (binary 2)
unfolding read_le
not_loaded zero l e = absurd (omega (arith, e))
not_loaded (suc zero) l e = absurd (omega (arith, e))
not_loaded (suc (suc i)) l e = absurd (omega arith)

parse_elf-none_example :
    parse_elf 1000 (binary 2)
    ≡ (pos 0, taken_from 1000 (header_at 1000 (headers 1000 (binary 2)) (binary 2)) 0 (binary 2))
parse_elf-none_example = parse_elf-none 1000 (binary 2) not_loaded

parse_header_iff_example :
    ((parse_header 2000 1000 300 500 (binary 1)).0 ≡ pos 0) ↔ IsRiscvElf 1000 500 (binary 1)
parse_header_iff_example =
    parse_header_iff 2000 1000 300 500 (binary 1) (λ e. absurd (omega (arith, e)))
      (λ e. absurd (omega (arith, e))) (λ e. absurd (omega (arith, e))) (inr (omega arith))
      (inl (omega arith))
