-- ===== src/Util.antt =====
-- src/kernel/util.c, its part on bytes: memory, strings, numbers and printing. Byte memory is a
-- function from addresses; a loop that the code does not bound takes its rounds as an argument, and
-- `none` says that they ran out. What `put` is given is a list of bytes.
pub mod Memory
pub mod Compare
pub mod Print
mod Tests
use jake.Common.{
  ℕ, zero, suc, ◌+◌, ◌-◌, ◌*◌, ◌/◌, ◌%◌, ◌^◌, Bool, ◌&&◌, not, Option, none, some, List, [], ◌∷◌,
  ◌++◌, ltb, ◌==◌, if◌then◌else◌, ◌>>=◌, update, get_or,
}

abbrev pub Bytes : Type 0
Bytes = ℕ → ℕ

-- The loop of `memcpy` from index `i` on.
unfoldable pub memcpy_loop : ℕ → ℕ → ℕ → ℕ → Bytes → Bytes
memcpy_loop zero i dest src m = m
memcpy_loop (suc n) i dest src m =
    memcpy_loop n (i + 1) dest src (update m (dest + i) (m (src + i)))

unfoldable pub memcpy : ℕ → ℕ → ℕ → Bytes → Bytes
memcpy dest src n m = memcpy_loop n 0 dest src m

unfoldable pub memset_loop : ℕ → ℕ → ℕ → ℕ → Bytes → Bytes
memset_loop zero i at c m = m
memset_loop (suc n) i at c m = memset_loop n (i + 1) at c (update m (at + i) (c % 256))

unfoldable pub memset : ℕ → ℕ → ℕ → Bytes → Bytes
memset at c n m = memset_loop n 0 at c m

unfoldable pub reverse_loop : ℕ → ℕ → ℕ → ℕ → Bytes → Bytes
reverse_loop zero i buf len m = m
reverse_loop (suc n) i buf len m =
    let tmp = m (buf + i) in
    let m₁ = update m (buf + i) (m (buf + (len - 1 - i))) in
    reverse_loop n (i + 1) buf len (update m₁ (buf + (len - 1 - i)) tmp)

unfoldable pub reverse : ℕ → ℕ → Bytes → Bytes
reverse buf len m = reverse_loop (len / 2) 0 buf len m

unfoldable pub strlen_loop : ℕ → ℕ → ℕ → Bytes → Option ℕ
strlen_loop zero len str m = none
strlen_loop (suc rounds) len str m =
    let rest = strlen_loop rounds (len + 1) str m in if m (str + len) == 0 then some len else rest

unfoldable pub strlen : ℕ → ℕ → Bytes → Option ℕ
strlen rounds str m = strlen_loop rounds 0 str m

-- 1 for equal texts, 0 for others.
unfoldable pub strcmp : ℕ → ℕ → ℕ → Bytes → Option ℕ
strcmp zero str1 str2 m = none
strcmp (suc rounds) str1 str2 m =
    let rest = strcmp rounds (str1 + 1) (str2 + 1) m in
    let last = if m str1 == m str2 then 1 else 0 in
    if not (m str1 == 0) && not (m str2 == 0)
    then (if m str1 == m str2 then rest else some 0)
    else some last

unfoldable pub strncmp : ℕ → ℕ → ℕ → Bytes → ℕ
strncmp zero str1 str2 m = 1
strncmp (suc n) str1 str2 m =
    let rest = strncmp n (str1 + 1) (str2 + 1) m in if m str1 == m str2 then rest else 0

-- The rounds of `rand`, in `unsigned` arithmetic.
abbrev pub carol : ℕ
carol = 2 ^ 15 * 2 ^ 15 - 1 - 2

unfoldable pub rand_loop : ℕ → ℕ → ℕ
rand_loop zero seed = seed
rand_loop (suc n) seed = rand_loop n (((seed + 1) % 2 ^ 32 * seed) % 2 ^ 32 % carol)

unfoldable pub rand : ℕ → ℕ
rand seed = rand_loop 32 seed

unfoldable pub ctz_loop : ℕ → ℕ → ℕ → ℕ
ctz_loop zero n out = out
ctz_loop (suc rounds) n out =
    let rest = ctz_loop rounds (n / 2) (out + 1) in if ltb 1 n then rest else out

-- `ctz` halves a 64-bit word: 64 rounds are enough.
unfoldable pub ctz : ℕ → ℕ
ctz n = ctz_loop 64 n 0

abbrev pub hex_digits : List ℕ
hex_digits =
    b'0' ∷ b'1' ∷ b'2' ∷ b'3' ∷ b'4' ∷ b'5' ∷ b'6' ∷ b'7' ∷ b'8' ∷ b'9' ∷ b'a' ∷ b'b' ∷ b'c' ∷ b'd'
    ∷ b'e' ∷ b'f' ∷ []

-- `__ctox`: the two digits of a byte.
unfoldable pub ctox : ℕ → ℕ × ℕ
ctox c = (get_or hex_digits (c / 16 % 16) 0, get_or hex_digits (c % 16) 0)

-- `__cstox` on the bytes of a word: the digits, and the index of the first that is not a leading
-- zero. `i` counts the bytes done.
unfoldable pub cstox_loop : List ℕ → ℕ → ℕ → List ℕ × ℕ
cstox_loop [] i first = ([], first)
cstox_loop (c ∷ cs) i first =
    let first' = if ltb (2 * i) first && not (c == 0) then 2 * i else first in
    let (out, last) = cstox_loop cs (i + 1) first' in ((ctox c).0 ∷ (ctox c).1 ∷ out, last)

-- The bytes of a 64-bit word, the highest first, as `reverse` leaves them.
unfoldable pub word_bytes : ℕ → ℕ → List ℕ
word_bytes zero w = []
word_bytes (suc n) w = w / 256 ^ n % 256 ∷ word_bytes n w

unfoldable pub skip : ℕ → List ℕ → List ℕ
skip zero xs = xs
skip (suc n) [] = []
skip (suc n) (x ∷ xs) = skip n xs

-- `__printnum`
unfoldable pub printnum : ℕ → List ℕ
printnum w = let (buf, first) = cstox_loop (word_bytes 8 w) 0 14 in b'0' ∷ b'x' ∷ skip first buf
