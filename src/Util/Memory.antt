-- ===== src/Util/Memory.antt =====
-- What the loops of src/kernel/util.c on bytes do to memory.
use jake.Common.{
  ℕ, zero, suc, ◌+◌, ◌<◌, ◌≤◌, ◌≡◌, ◌≢◌, refl, sym, ap, ◌∙◌, arith, true, false, some, ◌==◌, update,
  ◌⊎◌, inl, ℕ_discrete,
}
use jake.Util.{Bytes, memcpy_loop, memcpy, strlen_loop, strlen}

-- Two regions of `n` bytes have no byte in common.
abbrev pub Apart : ℕ → ℕ → ℕ → Type 0
Apart dest src n = (dest + n ≤ src) ⊎ (src + n ≤ dest)

memcpy_loop-old :
    (n i dest src : ℕ) (m : Bytes) (a : ℕ)
    → (a < dest + i) ⊎ (dest + i + n ≤ a)
    → memcpy_loop n i dest src m a ≡ m a
unfolding memcpy_loop
memcpy_loop-old zero i dest src m a h = refl
memcpy_loop-old (suc n) i dest src m a h =
    let e : (a == dest + i) ≡ false = ground arith in
    memcpy_loop-old n (i + 1) dest src (update m (dest + i) (m (src + i))) a (ground arith)
    ∙ rw e refl

memcpy_loop-new :
    (n i dest src : ℕ) (m : Bytes) (j : ℕ)
    → Apart dest src (i + n)
    → i ≤ j
    → j < i + n
    → memcpy_loop n i dest src m (dest + j) ≡ m (src + j)
unfolding memcpy_loop
memcpy_loop-new zero i dest src m j apart low high = absurd (omega arith)
memcpy_loop-new (suc n) i dest src m j apart low high =
    let m' = update m (dest + i) (m (src + i)) in
    elim (ℕ_discrete i j) [
      | yes e ↦
          let f : (dest + j == dest + i) ≡ true = ground arith in
          memcpy_loop-old n (i + 1) dest src m' (dest + j) (inl (omega arith))
          ∙ rw f (ap (λ (t : ℕ). m (src + t)) e)
      | no d ↦
          let f : (src + j == dest + i) ≡ false = ground arith in
          memcpy_loop-new n (i + 1) dest src m' j (ground arith) (omega arith) (omega arith)
          ∙ rw f refl
    ]

-- `memcpy` between regions that do not overlap puts the source's bytes at the destination, and
-- changes no other byte.
pub memcpy-copies :
    (dest src n : ℕ) (m : Bytes)
    → Apart dest src n
    → ((j : ℕ) → j < n → memcpy dest src n m (dest + j) ≡ m (src + j))
      × ((a : ℕ) → (a < dest) ⊎ (dest + n ≤ a) → memcpy dest src n m a ≡ m a)
unfolding memcpy
memcpy-copies dest src n m apart = (
  λ (j : ℕ) (l : j < n).
      memcpy_loop-new n 0 dest src m j (ground arith) (omega arith) (omega arith),
  λ (a : ℕ) (h : (a < dest) ⊎ (dest + n ≤ a)). memcpy_loop-old n 0 dest src m a (ground arith),
)

strlen_loop-first :
    (rounds len d str : ℕ) (m : Bytes)
    → d < rounds
    → ((e : ℕ) → e < d → m (str + (len + e)) ≢ 0)
    → m (str + (len + d)) ≡ 0
    → strlen_loop rounds len str m ≡ some (len + d)
unfolding strlen_loop
strlen_loop-first zero len d str m lt before end = absurd (omega arith)
strlen_loop-first (suc rounds) len zero str m lt before end =
    let z : len + 0 ≡ len = omega arith in
    let f : (m (str + len) == 0) ≡ true = ground (arith, ap (λ (t : ℕ). m (str + t)) z, end) in
    rw f (ap (λ (t : ℕ). some t) (omega arith))
strlen_loop-first (suc rounds) len (suc d) str m lt before end =
    let z : len + 0 ≡ len = omega arith in
    let f : (m (str + len) == 0) ≡ false =
      ground (arith, ap (λ (t : ℕ). m (str + t)) z, before 0 (omega arith)) in
    let shift : (c : ℕ) → len + 1 + c ≡ len + suc c = λ (c : ℕ). omega arith in
    let rest =
      strlen_loop-first rounds (len + 1) d str m (omega arith)
        (λ (c : ℕ) (l : c < d) z'.
          before (suc c) (omega arith) (ap (λ (t : ℕ). m (str + t)) (sym (shift c)) ∙ z'))
        (ap (λ (t : ℕ). m (str + t)) (shift d) ∙ end) in
    rw f (rest ∙ ap (λ (t : ℕ). some t) (shift d))

-- On a text that ends, `strlen` ends within one round more than its length, and answers the index of
-- the first byte that is 0.
pub strlen-first :
    (d str : ℕ) (m : Bytes)
    → ((e : ℕ) → e < d → m (str + e) ≢ 0)
    → m (str + d) ≡ 0
    → strlen (suc d) str m ≡ some d
unfolding strlen
strlen-first d str m before end =
    let z : (e : ℕ) → 0 + e ≡ e = λ (e : ℕ). omega arith in
    strlen_loop-first (suc d) 0 d str m (omega arith)
      (λ (e : ℕ) (l : e < d) h. before e l (ap (λ (t : ℕ). m (str + t)) (sym (z e)) ∙ h))
      (ap (λ (t : ℕ). m (str + t)) (z d) ∙ end)
    ∙ ap (λ (t : ℕ). some t) (z d)
