-- ===== src/Util/Compare.antt =====
-- `strncmp` of src/kernel/util.c.
use jake.Common.{ℕ, zero, suc, ◌+◌, ◌<◌, ◌≡◌, refl, sym, ap, ◌∙◌, arith, ◌==◌, ◌↔◌, true}
use jake.Util.{Bytes, strncmp}

head_of : (n a b : ℕ) (m : Bytes) → strncmp (suc n) a b m ≡ 1 → m a ≡ m b
unfolding strncmp
head_of n a b m e = ground arith

tail_of : (n a b : ℕ) (m : Bytes) → strncmp (suc n) a b m ≡ 1 → strncmp n (a + 1) (b + 1) m ≡ 1
unfolding strncmp
tail_of n a b m e = ground arith

same_bytes : (n a b : ℕ) (m : Bytes) → strncmp n a b m ≡ 1 → (i : ℕ) → i < n → m (a + i) ≡ m (b + i)
same_bytes zero a b m e i l = absurd (omega arith)
same_bytes (suc n) a b m e zero l =
    let x : a + 0 ≡ a = omega arith in
    let y : b + 0 ≡ b = omega arith in ap m x ∙ head_of n a b m e ∙ ap m (sym y)
same_bytes (suc n) a b m e (suc i) l =
    let x : a + suc i ≡ a + 1 + i = omega arith in
    let y : b + suc i ≡ b + 1 + i = omega arith in
    ap m x ∙ same_bytes n (a + 1) (b + 1) m (tail_of n a b m e) i (omega arith) ∙ ap m (sym y)

found_same :
    (n a b : ℕ) (m : Bytes) → ((i : ℕ) → i < n → m (a + i) ≡ m (b + i)) → strncmp n a b m ≡ 1
unfolding strncmp
found_same zero a b m h = refl
found_same (suc n) a b m h =
    let x : a + 0 ≡ a = omega arith in
    let y : b + 0 ≡ b = omega arith in
    let first : m a ≡ m b = ap m (sym x) ∙ h 0 (omega arith) ∙ ap m y in
    let f : (m a == m b) ≡ true = ground (arith, first) in
    rw f (
      found_same n (a + 1) (b + 1) m λ i l.
        let p : a + 1 + i ≡ a + suc i = omega arith in
        let q : b + suc i ≡ b + 1 + i = omega arith in ap m p ∙ h (suc i) (omega arith) ∙ ap m q)

-- `strncmp` of `n` bytes is 1 exactly if the two texts have the same `n` bytes.
pub strncmp_iff :
    (n a b : ℕ) (m : Bytes) → (strncmp n a b m ≡ 1) ↔ ((i : ℕ) → i < n → m (a + i) ≡ m (b + i))
strncmp_iff n a b m = (same_bytes n a b m, found_same n a b m)
