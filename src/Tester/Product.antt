-- ===== src/Tester/Product.antt =====
-- The reference multiplication of asm/tester_src/tester_main.c and the product of matrices.
use jake.Common.{
  ℕ, zero, suc, ◌+◌, ◌*◌, ◌%◌, ◌≤◌, ◌<◌, ◌≡◌, ◌≢◌, refl, sym, ap, ◌∙◌, arith, ℕ_discrete, dec_lt,
  update, update_self, update_ne,
}
use native.Mathlib.Nat.{mod-add-mod, mul-le-mul}
use jake.Tester.{
  int16_size, max_matr_side, Matrices, mult_cell, mult_row, mult_rows, clear_row, clear_rows,
  ref_mult_matrices,
}

-- The first `n` products of row `i` and column `j`, added.
abbrev pub dot : Matrices → ℕ → ℕ → ℕ → ℕ
dot m i j zero = 0
dot m i j (suc n) = dot m i j n + m.m0 (i * m.m0_width + n) * m.m1 (n * m.m1_width + j)

-- Cells of different rows and columns are different.
cell_ne : (w i j i' j' : ℕ) → j < w → i < i' → i * w + j ≢ i' * w + j'
cell_ne w i j i' j' l m e =
    let q : suc i * w ≤ i' * w = mul-le-mul m (omega arith) in
    let s : suc i * w ≡ i * w + w = omega arith in omega (arith, q, s)

cell_below : (w h i j n : ℕ) → j < w → i < h → w ≤ n → h ≤ n → i * w + j < n * n
cell_below w h i j n l m p q =
    let a : suc i * w ≤ h * w = mul-le-mul m (omega arith) in
    let b : h * w ≤ n * n = mul-le-mul q p in
    let s : suc i * w ≡ i * w + w = omega arith in omega (arith, a, b, s)

mult_cell-other :
    (rounds i j k : ℕ) (m : Matrices) (r : ℕ → ℕ) (a : ℕ)
    → a ≢ i * m.m1_width + j
    → mult_cell rounds i j k m r a ≡ r a
unfolding mult_cell
mult_cell-other zero i j k m r a n = refl
mult_cell-other (suc rounds) i j k m r a n =
    mult_cell-other rounds i j (k + 1) m _ a n ∙ update_ne r (i * m.m1_width + j) a _ n

mult_cell-dot :
    (rounds i j k : ℕ) (m : Matrices) (r : ℕ → ℕ)
    → r (i * m.m1_width + j) ≡ dot m i j k % int16_size
    → mult_cell rounds i j k m r (i * m.m1_width + j) ≡ dot m i j (k + rounds) % int16_size
unfolding mult_cell
mult_cell-dot zero i j k m r e = e ∙ ap (λ (n : ℕ). dot m i j n % int16_size) (omega arith)
mult_cell-dot (suc rounds) i j k m r e =
    let at = i * m.m1_width + j in
    let p = m.m0 (i * m.m0_width + k) * m.m1 (k * m.m1_width + j) in
    let k_suc : k + 1 ≡ suc k = omega arith in
    mult_cell-dot rounds i j (k + 1) m (update r at ((r at + p) % int16_size)) (
      update_self r at ((r at + p) % int16_size)
      ∙ ap (λ (x : ℕ). (x + p) % int16_size) e
      ∙ mod-add-mod (dot m i j k) int16_size p
      ∙ ap (λ (n : ℕ). dot m i j n % int16_size) (sym k_suc))
    ∙ ap (λ (n : ℕ). dot m i j n % int16_size) (omega arith)

mult_row-other :
    (depth rounds i j : ℕ) (m : Matrices) (r : ℕ → ℕ) (a : ℕ)
    → ((j' : ℕ) → j ≤ j' → j' < j + rounds → a ≢ i * m.m1_width + j')
    → mult_row depth rounds i j m r a ≡ r a
unfolding mult_row
mult_row-other depth zero i j m r a n = refl
mult_row-other depth (suc rounds) i j m r a n =
    mult_row-other depth rounds i (j + 1) m _ a (λ j' l h. n j' (omega arith) (omega arith))
    ∙ mult_cell-other depth i j 0 m r a (n j (omega arith) (omega arith))

mult_row-dot :
    (depth rounds i j : ℕ) (m : Matrices) (r : ℕ → ℕ) (j' : ℕ)
    → r (i * m.m1_width + j') ≡ 0
    → j ≤ j'
    → j' < j + rounds
    → mult_row depth rounds i j m r (i * m.m1_width + j') ≡ dot m i j' depth % int16_size
unfolding mult_row
mult_row-dot depth zero i j m r j' z l h = absurd (omega arith)
mult_row-dot depth (suc rounds) i j m r j' z l h = elim (ℕ_discrete j j') [
  | yes e ↦
      mult_row-other depth rounds i (j + 1) m (mult_cell depth i j 0 m r) (i * m.m1_width + j')
        (λ c a b q. absurd (omega (arith, e)))
      ∙ ap (λ (c : ℕ). mult_cell depth i j 0 m r (i * m.m1_width + c)) (sym e)
      ∙ mult_cell-dot depth i j 0 m r (ap (λ (c : ℕ). r (i * m.m1_width + c)) e ∙ z)
      ∙ ap (λ (c : ℕ). dot m i c (0 + depth) % int16_size) e
      ∙ ap (λ (n : ℕ). dot m i j' n % int16_size) (omega arith)
  | no e ↦
      mult_row-dot depth rounds i (j + 1) m (mult_cell depth i j 0 m r) j'
        (mult_cell-other depth i j 0 m r (i * m.m1_width + j') (λ q. absurd (omega (arith, e, q)))
          ∙ z)
        (omega (arith, e)) (omega arith)
]

mult_rows-other :
    (depth rounds i : ℕ) (m : Matrices) (r : ℕ → ℕ) (a : ℕ)
    → ((i' j' : ℕ) → i ≤ i' → i' < i + rounds → j' < m.m1_width → a ≢ i' * m.m1_width + j')
    → mult_rows depth rounds i m r a ≡ r a
unfolding mult_rows
mult_rows-other depth zero i m r a n = refl
mult_rows-other depth (suc rounds) i m r a n =
    mult_rows-other depth rounds (i + 1) m _ a
      (λ i' j' l h b. n i' j' (omega arith) (omega arith) b)
    ∙ mult_row-other depth m.m1_width i 0 m r a
        (λ j' l h. n i j' (omega arith) (omega arith) (omega arith))

mult_rows-dot :
    (depth rounds i : ℕ) (m : Matrices) (r : ℕ → ℕ) (i' j' : ℕ)
    → r (i' * m.m1_width + j') ≡ 0
    → i ≤ i'
    → i' < i + rounds
    → j' < m.m1_width
    → mult_rows depth rounds i m r (i' * m.m1_width + j') ≡ dot m i' j' depth % int16_size
unfolding mult_rows
mult_rows-dot depth zero i m r i' j' z l h b = absurd (omega arith)
mult_rows-dot depth (suc rounds) i m r i' j' z l h b =
    let row = mult_row depth m.m1_width i 0 m r in
    elim (ℕ_discrete i i') [
      | yes e ↦
          mult_rows-other depth rounds (i + 1) m row (i' * m.m1_width + j')
            (λ i₂ j₂ k g c q. cell_ne m.m1_width i' j' i₂ j₂ b (omega (arith, e)) q)
          ∙ ap (λ (x : ℕ). row (x * m.m1_width + j')) (sym e)
          ∙ mult_row-dot depth m.m1_width i 0 m r j' (ap (λ (x : ℕ). r (x * m.m1_width + j')) e ∙ z)
              (omega arith) (omega arith)
          ∙ ap (λ (x : ℕ). dot m x j' depth % int16_size) e
      | no e ↦
          mult_rows-dot depth rounds (i + 1) m row i' j'
            (mult_row-other depth m.m1_width i 0 m r (i' * m.m1_width + j')
                (λ j₂ k g q. cell_ne m.m1_width i j₂ i' j' (omega arith) (omega (arith, e)) (sym q))
              ∙ z)
            (omega (arith, e)) (omega arith) b
    ]

clear_row-kept : (rounds i j a : ℕ) (m : ℕ → ℕ) → m a ≡ 0 → clear_row rounds i j m a ≡ 0
unfolding clear_row
clear_row-kept zero i j a m z = z
clear_row-kept (suc rounds) i j a m z =
    clear_row-kept rounds i (j + 1) a (update m (i * max_matr_side + j) 0) (ground (arith, z))

clear_row-cleared :
    (rounds i j a : ℕ) (m : ℕ → ℕ)
    → i * max_matr_side + j ≤ a
    → a < i * max_matr_side + j + rounds
    → clear_row rounds i j m a ≡ 0
unfolding clear_row
clear_row-cleared zero i j a m l h = absurd (omega arith)
clear_row-cleared (suc rounds) i j a m l h = elim (ℕ_discrete a (i * max_matr_side + j)) [
  | yes e ↦
      clear_row-kept rounds i (j + 1) a (update m (i * max_matr_side + j) 0) (ground (arith, e))
  | no e ↦
      clear_row-cleared rounds i (j + 1) a (update m (i * max_matr_side + j) 0) (omega (arith, e))
        (omega arith)
]

clear_rows-kept : (rounds i a : ℕ) (m : ℕ → ℕ) → m a ≡ 0 → clear_rows rounds i m a ≡ 0
unfolding clear_rows
clear_rows-kept zero i a m z = z
clear_rows-kept (suc rounds) i a m z =
    clear_rows-kept rounds (i + 1) a (clear_row max_matr_side i 0 m)
      (clear_row-kept max_matr_side i 0 a m z)

clear_rows-cleared :
    (rounds i a : ℕ) (m : ℕ → ℕ)
    → i * max_matr_side ≤ a
    → a < (i + rounds) * max_matr_side
    → clear_rows rounds i m a ≡ 0
unfolding clear_rows
clear_rows-cleared zero i a m l h = absurd (omega arith)
clear_rows-cleared (suc rounds) i a m l h = elim (dec_lt a (i * max_matr_side + max_matr_side)) [
  | yes e ↦
      clear_rows-kept rounds (i + 1) a (clear_row max_matr_side i 0 m)
        (clear_row-cleared max_matr_side i 0 a m (omega arith) (omega (arith, e)))
  | no e ↦
      clear_rows-cleared rounds (i + 1) a (clear_row max_matr_side i 0 m) (omega (arith, e))
        (omega arith)
]

-- With sides of at most 15, ref_mult_matrices_5_0 leaves in M2_ref, at each row and column, the product
-- of the row of M0 and the column of M1, cut to 16 bits.
pub ref_mult_matrices-dot :
    (m : Matrices) (i j : ℕ)
    → m.m0_height ≤ max_matr_side
    → m.m1_width ≤ max_matr_side
    → i < m.m0_height
    → j < m.m1_width
    → (ref_mult_matrices m).m2_ref (i * m.m1_width + j) ≡ dot m i j m.m1_height % int16_size
unfolding ref_mult_matrices
ref_mult_matrices-dot m i j p q l h =
    mult_rows-dot m.m1_height m.m0_height 0 m (clear_rows max_matr_side 0 m.m2_ref) i j
      (clear_rows-cleared max_matr_side 0 (i * m.m1_width + j) m.m2_ref (omega arith)
        (cell_below m.m1_width m.m0_height i j max_matr_side h l q p))
      (omega arith) (omega arith) h
