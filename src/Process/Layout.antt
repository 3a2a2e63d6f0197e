-- ===== src/Process/Layout.antt =====
-- What the process list of src/kernel/process.c holds, by the statuses of its slots: how many processes
-- there are, and which of them runs.
use jake.Common.{
  ℕ, zero, suc, ◌+◌, ◌-◌, ◌≤◌, ◌<◌, ◌≡◌, ◌≢◌, refl, sym, ap, ◌∙◌, arith, Bool, true, false,
  if◌then◌else◌, Bool-cases, inl, inr, ℕ_discrete, update, update_self, update_ne,
}
use jake.Process.State.{
  Status, is_free_slot, free_slot, paused, running, reserved, is_paused, max_processes,
}

-- How many of the slots below `n` have the property `p`.
abbrev pub count : (ℕ → Bool) → ℕ → ℕ
count p zero = 0
count p (suc n) = (if p n then 1 else 0) + count p n

count-same : (p q : ℕ → Bool) (n : ℕ) → ((i : ℕ) → i < n → p i ≡ q i) → count p n ≡ count q n
count-same p q zero same = refl
count-same p q (suc n) same =
    let e = same n (omega arith) in
    let f = count-same p q n (λ i l. same i (omega arith)) in rw (e, f) refl

-- One slot more has the property.
count-more :
    (p q : ℕ → Bool) (n i : ℕ)
    → i < n
    → p i ≡ false
    → q i ≡ true
    → ((j : ℕ) → j < n → j ≢ i → p j ≡ q j)
    → count q n ≡ suc (count p n)
count-more p q zero i l a b same = absurd (omega arith)
count-more p q (suc n) i l a b same = elim (ℕ_discrete i n) [
  | yes e ↦
      let a' : p n ≡ false = ap p (sym e) ∙ a in
      let b' : q n ≡ true = ap q (sym e) ∙ b in
      let f = count-same p q n (λ j m. same j (omega arith) (λ g. absurd (omega arith))) in
      rw (a', b', f) (omega arith)
  | no e ↦
      let s = same n (omega arith) (λ g. e (sym g)) in
      let f = count-more p q n i (omega arith) a b (λ j m. same j (omega arith)) in
      rw (s, f) (omega arith)
]

pub count-found : (p : ℕ → Bool) (n : ℕ) → 0 < count p n → (i : ℕ) × (i < n) × (p i ≡ true)
count-found p zero l = absurd (omega arith)
count-found p (suc n) l = elim (Bool-cases (p n)) [
  | inl e ↦ (n, omega arith, e)
  | inr e ↦ let (i, m, f) = count-found p n (ground (arith, e, l)) in (i, omega arith, f)
]

pub count-bound : (p : ℕ → Bool) (n : ℕ) → count p n ≤ n
count-bound p zero = omega arith
count-bound p (suc n) = let e = count-bound p n in ground (arith, e)

-- The slots with these statuses hold `total` processes, of which none runs.
pub record Waiting (st : ℕ → Status) (total : ℕ) : Type 0 where
  pub none_runs : (i : ℕ) → i < max_processes → st i ≢ running
  pub counted : total ≡ count (λ i. is_paused (st i)) max_processes

-- They hold `total` processes, of which the one in slot `r` runs; the others are paused.
pub record Layout (st : ℕ → Status) (r total : ℕ) : Type 0 where
  pub in_list : r < max_processes
  pub runs : st r ≡ running
  pub alone : (i : ℕ) → i < max_processes → i ≢ r → st i ≢ running
  pub counted : total ≡ suc (count (λ i. is_paused (st i)) max_processes)

-- A list in which slot `i` has the status `v` instead.
module _ (st : ℕ → Status) (i : ℕ) (v : Status) where
  abbrev changed : ℕ → Status
  changed = update st i v

  at_slot : changed i ≡ v
  at_slot = update_self st i v

  elsewhere : (j : ℕ) → j ≢ i → changed j ≡ st j
  elsewhere j n = update_ne st i j v n

  -- One paused process more, or one less, or as many as before.
  count_up :
      i < max_processes
      → is_paused (st i) ≡ false
      → is_paused v ≡ true
      → count (λ j. is_paused (changed j)) max_processes
        ≡ suc (count (λ j. is_paused (st j)) max_processes)
  count_up l a b =
      count-more (λ j. is_paused (st j)) (λ j. is_paused (changed j)) max_processes i l a
        (ap is_paused at_slot ∙ b) (λ j m n. ap is_paused (sym (elsewhere j n)))

  count_down :
      i < max_processes
      → is_paused (st i) ≡ true
      → is_paused v ≡ false
      → count (λ j. is_paused (st j)) max_processes
        ≡ suc (count (λ j. is_paused (changed j)) max_processes)
  count_down l a b =
      count-more (λ j. is_paused (changed j)) (λ j. is_paused (st j)) max_processes i l
        (ap is_paused at_slot ∙ b) a (λ j m n. ap is_paused (elsewhere j n))

  count_kept :
      is_paused (st i) ≡ false
      → is_paused v ≡ false
      → count (λ j. is_paused (st j)) max_processes
        ≡ count (λ j. is_paused (changed j)) max_processes
  count_kept a b =
      count-same (λ j. is_paused (st j)) (λ j. is_paused (changed j)) max_processes
        (λ j m. elim (ℕ_discrete j i) [
          | yes e ↦
              ap (λ (t : ℕ). is_paused (st t)) e
              ∙ a
              ∙ sym b
              ∙ sym (ap (λ (t : ℕ). is_paused (changed t)) e ∙ ap is_paused at_slot)
          | no n ↦ ap is_paused (sym (elsewhere j n))
        ])

  none_runs_after :
      v ≢ running
      → ((j : ℕ) → j < max_processes → j ≢ i → st j ≢ running)
      → (j : ℕ) → j < max_processes
      → changed j ≢ running
  none_runs_after d h j l e = elim (ℕ_discrete j i) [
    | yes q ↦ d (sym at_slot ∙ sym (ap changed q) ∙ e)
    | no n ↦ h j l n (sym (elsewhere j n) ∙ e)
  ]

one_less : (a b c : ℕ) → a ≡ suc b → b ≡ c → a - 1 ≡ c
one_less a b c e f = omega arith

-- The running process is paused, or gone.
pub Layout-paused :
    (st : ℕ → Status) (r total : ℕ) → Layout st r total → Waiting (update st r paused) total
Layout-paused st r total w = record {
  none_runs = none_runs_after st r paused (λ e. cc) w.alone;
  counted = w.counted ∙ sym (count_up st r paused w.in_list (ap is_paused w.runs) refl);
}

pub Layout-freed :
    (st : ℕ → Status) (r total : ℕ)
    → Layout st r total
    → Waiting (update st r free_slot) (total - 1)
Layout-freed st r total w = record {
  none_runs = none_runs_after st r free_slot (λ e. cc) w.alone;
  counted = one_less _ _ _ w.counted (count_kept st r free_slot (ap is_paused w.runs) refl);
}

-- A paused process runs on, or a new one starts.
pub Waiting-resumed :
    (st : ℕ → Status) (t total : ℕ)
    → Waiting st total
    → t < max_processes
    → is_paused (st t) ≡ true
    → Layout (update st t running) t total
Waiting-resumed st t total w l p = record {
  in_list = l;
  runs = at_slot st t running;
  alone = λ j m n e. w.none_runs j m (sym (elsewhere st t running j n) ∙ e);
  counted = w.counted ∙ count_down st t running l p refl;
}

free_not_paused : (s : Status) → is_free_slot s ≡ true → is_paused s ≡ false
free_not_paused free_slot e = refl
free_not_paused running e = refl
free_not_paused paused e = cc
free_not_paused reserved e = refl

pub Waiting-started :
    (st : ℕ → Status) (t total : ℕ)
    → Waiting st total
    → t < max_processes
    → is_free_slot (st t) ≡ true
    → Layout (update st t running) t (suc total)
Waiting-started st t total w l p = record {
  in_list = l;
  runs = at_slot st t running;
  alone = λ j m n e. w.none_runs j m (sym (elsewhere st t running j n) ∙ e);
  counted = ap suc (w.counted ∙ count_kept st t running (free_not_paused (st t) p) refl);
}

-- With more than one process, one is paused, in another slot than the one that runs.
pub Layout-other :
    (st : ℕ → Status) (r total : ℕ)
    → Layout st r total
    → 1 < total
    → (t : ℕ) × (t < max_processes) × (t ≢ r) × (is_paused (st t) ≡ true)
Layout-other st r total w l =
    let (t, m, p) = count-found (λ i. is_paused (st i)) max_processes (omega (arith, w.counted)) in
    (t, m, (λ e. absurd (differ t e p)), p)
  where
    differ : (t : ℕ) → t ≡ r → is_paused (st t) ≡ true → ⊥
    differ t e p =
        let q : true ≡ false = sym p ∙ ap (λ (i : ℕ). is_paused (st i)) e ∙ ap is_paused w.runs in
        cc

pub Layout-bound : (st : ℕ → Status) (r total : ℕ) → Layout st r total → total ≤ suc max_processes
Layout-bound st r total w =
    let b = count-bound (λ i. is_paused (st i)) max_processes in omega (arith, w.counted, b)

pub Waiting-bound : (st : ℕ → Status) (total : ℕ) → Waiting st total → total ≤ max_processes
Waiting-bound st total w =
    let b = count-bound (λ i. is_paused (st i)) max_processes in omega (arith, w.counted, b)

count-none : (p : ℕ → Bool) (n : ℕ) → ((i : ℕ) → i < n → p i ≡ false) → count p n ≡ 0
count-none p zero none_has = refl
count-none p (suc n) none_has =
    let e = none_has n (omega arith) in
    let f = count-none p n (λ i l. none_has i (omega arith)) in rw (e, f) (omega arith)

-- A list with no process.
pub Waiting-empty :
    (st : ℕ → Status)
    → ((i : ℕ) → i < max_processes → st i ≢ running)
    → ((i : ℕ) → i < max_processes → is_paused (st i) ≡ false)
    → Waiting st 0
Waiting-empty st no_runs no_paused = record {
  none_runs = no_runs;
  counted = sym (count-none (λ i. is_paused (st i)) max_processes no_paused);
}
