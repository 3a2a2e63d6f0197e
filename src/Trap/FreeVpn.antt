-- ===== src/Trap/FreeVpn.antt =====
-- `get_free_vpn` of src/kernel/exception.c, which mmap places a new VMA with.
use jake.Common.{
  ℕ, zero, suc, ◌+◌, ◌%◌, ◌^◌, ◌≤◌, ◌<◌, ◌≡◌, refl, ap, arith, Bool, true, false, ◌&&◌, not, ltb,
  leb, ◌==◌, if◌then◌else◌, some, List, [], ◌∷◌, length, has, ==→eq, Bool-cases, inl, inr, ◌⊎◌,
  dec_lt,
}
use jake.Machine.{word, Machine, Vma, kvirt2phys, node_at}
use jake.Nodes.Dll.{Dll, Away, Ring}
use jake.Pt.Lookup.{vma_of}
use jake.Process.State.{user_stack_base_vpn, user_heap_base_vpn, sign_extend, Kernel, current}
use jake.Trap.Scall.{free_vpn_loop, get_free_vpn}

-- The VMAs that the search reads: those from the heap's base on, but the stack's.
abbrev pub in_heap : Vma → Bool
in_heap v = not (v.vpn == user_stack_base_vpn) && leb user_heap_base_vpn v.vpn

-- `max_vpn` and `vpn_max_pagen` after the loop over `xs` that began with `m` and `p`: those of a VMA
-- of the heap that none of them is behind, or as they were.
pub record Largest (s : Machine) (xs : List ℕ) (m p m' p' : ℕ) : Type 0 where
  pub grows : m ≤ m'
  pub above : (x : ℕ) → has x xs ≡ true → in_heap (vma_of s x) ≡ true → (vma_of s x).vpn ≤ m'
  pub from :
      ((m' ≡ m) × (p' ≡ p))
      ⊎ ((x : ℕ) × (has x xs ≡ true)
          × (in_heap (vma_of s x) ≡ true)
          × (m' ≡ (vma_of s x).vpn)
          × (p' ≡ sign_extend (vma_of s x).pagen)
          × (m < m'))

above_cons :
    (s : Machine) (y : ℕ) (xs : List ℕ) (m : ℕ)
    → (in_heap (vma_of s y) ≡ true → (vma_of s y).vpn ≤ m)
    → ((x : ℕ) → has x xs ≡ true → in_heap (vma_of s x) ≡ true → (vma_of s x).vpn ≤ m)
    → (x : ℕ) → has x (y ∷ xs) ≡ true
    → in_heap (vma_of s x) ≡ true
    → (vma_of s x).vpn ≤ m
above_cons s y xs m here there x e i = elim (Bool-cases (x == y)) [
  | inl q ↦ let f = ==→eq x y q in rw f (here (rw f at i))
  | inr q ↦ there x (rw q at e) i
]

has_cons : (x y : ℕ) (xs : List ℕ) → has x xs ≡ true → has x (y ∷ xs) ≡ true
has_cons x y xs h = ground (arith, h)

has_first : (y : ℕ) (xs : List ℕ) → has y (y ∷ xs) ≡ true
has_first y xs = ground arith

Largest-take :
    (s : Machine) (y : ℕ) (xs : List ℕ) (m p m' p' : ℕ)
    → in_heap (vma_of s y) ≡ true
    → m < (vma_of s y).vpn
    → Largest s xs (vma_of s y).vpn (sign_extend (vma_of s y).pagen) m' p'
    → Largest s (y ∷ xs) m p m' p'
Largest-take s y xs m p m' p' h l r = record {
  grows = omega (arith, r.grows);
  above = above_cons s y xs m' (λ _. r.grows) r.above;
  from = elim r.from [
    | inl (e, f) ↦ inr (y, has_first y xs, h, e, f, omega (arith, l, r.grows))
    | inr (x, a, i, e, f, g) ↦ inr (x, has_cons x y xs a, i, e, f, omega (arith, l, g))
  ];
}

Largest-skip :
    (s : Machine) (y : ℕ) (xs : List ℕ) (m p m' p' : ℕ)
    → (in_heap (vma_of s y) ≡ true → (vma_of s y).vpn ≤ m)
    → Largest s xs m p m' p'
    → Largest s (y ∷ xs) m p m' p'
Largest-skip s y xs m p m' p' h r = record {
  grows = r.grows;
  above = above_cons s y xs m' (λ i. omega (arith, h i, r.grows)) r.above;
  from = elim r.from [
    | inl e ↦ inl e
    | inr (x, a, i, e, f, g) ↦ inr (x, has_cons x y xs a, i, e, f, g)
  ];
}

free_vpn_loop-Largest :
    (rounds head a m p : ℕ) (xs : List ℕ) (s : Machine)
    → Dll s a xs head
    → Away (kvirt2phys head) xs
    → length xs < rounds
    → (m' : ℕ) × (p' : ℕ) × (free_vpn_loop rounds head (node_at s a).next m p s ≡ some (m', p'))
      × Largest s xs m p m' p'
unfolding free_vpn_loop
free_vpn_loop-Largest zero head a m p xs s d w l = absurd (omega arith)
free_vpn_loop-Largest (suc rounds) head a m p [] s d w l =
    let e : ((node_at s a).next == head) ≡ true = ground (arith, d.0) in
    (
      m,
      p,
      rw e refl,
      record { grows = omega arith; above = λ x h i. ground arith; from = inl (refl, refl) },
    )
free_vpn_loop-Largest (suc rounds) head a m p (x ∷ xs) s d w l =
    let n : (x == head) ≡ false = ground (arith, λ (q : x ≡ head). w.0 (ap kvirt2phys q)) in
    let v = vma_of s x in
    elim (Bool-cases
      (not (v.vpn == user_stack_base_vpn) && leb user_heap_base_vpn v.vpn && ltb m v.vpn)) [
        | inl taken ↦
            let (m', p', e, r) =
              free_vpn_loop-Largest rounds head x v.vpn (sign_extend v.pagen) xs s d.2 w.1
                (omega arith) in
            (
              m',
              p',
              rw (d.0, n, taken) e,
              Largest-take s x xs m p m' p' (ground arith) (ground arith) r,
            )
        | inr skipped ↦
            let (m', p', e, r) =
              free_vpn_loop-Largest rounds head x m p xs s d.2 w.1 (omega arith) in
            (m', p', rw (d.0, n, skipped) e, Largest-skip s x xs m p m' p' (λ i. ground arith) r)
      ]

-- On the ring of the running process, `get_free_vpn` for this process ends within one round more than
-- there are VMAs. It answers the heap's base if the heap has no VMA, and else the end of a VMA of the
-- heap that begins no lower than any other VMA of the heap.
pub get_free_vpn-Largest :
    (rounds : ℕ) (xs : List ℕ) (k : Kernel)
    → Ring k.machine (current k).uvmas xs
    → length xs < rounds
    → (m : ℕ) × (p : ℕ) × (get_free_vpn rounds k.proc_running k
        ≡ some (if m == 0 then user_heap_base_vpn else (m + p) % word))
      × Largest k.machine xs 0 0 m p
unfolding get_free_vpn
get_free_vpn-Largest rounds xs k (d, a) l =
    let (m, p, e, r) =
      free_vpn_loop-Largest rounds (current k).uvmas (current k).uvmas 0 0 xs k.machine d a.0 l in
    (m, p, rw e refl, r)

-- The VMAs of the heap have fewer than 2 ^ 31 pages, end below 2 ^ 64, and lie apart: one that begins
-- below another ends there at the latest, and two that begin alike are of one size.
pub record HeapIsApart (s : Machine) (xs : List ℕ) : Type 0 where
  pub small : (x : ℕ) → has x xs ≡ true → in_heap (vma_of s x) ≡ true → (vma_of s x).pagen < 2 ^ 31
  pub fits :
      (x : ℕ)
      → has x xs ≡ true
      → in_heap (vma_of s x) ≡ true
      → (vma_of s x).vpn + (vma_of s x).pagen < word
  pub apart :
      (x y : ℕ)
      → has x xs ≡ true
      → has y xs ≡ true
      → in_heap (vma_of s x) ≡ true
      → (vma_of s x).vpn < (vma_of s y).vpn
      → (vma_of s x).vpn + (vma_of s x).pagen ≤ (vma_of s y).vpn
  pub same :
      (x y : ℕ)
      → has x xs ≡ true
      → has y xs ≡ true
      → in_heap (vma_of s x) ≡ true
      → (vma_of s x).vpn ≡ (vma_of s y).vpn
      → (vma_of s x).pagen ≡ (vma_of s y).pagen

heap_low : (v : Vma) → in_heap v ≡ true → user_heap_base_vpn ≤ v.vpn
heap_low v h = ground arith

end_of-behind :
    (s : Machine) (xs : List ℕ) (m p : ℕ)
    → HeapIsApart s xs
    → Largest s xs 0 0 m p
    → let vpn = if m == 0 then user_heap_base_vpn else (m + p) % word in
      (user_heap_base_vpn ≤ vpn)
      × ((x : ℕ)
          → has x xs ≡ true
          → in_heap (vma_of s x) ≡ true
          → (vma_of s x).vpn + (vma_of s x).pagen ≤ vpn)
end_of-behind s xs m p h r = elim r.from [
  | inl (z, q) ↦
      rw z (omega arith, λ x a i. absurd (omega (arith, r.above x a i, heap_low (vma_of s x) i)))
  | inr (y, a, i, z, q, _) ↦
      let low = heap_low (vma_of s y) i in
      let n : (m == 0) ≡ false = ground (arith, z, low) in
      let e : (m + p) % word ≡ (vma_of s y).vpn + (vma_of s y).pagen =
        ground (arith, z, q, h.small y a i, h.fits y a i) in
      rw (n, e)
        (
          omega arith,
          λ x b j. elim (dec_lt (vma_of s x).vpn (vma_of s y).vpn) [
            | yes l ↦ omega (arith, h.apart x y b a j l)
            | no g ↦
                let f : (vma_of s x).vpn ≡ (vma_of s y).vpn = omega (arith, r.above x b j, z) in
                omega (arith, f, h.same x y b a j f)
          ],
        )
]

-- Where the VMAs of the heap lie apart, the page number that `get_free_vpn` finds lies in the heap's
-- region, and behind the end of every VMA of the heap.
pub get_free_vpn-behind :
    (rounds : ℕ) (xs : List ℕ) (k : Kernel)
    → Ring k.machine (current k).uvmas xs
    → length xs < rounds
    → HeapIsApart k.machine xs
    → (vpn : ℕ) × (get_free_vpn rounds k.proc_running k ≡ some vpn)
      × (user_heap_base_vpn ≤ vpn)
      × ((x : ℕ)
          → has x xs ≡ true
          → in_heap (vma_of k.machine x) ≡ true
          → (vma_of k.machine x).vpn + (vma_of k.machine x).pagen ≤ vpn)
get_free_vpn-behind rounds xs k ring l h =
    let (m, p, e, r) = get_free_vpn-Largest rounds xs k ring l in
    let (low, all) = end_of-behind k.machine xs m p h r in
    (if m == 0 then user_heap_base_vpn else (m + p) % word, e, low, all)

-- Where the first VMA of the list is one of the heap with no pages, and no VMA of the heap begins behind
-- it, `get_free_vpn` for the running process answers the page number that it begins at, whatever the
-- sizes of those that begin there too.
pub get_free_vpn-empty :
    (rounds x : ℕ) (xs : List ℕ) (k : Kernel)
    → Ring k.machine (current k).uvmas (x ∷ xs)
    → length xs < rounds
    → in_heap (vma_of k.machine x) ≡ true
    → (vma_of k.machine x).pagen ≡ 0
    → (vma_of k.machine x).vpn < word
    → ((y : ℕ)
        → has y xs ≡ true
        → in_heap (vma_of k.machine y) ≡ true
        → (vma_of k.machine y).vpn ≤ (vma_of k.machine x).vpn)
    → get_free_vpn (suc rounds) k.proc_running k ≡ some (vma_of k.machine x).vpn
unfolding get_free_vpn free_vpn_loop
get_free_vpn-empty rounds x xs k (d, a) l heap no_pages fits most =
    let v = vma_of k.machine x in
    let n : (x == (current k).uvmas) ≡ false =
      ground (arith, λ (q : x ≡ (current k).uvmas). a.0.0 (ap kvirt2phys q)) in
    let taken : (not (v.vpn == user_stack_base_vpn) && leb user_heap_base_vpn v.vpn && ltb 0 v.vpn)
        ≡ true =
      ground (arith, heap) in
    let (m, p, e, r) =
      free_vpn_loop-Largest rounds (current k).uvmas x v.vpn (sign_extend v.pagen) xs k.machine d.2
        a.0.1 l in
    rw (d.0, n, taken, e)
      (elim r.from [
        | inl (z, q) ↦
            let f : (m == 0) ≡ false = ground (arith, z, heap_low v heap) in
            let size : p ≡ 0 = ground (arith, q, no_pages) in
            rw f (ap (λ (t : ℕ). some t) (omega (arith, z, size, fits)))
        | inr (y, b, i, z, q, g) ↦ absurd (omega (arith, most y b i, z, g))
      ])
