-- ===== src/Pt/Lookup.antt =====
-- `vpn2vma` of src/kernel/pt.c on a ring of VMAs.
use jake.Common.{
  ℕ, zero, suc, ◌+◌, ◌-◌, ◌%◌, ◌≤◌, ◌<◌, ◌≡◌, refl, ap, arith, true, false, ◌&&◌, ltb, leb, ◌==◌,
  some, List, [], ◌∷◌, ◌++◌, length, Bool-cases, inl, inr,
}
use jake.Machine.{word, Machine, Vma, kvirt2phys, node_at, vma_at, vma_node_offset}
use jake.Nodes.Dll.{Dll, Away, Ring}
use jake.Pt.Vma.{find_vma_loop, vpn2vma}

-- The VMA that a node of the list stands for.
abbrev pub vma_of : Machine → ℕ → Vma
vma_of s node = vma_at s (node - vma_node_offset)

-- The page number lies in the range of the VMA.
abbrev pub Holds : Machine → ℕ → ℕ → Type 0
Holds s vpn node =
    ((vma_of s node).vpn ≤ vpn) × (vpn < ((vma_of s node).vpn + (vma_of s node).pagen) % word)

abbrev pub NoneHolds : Machine → ℕ → List ℕ → Type 0
NoneHolds s vpn [] = Unit
NoneHolds s vpn (x ∷ xs) = (Holds s vpn x → ⊥) × NoneHolds s vpn xs

-- The first VMA of the list that holds the page number: its address, or NULL if there is none.
pub data FirstHolds (s : Machine) (vpn : ℕ) (xs : List ℕ) (found : ℕ) : Type 0 where
  null : NoneHolds s vpn xs → found ≡ 0 → FirstHolds s vpn xs found
  first :
      (us : List ℕ) (node : ℕ) (vs : List ℕ)
      → xs ≡ us ++ (node ∷ vs)
      → NoneHolds s vpn us
      → Holds s vpn node
      → found ≡ node - vma_node_offset
      → FirstHolds s vpn xs found

FirstHolds-later :
    (s : Machine) (vpn x : ℕ) (xs : List ℕ) (found : ℕ)
    → (Holds s vpn x → ⊥)
    → FirstHolds s vpn xs found
    → FirstHolds s vpn (x ∷ xs) found
FirstHolds-later s vpn x xs found n (null none e) = null (n, none) e
FirstHolds-later s vpn x xs found n (first us node vs e none h f) =
    first (x ∷ us) node vs (ap (λ (t : List ℕ). x ∷ t) e) (n, none) h f

find_vma_loop-FirstHolds :
    (rounds head vpn a : ℕ) (xs : List ℕ) (s : Machine)
    → Dll s a xs head
    → Away (kvirt2phys head) xs
    → length xs < rounds
    → (found : ℕ) × (find_vma_loop rounds head vpn (node_at s a).next s ≡ some found)
      × FirstHolds s vpn xs found
unfolding find_vma_loop
find_vma_loop-FirstHolds zero head vpn a xs s d w l = absurd (omega arith)
find_vma_loop-FirstHolds (suc rounds) head vpn a [] s d w l =
    let e : ((node_at s a).next == head) ≡ true = ground (arith, d.0) in
    (0, rw e refl, null tt refl)
find_vma_loop-FirstHolds (suc rounds) head vpn a (x ∷ xs) s d w l =
    let n : (x == head) ≡ false = ground (arith, λ (q : x ≡ head). w.0 (ap kvirt2phys q)) in
    let v = vma_of s x in
    let (found, e, r) = find_vma_loop-FirstHolds rounds head vpn x xs s d.2 w.1 (omega arith) in
    elim (Bool-cases (leb v.vpn vpn && ltb vpn ((v.vpn + v.pagen) % word))) [
      | inl yes_here ↦ (
        x - vma_node_offset,
        rw (d.0, n, yes_here) refl,
        first [] x xs refl tt (ground arith) refl,
      )
      | inr not_here ↦
          (found, rw (d.0, n, not_here) e, FirstHolds-later s vpn x xs found (λ h. ground arith) r)
    ]

-- On a ring, `vpn2vma` ends within one round more than there are VMAs, and answers the first VMA of the
-- list that holds the page number, or NULL if none of them does.
pub vpn2vma-FirstHolds :
    (rounds head vpn : ℕ) (xs : List ℕ) (s : Machine)
    → Ring s head xs
    → length xs < rounds
    → (found : ℕ) × (vpn2vma rounds head vpn s ≡ some found) × FirstHolds s vpn xs found
unfolding vpn2vma
vpn2vma-FirstHolds rounds head vpn xs s (d, p) l =
    find_vma_loop-FirstHolds rounds head vpn head xs s d p.0 l
