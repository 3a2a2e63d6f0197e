-- ===== src/Nodes/Unlink.antt =====
-- `list_remove` of src/kernel/util.c on a ring.
use jake.Common.{ℕ, ◌≡◌, ◌≢◌, sym, ◌∙◌, List, [], ◌∷◌, ◌++◌}
use jake.Machine.{Machine, kvirt2phys, node_at}
use jake.Nodes.{list_remove}
use jake.Nodes.Dll.{Dll, Away, Apart, Ring, last_from, Away-last, Unlinked, list_remove-Unlinked}

abbrev first_to : List ℕ → ℕ → ℕ
first_to [] b = b
first_to (x ∷ xs) b = x

Dll-first :
    (s : Machine) (a b : ℕ) (xs : List ℕ) → Dll s a xs b → (node_at s a).next ≡ first_to xs b
Dll-first s a b [] d = d.0
Dll-first s a b (x ∷ xs) d = d.0

Dll-split :
    (s : Machine) (a b n : ℕ) (us vs : List ℕ)
    → Dll s a (us ++ (n ∷ vs)) b
    → ((node_at s n).prev ≡ last_from a us) × Dll s n vs b
Dll-split s a b n [] vs d = (d.1, d.2)
Dll-split s a b n (u ∷ us) vs d = Dll-split s u b n us vs d.2

Away-split :
    (c n : ℕ) (us vs : List ℕ)
    → Away c (us ++ (n ∷ vs))
    → Away c us × (kvirt2phys n ≢ c) × Away c vs
Away-split c n [] vs w = (tt, w.0, w.1)
Away-split c n (u ∷ us) vs w = let r = Away-split c n us vs w.1 in ((w.0, r.0), r.1, r.2)

Away-join : (c : ℕ) (us vs : List ℕ) → Away c us → Away c vs → Away c (us ++ vs)
Away-join c [] vs w v = v
Away-join c (u ∷ us) vs w v = (w.0, Away-join c us vs w.1 v)

Apart-drop : (n : ℕ) (us vs : List ℕ) → Apart (us ++ (n ∷ vs)) → Apart (us ++ vs) × Apart (n ∷ vs)
Apart-drop n [] vs p = (p.1, p)
Apart-drop n (u ∷ us) vs p =
    let r = Away-split (kvirt2phys u) n us vs p.0 in
    let q = Apart-drop n us vs p.1 in ((Away-join (kvirt2phys u) us vs r.0 r.2, q.0), q.1)

-- The part of a ring that the removal does not reach.
Dll-kept :
    (s s' : Machine) (before node behind a b : ℕ) (xs : List ℕ)
    → Unlinked s s' before node behind
    → Dll s a xs b
    → Away (kvirt2phys before) (a ∷ xs)
    → Away (kvirt2phys node) (a ∷ xs)
    → Away (kvirt2phys behind) xs
    → kvirt2phys b ≢ kvirt2phys node
    → kvirt2phys b ≢ kvirt2phys behind
    → Dll s' a xs b
Dll-kept s s' before node behind a b [] w d p q r m n =
    (w.nexts a q.0 p.0 ∙ d.0, w.prevs b m n ∙ d.1)
Dll-kept s s' before node behind a b (x ∷ xs) w d p q r m n = (
  w.nexts a q.0 p.0 ∙ d.0,
  w.prevs x q.1.0 r.0 ∙ d.1,
  Dll-kept s s' before node behind x b xs w d.2 p.1 q.1 r.1 m n,
)

-- From the node before the removed one on.
Dll-behind :
    (s s' : Machine) (before node head : ℕ) (vs : List ℕ)
    → Unlinked s s' before node (first_to vs head)
    → Dll s node vs head
    → Away (kvirt2phys before) vs
    → Away (kvirt2phys node) vs
    → Apart vs
    → Away (kvirt2phys head) vs
    → kvirt2phys head ≢ kvirt2phys node
    → Dll s' before vs head
Dll-behind s s' before node head [] w d p q r h m = (w.next_before, w.prev_behind)
Dll-behind s s' before node head (v ∷ vs) w d p q r h m = (
  w.next_before,
  w.prev_behind,
  Dll-kept s s' before node v v head vs w d.2 p q r.0 m (λ e. h.0 (sym e)),
)

first_to-ne :
    (u head : ℕ) (vs : List ℕ)
    → kvirt2phys u ≢ kvirt2phys head
    → Away (kvirt2phys u) vs
    → kvirt2phys u ≢ kvirt2phys (first_to vs head)
first_to-ne u head [] n w = n
first_to-ne u head (v ∷ vs) n w = λ e. w.0 (sym e)

Dll-remove :
    (s s' : Machine) (head node a : ℕ) (us vs : List ℕ)
    → Unlinked s s' (last_from a us) node (first_to vs head)
    → Dll s a (us ++ (node ∷ vs)) head
    → Apart (a ∷ (us ++ (node ∷ vs)))
    → Away (kvirt2phys head) (us ++ (node ∷ vs))
    → Dll s' a (us ++ vs) head
Dll-remove s s' head node a [] vs w d p h =
    Dll-behind s s' a node head vs w d.2 p.0.1 p.1.0 p.1.1 h.1 (λ e. h.0 (sym e))
Dll-remove s s' head node a (u ∷ us) vs w d p h =
    let pa = Away-split (kvirt2phys a) node us vs p.0.1 in
    let pu = Away-split (kvirt2phys u) node us vs p.1.0 in
    (
      w.nexts a (λ e. pa.1 (sym e)) (λ e. Away-last (kvirt2phys a) u us p.0.0 pa.0 (sym e)) ∙ d.0,
      w.prevs u (λ e. pu.1 (sym e)) (first_to-ne u head vs h.0 pu.2) ∙ d.1,
      Dll-remove s s' head node u us vs w d.2 p.1 h.1,
    )

-- `list_remove` takes a node out of a ring, and leaves the other nodes in their order.
pub list_remove-Ring :
    (s : Machine) (head node : ℕ) (us vs : List ℕ)
    → Ring s head (us ++ (node ∷ vs))
    → Ring (list_remove node s) head (us ++ vs)
list_remove-Ring s head node us vs (d, p) =
    let before = last_from head us in
    let behind = first_to vs head in
    let r = Dll-split s head head node us vs d in
    let h = Away-split (kvirt2phys head) node us vs p.0 in
    let q = Apart-drop node us vs p.1 in
    let w =
      list_remove-Unlinked before node behind s r.0 (Dll-first s node head vs r.1)
        (Node-before head node us vs h.1 p.1) (first_to-ne node head vs h.1 q.1.0) in
    (
      Dll-remove s (list_remove node s) head node head us vs w d p p.0,
      (Away-join (kvirt2phys head) us vs h.0 h.2, q.0),
    )
  where
    Node-before :
        (a n : ℕ) (xs ys : List ℕ)
        → kvirt2phys n ≢ kvirt2phys a
        → Apart (xs ++ (n ∷ ys))
        → kvirt2phys n ≢ kvirt2phys (last_from a xs)
    Node-before a n [] ys m z = m
    Node-before a n (x ∷ xs) ys m z =
        Node-before x n xs ys (Away-split (kvirt2phys x) n xs ys z.0).1 z.1
