-- ===== src/Nodes/Dll.antt =====
-- The lists of src/kernel/util.c as sequences of nodes: what `list_append` and `list_remove` do to a
-- ring, at low and high addresses alike.
use jake.Common.{ℕ, ◌≡◌, ◌≢◌, refl, sym, ap, ◌∙◌, arith, List, [], ◌∷◌, ◌++◌}
use jake.Machine.{Machine, kvirt2phys, node_at}
use jake.Nodes.{list_append, list_remove}

-- From `a` the nodes `xs` lead to `b`, forwards by `next` and backwards by `prev`.
abbrev pub Dll : Machine → ℕ → List ℕ → ℕ → Type 0
Dll s a [] b = ((node_at s a).next ≡ b) × ((node_at s b).prev ≡ a)
Dll s a (x ∷ xs) b = ((node_at s a).next ≡ x) × ((node_at s x).prev ≡ a) × Dll s x xs b

-- No node of the list has the cell `c`.
abbrev pub Away : ℕ → List ℕ → Type 0
Away c [] = Unit
Away c (x ∷ xs) = (kvirt2phys x ≢ c) × Away c xs

-- The nodes have cells of their own.
abbrev pub Apart : List ℕ → Type 0
Apart [] = Unit
Apart (x ∷ xs) = Away (kvirt2phys x) xs × Apart xs

-- A ring: the head, which is no element, and the nodes from it back to it.
abbrev pub Ring : Machine → ℕ → List ℕ → Type 0
Ring s head xs = Dll s head xs head × Apart (head ∷ xs)

abbrev pub last_from : ℕ → List ℕ → ℕ
last_from a [] = a
last_from a (x ∷ xs) = last_from x xs

pub Dll-last :
    (s : Machine) (a b : ℕ) (xs : List ℕ) → Dll s a xs b → (node_at s b).prev ≡ last_from a xs
Dll-last s a b [] d = d.1
Dll-last s a b (x ∷ xs) d = Dll-last s x b xs d.2

pub Away-last :
    (c a : ℕ) (xs : List ℕ) → kvirt2phys a ≢ c → Away c xs → kvirt2phys (last_from a xs) ≢ c
Away-last c a [] n w = n
Away-last c a (x ∷ xs) n w = Away-last c x xs w.0 w.1

-- What `list_append` writes.
record Appended (s s' : Machine) (head node last : ℕ) : Type 0 where
  next_last : (node_at s' last).next ≡ node
  prev_node : (node_at s' node).prev ≡ last
  next_node : (node_at s' node).next ≡ head
  prev_head : (node_at s' head).prev ≡ node
  nexts :
      (a : ℕ)
      → kvirt2phys a ≢ kvirt2phys node
      → kvirt2phys a ≢ kvirt2phys last
      → (node_at s' a).next ≡ (node_at s a).next
  prevs :
      (a : ℕ)
      → kvirt2phys a ≢ kvirt2phys node
      → kvirt2phys a ≢ kvirt2phys head
      → (node_at s' a).prev ≡ (node_at s a).prev

list_append-Appended :
    (head node last : ℕ) (s : Machine)
    → (node_at s head).prev ≡ last
    → kvirt2phys node ≢ kvirt2phys head
    → kvirt2phys node ≢ kvirt2phys last
    → Appended s (list_append head node s) head node last
unfolding list_append
list_append-Appended head node last s e nh nl = record {
  next_last = ground arith;
  prev_node = ground arith;
  next_node = ground arith;
  prev_head = ground arith;
  nexts = λ a p q. ground arith;
  prevs = λ a p q. ground arith;
}

Dll-append :
    (s s' : Machine) (head node last a : ℕ) (xs : List ℕ)
    → Appended s s' head node last
    → Dll s a xs head
    → Apart (a ∷ xs)
    → Away (kvirt2phys node) (a ∷ xs)
    → Away (kvirt2phys head) xs
    → last ≡ last_from a xs
    → Dll s' a (xs ++ (node ∷ [])) head
Dll-append s s' head node last a [] w d p n h e = (
  ap (λ (t : ℕ). (node_at s' t).next) (sym e) ∙ w.next_last,
  w.prev_node ∙ e,
  (w.next_node, w.prev_head),
)
Dll-append s s' head node last a (x ∷ xs) w d p n h e =
    let far : kvirt2phys a ≢ kvirt2phys last =
      λ q. Away-last (kvirt2phys a) x xs p.0.0 p.0.1 (sym (q ∙ ap kvirt2phys e)) in
    (
      w.nexts a n.0 far ∙ d.0,
      w.prevs x n.1.0 h.0 ∙ d.1,
      Dll-append s s' head node last x xs w d.2 p.1 n.1 h.1 e,
    )

Apart-snoc :
    (a node : ℕ) (xs : List ℕ)
    → Apart (a ∷ xs)
    → Away (kvirt2phys node) (a ∷ xs)
    → Apart (a ∷ (xs ++ (node ∷ [])))
Apart-snoc a node [] p n = ((λ e. n.0 (sym e), tt), (tt, tt))
Apart-snoc a node (x ∷ xs) p n = (
  (p.0.0, Away-snoc (kvirt2phys a) node xs p.0.1 (λ e. n.0 (sym e))),
  Apart-snoc x node xs p.1 n.1,
)
  where
    Away-snoc : (c b : ℕ) (ys : List ℕ) → Away c ys → kvirt2phys b ≢ c → Away c (ys ++ (b ∷ []))
    Away-snoc c b [] w m = (m, tt)
    Away-snoc c b (y ∷ ys) w m = (w.0, Away-snoc c b ys w.1 m)

-- `list_append` puts a node that is not in the ring behind the last one of the ring.
pub list_append-Ring :
    (s : Machine) (head node : ℕ) (xs : List ℕ)
    → Ring s head xs
    → Away (kvirt2phys node) (head ∷ xs)
    → Ring (list_append head node s) head (xs ++ (node ∷ []))
list_append-Ring s head node xs (d, p) n =
    let last = last_from head xs in
    let w =
      list_append-Appended head node last s (Dll-last s head head xs d) (λ e. n.0 (sym e))
        (λ e. Away-last (kvirt2phys node) head xs n.0 n.1 (sym e)) in
    (
      Dll-append s (list_append head node s) head node last head xs w d p n p.0 refl,
      Apart-snoc head node xs p n,
    )

-- What `list_remove` writes, for the neighbours `before` and `behind`.
pub record Unlinked (s s' : Machine) (before node behind : ℕ) : Type 0 where
  pub next_before : (node_at s' before).next ≡ behind
  pub prev_behind : (node_at s' behind).prev ≡ before
  pub nexts :
      (a : ℕ)
      → kvirt2phys a ≢ kvirt2phys node
      → kvirt2phys a ≢ kvirt2phys before
      → (node_at s' a).next ≡ (node_at s a).next
  pub prevs :
      (a : ℕ)
      → kvirt2phys a ≢ kvirt2phys node
      → kvirt2phys a ≢ kvirt2phys behind
      → (node_at s' a).prev ≡ (node_at s a).prev

pub list_remove-Unlinked :
    (before node behind : ℕ) (s : Machine)
    → (node_at s node).prev ≡ before
    → (node_at s node).next ≡ behind
    → kvirt2phys node ≢ kvirt2phys before
    → kvirt2phys node ≢ kvirt2phys behind
    → Unlinked s (list_remove node s) before node behind
unfolding list_remove
list_remove-Unlinked before node behind s p q np nq = record {
  next_before = ground arith;
  prev_behind = ground arith;
  nexts = λ a h k. ground arith;
  prevs = λ a h k. ground arith;
}
