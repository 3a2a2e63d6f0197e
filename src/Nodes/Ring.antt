-- ===== src/Nodes/Ring.antt =====
-- `list_append` and `list_remove` of src/kernel/util.c on a ring.
use jake.Common.{ℕ, ◌≡◌, ◌≢◌, arith}
use jake.Machine.{Machine, kvirt2phys}
use jake.Nodes.{list_append, list_remove}

-- The cells of the nodes are numbers, which `kvirt2phys` takes to themselves: the low half.
abbrev pub Low : ℕ → Type 0
Low a = kvirt2phys a ≡ a

-- Appending a node to a ring whose last node is `last` puts it between `last` and the head, and
-- changes no other link.
pub list_append-links :
    (head node last : ℕ) (s : Machine)
    → Low head
    → Low node
    → Low last
    → node ≢ head
    → node ≢ last
    → (s.nodes head).prev ≡ last
    → let s' = list_append head node s in
      ((s'.nodes last).next ≡ node)
      × ((s'.nodes node).prev ≡ last)
      × ((s'.nodes node).next ≡ head)
      × ((s'.nodes head).prev ≡ node)
      × ((a : ℕ) → a ≢ node → a ≢ head → (s'.nodes a).prev ≡ (s.nodes a).prev)
      × ((a : ℕ) → a ≢ node → a ≢ last → (s'.nodes a).next ≡ (s.nodes a).next)
unfolding list_append
list_append-links head node last s lh ln ll nh nl prev = (
  ground arith,
  ground arith,
  ground arith,
  ground arith,
  λ a p q. ground arith,
  λ a p q. ground arith,
)

-- Removing a node that was just appended to a ring gives every other node its links back, and leaves
-- the node alone in a ring of its own.
pub list_remove-list_append :
    (head node last : ℕ) (s : Machine)
    → Low head
    → Low node
    → Low last
    → node ≢ head
    → node ≢ last
    → (s.nodes head).prev ≡ last
    → (s.nodes last).next ≡ head
    → let s' = list_remove node (list_append head node s) in
      ((a : ℕ) → a ≢ node → (s'.nodes a).next ≡ (s.nodes a).next)
      × ((a : ℕ) → a ≢ node → (s'.nodes a).prev ≡ (s.nodes a).prev)
      × ((s'.nodes node).next ≡ node)
      × ((s'.nodes node).prev ≡ node)
unfolding list_append list_remove
list_remove-list_append head node last s lh ln ll nh nl prev next =
    (λ a p. ground arith, λ a p. ground arith, ground arith, ground arith)
