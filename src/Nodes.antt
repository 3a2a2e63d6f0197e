-- ===== src/Nodes.antt =====
-- The circular linked lists of util.c (node_init to list_is_empty).
pub mod Ring
pub mod Dll
pub mod Unlink
pub mod Tests
use jake.Common.{ℕ, ◌+◌, ◌%◌, Bool, not, ◌==◌, ◌&&◌}
use jake.Machine.{word, Machine, node_at, set_node}

abbrev pub set_next : ℕ → ℕ → Machine → Machine
set_next node n s = set_node node (record (node_at s node) { next = n }) s

abbrev pub set_prev : ℕ → ℕ → Machine → Machine
set_prev node p s = set_node node (record (node_at s node) { prev = p }) s

unfoldable pub node_init : ℕ → Machine → Machine
node_init node s = set_prev node node (set_next node node s)

unfoldable pub is_node_init : ℕ → Machine → Bool
is_node_init node s = not ((node_at s node).prev == 0) && not ((node_at s node).next == 0)

unfoldable pub node_migrate : ℕ → ℕ → Machine → Machine
node_migrate node offset s =
    let s₁ = set_next node (((node_at s node).next + offset) % word) s in
    set_prev node (((node_at s₁ node).prev + offset) % word) s₁

-- The four writes in the source's order; each reads what those before it wrote.
unfoldable pub list_append : ℕ → ℕ → Machine → Machine
list_append head node s =
    let s₁ = set_next node head s in
    let s₂ = set_prev node (node_at s₁ head).prev s₁ in
    let s₃ = set_next (node_at s₂ head).prev node s₂ in set_prev head node s₃

unfoldable pub list_remove : ℕ → Machine → Machine
list_remove node s =
    let s₁ = set_next (node_at s node).prev (node_at s node).next s in
    let s₂ = set_prev (node_at s₁ node).next (node_at s₁ node).prev s₁ in
    let s₃ = set_next node node s₂ in set_prev node node s₃

unfoldable pub list_is_empty : ℕ → Machine → Bool
list_is_empty head s = (node_at s head).next == head
