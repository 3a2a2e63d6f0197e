-- ===== src/Nodes/Tests.antt =====
-- Rings of src/kernel/util.c on concrete memories.
use jake.Common.{ℕ, refl, none, arith, ◌==◌, if◌then◌else◌, [], ◌∷◌}
use jake.Machine.{Machine, kvirt2phys, node_at}
use jake.Nodes.{list_append, list_remove}
use jake.Nodes.Ring.{Low}
use jake.Nodes.Dll.{Away, Ring, list_append-Ring}
use jake.Nodes.Unlink.{list_remove-Ring}

-- A ring of the head 100 and the node 200, and the node 300 alone; every word is `fill`.
abbrev pub machine_with : ℕ → Machine
machine_with fill = record {
  buddy = record {
    free_lists = λ _. none;
    blocks = λ _. record { refcnt = 1; order = 0; next = none };
  };
  mem = λ _. fill;
  nodes = λ a.
      if a == 100
      then record { next = 200; prev = 200 }
      else if a == 200
      then record { next = 100; prev = 100 }
      else record { next = a; prev = a };
  vmas = λ a.
      if a == 176
      then record { vpn = 0x80006; pagen = 4; flags = 0 }
      else record { vpn = 0; pagen = 0; flags = 0 };
  ksatp_at = 8;
  salloc_base = 0;
  salloc_cursor = 0;
  kvmas_head = 100;
}

cell_100 : Low 100
unfolding kvirt2phys
cell_100 = refl

cell_200 : Low 200
unfolding kvirt2phys
cell_200 = refl

cell_300 : Low 300
unfolding kvirt2phys
cell_300 = refl

pub two-Ring : Ring (machine_with 0) 100 (200 ∷ [])
unfolding node_at kvirt2phys
two-Ring = ((refl, refl, (refl, refl)), ((λ e. absurd (omega (arith, e)), tt), (tt, tt)))

alone_300 : Away (kvirt2phys 300) (100 ∷ (200 ∷ []))
unfolding kvirt2phys
alone_300 = (λ e. absurd (omega (arith, e)), (λ e. absurd (omega (arith, e)), tt))

list_append-Ring_example : Ring (list_append 100 300 (machine_with 0)) 100 (200 ∷ (300 ∷ []))
list_append-Ring_example = list_append-Ring (machine_with 0) 100 300 (200 ∷ []) two-Ring alone_300

list_remove-Ring_example : Ring (list_remove 200 (machine_with 0)) 100 []
list_remove-Ring_example = list_remove-Ring (machine_with 0) 100 200 [] [] two-Ring
