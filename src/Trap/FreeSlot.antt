-- ===== src/Trap/FreeSlot.antt =====
-- The slot that src/kernel/process.c finds for a new process.
use jake.Common.{
  ℕ, zero, suc, ◌+◌, ◌≤◌, ◌<◌, ◌≡◌, sym, arith, true, ◌==◌, ==→eq, Bool-cases, inl, inr, ◌⊎◌, ℤ,
  pos, negsuc,
}
use jake.Process.State.{is_free_slot, max_processes, Kernel}
use jake.Process.Scheduler.{find_slot_loop, proc_find_free_process_slot}
use jake.Trap.Scheduled.{statuses}

-- The loop for a free slot ends at the end of the list or at a free slot.
find_slot_loop-free :
    (rounds count : ℕ) (k : Kernel)
    → max_processes ≤ count + rounds
    → count ≤ max_processes
    → (find_slot_loop rounds count k ≡ max_processes)
      ⊎ ((find_slot_loop rounds count k < max_processes)
          × (is_free_slot (statuses k (find_slot_loop rounds count k)) ≡ true))
unfolding find_slot_loop
find_slot_loop-free zero count k enough l = inl (omega arith)
find_slot_loop-free (suc rounds) count k enough l = elim (Bool-cases (count == max_processes)) [
  | inl e ↦ rw e (inl (==→eq _ _ e))
  | inr n ↦ elim (Bool-cases (is_free_slot (statuses k count))) [
    | inl f ↦ rw (n, f) (inr (ground (arith, n), f))
    | inr f ↦ rw (n, f) (find_slot_loop-free rounds (count + 1) k (omega arith) (ground (arith, n)))
  ]
]

-- The slot for a new process.
pub record FreeSlot (k : Kernel) (t : ℕ) : Type 0 where
  pub inside : t < max_processes
  pub is_free : is_free_slot (statuses k t) ≡ true

pub proc_find_free_process_slot-FreeSlot :
    (k : Kernel) (t : ℕ) → proc_find_free_process_slot k ≡ pos t → FreeSlot k t
unfolding proc_find_free_process_slot
proc_find_free_process_slot-FreeSlot k t e =
    elim (Bool-cases (k.processes_total == max_processes)) [
      | inl full ↦ absurd (refused (rw full at e))
      | inr few ↦ elim (Bool-cases (find_slot_loop max_processes 1 k == max_processes)) [
        | inl none_left ↦ absurd (refused (rw (few, none_left) at e))
        | inr found ↦
            let q = pos_inj _ _ (rw (few, found) at e) in
            elim (find_slot_loop-free max_processes 1 k (omega arith) (omega arith)) [
              | inl end ↦ absurd (ground (arith, found, end))
              | inr (l, f) ↦ record { inside = rw (sym q) l; is_free = rw (sym q) f }
            ]
      ]
    ]
  where
    refused : {n : ℕ} → ◌≡◌ {A = ℤ} (negsuc 0) (pos n) → ⊥
    refused q = cc

    pos_inj : (a b : ℕ) → ◌≡◌ {A = ℤ} (pos a) (pos b) → a ≡ b
    pos_inj a b q = cc
