-- ===== src/Trap/Starts.antt =====
-- Starting a process in src/kernel/process.c, for the state of the scheduler.
use jake.Common.{
  ℕ, zero, suc, ◌+◌, ◌%◌, ◌^◌, ◌≤◌, ◌<◌, ◌≡◌, refl, ap, ◌∙◌, arith, Bool, true, ◌==◌, Bool-cases,
  inl, inr, Option, some, Each, Each-bind, Each-then, Each-map, ℤ, pos, negsuc, is_neg, update,
}
use jake.Machine.{Machine, load}
use jake.Elf.{Elf, parse_elf}
use jake.Pt.Alloc.{pt_alloc_pt}
use jake.Process.State.{
  Status, running, is_free_slot, max_processes, Kernel, Leaves, returns, to_user, halts, stalls,
  satp_of, enter_kernel_space, set_process,
}
use jake.Process.Scheduler.{proc_find_free_process_slot}
use jake.Process.Space.{proc_setup_satp, proc_copy_kernel_pt}
use jake.Process.Run.{
  create_vmas, proc_create_process_vmas, set_uvmas, enter_process, run_in_slot, proc_run_process,
}
use jake.Process.Layout.{Layout, Waiting-started, Waiting-bound}
use jake.Trap.FreeSlot.{FreeSlot, proc_find_free_process_slot-FreeSlot}
use jake.Trap.Scheduled.{statuses, IsScheduled, IsWaiting, statuses_update, statuses_kept}

-- The scheduler's part of the two states is the same.
pub record Same (k k' : Kernel) : Type 0 where
  pub statuses_same : statuses k' ≡ statuses k
  pub running_same : k'.proc_running ≡ k.proc_running
  pub total_same : k'.processes_total ≡ k.processes_total

pub Same-IsScheduled : (k k' : Kernel) → Same k k' → IsScheduled k → IsScheduled k'
Same-IsScheduled k k' s w = rw (s.statuses_same, s.running_same, s.total_same) w

pub Same-IsWaiting : (k k' : Kernel) → Same k k' → IsWaiting k → IsWaiting k'
Same-IsWaiting k k' s w = rw (s.statuses_same, s.total_same) w

Same-trans : (k k₁ k₂ : Kernel) → Same k k₁ → Same k₁ k₂ → Same k k₂
Same-trans k k₁ k₂ s t = record {
  statuses_same = t.statuses_same ∙ s.statuses_same;
  running_same = t.running_same ∙ s.running_same;
  total_same = t.total_same ∙ s.total_same;
}

set_uvmas-Same : (t head : ℕ) (s : Machine) (k : Kernel) → Same k (set_uvmas t head s k)
unfolding set_uvmas
set_uvmas-Same t head s k = record {
  statuses_same = statuses_kept k.process_list t _ refl;
  running_same = refl;
  total_same = refl;
}

pub proc_create_process_vmas-Same :
    (rounds t : ℕ) (elf : Elf) (k : Kernel)
    → Each (λ (r : ℕ × Kernel). Same k r.1) (proc_create_process_vmas rounds t elf k)
unfolding proc_create_process_vmas
proc_create_process_vmas-Same rounds t elf k =
    let (root_pt, s₁) = pt_alloc_pt k.machine in
    let s₂ = proc_setup_satp (satp_of k t) root_pt s₁ in
    let s₃ = proc_copy_kernel_pt (load s₂ (satp_of k t)) s₂ in
    elim (Bool-cases (root_pt == 0)) [
      | inl e ↦ rw e (record { statuses_same = refl; running_same = refl; total_same = refl })
      | inr e ↦ rw e (
          Each-then (λ (r : ℕ × Kernel). Same k r.1) _ (create_vmas rounds (satp_of k t) elf s₃)
            λ ((made, head, s) : Bool × ℕ × Machine). elim (Bool-cases made) [
              | inl m ↦
                  let w = set_uvmas-Same t head s k in
                  rw m (record {
                    statuses_same = w.statuses_same;
                    running_same = w.running_same;
                    total_same = w.total_same;
                  })
              | inr m ↦ rw m (set_uvmas-Same t head s k)
            ])
    ]

-- How proc_run_process ends, called while no process runs: with an error and the scheduler's part as
-- it was, or in user mode with a process that runs.
abbrev pub Started : Kernel → Leaves ℤ → Type 0
Started k (returns z k') = (is_neg z ≡ true) × Same k k'
Started k (to_user f k') = IsScheduled k'
Started k (halts k') = Unit
Started k (stalls k') = Unit

entered_layout :
    (t : ℕ) (elf : Elf) (k : Kernel)
    → IsWaiting k
    → t < max_processes
    → is_free_slot (statuses k t) ≡ true
    → Layout
        (λ i.
          (update k.process_list t
            (record (k.process_list t) { status = running; elf = elf })
            i).status)
        t
        ((k.processes_total + 1) % 2 ^ 32)
entered_layout t elf k w inside free =
    let b = Waiting-bound (statuses k) k.processes_total w in
    let n : (k.processes_total + 1) % 2 ^ 32 ≡ suc k.processes_total =
      count_up k.processes_total b in
    rw
      (
        statuses_update k.process_list t
            (record (k.process_list t) { status = running; elf = elf }),
        n,
      )
      (Waiting-started (statuses k) t k.processes_total w inside free)
  where
    count_up : (n : ℕ) → n ≤ max_processes → (n + 1) % 2 ^ 32 ≡ suc n
    count_up n b = omega arith

enter_process-Started :
    (t a3 : ℕ) (elf : Elf) (v : ℕ) (k k' : Kernel)
    → IsWaiting k
    → FreeSlot k t
    → Same k k'
    → Started k (enter_process t a3 elf (v, k'))
unfolding enter_process
enter_process-Started t a3 elf v k k' w free s = elim (Bool-cases (v == 0)) [
  | inl e ↦ rw e (refl, s)
  | inr e ↦ rw e (
      entered_layout t elf k' (Same-IsWaiting k k' s w) free.inside
        (ap (λ (st : ℕ → Status). is_free_slot (st t)) s.statuses_same ∙ free.is_free))
]

-- The answer of parse_elf, and what follows it.
pub Each-parsed :
    (P : Leaves ℤ → Type 0) (z : ℤ) (fails goes : Option (Leaves ℤ))
    → Each P fails
    → Each P goes
    → Each P (elim z [ negsuc n ↦ fails | pos zero ↦ goes | pos (suc n) ↦ fails ])
Each-parsed P (negsuc n) fails goes f g = f
Each-parsed P (pos zero) fails goes f g = g
Each-parsed P (pos (suc n)) fails goes f g = f

run_in_slot-Started :
    (rounds ptr_elf a3 t : ℕ) (k : Kernel)
    → IsWaiting k
    → FreeSlot k t
    → Each (Started k) (run_in_slot rounds ptr_elf a3 t k)
unfolding run_in_slot
run_in_slot-Started rounds ptr_elf a3 t k w free =
    let k₁ = set_process t (record (k.process_list t) { pid = k.last_pid }) k in
    let same : Same k k₁ = record {
      statuses_same = statuses_kept k.process_list t _ refl;
      running_same = refl;
      total_same = refl;
    } in
    Each-parsed (Started k) (parse_elf ptr_elf k.bytes).0 _ _ (refl, same)
      (Each-bind (λ (r : ℕ × Kernel). Same k₁ r.1) (Started k) _
        (proc_create_process_vmas rounds t (parse_elf ptr_elf k.bytes).1 k₁)
        (proc_create_process_vmas-Same rounds t (parse_elf ptr_elf k.bytes).1 k₁)
        λ ((v, k') : ℕ × Kernel) s.
          enter_process-Started t a3 (parse_elf ptr_elf k.bytes).1 v k k' w free
            (Same-trans k k₁ k' same s))

Started-entered : (k : Kernel) (l : Leaves ℤ) → Started (enter_kernel_space k) l → Started k l
Started-entered k (returns z k') (n, s) = (
  n,
  record {
    statuses_same = s.statuses_same;
    running_same = s.running_same;
    total_same = s.total_same;
  },
)
Started-entered k (to_user f k') w = w
Started-entered k (halts k') u = tt
Started-entered k (stalls k') u = tt

-- What holds of the error without a slot, and of the start in a slot that is free, holds of the call.
pub proc_run_process-Each :
    (P : Leaves ℤ → Type 0) (rounds ptr_elf a3 : ℕ) (k : Kernel)
    → ((n : ℕ) → P (returns (negsuc n) (enter_kernel_space k)))
    → ((t : ℕ)
        → FreeSlot (enter_kernel_space k) t
        → Each P (run_in_slot rounds ptr_elf a3 t (enter_kernel_space k)))
    → Each P (proc_run_process rounds ptr_elf a3 k)
unfolding proc_run_process
proc_run_process-Each P rounds ptr_elf a3 k full goes =
    go (proc_find_free_process_slot (enter_kernel_space k)) refl
  where
    go :
        (z : ℤ)
        → proc_find_free_process_slot (enter_kernel_space k) ≡ z
        → Each P (elim z [
          | negsuc n ↦ some (returns (negsuc n) (enter_kernel_space k))
          | pos t ↦ run_in_slot rounds ptr_elf a3 t (enter_kernel_space k)
        ])
    go (negsuc n) e = full n
    go (pos t) e = goes t (proc_find_free_process_slot-FreeSlot (enter_kernel_space k) t e)

-- proc_run_process, called while no process runs, fails and leaves the scheduler's part as it was, or
-- enters user mode with a new process that runs.
pub proc_run_process-Started :
    (rounds ptr_elf a3 : ℕ) (k : Kernel)
    → IsWaiting k
    → Each (Started k) (proc_run_process rounds ptr_elf a3 k)
proc_run_process-Started rounds ptr_elf a3 k w =
    let k₁ = enter_kernel_space k in
    proc_run_process-Each (Started k) rounds ptr_elf a3 k
      (λ n. (refl, record { statuses_same = refl; running_same = refl; total_same = refl }))
      λ t free.
        Each-map (Started k₁) (Started k) (run_in_slot rounds ptr_elf a3 t k₁)
          (run_in_slot-Started rounds ptr_elf a3 t k₁
            (record { none_runs = w.none_runs; counted = w.counted }) free)
          (Started-entered k)
