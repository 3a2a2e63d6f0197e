-- ===== src/Trap/Scheduled.antt =====
-- The state of the scheduler of src/kernel/process.c: which process runs, which are paused, and what
-- `processes_total` counts.
use jake.Common.{
  ℕ, ◌+◌, ◌-◌, ◌%◌, ◌<◌, ◌≡◌, ◌≢◌, refl, sym, ap, ◌∙◌, fun_ext, arith, true, ◌==◌, ==→eq,
  Bool-cases, inl, inr, update,
}
use mathlib.Core.Path.{subst}
use jake.Machine.{word}
use jake.Process.State.{
  Status, running, is_paused, max_processes, TrapFrame, Process, Kernel, to_user, set_status,
  current,
}
use jake.Process.Scheduler.{context_switch, proc_scheduler}
use jake.Process.Choice.{proc_scheduler-first}
use jake.Process.Layout.{Waiting, Layout, Waiting-resumed}
use jake.Trap.Switch.{slot, slot_ne}
use jake.Trap.Turn.{least_paused}

abbrev pub statuses : Kernel → ℕ → Status
statuses k i = (k.process_list i).status

-- One process runs, the others are paused, and `processes_total` counts them.
abbrev pub IsScheduled : Kernel → Type 0
IsScheduled k = Layout (statuses k) k.proc_running k.processes_total

-- No process runs, and `processes_total` counts those that are paused.
abbrev pub IsWaiting : Kernel → Type 0
IsWaiting k = Waiting (statuses k) k.processes_total

pub statuses_update :
    (f : ℕ → Process) (t : ℕ) (p : Process)
    → ◌≡◌ {A = ℕ → Status} (λ i. (update f t p i).status) (update (λ i. (f i).status) t p.status)
statuses_update f t p =
    fun_ext λ i. elim (Bool-cases (i == t)) [ inl e ↦ rw e refl | inr e ↦ rw e refl ]

-- A process that keeps its status.
pub statuses_kept :
    (f : ℕ → Process) (t : ℕ) (p : Process)
    → p.status ≡ (f t).status
    → ◌≡◌ {A = ℕ → Status} (λ i. (update f t p i).status) (λ i. (f i).status)
statuses_kept f t p same = fun_ext λ i. elim (Bool-cases (i == t)) [
  | inl e ↦ rw e (same ∙ ap (λ (j : ℕ). (f j).status) (sym (==→eq i t e)))
  | inr e ↦ rw e refl
]

-- With no process that runs, and a paused one in another slot than the last one's, the scheduler goes
-- to user mode.
pub proc_scheduler-IsScheduled :
    (k : Kernel) (t : ℕ)
    → k.proc_running < max_processes
    → IsWaiting k
    → t < max_processes
    → t ≢ k.proc_running
    → is_paused (statuses k t) ≡ true
    → (f : TrapFrame) × (k' : Kernel) × (proc_scheduler k ≡ to_user f k')
      × IsScheduled k'
      × (k'.proc_running ≢ k.proc_running)
unfolding context_switch
proc_scheduler-IsScheduled k t inside w l n p =
    let d = (t + max_processes - k.proc_running - 1) % max_processes in
    let there : slot k.proc_running (0 + d) ≡ t = omega arith in
    let (c, le, before, found) =
      least_paused k 0 d (λ e q. absurd (omega arith))
        (ap (λ (i : ℕ). is_paused (statuses k i)) there ∙ p) in
    let near : c < max_processes - 1 = omega arith in
    let s = slot k.proc_running c in
    let k₂ = set_status s running (record k { proc_running = s }) in
    let g = (k.process_list s).tf in
    let tf = (current k₂).tf in
    (
      tf,
      record k₂ { csr = record k.csr { satp = tf.satp; sepc = (tf.sepc + 4) % word } },
      proc_scheduler-first k c near before found,
      subst (λ (st : ℕ → Status). Layout st s k.processes_total)
          (sym (statuses_update k.process_list s (record (k.process_list s) { status = running })))
          (Waiting-resumed (statuses k) s k.processes_total w (omega arith) found),
      slot_ne k.proc_running c inside near,
    )
