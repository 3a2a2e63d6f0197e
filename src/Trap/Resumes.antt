-- ===== src/Trap/Resumes.antt =====
-- The frame of a paused process through a session of src/kernel/exception.c.
use jake.Common.{
  ℕ, ◌+◌, ◌-◌, ◌%◌, ◌^◌, ◌≡◌, refl, sym, ◌==◌, ltb, if◌then◌else◌, Bool-cases, inl, inr, ◌⊎◌, Each,
  Each-bind, Each-then, ℤ, is_neg,
}
use mathlib.Core.Path.{subst}
use jake.Machine.{Machine, node_at}
use jake.Process.State.{
  paused, running, TrapFrame, Process, Kernel, Leaves, returns, to_user, halts, stalls, and_then,
  current, set_process, set_status, several_processes, satp_of, enter_kernel_space, answer,
}
use jake.Process.Scheduler.{proc_copy_frame, save_frame, proc_scheduler}
use jake.Process.Run.{proc_run_process, kill_loop, killed, proc_kill_process}
use jake.Trap.Scall.{
  ecall_poweroff, ecall_disable_tint, pause_for_timer, after_kill, scall_handler_end, after_run,
  scall_handler_execv, scall_handler_yield,
}
use jake.Trap.Fault.{scall}
use jake.Trap.Dispatch.{Handled, scall-After}
use jake.Trap.Parked.{
  ParkedIn, Parked, GoesOn, Left, Spares, Parked-update, proc_scheduler-Spares,
  proc_run_process-Spares,
}
use jake.Trap.Session.{Session, start, trap, Goes}

module _ (i : ℕ) (f : TrapFrame) where
  -- The running process is in another slot.
  Parked-current :
      (k : Kernel) (p : Process) → Parked i f k → Parked i f (set_process k.proc_running p k)
  Parked-current k p w = Parked-update i f k k.proc_running p (λ e. w.elsewhere (sym e)) w

  save_frame-Parked : (k : Kernel) → Parked i f k → Parked i f (save_frame k)
  unfolding save_frame
  save_frame-Parked k w =
      Parked-current k (record (current k) { tf = proc_copy_frame (current k).tf k.tf_user }) w

  yields : (k : Kernel) → Parked i f k → Spares i f (scall_handler_yield k)
  unfolding scall_handler_yield
  yields k w = elim (Bool-cases (several_processes k)) [
    | inl several ↦
        let k₁ = set_status k.proc_running paused k in
        rw several (
          proc_scheduler-Spares i f (save_frame k₁)
            (save_frame-Parked k₁ (Parked-current k (record (current k) { status = paused }) w)))
    | inr alone ↦ rw alone w
  ]

  pauses :
      (k : Kernel)
      → Parked i f k
      → Spares i f (proc_scheduler (pause_for_timer (ecall_disable_tint k)))
  unfolding pause_for_timer ecall_disable_tint
  pauses k w =
      let k₁ = save_frame (record (ecall_disable_tint k) { timer_check = 1 }) in
      proc_scheduler-Spares i f (pause_for_timer (ecall_disable_tint k)) (
        Parked-current k₁ _
          (save_frame-Parked (record (ecall_disable_tint k) { timer_check = 1 }) w))

  after_kill-Spares : (k : Kernel) → Parked i f k → Spares i f (after_kill k)
  unfolding after_kill ecall_poweroff
  after_kill-Spares k w =
      let n = (k.processes_total + 2 ^ 32 - 1) % 2 ^ 32 in
      elim (Bool-cases (n == 0)) [
        | inl e ↦ rw e tt
        | inr e ↦ rw e (proc_scheduler-Spares i f (record k { processes_total = n }) w)
      ]

  ends : (rounds : ℕ) (k : Kernel) → Parked i f k → Each (Spares i f) (scall_handler_end rounds k)
  unfolding scall_handler_end proc_kill_process
  ends rounds k w =
      let k₁ = enter_kernel_space k in
      let head = (current k₁).uvmas in
      Each-bind (Parked i f) (Spares i f) _ (proc_kill_process rounds k.proc_running k)
        (Each-then (Parked i f) _
          (kill_loop rounds (satp_of k₁ k₁.proc_running) head (node_at k₁.machine head).next
            k₁.machine)
          λ (s : Machine). Parked-current k₁ (killed (current k₁)) w)
        after_kill-Spares

  after_run-Spares : (l : Leaves ℤ) → Spares i f l → Spares i f (and_then l after_run)
  unfolding after_run
  after_run-Spares (returns z k) w = elim (Bool-cases (is_neg z)) [
    | inl e ↦ rw e (Parked-current k (record (current k) { status = running }) w)
    | inr e ↦ rw e w
  ]
  after_run-Spares (to_user g k) w = w
  after_run-Spares (halts k) w = tt
  after_run-Spares (stalls k) w = tt

  execs :
      (rounds : ℕ) (k : Kernel) → Parked i f k → Each (Spares i f) (scall_handler_execv rounds k)
  unfolding scall_handler_execv ecall_poweroff
  execs rounds k w =
      let k₁ = answer 0 (set_status k.proc_running paused k) in
      let k₂ = save_frame k₁ in
      let app = if k.tf_user.a1 == 0 then k.testing_at else k.hello_jr_at in
      let w₂ = save_frame-Parked k₁ (Parked-current k (record (current k) { status = paused }) w) in
      elim (Bool-cases (ltb 1 k.tf_user.a1)) [
        | inl e ↦ rw e tt
        | inr e ↦ rw e (
            Each-bind (Spares i f) (Spares i f) _ (proc_run_process rounds app k.tf_user.a2 k₂)
              (proc_run_process-Spares i f rounds app k.tf_user.a2 k₂ w₂) after_run-Spares)
      ]

  scall-Spares : (rounds : ℕ) (k : Kernel) → Parked i f k → Each (Spares i f) (scall rounds k)
  scall-Spares rounds k w = scall-After _ (Left i f) handled rounds k w
    where
      handled : Handled (λ list r total. ParkedIn i f list r) (Left i f)
      handled = record {
        ends = ends;
        execs = execs;
        yields = yields;
        pauses = λ k w several. pauses k w;
      }

-- In the session, the hart has gone to user mode in slot `i` with the frame `f`.
abbrev pub Resumed : (i : ℕ) (f : TrapFrame) {k k' : Kernel} → Session k k' → Type 0
Resumed i f start = ⊥
Resumed i f (trap rounds g c m l before e goes) =
    Resumed i f before ⊎ ((g' : TrapFrame) × (k₂ : Kernel) × (l ≡ to_user g' k₂) × GoesOn i f g' k₂)

-- What a trap leaves, on the state that the hart goes on in.
go_on :
    (i : ℕ) (f : TrapFrame) (l : Leaves (Unit {0})) (k : Kernel)
    → Spares i f l
    → Goes l k
    → Parked i f k ⊎ ((g : TrapFrame) × (k₂ : Kernel) × (l ≡ to_user g k₂) × GoesOn i f g k₂)
go_on i f (returns a k₁) k w e = inl (subst (Parked i f) e w)
go_on i f (to_user g k₁) k (inl w) e = inl (subst (Parked i f) e w)
go_on i f (to_user g k₁) k (inr o) e = inr (g, k₁, refl, o)
go_on i f (halts k₁) k w e = absurd e
go_on i f (stalls k₁) k w e = absurd e

-- In every session of traps into `scall`, system calls, page faults and timer interrupts in any order,
-- whatever processes run, start and end in it: a process that is paused at its begin is still paused at
-- its end, with the same frame; or the hart has gone to user mode in its slot, with the registers and
-- the address space of this frame, and at the instruction behind its program counter.
pub Session-Resumed :
    (i : ℕ) (f : TrapFrame) {k k' : Kernel} (s : Session k k')
    → Parked i f k
    → Parked i f k' ⊎ Resumed i f s
Session-Resumed i f start w = inl w
Session-Resumed i f {k' = k'} (trap {k₁ = k₁} rounds g c m l before e goes) w =
    elim (Session-Resumed i f before w) [
      | inr r ↦ inr (inl r)
      | inl w₁ ↦
          elim (go_on i f l k'
            (subst (Each (Spares i f)) e
              (scall-Spares i f rounds (record k₁ { tf_user = g; csr = c; bytes = m }) w₁))
            goes) [ inl w₂ ↦ inl w₂ | inr o ↦ inr (inr o) ]
    ]
