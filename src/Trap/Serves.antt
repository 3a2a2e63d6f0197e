-- ===== src/Trap/Serves.antt =====
-- execv, yield and every trap of src/kernel/exception.c, for the state of the scheduler.
use jake.Common.{
  ℕ, ◌<◌, ◌≡◌, refl, ap, ◌∙◌, true, if◌then◌else◌, ◌==◌, ltb, Bool-cases, inl, inr, Each, Each-bind,
  Each-map, update, update_self, ℤ,
}
use jake.Process.State.{
  Status, paused, running, is_paused, max_processes, Kernel, Leaves, returns, to_user, halts,
  stalls, and_then, current, set_status, several_processes, answer,
}
use jake.Process.Scheduler.{proc_copy_frame, save_frame}
use jake.Process.Run.{proc_run_process}
use jake.Process.Layout.{Layout-paused, Waiting-resumed}
use jake.Trap.Scall.{
  scall_handler_yield, ecall_poweroff, scall_handler_end, after_run, scall_handler_execv,
}
use jake.Trap.Scheduled.{statuses, IsScheduled, IsWaiting, statuses_update, statuses_kept}
use jake.Trap.Starts.{Same-IsWaiting, Started, proc_run_process-Started}
use jake.Trap.Yields.{scall_handler_yield-GivesWay}
use jake.Trap.Dispatch.{Handled, scall-After}
use jake.Trap.Fault.{scall}
use jake.Process.Layout.{Layout}
use jake.Trap.Yields.{pause_for_timer-GivesWay}
use jake.Trap.Keeps.{Keeps, GivesWay-Keeps, Succeeded, scall_handler_end-Succeeded}

Succeeded-Keeps : {A : Type 0} (k : Kernel) (l : Leaves A) → Succeeded k l → Keeps l
Succeeded-Keeps k (returns a k') s = absurd s
Succeeded-Keeps k (to_user f k') (m, w, n) = w
Succeeded-Keeps k (halts k') s = tt
Succeeded-Keeps k (stalls k') s = tt

-- A new process failed to start: the caller, which was paused, runs on.
runs_on :
    (k : Kernel)
    → IsWaiting k
    → k.proc_running < max_processes
    → is_paused (statuses k k.proc_running) ≡ true
    → IsScheduled (set_status k.proc_running running k)
runs_on k w l p =
    rw (statuses_update k.process_list k.proc_running (record (current k) { status = running }))
      (Waiting-resumed (statuses k) k.proc_running k.processes_total w l p)

after_run-Keeps :
    (k : Kernel) (l : Leaves ℤ)
    → IsWaiting k
    → k.proc_running < max_processes
    → is_paused (statuses k k.proc_running) ≡ true
    → Started k l
    → Keeps (and_then l after_run)
unfolding after_run
after_run-Keeps k (returns z k') w l p (n, s) =
    let p' =
      ap (λ (i : ℕ). is_paused (statuses k' i)) s.running_same
      ∙ ap (λ (st : ℕ → Status). is_paused (st k.proc_running)) s.statuses_same
      ∙ p in
    let w' = runs_on k' (Same-IsWaiting k k' s w) (rw s.running_same l) p' in
    rw n (record { in_list = w'.in_list; runs = w'.runs; alone = w'.alone; counted = w'.counted })
after_run-Keeps k (to_user f k') w l p s = s
after_run-Keeps k (halts k') w l p s = tt
after_run-Keeps k (stalls k') w l p s = tt

scall_handler_execv-Keeps :
    (rounds : ℕ) (k : Kernel) → IsScheduled k → Each Keeps (scall_handler_execv rounds k)
unfolding scall_handler_execv save_frame ecall_poweroff
scall_handler_execv-Keeps rounds k w =
    let r = k.proc_running in
    let k₁ = answer 0 (set_status r paused k) in
    let q = record (current k₁) { tf = proc_copy_frame (current k₁).tf k₁.tf_user } in
    let k₂ = save_frame k₁ in
    let st : statuses k₂ ≡ update (statuses k) r paused =
      statuses_kept k₁.process_list r q refl
      ∙ statuses_update k.process_list r (record (current k) { status = paused }) in
    let w₂ : IsWaiting k₂ = rw st (Layout-paused (statuses k) r k.processes_total w) in
    let p : is_paused (statuses k₂ r) ≡ true =
      ap (λ (s : ℕ → Status). is_paused (s r)) st
      ∙ ap is_paused (update_self (statuses k) r paused) in
    elim (Bool-cases (ltb 1 k.tf_user.a1)) [
      | inl e ↦ rw e tt
      | inr e ↦ rw e (
          Each-bind (Started k₂) Keeps _
            (proc_run_process rounds (if k.tf_user.a1 == 0 then k.testing_at else k.hello_jr_at)
              k.tf_user.a2 k₂)
            (proc_run_process-Started rounds _ k.tf_user.a2 k₂ w₂)
            λ (l : Leaves ℤ) s. after_run-Keeps k₂ l w₂ w.in_list p s)
    ]

scall_handler_yield-Keeps : (k : Kernel) → IsScheduled k → Keeps (scall_handler_yield k)
unfolding scall_handler_yield
scall_handler_yield-Keeps k w = elim (Bool-cases (several_processes k)) [
  | inl several ↦ GivesWay-Keeps k _ (scall_handler_yield-GivesWay k w several)
  | inr alone ↦ rw alone w
]

-- Whatever the trap is, a page fault, a system call or the timer's interrupt.
pub scall-Keeps : (rounds : ℕ) (k : Kernel) → IsScheduled k → Each Keeps (scall rounds k)
scall-Keeps rounds k w = scall-After _ (λ f k'. IsScheduled k') handled rounds k w
  where
    handled :
        Handled (λ list r total. Layout (λ i. (list i).status) r total) (λ f k'. IsScheduled k')
    handled = record {
      ends = λ n k' w'.
          Each-map (Succeeded k') Keeps (scall_handler_end n k')
            (scall_handler_end-Succeeded n k' w') (Succeeded-Keeps k');
      execs = scall_handler_execv-Keeps;
      yields = scall_handler_yield-Keeps;
      pauses = λ k' w' several. GivesWay-Keeps k' _ (pause_for_timer-GivesWay k' w' several);
    }
