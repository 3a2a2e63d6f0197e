-- ===== src/Trap/Yields.antt =====
-- yield and the timer's interrupt of src/kernel/exception.c, for the state of the scheduler.
use jake.Common.{
  ℕ, ◌+◌, ◌-◌, ◌%◌, ◌<◌, ◌≡◌, ◌≢◌, refl, sym, ap, ◌∙◌, arith, true, update, update_ne,
}
use jake.Machine.{word}
use jake.Process.State.{
  is_paused, Status, paused, TrapFrame, Kernel, Leaves, to_user, current, set_process, set_status,
  several_processes,
}
use jake.Process.Scheduler.{proc_copy_frame, save_frame, proc_scheduler}
use jake.Process.Layout.{Waiting, Layout-paused, Layout-other}
use jake.Trap.Scall.{scall_handler_yield, ecall_disable_tint, pause_for_timer}
use jake.Trap.Scheduled.{
  statuses, IsScheduled, statuses_update, statuses_kept, proc_scheduler-IsScheduled,
}

-- The hart goes to user mode in another process, and the state of the scheduler is kept.
abbrev pub GivesWay : {A : Type 0} → Kernel → Leaves A → Type 0
GivesWay {A} k l =
    (f : TrapFrame) × (k' : Kernel) × (l ≡ to_user f k')
    × IsScheduled k'
    × (k'.proc_running ≢ k.proc_running)

-- The scheduler, called in a state whose list has the statuses of `k`, but that of the process which
-- ran; `v` is that one's new status.
pub after_leaving :
    (k k₁ : Kernel) (v : Status) (total : ℕ)
    → IsScheduled k
    → 1 < k.processes_total
    → k₁.proc_running ≡ k.proc_running
    → k₁.processes_total ≡ total
    → statuses k₁ ≡ update (statuses k) k.proc_running v
    → Waiting (update (statuses k) k.proc_running v) total
    → GivesWay k (proc_scheduler k₁)
after_leaving k k₁ v total w several r n st waits =
    let (t, l, ne, p) = Layout-other (statuses k) k.proc_running k.processes_total w several in
    let p' =
      ap (λ (s : ℕ → Status). is_paused (s t)) st
      ∙ ap is_paused (update_ne (statuses k) k.proc_running t v ne)
      ∙ p in
    let (f, k', e, w', other) =
      proc_scheduler-IsScheduled k₁ t (rw r w.in_list) (rw (st, n) waits) l (λ q. ne (q ∙ r)) p' in
    (f, k', e, w', λ q. other (q ∙ sym r))

-- With one process running, the others paused, `processes_total` counting them, and several in all:
-- yield goes to user mode in another process than the caller, and again one process runs, the others
-- are paused, and all are counted.
pub scall_handler_yield-GivesWay :
    (k : Kernel) → IsScheduled k → several_processes k ≡ true → GivesWay k (scall_handler_yield k)
unfolding scall_handler_yield save_frame
scall_handler_yield-GivesWay k w several =
    let r = k.proc_running in
    let k₁ = set_status r paused k in
    let q = record (current k₁) { tf = proc_copy_frame (current k₁).tf k.tf_user } in
    rw several (
      after_leaving k (save_frame k₁) paused k.processes_total w (ground (arith, several)) refl refl
        (statuses_kept k₁.process_list r q refl
          ∙ statuses_update k.process_list r (record (k.process_list r) { status = paused }))
        (Layout-paused (statuses k) r k.processes_total w))

pub pause_for_timer-GivesWay :
    (k : Kernel)
    → IsScheduled k
    → several_processes k ≡ true
    → GivesWay k (proc_scheduler (pause_for_timer (ecall_disable_tint k)))
unfolding pause_for_timer save_frame ecall_disable_tint
pause_for_timer-GivesWay k w several =
    let r = k.proc_running in
    let k₁ = save_frame (record (ecall_disable_tint k) { timer_check = 1 }) in
    let p = current k₁ in
    let q = record p {
      tf = record p.tf { sepc = (p.tf.sepc + word - 4) % word };
      status = paused;
    } in
    after_leaving k (set_process r q k₁) paused k.processes_total w (ground (arith, several)) refl
      refl
      (statuses_update k₁.process_list r q
        ∙ ap (λ (s : ℕ → Status). update s r paused)
            (statuses_kept k.process_list r
              (record (current k) { tf = proc_copy_frame (current k).tf k.tf_user }) refl))
      (Layout-paused (statuses k) r k.processes_total w)
