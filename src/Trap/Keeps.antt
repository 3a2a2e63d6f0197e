-- ===== src/Trap/Keeps.antt =====
-- The end of a process in src/kernel/exception.c, for the state of the scheduler.
use jake.Common.{
  ℕ, suc, ◌+◌, ◌-◌, ◌%◌, ◌^◌, ◌≤◌, ◌<◌, ◌≡◌, ◌≢◌, refl, ap, ◌∙◌, arith, true, false, ◌==◌, ==→eq,
  Bool-cases, inl, inr, Each, Each-then, Each-bind, update,
}
use jake.Machine.{Machine, node_at}
use jake.Process.State.{
  free_slot, max_processes, Kernel, Leaves, returns, to_user, halts, stalls, current, satp_of,
  enter_kernel_space,
}
use jake.Process.Run.{proc_kill_process, killed, kill_loop}
use jake.Process.Layout.{Layout, Layout-freed, Layout-bound}
use jake.Trap.Scall.{ecall_poweroff, after_kill, scall_handler_end}
use jake.Trap.Dispatch.{After}
use jake.Trap.Scheduled.{statuses, IsScheduled, statuses_update}
use jake.Trap.Yields.{GivesWay, after_leaving}

-- The state of the scheduler is kept, wherever the hart goes on in a process.
abbrev pub Keeps : {A : Type 0} → Leaves A → Type 0
Keeps l = After (λ list r total. Layout (λ i. (list i).status) r total) (λ f k. IsScheduled k) l

pub GivesWay-Keeps : {A : Type 0} (k : Kernel) (l : Leaves A) → GivesWay k l → Keeps l
GivesWay-Keeps k l (f, k', e, w, other) = rw e w

-- How the end of a process leaves the kernel: in user mode in another process, where there were
-- several, and with the machine off, where it was the only one.
abbrev pub Succeeded : {A : Type 0} → Kernel → Leaves A → Type 0
Succeeded k (returns a k') = ⊥
Succeeded k (to_user f k') =
    (1 < k.processes_total) × IsScheduled k' × (k'.proc_running ≢ k.proc_running)
Succeeded k (halts k') = k.processes_total ≡ 1
Succeeded k (stalls k') = ⊥

GivesWay-Succeeded :
    {A : Type 0} (k : Kernel) (l : Leaves A) → 1 < k.processes_total → GivesWay k l → Succeeded k l
GivesWay-Succeeded k l several (f, k', e, w, other) = rw e (several, w, other)

one_less_total : (n : ℕ) → n ≤ suc max_processes → 0 < n → (n + 2 ^ 32 - 1) % 2 ^ 32 ≡ n - 1
one_less_total n b l = omega arith

none_left : (a n : ℕ) → a ≡ n - 1 → (n == 1) ≡ true → (a == 0) ≡ true
none_left a n e l = ground arith

still_some : (a n : ℕ) → a ≡ n - 1 → (n == 1) ≡ false → 0 < n → (a == 0) ≡ false
still_some a n e m l = ground arith

not_one : (n : ℕ) → (n == 1) ≡ false → 0 < n → 1 < n
not_one n m l = ground arith

-- What proc_kill_process does to the scheduler's part of the state.
record Freed (k k' : Kernel) : Type 0 where
  running_kept : k'.proc_running ≡ k.proc_running
  total_kept : k'.processes_total ≡ k.processes_total
  slot_free : statuses k' ≡ update (statuses k) k.proc_running free_slot

after_kill-Succeeded :
    (k k₁ : Kernel)
    → IsScheduled k
    → k₁.proc_running ≡ k.proc_running
    → k₁.processes_total ≡ k.processes_total
    → statuses k₁ ≡ update (statuses k) k.proc_running free_slot
    → Succeeded k (after_kill k₁)
unfolding after_kill ecall_poweroff
after_kill-Succeeded k k₁ w r n st =
    let some_left : 0 < k.processes_total = positive _ _ w.counted in
    let e : (k₁.processes_total + 2 ^ 32 - 1) % 2 ^ 32 ≡ k.processes_total - 1 =
      ap (λ (m : ℕ). (m + 2 ^ 32 - 1) % 2 ^ 32) n
      ∙ one_less_total k.processes_total
          (Layout-bound (statuses k) k.proc_running k.processes_total w) some_left in
    elim (Bool-cases (k.processes_total == 1)) [
      | inl last ↦
          let b : ((k₁.processes_total + 2 ^ 32 - 1) % 2 ^ 32 == 0) ≡ true = none_left _ _ e last in
          rw b (==→eq _ _ last)
      | inr more ↦
          let b : ((k₁.processes_total + 2 ^ 32 - 1) % 2 ^ 32 == 0) ≡ false =
            still_some _ _ e more some_left in
          let several : 1 < k.processes_total = not_one k.processes_total more some_left in
          rw b (
            GivesWay-Succeeded k _ several (
              after_leaving k
                (record k₁ { processes_total = (k₁.processes_total + 2 ^ 32 - 1) % 2 ^ 32 })
                free_slot (k.processes_total - 1) w several r e st
                (Layout-freed (statuses k) k.proc_running k.processes_total w)))
    ]
  where
    positive : (n m : ℕ) → n ≡ suc m → 0 < n
    positive n m e = omega arith

-- Of the system call end, with one process running, the others paused, and `processes_total` counting
-- them: wherever it comes to an end within its rounds, it goes to user mode in another process, where
-- there are several, and again one runs, the others are paused and all are counted; or it powers off,
-- where the caller is the only one. It never returns to the process that has ended.
pub scall_handler_end-Succeeded :
    (rounds : ℕ) (k : Kernel) → IsScheduled k → Each (Succeeded k) (scall_handler_end rounds k)
unfolding scall_handler_end proc_kill_process killed
scall_handler_end-Succeeded rounds k w =
    let k₁ = enter_kernel_space k in
    let head = (current k₁).uvmas in
    let satp = satp_of k₁ k₁.proc_running in
    Each-bind (Freed k) (Succeeded k) _ (proc_kill_process rounds k.proc_running k)
      (Each-then (Freed k) _ (kill_loop rounds satp head (node_at k₁.machine head).next k₁.machine)
        λ (s : Machine). record {
          running_kept = refl;
          total_kept = refl;
          slot_free = statuses_update k.process_list k.proc_running (killed (current k));
        })
      λ (k' : Kernel) g. after_kill-Succeeded k k' w g.running_kept g.total_kept g.slot_free
