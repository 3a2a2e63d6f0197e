-- ===== src/Boot/First.antt =====
-- The process list and the first process, from `main` of src/kernel/main.c.
use jake.Common.{
  ℕ, zero, suc, ◌+◌, ◌≤◌, ◌<◌, ◌≡◌, refl, sym, ap, ◌∙◌, arith, inl, inr, ◌⊎◌, ℕ_discrete, update,
  update_self, update_ne, Each, Each-bind, Each-then, ℤ, pos, negsuc,
}
use jake.Buddy.{Buddy, buddy_init}
use jake.Machine.{Machine}
use jake.Pt.Vma.{buddy_layout_init, pt_destroy_low_kvmas}
use jake.Pt.Init.{pt_init}
use jake.Process.State.{
  Status, free_slot, reserved, running, is_paused, max_processes, Kernel, Leaves, returns, to_user,
  halts, stalls, and_then, set_process,
}
use jake.Process.Scheduler.{proc_init_process_list, proc_init_process_list_from}
use jake.Process.Run.{proc_run_process}
use jake.Process.Layout.{Waiting-empty}
use jake.Trap.Scheduled.{statuses, IsScheduled, IsWaiting, statuses_update}
use jake.Trap.Starts.{Started, proc_run_process-Started}
use jake.Trap.Hart.{Hart}
use jake.Boot.{main, main_with, ecall_timer_setup}

-- The loop of proc_init_process_list from slot `t` on frees `n` slots, and changes nothing else that
-- the scheduler reads.
init_below :
    (n t i : ℕ) (k : Kernel) → i < t → statuses (proc_init_process_list_from n t k) i ≡ statuses k i
unfolding proc_init_process_list_from
init_below zero t i k l = refl
init_below (suc n) t i k l =
    let p = record (k.process_list t) { pid = 0; status = free_slot } in
    init_below n (t + 1) i (set_process t p k) (omega arith)
    ∙ ap (λ q. q.status) (update_ne k.process_list t i p (λ e. absurd (omega (arith, e))))

init_frees :
    (n t i : ℕ) (k : Kernel)
    → t ≤ i
    → i < t + n
    → statuses (proc_init_process_list_from n t k) i ≡ free_slot
unfolding proc_init_process_list_from
init_frees zero t i k l m = absurd (omega arith)
init_frees (suc n) t i k l m =
    let p = record (k.process_list t) { pid = 0; status = free_slot } in
    elim (ℕ_discrete t i) [
      | yes e ↦
          init_below n (t + 1) i (set_process t p k) (omega (arith, e))
          ∙ ap (λ q. q.status)
              (ap (update k.process_list t p) (sym e) ∙ update_self k.process_list t p)
      | no e ↦ init_frees n (t + 1) i (set_process t p k) (omega (arith, e)) (omega arith)
    ]

init_total :
    (n t : ℕ) (k : Kernel) → (proc_init_process_list_from n t k).processes_total ≡ k.processes_total
unfolding proc_init_process_list_from
init_total zero t k = refl
init_total (suc n) t k =
    init_total n (t + 1)
      (set_process t (record (k.process_list t) { pid = 0; status = free_slot }) k)

pub proc_init_process_list-IsWaiting :
    (k : Kernel) → k.processes_total ≡ 0 → IsWaiting (proc_init_process_list k)
unfolding proc_init_process_list
proc_init_process_list-IsWaiting k none_yet =
    let k₁ = proc_init_process_list_from max_processes 0 k in
    let st : statuses (proc_init_process_list k) ≡ update (statuses k₁) 0 reserved =
      statuses_update k₁.process_list 0 (record (k₁.process_list 0) { status = reserved }) in
    let free : (i : ℕ) → i < max_processes → statuses k₁ i ≡ free_slot =
      λ i l. init_frees max_processes 0 i k (omega arith) (omega arith) in
    rw (st, init_total max_processes 0 k ∙ none_yet)
      (Waiting-empty (update (statuses k₁) 0 reserved)
        (λ i l e. elim (no_process (statuses k₁) free i l) [
          | inl q ↦ absurd (not_both _ (inl q) e)
          | inr q ↦ absurd (not_both _ (inr q) e)
        ])
        (λ i l. elim (no_process (statuses k₁) free i l) [
          | inl q ↦ ap is_paused q
          | inr q ↦ ap is_paused q
        ]))
  where
    no_process :
        (st : ℕ → Status)
        → ((i : ℕ) → i < max_processes → st i ≡ free_slot)
        → (i : ℕ) → i < max_processes
        → (update st 0 reserved i ≡ reserved) ⊎ (update st 0 reserved i ≡ free_slot)
    no_process st free i l = elim (ℕ_discrete i 0) [
      | yes e ↦ inl (ap (update st 0 reserved) e)
      | no e ↦ inr (update_ne st 0 i reserved e ∙ free i l)
    ]

    not_both : (s : Status) → (s ≡ reserved) ⊎ (s ≡ free_slot) → s ≡ running → ⊥
    not_both s (inl q) e = cc
    not_both s (inr q) e = cc

-- Where main of src/kernel/main.c enters user mode, one process runs.
abbrev pub Entered : Leaves Unit × Hart → Type 0
Entered (returns a k, h) = Unit
Entered (to_user f k, h) = IsScheduled k
Entered (halts k, h) = Unit
Entered (stalls k, h) = Unit

started :
    (l : Leaves ℤ) (k : Kernel) (h : Hart)
    → Started k l
    → Entered (and_then l (λ ret k'. returns tt k'), h)
started (returns z k') k h s = tt
started (to_user f k') k h s = s
started (halts k') k h s = tt
started (stalls k') k h s = tt

main_with-Entered :
    (rounds : ℕ) (r : ℤ × Machine) (k : Kernel) (h : Hart)
    → k.processes_total ≡ 0
    → Each Entered (main_with rounds r k h)
unfolding main_with
main_with-Entered rounds (negsuc n, s) k h none_yet = tt
main_with-Entered rounds (pos (suc n), s) k h none_yet = tt
main_with-Entered rounds (pos zero, s) k h none_yet =
    Each-then Entered _ (pt_destroy_low_kvmas rounds s) λ (s' : Machine).
      let k₁ = proc_init_process_list (record k { machine = s' }) in
      Each-bind (Started k₁) Entered _ (proc_run_process rounds k.testing_at 0 k₁)
        (proc_run_process-Started rounds k.testing_at 0 k₁
          (proc_init_process_list-IsWaiting (record k { machine = s' }) none_yet))
        λ (l : Leaves ℤ) w. started l k₁ (ecall_timer_setup h) w

-- With no process counted before: wherever main comes to user mode, one process runs, the others are
-- paused, and `processes_total` counts them.
pub main-Entered :
    (rounds phys_base : ℕ) (k : Kernel) (h : Hart)
    → k.processes_total ≡ 0
    → Each Entered (main rounds phys_base k h)
unfolding main
main-Entered rounds phys_base k h none_yet =
    Each-then Entered _ (buddy_init phys_base) λ (b : Buddy).
      let s = record k.machine { buddy = b } in
      Each-then Entered _ (pt_init rounds (buddy_layout_init phys_base) s)
        λ (r : ℤ × Machine). main_with-Entered rounds r k h none_yet
