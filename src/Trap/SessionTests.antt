-- ===== src/Trap/SessionTests.antt =====
-- The state of the scheduler on a concrete list, and a session of one trap.
use jake.Common.{◌⊎◌, ℕ, ◌≡◌, ◌≢◌, refl, sym, ap, ◌∙◌, arith, ℕ_discrete, none, some, Each}
use jake.Process.State.{
  free_slot, paused, reserved, Kernel, Leaves, to_user, halts, running, returns, stalls,
}
use jake.Process.Scheduler.{
  proc_scheduler, scheduler_loop, schedule_found, context_switch, save_frame,
}
use jake.Trap.Scall.{
  scall_handler, dispatch, scall_handler_yield, scall_handler_end, timer_handler,
  ecall_disable_tint,
}
use jake.Trap.Fault.{scall, exception, after_timer}
use jake.Trap.Scheduled.{IsScheduled, statuses}
use jake.Trap.Yields.{GivesWay, scall_handler_yield-GivesWay}
use jake.Trap.Keeps.{Succeeded, scall_handler_end-Succeeded}
use jake.Trap.Session.{Session, start, trap, Session-IsScheduled}
use jake.Trap.Parked.{Parked}
use jake.Trap.Resumes.{Resumed, Session-Resumed}
use jake.Trap.Tests.{some_kernel, empty_frame}

only_one_runs : (i : ℕ) → i ≢ 1 → statuses some_kernel i ≢ running
only_one_runs i n e = elim (ℕ_discrete i 0) [
  | yes a ↦ reserved_runs (sym (ap (statuses some_kernel) a) ∙ e)
  | no a ↦ elim (ℕ_discrete i 4) [
    | yes b ↦ paused_runs (sym (ap (statuses some_kernel) b) ∙ e)
    | no b ↦ free_runs (sym (is_free i a n b) ∙ e)
  ]
]
  where
    reserved_runs : reserved ≡ running → ⊥
    reserved_runs q = cc

    paused_runs : paused ≡ running → ⊥
    paused_runs q = cc

    free_runs : free_slot ≡ running → ⊥
    free_runs q = cc

    is_free : (i : ℕ) → i ≢ 0 → i ≢ 1 → i ≢ 4 → statuses some_kernel i ≡ free_slot
    is_free i a b c = ground arith

some_kernel-IsScheduled : IsScheduled some_kernel
some_kernel-IsScheduled = record {
  in_list = omega arith;
  runs = refl;
  alone = λ i l n. only_one_runs i n;
  counted = refl;
}

scall_handler_yield-GivesWay_example : GivesWay some_kernel (scall_handler_yield some_kernel)
scall_handler_yield-GivesWay_example =
    scall_handler_yield-GivesWay some_kernel some_kernel-IsScheduled refl

scall_handler_end-Succeeded_example : Each (Succeeded some_kernel) (scall_handler_end 3 some_kernel)
scall_handler_end-Succeeded_example =
    scall_handler_end-Succeeded 3 some_kernel some_kernel-IsScheduled

-- The process asks for yield.
abbrev asking : Kernel
asking = record some_kernel {
  tf_user = record empty_frame { a0 = 4 };
  csr = record some_kernel.csr { sip = 0; scause = 8 };
}

abbrev left : Leaves (Unit {0})
left = elim (scall 1 asking) [ some l ↦ l | none ↦ halts some_kernel ]

abbrev left_in : Kernel
left_in = elim left [ returns a k ↦ k | to_user f k ↦ k | halts k ↦ k | stalls k ↦ k ]

one_trap : Session some_kernel left_in
unfolding scall exception after_timer scall_handler dispatch scall_handler_yield timer_handler
    save_frame proc_scheduler scheduler_loop schedule_found context_switch ecall_disable_tint
one_trap = trap 1 asking.tf_user asking.csr some_kernel.bytes left start refl refl

Session-IsScheduled_example : IsScheduled left_in
Session-IsScheduled_example =
    Session-IsScheduled some_kernel left_in one_trap some_kernel-IsScheduled

four-Parked : Parked 4 empty_frame some_kernel
four-Parked = record { elsewhere = λ e. absurd (omega (arith, e)); is_paused = refl; frame = refl }

Session-Resumed_example : Parked 4 empty_frame left_in ⊎ Resumed 4 empty_frame one_trap
Session-Resumed_example = Session-Resumed 4 empty_frame one_trap four-Parked
