-- ===== src/Boot.antt =====
-- `main` of src/kernel/main.c: how the parts are started. Prints and the tests are left out, and so are
-- pt_jump_to_high and set_sscratch, which set registers that the model has no counterpart of.
pub mod First
mod Tests
use jake.Common.{ℕ, zero, suc, Option, some, ◌>>=◌, ℤ, pos, negsuc}
use jake.Buddy.{buddy_init}
use jake.Machine.{Machine}
use jake.Pt.Vma.{buddy_layout_init, pt_destroy_low_kvmas}
use jake.Pt.Init.{pt_init}
use jake.Process.State.{Kernel, Leaves, returns, halts, and_then}
use jake.Process.Scheduler.{proc_init_process_list}
use jake.Process.Run.{proc_run_process}
use jake.Trap.Hart.{Hart, mcall, turn_off}

-- The call of the machine mode with this number, from supervisor mode.
unfoldable pub ecall : ℕ → Hart → Hart
ecall id h = mcall (record h { a0 = id; mcause = 9 })

abbrev pub ecall_timer_setup : Hart → Hart
ecall_timer_setup h = ecall 5 h

-- `main` behind the call of `pt_init`.
unfoldable pub main_with : ℕ → ℤ × Machine → Kernel → Hart → Option (Leaves Unit × Hart)
main_with rounds (negsuc n, s) k h = some (halts (record k { machine = s }), turn_off h)
main_with rounds (pos (suc n), s) k h = some (halts (record k { machine = s }), turn_off h)
main_with rounds (pos zero, s) k h = do
  s' ← pt_destroy_low_kvmas rounds s
  left ← proc_run_process rounds k.testing_at 0 (proc_init_process_list (record k { machine = s' }))
  some (and_then left (λ ret k'. returns tt k'), ecall_timer_setup h)

unfoldable pub main : ℕ → ℕ → Kernel → Hart → Option (Leaves Unit × Hart)
main rounds phys_base k h = do
  b ← buddy_init phys_base
  started ← pt_init rounds (buddy_layout_init phys_base) (record k.machine { buddy = b })
  main_with rounds started k h
