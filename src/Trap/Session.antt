-- ===== src/Trap/Session.antt =====
-- A session of the kernel: process after process traps into `scall` of src/kernel/exception.c, and the
-- hart goes on in a process.
use jake.Common.{ℕ, ◌≡◌, sym, some, Each}
use mathlib.Core.Path.{subst}
use jake.Util.{Bytes}
use jake.Process.State.{TrapFrame, Csr, Kernel, Leaves, returns, to_user, halts, stalls}
use jake.Trap.Fault.{scall}
use jake.Trap.Scheduled.{IsScheduled}
use jake.Trap.Keeps.{Keeps}
use jake.Trap.Serves.{scall-Keeps}

-- The state in which the hart goes on after a trap, if it does.
abbrev pub Goes : {A : Type 0} → Leaves A → Kernel → Type 0
Goes (returns a k) k' = k ≡ k'
Goes (to_user f k) k' = k ≡ k'
Goes (halts k) k' = ⊥
Goes (stalls k) k' = ⊥

-- One after the other, the process that runs traps from user mode, with any registers and any memory
-- of its own, and `scall` goes on in a process.
pub data Session (k : Kernel) : Kernel → Type 0 where
  start : Session k k
  trap :
      {k₁ k₂ : Kernel} (rounds : ℕ) (f : TrapFrame) (c : Csr) (m : Bytes) (l : Leaves (Unit {0}))
      → Session k k₁
      → scall rounds (record k₁ { tf_user = f; csr = c; bytes = m }) ≡ some l
      → Goes l k₂
      → Session k k₂

Goes-IsScheduled : {A : Type 0} (l : Leaves A) (k : Kernel) → Keeps l → Goes l k → IsScheduled k
Goes-IsScheduled (returns a k₁) k w e = rw (sym e) w
Goes-IsScheduled (to_user f k₁) k w e = rw (sym e) w
Goes-IsScheduled (halts k₁) k w e = absurd e
Goes-IsScheduled (stalls k₁) k w e = absurd e

-- In every session of traps into `scall`, system calls, page faults and timer interrupts in any order,
-- that begins with one process running, the others paused, and `processes_total` counting them: this is
-- so in every state that a process goes on in.
pub Session-IsScheduled : (k k' : Kernel) → Session k k' → IsScheduled k → IsScheduled k'
Session-IsScheduled k k' start w = w
Session-IsScheduled k k' (trap {k₁} rounds f c m l before e goes) w =
    let w₁ = Session-IsScheduled k k₁ before w in
    let w₂ =
      subst (Each Keeps) e
        (scall-Keeps rounds (record k₁ { tf_user = f; csr = c; bytes = m }) w₁) in
    Goes-IsScheduled l k' w₂ goes
