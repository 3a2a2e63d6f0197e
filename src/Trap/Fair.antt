-- ===== src/Trap/Fair.antt =====
-- The scheduler of src/kernel/process.c starves no process: a paused process gets its turn.
use jake.Common.{ℕ, ◌-◌, ◌<◌, ◌≡◌, ◌≢◌, ap, ◌∙◌, arith, true, inl, inr, ℕ_discrete}
use mathlib.Core.Path.{subst}
use jake.Process.State.{is_paused, max_processes, TrapFrame, Process, Csr, Kernel}
use jake.Trap.Switch.{slot, Next}
use jake.Trap.Turn.{
  trapped, Turn, yield, timer, Turns, done, more, Visits, least_paused, Moved, yield-Moved,
  timer-Moved,
}

Turn-Moved :
    (k k' : Kernel) (c : ℕ)
    → Turn k k'
    → ((f : TrapFrame) (r : Csr) → Next (trapped f r k) c)
    → Moved k k' c
Turn-Moved k k' c (yield f g r e) next = yield-Moved k k' f g r c (next f r) e
Turn-Moved k k' c (timer f g r e) next = timer-Moved k k' f g r c (next f r) e

Visits-start : (t : ℕ) {n : ℕ} {k k' : Kernel} (w : Turns n k k') → k.proc_running ≡ t → Visits t w
Visits-start t done e = e
Visits-start t (more turn rest) e = inl e

-- The turn goes to the slot itself, or to one before it; then the slot is nearer, and paused.
nearer :
    (k k' : Kernel) (c d : ℕ)
    → Moved k k' c
    → c < d
    → d < max_processes - 1
    → k.proc_running < max_processes
    → is_paused (k.process_list (slot k.proc_running d)).status ≡ true
    → (slot k'.proc_running (d - c - 1) ≡ slot k.proc_running d)
      × (is_paused (k'.process_list (slot k'.proc_running (d - c - 1))).status ≡ true)
nearer k k' c d m l near inside found =
    let e : slot k'.proc_running (d - c - 1) ≡ slot k.proc_running d =
      ap (λ (t : ℕ). slot t (d - c - 1)) m.runs ∙ omega arith in
    let far : slot k.proc_running d ≢ slot k.proc_running c = λ q. absurd (omega arith) in
    let other : slot k.proc_running d ≢ k.proc_running = λ q. absurd (omega arith) in
    (
      e,
      ap (λ (t : ℕ). is_paused (k'.process_list t).status) e
          ∙ ap (λ (p : Process). is_paused p.status) (m.others (slot k.proc_running d) far other)
          ∙ found,
    )

-- In every sequence of turns by yield or by the timer, a process that is paused at the start, `d` slots
-- behind the next one in the ring, runs in a state of the sequence once it has more than `d` turns.
pub Turns-Visits :
    {n : ℕ} {k k' : Kernel} (w : Turns n k k') (d : ℕ)
    → d < n
    → d < max_processes - 1
    → k.proc_running < max_processes
    → is_paused (k.process_list (slot k.proc_running d)).status ≡ true
    → Visits (slot k.proc_running d) w
Turns-Visits done d l near inside found = absurd (omega arith)
Turns-Visits {k = k} (more {k' = k'} turn rest) d l near inside found =
    let (c, le, before, here) =
      least_paused k 0 d (λ (e : ℕ) q. absurd (omega arith))
        (ap (λ (t : ℕ). is_paused (k.process_list (slot k.proc_running t)).status) (omega arith)
          ∙ found) in
    let m =
      Turn-Moved k k' c turn
        λ f r. record { in_list = inside; near = omega arith; before = before; found = here } in
    elim (ℕ_discrete c d) [
      | yes q ↦ inr (
          Visits-start (slot k.proc_running d) rest
            (m.runs ∙ ap (λ (t : ℕ). slot k.proc_running t) q))
      | no q ↦
          let (e, still) = nearer k k' c d m (omega arith) near inside found in
          inr (
            subst (λ (t : ℕ). Visits t rest) e
              (Turns-Visits rest (d - c - 1) (omega arith) (omega arith) (omega (arith, m.runs))
                still))
    ]
