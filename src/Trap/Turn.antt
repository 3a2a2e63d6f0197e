-- ===== src/Trap/Turn.antt =====
-- The turns of processes: each trap that gives the hart away, by yield or by the timer, is a step from
-- one state of the kernel in user mode to the next. src/kernel/exception.c and process.c.
use jake.Common.{
  ℕ, zero, suc, ◌+◌, ◌≤◌, ◌<◌, ◌≡◌, ◌≢◌, sym, ap, ◌∙◌, arith, Bool, true, false, bit_and, ◌==◌,
  ==→eq, Bool-cases, inl, inr, ◌⊎◌, ℕ_discrete,
}
use mathlib.Core.Path.{subst}
use jake.Process.State.{
  is_paused, TrapFrame, Csr, Kernel, Leaves, returns, to_user, halts, stalls, several_processes,
}
use jake.Trap.Scall.{
  stip, from_supervisor, ecall_disable_tint, ecall_poweroff, scall_handler_yield, timer_handler,
}
use jake.Trap.Switch.{slot, Next, Switched, scall_handler_yield-Switched, timer_handler-Switched}

-- The user's program has run: it leaves its registers in the trap frame, and traps with the hart's
-- registers as they then are.
abbrev pub trapped : TrapFrame → Csr → Kernel → Kernel
trapped f c k = record k { tf_user = f; csr = c }

-- A turn: the running process traps, and the kernel goes back to user mode.
pub data Turn (k k' : Kernel) : Type 0 where
  yield :
      (f g : TrapFrame) (c : Csr) → scall_handler_yield (trapped f c k) ≡ to_user g k' → Turn k k'
  timer : (f g : TrapFrame) (c : Csr) → timer_handler (trapped f c k) ≡ to_user g k' → Turn k k'

pub data Turns : ℕ → Kernel → Kernel → Type 0 where
  done : {k : Kernel} → Turns zero k k
  more : {n : ℕ} {k k' k'' : Kernel} → Turn k k' → Turns n k' k'' → Turns (suc n) k k''

-- The process in slot `t` runs in a state of the sequence.
abbrev pub Visits : (t : ℕ) {n : ℕ} {k k' : Kernel} → Turns n k k' → Type 0
Visits t (done {k}) = k.proc_running ≡ t
Visits t (more {n} {k} turn rest) = (k.proc_running ≡ t) ⊎ Visits t rest

to_user_inj :
    {A : Type 0} (f g : TrapFrame) (k k' : Kernel)
    → ◌≡◌ {A = Leaves A} (to_user f k) (to_user g k')
    → k ≡ k'
to_user_inj f g k k' e = cc

-- The first paused slot up to a paused one.
pub least_paused :
    (k : Kernel) (n d : ℕ)
    → ((e : ℕ) → e < n → is_paused (k.process_list (slot k.proc_running e)).status ≡ false)
    → is_paused (k.process_list (slot k.proc_running (n + d))).status ≡ true
    → (c : ℕ) × (c ≤ n + d)
      × ((e : ℕ) → e < c → is_paused (k.process_list (slot k.proc_running e)).status ≡ false)
      × (is_paused (k.process_list (slot k.proc_running c)).status ≡ true)
least_paused k n zero before found =
    let z : n + 0 ≡ n = omega arith in
    (
      n,
      omega arith,
      before,
      ap (λ (t : ℕ). is_paused (k.process_list (slot k.proc_running t)).status) (sym z) ∙ found,
    )
least_paused k n (suc d) before found =
    elim (Bool-cases (is_paused (k.process_list (slot k.proc_running n)).status)) [
      | inl here ↦ (n, omega arith, before, here)
      | inr not_here ↦
          let z : n + suc d ≡ suc n + d = omega arith in
          let (c, l, b, f) =
            least_paused k (suc n) d
              (λ (e : ℕ) (l : e < suc n). elim (ℕ_discrete e n) [
                | yes q ↦
                    ap (λ (t : ℕ). is_paused (k.process_list (slot k.proc_running t)).status) q
                    ∙ not_here
                | no q ↦ before e (omega arith)
              ])
              (ap (λ (t : ℕ). is_paused (k.process_list (slot k.proc_running t)).status) (sym z)
                ∙ found) in
          (c, omega arith, b, f)
    ]

-- What a turn does to the list: it goes `c` slots on from the next one, and changes only the slots of
-- the process that leaves and of the one that comes.
pub record Moved (k k' : Kernel) (c : ℕ) : Type 0 where
  pub runs : k'.proc_running ≡ slot k.proc_running c
  pub others :
      (i : ℕ)
      → i ≢ slot k.proc_running c
      → i ≢ k.proc_running
      → k'.process_list i ≡ k.process_list i

-- A turn that ends in `k'`, where the handler is known to end in `k₁`.
Switched-Moved :
    (k k₁ k' : Kernel) (f saved : TrapFrame) (r : Csr) (c : ℕ)
    → k₁ ≡ k'
    → Switched (slot k.proc_running c) saved (trapped f r k) k₁
    → Moved k k' c
Switched-Moved k k₁ k' f saved r c e w =
    subst (λ (x : Kernel). Moved k x c) e (record { runs = w.runs; others = w.others })

module _ (k k' : Kernel) (f g : TrapFrame) (r : Csr) (c : ℕ) (next : Next (trapped f r k) c) where
  pub yield-Moved : scall_handler_yield (trapped f r k) ≡ to_user g k' → Moved k k' c
  unfolding scall_handler_yield
  yield-Moved e = elim (Bool-cases (several_processes k)) [
    | inl several ↦
        let (k₁, e₁, w) = scall_handler_yield-Switched (trapped f r k) c several next in
        Switched-Moved k k₁ k' f _ r c (to_user_inj _ g k₁ k' (sym e₁ ∙ e)) w
    | inr alone ↦ absurd (leaves (rw alone at e))
  ]
    where
      leaves : ◌≡◌ {A = Leaves (Unit {0})} (returns tt (trapped f r k)) (to_user g k') → ⊥
      leaves q = cc

  pub timer-Moved : timer_handler (trapped f r k) ≡ to_user g k' → Moved k k' c
  unfolding timer_handler ecall_poweroff ecall_disable_tint
  timer-Moved e = elim (Bool-cases (bit_and r.sip stip == stip)) [
    | inr idle ↦ absurd (returned (rw idle at e))
    | inl pending ↦ elim (Bool-cases (from_supervisor r.sstatus)) [
      | inl inside ↦ absurd (stalled (rw (pending, inside) at e))
      | inr user ↦ elim (Bool-cases (several_processes k)) [
        | inl several ↦
            let (k₁, e₁, w) =
              timer_handler-Switched (trapped f r k) c (==→eq _ _ pending) user several next in
            Switched-Moved k k₁ k' f _ r c (to_user_inj _ g k₁ k' (sym e₁ ∙ e)) w
        | inr alone ↦ elim (Bool-cases (k.processes_total == 0)) [
          | inl empty ↦ absurd (halted (rw (pending, user, alone, empty) at e))
          | inr some_left ↦ absurd (returned (rw (pending, user, alone, some_left) at e))
        ]
      ]
    ]
  ]
    where
      returned : {b : Bool} {k₁ : Kernel} → ◌≡◌ {A = Leaves Bool} (returns b k₁) (to_user g k') → ⊥
      returned q = cc

      stalled : {k₁ : Kernel} → ◌≡◌ {A = Leaves Bool} (stalls k₁) (to_user g k') → ⊥
      stalled q = cc

      halted : {k₁ : Kernel} → ◌≡◌ {A = Leaves Bool} (halts k₁) (to_user g k') → ⊥
      halted q = cc
