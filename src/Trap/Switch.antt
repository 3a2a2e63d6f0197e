-- ===== src/Trap/Switch.antt =====
-- Giving the hart to another process, in src/kernel/exception.c: by the system call yield, and by the
-- timer's interrupt.
use jake.Common.{
  ℕ, ◌+◌, ◌-◌, ◌%◌, ◌<◌, ◌≡◌, ◌≢◌, refl, sym, ap, ◌∙◌, arith, bit_and, true, false, ◌==◌, update,
  update_self, update_ne,
}
use jake.Machine.{word}
use jake.Process.State.{
  paused, running, is_paused, max_processes, TrapFrame, Process, Csr, Kernel, to_user, set_status,
  several_processes,
}
use jake.Process.Scheduler.{proc_copy_frame, save_frame, context_switch, proc_scheduler}
use jake.Process.Choice.{proc_scheduler-first}
use jake.Trap.Scall.{
  stip, from_supervisor, scall_handler_yield, ecall_disable_tint, pause_for_timer, timer_handler,
}

-- The slot that is `d` slots behind the one after slot `r`.
abbrev pub slot : ℕ → ℕ → ℕ
slot r d = (r + 1 + d) % max_processes

pub slot_ne : (r d : ℕ) → r < max_processes → d < max_processes - 1 → slot r d ≢ r
slot_ne r d p q = λ (e : slot r d ≡ r). omega arith

-- Slot `t` is the first paused one behind the running process, `d` slots on.
pub record Next (k : Kernel) (d : ℕ) : Type 0 where
  pub in_list : k.proc_running < max_processes
  pub near : d < max_processes - 1
  pub before : (e : ℕ) → e < d → is_paused (k.process_list (slot k.proc_running e)).status ≡ false
  pub found : is_paused (k.process_list (slot k.proc_running d)).status ≡ true

-- What holds once the hart has gone from the process of `k` to slot `t`, which runs with its own
-- frame, address space and program counter.
pub record Switched (t : ℕ) (saved : TrapFrame) (k k' : Kernel) : Type 0 where
  pub runs : k'.proc_running ≡ t
  pub running_status : (k'.process_list t).status ≡ running
  pub old_status : (k'.process_list k.proc_running).status ≡ paused
  pub old_frame : (k'.process_list k.proc_running).tf ≡ saved
  pub space : k'.csr.satp ≡ (k.process_list t).tf.satp
  pub counter : k'.csr.sepc ≡ ((k.process_list t).tf.sepc + 4) % word
  pub others : (i : ℕ) → i ≢ t → i ≢ k.proc_running → k'.process_list i ≡ k.process_list i

-- The scheduler in a state `k₁` with a list `f` that differs from that of `k` in the running process
-- only, which is paused.
module _ (k : Kernel) (d : ℕ) (f : ℕ → Process) (c : Csr) (check : ℕ) (next : Next k d)
    (old : (f k.proc_running).status ≡ paused)
    (others : (i : ℕ) → i ≢ k.proc_running → f i ≡ k.process_list i) where
  abbrev there : ℕ
  there = slot k.proc_running d

  abbrev k₁ : Kernel
  k₁ = record k { process_list = f; csr = c; timer_check = check }

  abbrev k₂ : Kernel
  k₂ = set_status there running (record k₁ { proc_running = there })

  paused_as :
      (e : ℕ)
      → e < max_processes - 1
      → is_paused (f (slot k.proc_running e)).status
        ≡ is_paused (k.process_list (slot k.proc_running e)).status
  paused_as e lt =
      ap (λ (q : Process). is_paused q.status)
        (others (slot k.proc_running e) (slot_ne k.proc_running e next.in_list lt))

  chosen : proc_scheduler k₁ ≡ context_switch k₂
  chosen =
      proc_scheduler-first k₁ d next.near
        (λ (e : ℕ) (l : e < d). paused_as e (omega (arith, next.near)) ∙ next.before e l)
        (paused_as d next.near ∙ next.found)

  there_ne : there ≢ k.proc_running
  there_ne = slot_ne k.proc_running d next.in_list next.near

  frame_there :
      (update f there (record (f there) { status = running }) there).tf ≡ (k.process_list there).tf
  frame_there =
      ap (λ (q : Process). q.tf) (update_self f there (record (f there) { status = running }))
      ∙ ap (λ (q : Process). q.tf) (others there there_ne)

  at_other : (i : ℕ) → i ≢ there → k₂.process_list i ≡ f i
  at_other i n = update_ne f there i (record (f there) { status = running }) n

  switch :
      (saved : TrapFrame)
      → (f k.proc_running).tf ≡ saved
      → (k' : Kernel) × (proc_scheduler k₁ ≡ to_user (k.process_list there).tf k')
        × Switched there saved k k'
  unfolding context_switch
  switch saved frame =
      let tf = (k₂.process_list there).tf in
      (
        record k₂ { csr = record c { satp = tf.satp; sepc = (tf.sepc + 4) % word } },
        chosen
            ∙ ap
                (λ (t : TrapFrame).
                  to_user t
                    (record k₂ { csr = record c { satp = tf.satp; sepc = (tf.sepc + 4) % word } }))
                frame_there,
        record {
          runs = refl;
          running_status =
              ap (λ (q : Process). q.status)
                (update_self f there (record (f there) { status = running }));
          old_status =
              ap (λ (q : Process). q.status) (at_other k.proc_running (λ e. there_ne (sym e)))
              ∙ old;
          old_frame =
              ap (λ (q : Process). q.tf) (at_other k.proc_running (λ e. there_ne (sym e))) ∙ frame;
          space = ap (λ (t : TrapFrame). t.satp) frame_there;
          counter = ap (λ (t : TrapFrame). (t.sepc + 4) % word) frame_there;
          others = λ i n m. at_other i n ∙ others i m;
        },
      )

-- The copy takes every register of the source.
proc_copy_frame-all : (dst src : TrapFrame) → proc_copy_frame dst src ≡ src
unfolding proc_copy_frame
proc_copy_frame-all dst src = refl

-- yield, with several processes and a paused one, goes to user mode with the frame of the first
-- paused process behind the running one, which is paused with all the registers that it trapped with;
-- no third process changes.
pub scall_handler_yield-Switched :
    (k : Kernel) (d : ℕ)
    → several_processes k ≡ true
    → Next k d
    → (k' : Kernel) × (scall_handler_yield k
        ≡ to_user (k.process_list (slot k.proc_running d)).tf k')
      × Switched (slot k.proc_running d) k.tf_user k k'
unfolding scall_handler_yield save_frame
scall_handler_yield-Switched k d several next =
    let r = k.proc_running in
    let p = record (k.process_list r) { status = paused } in
    let g = update k.process_list r p in
    let q = record (g r) { tf = proc_copy_frame (g r).tf k.tf_user } in
    let at = update_self g r q in
    let before = update_self k.process_list r p in
    let old : (update g r q r).status ≡ paused =
      ap (λ (x : Process). x.status) at ∙ ap (λ (x : Process). x.status) before in
    let frame : (update g r q r).tf ≡ k.tf_user =
      ap (λ (x : Process). x.tf) at ∙ proc_copy_frame-all (g r).tf k.tf_user in
    let others : (i : ℕ) → i ≢ r → update g r q i ≡ k.process_list i =
      λ (i : ℕ) n. update_ne g r i q n ∙ update_ne k.process_list r i p n in
    let (k', e, w) =
      switch k d (update g r q) k.csr k.timer_check next old others k.tf_user frame in
    (k', rw several e, w)

-- A pending timer interrupt that took a user's instruction, with several processes and a paused one,
-- goes to user mode with that process's frame. The process that was running is paused with all the
-- registers that it trapped with, but its program counter 4 back, which the switch to it makes up for;
-- no third process changes.
pub timer_handler-Switched :
    (k : Kernel) (d : ℕ)
    → bit_and k.csr.sip stip ≡ stip
    → from_supervisor k.csr.sstatus ≡ false
    → several_processes k ≡ true
    → Next k d
    → (k' : Kernel) × (timer_handler k ≡ to_user (k.process_list (slot k.proc_running d)).tf k')
      × Switched
          (slot k.proc_running d)
          (record k.tf_user { sepc = (k.tf_user.sepc + word - 4) % word })
          k
          k'
unfolding timer_handler pause_for_timer save_frame ecall_disable_tint
timer_handler-Switched k d pending user several next =
    let r = k.proc_running in
    let g =
      update k.process_list r
        (record (k.process_list r) { tf = proc_copy_frame (k.process_list r).tf k.tf_user }) in
    let back = record (g r).tf { sepc = ((g r).tf.sepc + word - 4) % word } in
    let q = record (g r) { tf = back; status = paused } in
    let at = update_self g r q in
    let before =
      update_self k.process_list r
        (record (k.process_list r) { tf = proc_copy_frame (k.process_list r).tf k.tf_user }) in
    let saved = proc_copy_frame (k.process_list r).tf k.tf_user in
    let frame : (update g r q r).tf
        ≡ record k.tf_user { sepc = (k.tf_user.sepc + word - 4) % word } =
      ap (λ (x : Process). x.tf) at
      ∙ ap (λ (x : Process). record (x.tf) { sepc = (x.tf.sepc + word - 4) % word }) before
      ∙ ap (λ (x : TrapFrame). record x { sepc = (x.sepc + word - 4) % word })
          (proc_copy_frame-all (k.process_list r).tf k.tf_user) in
    let others : (i : ℕ) → i ≢ r → update g r q i ≡ k.process_list i = λ (i : ℕ) n.
      update_ne g r i q n
      ∙ update_ne k.process_list r i (record (k.process_list r) { tf = saved }) n in
    let (k', e, w) =
      switch k d (update g r q) (record k.csr { sip = bit_and k.csr.sip (word - 1 - stip) }) 1 next
        (ap (λ (x : Process). x.status) at) others
        (record k.tf_user { sepc = (k.tf_user.sepc + word - 4) % word }) frame in
    let b : (bit_and k.csr.sip stip == stip) ≡ true = ground (arith, pending) in
    (k', rw (b, user, several) (rw e refl), w)
