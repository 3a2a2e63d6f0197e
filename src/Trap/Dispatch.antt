-- ===== src/Trap/Dispatch.antt =====
-- How `scall` of src/kernel/exception.c serves a trap, for statements about the process list.
use jake.Common.{
  ℕ, zero, suc, ◌-◌, ◌/◌, ◌%◌, ◌^◌, ◌≡◌, true, false, bit_and, if◌then◌else◌, ◌||◌, ◌&&◌, not, ◌==◌,
  Bool, Bool-cases, inl, inr, some, Each, if_all, Each-then, Each-bind, ℤ, pos, negsuc, is_neg,
}
use jake.Machine.{word, Machine, vma_at, store}
use jake.Process.State.{
  TrapFrame, Process, Kernel, Leaves, returns, to_user, halts, stalls, and_then, current, satp_of,
  several_processes, answer,
}
use jake.Process.Scheduler.{proc_scheduler}
use jake.Process.Run.{user_flags}
use jake.Pt.Entry.{phys2ppn}
use jake.Pt.Page.{pt_vma_map_page_at_vpn}
use jake.Pt.Vma.{vpn2vma, pt_alloc_vma, pt_vma_new}
use jake.Trap.Scall.{
  stip, from_supervisor, ecall_disable_tint, ecall_poweroff, pause_for_timer, timer_handler,
  scall_handler, scall_handler_end, scall_handler_execv, scall_handler_yield, scall_handler_mmap,
  mmap_with, dispatch, scall_handler_print, scall_handler_getpid, scall_handler_timerstatus,
  get_free_vpn,
}
use jake.Trap.Fault.{
  env_call_u, env_call_s, handle_text_demand, in_text, is_page_fault, vma_has_perm, after_map,
  fault_in, page_fault, exception, after_timer, fix_sepc, scall,
}

-- What is said of the process list, the slot that runs and the number of processes.
abbrev pub OfList : Type 1
OfList = (ℕ → Process) → ℕ → ℕ → Type 0

abbrev pub At : OfList → Kernel → Type 0
At I k = I k.process_list k.proc_running k.processes_total

-- `I` holds where a function of the kernel returns, and `J` where it goes to user mode.
abbrev pub After : {A : Type 0} → OfList → (TrapFrame → Kernel → Type 0) → Leaves A → Type 0
After I J (returns a k) = At I k
After I J (to_user f k) = J f k
After I J (halts k) = Unit
After I J (stalls k) = Unit

-- The handlers that change the process list.
pub record Handled (I : OfList) (J : TrapFrame → Kernel → Type 0) : Type 0 where
  pub ends : (rounds : ℕ) (k : Kernel) → At I k → Each (After I J) (scall_handler_end rounds k)
  pub execs : (rounds : ℕ) (k : Kernel) → At I k → Each (After I J) (scall_handler_execv rounds k)
  pub yields : (k : Kernel) → At I k → After I J (scall_handler_yield k)
  pub pauses :
      (k : Kernel)
      → At I k
      → several_processes k ≡ true
      → After I J (proc_scheduler (pause_for_timer (ecall_disable_tint k)))

module _ (I : OfList) (J : TrapFrame → Kernel → Type 0) where
  mmap_with-At :
      (rounds vpn a : ℕ) (s : Machine) (k : Kernel)
      → At I k
      → Each (At I) (mmap_with rounds vpn (a, s) k)
  unfolding mmap_with
  mmap_with-At rounds vpn a s k w =
      let ended = pt_vma_new rounds (satp_of k k.proc_running) vpn k.tf_user.a1 user_flags a s in
      if_all (Each (At I)) (a == 0) w (
        Each-then (At I) _ ended λ ((ret, s') : ℤ × Machine).
          if_all (At I) (is_neg ret) {x = answer 0 (record k { machine = s' })} w w)

  scall_handler_mmap-At :
      (rounds : ℕ) (k : Kernel) → At I k → Each (At I) (scall_handler_mmap rounds k)
  unfolding scall_handler_mmap
  scall_handler_mmap-At rounds k w =
      Each-then (At I) _ (get_free_vpn rounds k.proc_running k) λ (vpn : ℕ).
        Each-then (At I) _ (pt_alloc_vma (current k).uvmas k.machine)
          λ ((a, s) : ℕ × Machine). mmap_with-At rounds vpn a s k w

  after_map-After :
      (stval : ℕ) (ret : ℤ) (s : Machine) (k : Kernel)
      → At I k
      → After I J (after_map stval (ret, s) k)
  unfolding after_map handle_text_demand ecall_poweroff
  after_map-After stval (negsuc n) s k w = tt
  after_map-After stval (pos zero) s k w = tt
  after_map-After stval (pos (suc n)) s k w =
      let k₁ = record k { machine = s } in
      let (ret, k₂) = handle_text_demand stval k₁ in
      go (not (from_supervisor k.csr.sstatus) && in_text stval k₁) (is_neg ret) k₁ k₂ w w
    where
      go :
          (b c : Bool) (k₁ k₂ : Kernel)
          → At I k₁
          → At I k₂
          → After {A = Unit {0}} I J
              (if b then (if c then halts k₂ else returns tt k₂) else returns tt k₁)
      go true true k₁ k₂ w₁ w₂ = tt
      go true false k₁ k₂ w₁ w₂ = w₂
      go false c k₁ k₂ w₁ w₂ = w₁

  fault_in-After : (vma scause : ℕ) (k : Kernel) → At I k → After I J (fault_in vma scause k)
  unfolding fault_in ecall_poweroff
  fault_in-After vma scause k w =
      let k₁ = record k { machine = store k.local_satp_at k.csr.satp k.machine } in
      let v = vma_at k₁.machine vma in
      let (ret, s) = pt_vma_map_page_at_vpn k.local_satp_at v (phys2ppn k.csr.stval) 0 k₁.machine in
      elim (Bool-cases (vma == 0)) [
        | inl e ↦ rw e tt
        | inr n ↦ elim (Bool-cases (vma_has_perm v scause == 0)) [
          | inl e ↦ rw (n, e) tt
          | inr m ↦ rw (n, m) (after_map-After k.csr.stval ret s k₁ w)
        ]
      ]

  left_again :
      (l : Leaves (Unit {0}))
      → After I J l
      → After I J (and_then l (λ done k'. returns tt (fix_sepc k')))
  left_again (returns a k) w = w
  left_again (to_user f k) w = w
  left_again (halts k) w = tt
  left_again (stalls k) w = tt

  switched :
      (l : Leaves (Unit {0})) → After I J l → After I J (and_then l (λ done k₂. returns true k₂))
  switched (returns a k) w = w
  switched (to_user f k) w = w
  switched (halts k) w = tt
  switched (stalls k) w = tt

  module _ (h : Handled I J) where
    scall_handler-After :
        (rounds : ℕ) (k : Kernel) → At I k → Each (After I J) (scall_handler rounds k)
    unfolding scall_handler dispatch scall_handler_print scall_handler_getpid
        scall_handler_timerstatus ecall_poweroff
    scall_handler-After rounds k w =
        let k₁ = answer (word - 1) k in
        let call = k.tf_user.a0 in
        elim (Bool-cases (call == 1)) [
          | inl e ↦ rw e w
          | inr n₁ ↦ elim (Bool-cases (call == 2)) [
            | inl e ↦ rw (n₁, e) (h.ends rounds k₁ w)
            | inr n₂ ↦ elim (Bool-cases (call == 3)) [
              | inl e ↦ rw (n₁, n₂, e) (h.execs rounds k₁ w)
              | inr n₃ ↦ elim (Bool-cases (call == 4)) [
                | inl e ↦ rw (n₁, n₂, n₃, e) (h.yields k₁ w)
                | inr n₄ ↦ elim (Bool-cases (call == 5)) [
                  | inl e ↦
                      rw (n₁, n₂, n₃, n₄, e)
                        (Each-bind (At I) (After I J) (λ (k' : Kernel). some (returns tt k'))
                          (scall_handler_mmap rounds k₁) (scall_handler_mmap-At rounds k₁ w)
                          (λ k' w'. w'))
                  | inr n₅ ↦ elim (Bool-cases (call == 6)) [
                    | inl e ↦ rw (n₁, n₂, n₃, n₄, n₅, e) w
                    | inr n₆ ↦ elim (Bool-cases (call == 7)) [
                      | inl e ↦ rw (n₁, n₂, n₃, n₄, n₅, n₆, e) w
                      | inr n₇ ↦ rw (n₁, n₂, n₃, n₄, n₅, n₆, n₇) tt
                    ]
                  ]
                ]
              ]
            ]
          ]
        ]

    exception-After : (rounds : ℕ) (k : Kernel) → At I k → Each (After I J) (exception rounds k)
    unfolding exception page_fault ecall_poweroff
    exception-After rounds k w =
        let scause = k.csr.scause % 2 ^ 63 in
        elim (Bool-cases (scause / 2 ^ 63 % 2 == 1)) [
          | inl e ↦ rw e tt
          | inr n₁ ↦ elim (Bool-cases ((scause == env_call_u) || (scause == env_call_s))) [
            | inl e ↦
                rw (n₁, e)
                  (Each-bind (After I J) (After I J) _ (scall_handler rounds k)
                    (scall_handler-After rounds k w) left_again)
            | inr n₂ ↦ elim (Bool-cases (is_page_fault scause)) [
              | inl e ↦
                  rw (n₁, n₂, e)
                    (Each-then (After I J) _
                      (vpn2vma rounds
                        (if from_supervisor k.csr.sstatus
                          then k.machine.kvmas_head
                          else (current k).uvmas)
                        (phys2ppn k.csr.stval) k.machine)
                      λ (vma : ℕ). fault_in-After vma scause k w)
              | inr n₃ ↦ rw (n₁, n₂, n₃) tt
            ]
          ]
        ]

    timer_handler-After : (k : Kernel) → At I k → After I J (timer_handler k)
    unfolding timer_handler ecall_poweroff ecall_disable_tint
    timer_handler-After k w = elim (Bool-cases (bit_and k.csr.sip stip == stip)) [
      | inr idle ↦ rw idle w
      | inl pending ↦ elim (Bool-cases (from_supervisor k.csr.sstatus)) [
        | inl inside ↦ rw (pending, inside) tt
        | inr user ↦ elim (Bool-cases (several_processes k)) [
          | inl several ↦ rw (pending, user, several) (switched _ (h.pauses k w several))
          | inr alone ↦ elim (Bool-cases (k.processes_total == 0)) [
            | inl empty ↦ rw (pending, user, alone, empty) tt
            | inr some_left ↦ rw (pending, user, alone, some_left) w
          ]
        ]
      ]
    ]

    -- Whatever the trap is, a page fault, a system call or the timer's interrupt: where it ends, in
    -- supervisor or in user mode.
    pub scall-After : (rounds : ℕ) (k : Kernel) → At I k → Each (After I J) (scall rounds k)
    unfolding scall after_timer
    scall-After rounds k w = go (timer_handler k) (timer_handler-After k w)
      where
        go : (l : Leaves Bool) → After I J l → Each (After I J) (after_timer rounds l)
        go (returns true k') w' = w'
        go (returns false k') w' = exception-After rounds k' w'
        go (to_user f k') w' = w'
        go (halts k') w' = tt
        go (stalls k') w' = tt
