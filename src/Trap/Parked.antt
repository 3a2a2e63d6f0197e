-- ===== src/Trap/Parked.antt =====
-- The frame of a paused process of src/kernel/process.c, while other processes run, start and end.
use jake.Common.{
  ℕ, ◌+◌, ◌%◌, ◌≡◌, ◌≢◌, sym, ap, ◌∙◌, Bool, true, false, ◌==◌, Bool-cases, inl, inr, ◌⊎◌,
  ℕ_discrete, Each, Each-bind, Each-then, update, update_self, update_ne,
}
use jake.Machine.{word, Machine, load}
use jake.Elf.{Elf, parse_elf}
use jake.Pt.Alloc.{pt_alloc_pt}
use jake.Process.State.{
  paused, running, is_free_slot, max_processes, TrapFrame, Process, Kernel, Leaves, satp_of,
  enter_kernel_space, set_process,
}
use jake.Process.Scheduler.{context_switch, scheduler_loop, schedule_found, proc_scheduler}
use jake.Process.Space.{proc_setup_satp, proc_copy_kernel_pt}
use jake.Process.Run.{
  create_vmas, proc_create_process_vmas, set_uvmas, enter_process, run_in_slot, proc_run_process,
}
use jake.Trap.FreeSlot.{FreeSlot}
use jake.Trap.Starts.{Each-parsed, proc_run_process-Each}
use jake.Trap.Dispatch.{After}

-- The process in slot `i` is paused, with the frame `f`.
pub record ParkedIn (i : ℕ) (f : TrapFrame) (list : ℕ → Process) (r : ℕ) : Type 0 where
  pub elsewhere : r ≢ i
  pub is_paused : (list i).status ≡ paused
  pub frame : (list i).tf ≡ f

abbrev pub Parked : ℕ → TrapFrame → Kernel → Type 0
Parked i f k = ParkedIn i f k.process_list k.proc_running

-- The hart goes on in the process, with its registers, its address space and its program counter.
pub record GoesOn (i : ℕ) (f : TrapFrame) (g : TrapFrame) (k : Kernel) : Type 0 where
  pub runs : k.proc_running ≡ i
  pub registers : g ≡ f
  pub space : k.csr.satp ≡ f.satp
  pub counter : k.csr.sepc ≡ (f.sepc + 4) % word

-- How a handler leaves the process in slot `i`: paused with its frame, or going on with it.
abbrev pub Left : ℕ → TrapFrame → TrapFrame → Kernel → Type 0
Left i f g k = Parked i f k ⊎ GoesOn i f g k

abbrev pub Spares : {A : Type 0} → ℕ → TrapFrame → Leaves A → Type 0
Spares i f l = After (λ list r total. ParkedIn i f list r) (Left i f) l

module _ (i : ℕ) (f : TrapFrame) where
  -- Another slot is written.
  pub Parked-update :
      (k : Kernel) (t : ℕ) (p : Process) → i ≢ t → Parked i f k → Parked i f (set_process t p k)
  Parked-update k t p n w =
      let e = update_ne k.process_list t i p n in
      record {
        elsewhere = w.elsewhere;
        is_paused = ap (λ (q : Process). q.status) e ∙ w.is_paused;
        frame = ap (λ (q : Process). q.tf) e ∙ w.frame;
      }

  schedule_found-Spares :
      (s j : ℕ) (k : Kernel) → Parked i f k → Spares i f (schedule_found (s, j) k)
  unfolding schedule_found context_switch
  schedule_found-Spares s j k w = elim (Bool-cases (j == max_processes)) [
    | inl e ↦ rw e w
    | inr e ↦ elim (ℕ_discrete s i) [
      | yes q ↦
          let p = record (k.process_list s) { status = running } in
          let h : (update k.process_list s p s).tf ≡ f =
            ap (λ (x : Process). x.tf) (update_self k.process_list s p)
            ∙ ap (λ (t : ℕ). (k.process_list t).tf) q
            ∙ w.frame in
          rw e (
            inr (record {
              runs = q;
              registers = h;
              space = ap (λ (t : TrapFrame). t.satp) h;
              counter = ap (λ (t : TrapFrame). (t.sepc + 4) % word) h;
            }))
      | no n ↦
          let k₁ = record k { proc_running = s } in
          let w₁ : Parked i f k₁ = record {
            elsewhere = n;
            is_paused = w.is_paused;
            frame = w.frame;
          } in
          rw e (
            inl (
              Parked-update k₁ s (record (k.process_list s) { status = running }) (λ e. n (sym e))
                w₁))
    ]
  ]

  pub proc_scheduler-Spares : (k : Kernel) → Parked i f k → Spares i f (proc_scheduler k)
  unfolding proc_scheduler
  proc_scheduler-Spares k w =
      let (s, j) = scheduler_loop max_processes k.proc_running 0 k in schedule_found-Spares s j k w

  set_uvmas-Parked :
      (t head : ℕ) (s : Machine) (k : Kernel)
      → i ≢ t
      → Parked i f k
      → Parked i f (set_uvmas t head s k)
  unfolding set_uvmas
  set_uvmas-Parked t head s k n w =
      Parked-update k t (record (k.process_list t) { uvmas = head }) n w

  proc_create_process_vmas-Parked :
      (rounds t : ℕ) (elf : Elf) (k : Kernel)
      → i ≢ t
      → Parked i f k
      → Each (λ (r : ℕ × Kernel). Parked i f r.1) (proc_create_process_vmas rounds t elf k)
  unfolding proc_create_process_vmas
  proc_create_process_vmas-Parked rounds t elf k n w =
      let (root_pt, s₁) = pt_alloc_pt k.machine in
      let s₂ = proc_setup_satp (satp_of k t) root_pt s₁ in
      let s₃ = proc_copy_kernel_pt (load s₂ (satp_of k t)) s₂ in
      elim (Bool-cases (root_pt == 0)) [
        | inl e ↦ rw e w
        | inr e ↦ rw e (
            Each-then (λ (r : ℕ × Kernel). Parked i f r.1) _
              (create_vmas rounds (satp_of k t) elf s₃)
              λ ((made, head, s) : Bool × ℕ × Machine). elim (Bool-cases made) [
                | inl m ↦ rw m (set_uvmas-Parked t head s k n w)
                | inr m ↦ rw m (set_uvmas-Parked t head s k n w)
              ])
      ]

  enter_process-Spares :
      (t a3 : ℕ) (elf : Elf) (v : ℕ) (k : Kernel)
      → i ≢ t
      → Parked i f k
      → Spares i f (enter_process t a3 elf (v, k))
  unfolding enter_process
  enter_process-Spares t a3 elf v k n w =
      let p = record (k.process_list t) { status = running; elf = elf } in
      let w₁ = Parked-update k t p n w in
      elim (Bool-cases (v == 0)) [
        | inl e ↦ rw e w
        | inr e ↦ rw e (
            inl (record { elsewhere = λ q. n (sym q); is_paused = w₁.is_paused; frame = w₁.frame }))
      ]

  -- The slot of a new process is another one.
  other_slot : (k : Kernel) (t : ℕ) → Parked i f k → FreeSlot k t → i ≢ t
  other_slot k t w free e =
      free_is_paused
        (sym (ap (λ (j : ℕ). is_free_slot (k.process_list j).status) e)
          ∙ ap is_free_slot w.is_paused)
        free.is_free
    where
      free_is_paused : {b : Bool} → b ≡ false → b ≡ true → ⊥
      free_is_paused p q = cc

  run_in_slot-Spares :
      (rounds ptr_elf a3 t : ℕ) (k : Kernel)
      → i ≢ t
      → Parked i f k
      → Each (Spares i f) (run_in_slot rounds ptr_elf a3 t k)
  unfolding run_in_slot
  run_in_slot-Spares rounds ptr_elf a3 t k n w =
      let p = record (k.process_list t) { pid = k.last_pid } in
      let k₁ = set_process t p k in
      let w₁ = Parked-update k t p n w in
      let elf = (parse_elf ptr_elf k.bytes).1 in
      Each-parsed (Spares i f) (parse_elf ptr_elf k.bytes).0 _ _ w₁ (
        Each-bind (λ (r : ℕ × Kernel). Parked i f r.1) (Spares i f) _
          (proc_create_process_vmas rounds t elf k₁)
          (proc_create_process_vmas-Parked rounds t elf k₁ n w₁)
          λ ((v, k') : ℕ × Kernel) w'. enter_process-Spares t a3 elf v k' n w')

  pub proc_run_process-Spares :
      (rounds ptr_elf a3 : ℕ) (k : Kernel)
      → Parked i f k
      → Each (Spares i f) (proc_run_process rounds ptr_elf a3 k)
  proc_run_process-Spares rounds ptr_elf a3 k w =
      proc_run_process-Each (Spares i f) rounds ptr_elf a3 k (λ n. w)
        λ t free.
          run_in_slot-Spares rounds ptr_elf a3 t (enter_kernel_space k)
            (other_slot (enter_kernel_space k) t w free) w
