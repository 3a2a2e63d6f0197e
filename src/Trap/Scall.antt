-- ===== src/Trap/Scall.antt =====
-- src/kernel/exception.c, system calls: timer_handler to scall_handler. What printerr, printstr and
-- printdbg print is left out. `rounds` bounds the walks over lists of VMAs; `none`: they ran out.
use jake.Common.{
  ℕ, zero, suc, ◌+◌, ◌-◌, ◌%◌, ◌^◌, bit_and, Bool, true, false, ◌&&◌, not, Option, none, some, ◌∷◌,
  ltb, leb, ◌==◌, if◌then◌else◌, ◌>>=◌, ℤ, is_neg,
}
use jake.Machine.{word, Machine, vma_at, node_at, vma_node_offset, load}
use jake.Pt.Entry.{ppn2phys}
use jake.Pt.Vma.{pt_alloc_vma, pt_vma_new}
use jake.Process.State.{
  paused, running, Kernel, Leaves, returns, halts, stalls, and_then, user_stack_base_vpn,
  user_heap_base_vpn, current, set_process, set_status, satp_of, write_satp, several_processes,
  sign_extend, answer,
}
use jake.Process.Scheduler.{save_frame, proc_scheduler}
use jake.Process.Run.{user_flags, proc_run_process, proc_kill_process}

-- The pending bit of the supervisor's timer interrupt.
abbrev pub stip : ℕ
stip = 0x20

-- `(sstatus & (1 << 8)) >> 8`: the trap came from supervisor mode.
abbrev pub from_supervisor : ℕ → Bool
from_supervisor sstatus = not (bit_and sstatus (2 ^ 8) == 0)

-- `ecall_poweroff`
unfoldable pub ecall_poweroff : {A : Type 0} → Kernel → Leaves A
ecall_poweroff k = halts k

-- `ecall_disable_tint`: the machine mode clears the pending bit.
unfoldable pub ecall_disable_tint : Kernel → Kernel
ecall_disable_tint k = record k { csr = record k.csr { sip = bit_and k.csr.sip (word - 1 - stip) } }

-- The running process is paused, at the instruction that the interrupt took.
unfoldable pub pause_for_timer : Kernel → Kernel
pause_for_timer k =
    let k₁ = save_frame (record k { timer_check = 1 }) in
    let p = current k₁ in
    let tf = record p.tf { sepc = (p.tf.sepc + word - 4) % word } in
    set_process k₁.proc_running (record p { tf = tf; status = paused }) k₁

-- The result says whether a timer interrupt was pending.
unfoldable pub timer_handler : Kernel → Leaves Bool
timer_handler k =
    let k₁ = ecall_disable_tint k in
    if not (bit_and k.csr.sip stip == stip)
    then returns false k
    else if from_supervisor k.csr.sstatus
    then stalls k
    else if several_processes k₁
    then and_then (proc_scheduler (pause_for_timer k₁)) (λ done k₂. returns true k₂)
    else if k₁.processes_total == 0
    then ecall_poweroff k₁
    else returns true k₁

unfoldable pub scall_handler_print : Kernel → Kernel
scall_handler_print k = record k { output = k.tf_user.a1 % 256 ∷ k.output }

-- `processes_total--`, and what follows it.
unfoldable pub after_kill : Kernel → Leaves (Unit {0})
after_kill k =
    let k₁ = record k { processes_total = (k.processes_total + 2 ^ 32 - 1) % 2 ^ 32 } in
    if k₁.processes_total == 0 then ecall_poweroff k₁ else proc_scheduler k₁

unfoldable pub scall_handler_end : ℕ → Kernel → Option (Leaves (Unit {0}))
scall_handler_end rounds k = do k₁ ← proc_kill_process rounds k.proc_running k; some (after_kill k₁)

-- What `scall_handler_execv` does with the result of `proc_run_process`.
unfoldable pub after_run : ℤ → Kernel → Leaves (Unit {0})
after_run result k =
    let k₁ = write_satp (load k.machine (satp_of k k.proc_running)) (answer (word - 1) k) in
    if is_neg result then returns tt (set_status k.proc_running running k₁) else returns tt k

unfoldable pub scall_handler_execv : ℕ → Kernel → Option (Leaves (Unit {0}))
scall_handler_execv rounds k =
    let k₁ = save_frame (answer 0 (set_status k.proc_running paused k)) in
    let app = (if k.tf_user.a1 == 0 then k.testing_at else k.hello_jr_at) in
    let run =
      (proc_run_process rounds app k.tf_user.a2 k₁ >>= λ (r : Leaves ℤ).
      some (and_then r after_run)) in
    if ltb 1 k.tf_user.a1 then some (ecall_poweroff k₁) else run

unfoldable pub scall_handler_yield : Kernel → Leaves (Unit {0})
scall_handler_yield k =
    if not (several_processes k)
    then returns tt k
    else proc_scheduler (save_frame (set_status k.proc_running paused k))

unfoldable pub scall_handler_getpid : Kernel → Kernel
scall_handler_getpid k = answer (current k).pid k

-- The loop of `get_free_vpn` from `node` on; it ends with `max_vpn` and `vpn_max_pagen`, an `int`
-- taken to 64 bits.
unfoldable pub free_vpn_loop : ℕ → ℕ → ℕ → ℕ → ℕ → Machine → Option (ℕ × ℕ)
free_vpn_loop zero head node max_vpn pagen s = none
free_vpn_loop (suc rounds) head node max_vpn pagen s =
    let uvma = vma_at s (node - vma_node_offset) in
    let next = (node_at s node).next in
    let larger = free_vpn_loop rounds head next uvma.vpn (sign_extend uvma.pagen) s in
    let same = free_vpn_loop rounds head next max_vpn pagen s in
    if node == head
    then some (max_vpn, pagen)
    else if not (uvma.vpn == user_stack_base_vpn)
        && leb user_heap_base_vpn uvma.vpn
        && ltb max_vpn uvma.vpn
    then larger
    else same

-- `get_free_vpn` walks the list of process `t` up to the head of the running process's list.
unfoldable pub get_free_vpn : ℕ → ℕ → Kernel → Option ℕ
get_free_vpn rounds t k = do
  (max_vpn, pagen) ←
      free_vpn_loop rounds (current k).uvmas (node_at k.machine (k.process_list t).uvmas).next 0 0
        k.machine
  some (if max_vpn == 0 then user_heap_base_vpn else (max_vpn + pagen) % word)

-- `scall_handler_mmap` once it has the VMA.
unfoldable pub mmap_with : ℕ → ℕ → ℕ × Machine → Kernel → Option Kernel
mmap_with rounds vpn (new_vma, s) k =
    let k₁ = record k { machine = s } in
    let made =
      (pt_vma_new rounds (satp_of k k.proc_running) vpn k.tf_user.a1 user_flags new_vma s
        >>= λ ((ret, s') : ℤ × Machine).
            let k₂ = record k { machine = s' } in
            some (if is_neg ret then answer 0 k₂ else answer (ppn2phys vpn) k₂)) in
    if new_vma == 0 then some (answer 0 k₁) else made

unfoldable pub scall_handler_mmap : ℕ → Kernel → Option Kernel
scall_handler_mmap rounds k = do
  vpn ← get_free_vpn rounds k.proc_running k
  allocated ← pt_alloc_vma (current k).uvmas k.machine
  mmap_with rounds vpn allocated k

unfoldable pub scall_handler_timerstatus : Kernel → Kernel
scall_handler_timerstatus k = answer k.timer_check k

-- The cases of `scall_handler`: SCALL_PRINT is 1, SCALL_TIMERSTATUS is 7.
unfoldable pub dispatch : ℕ → ℕ → Kernel → Option (Leaves (Unit {0}))
dispatch rounds call k =
    let mapped = (scall_handler_mmap rounds k >>= λ (k' : Kernel). some (returns tt k')) in
    if call == 1
    then some (returns tt (scall_handler_print k))
    else if call == 2
    then scall_handler_end rounds k
    else if call == 3
    then scall_handler_execv rounds k
    else if call == 4
    then some (scall_handler_yield k)
    else if call == 5
    then mapped
    else if call == 6
    then some (returns tt (scall_handler_getpid k))
    else if call == 7
    then some (returns tt (scall_handler_timerstatus k))
    else some (ecall_poweroff k)

unfoldable pub scall_handler : ℕ → Kernel → Option (Leaves (Unit {0}))
scall_handler rounds k = dispatch rounds k.tf_user.a0 (answer (word - 1) k)
