-- ===== src/Process/Scheduler.antt =====
-- src/kernel/process.c: the process list, the scheduler and the context switch.
use jake.Common.{ℕ, zero, suc, ◌+◌, ◌%◌, ◌&&◌, not, ltb, ◌==◌, if◌then◌else◌, ℤ, pos, negsuc}
use jake.Machine.{word, store}
use jake.Process.State.{
  free_slot, running, reserved, is_paused, is_free_slot, max_processes, TrapFrame, Kernel, Leaves,
  returns, to_user, current, set_process, set_status, satp_of,
}

unfoldable pub proc_init_process_list_from : ℕ → ℕ → Kernel → Kernel
proc_init_process_list_from zero t k = k
proc_init_process_list_from (suc n) t k =
    proc_init_process_list_from n (t + 1)
      (set_process t (record (k.process_list t) { pid = 0; status = free_slot }) k)

unfoldable pub proc_init_process_list : Kernel → Kernel
proc_init_process_list k =
    let k₁ = set_status 0 reserved (proc_init_process_list_from max_processes 0 k) in
    record k₁ { machine = store (satp_of k₁ 0) k₁.machine.ksatp_at k₁.machine }

-- `proc_copy_frame`: the result is `*dst`.
unfoldable pub proc_copy_frame : TrapFrame → TrapFrame → TrapFrame
proc_copy_frame dst src = record dst {
  ra = src.ra;
  sp = src.sp;
  gp = src.gp;
  tp = src.tp;
  t0 = src.t0;
  t1 = src.t1;
  t2 = src.t2;
  s0 = src.s0;
  s1 = src.s1;
  a0 = src.a0;
  a1 = src.a1;
  a2 = src.a2;
  a3 = src.a3;
  a4 = src.a4;
  a5 = src.a5;
  a6 = src.a6;
  a7 = src.a7;
  s2 = src.s2;
  s3 = src.s3;
  s4 = src.s4;
  s5 = src.s5;
  s6 = src.s6;
  s7 = src.s7;
  s8 = src.s8;
  s9 = src.s9;
  s10 = src.s10;
  s11 = src.s11;
  t3 = src.t3;
  t4 = src.t4;
  t5 = src.t5;
  t6 = src.t6;
  satp = src.satp;
  sepc = src.sepc;
}

abbrev pub set_tf : ℕ → TrapFrame → Kernel → Kernel
set_tf t f k = set_process t (record (k.process_list t) { tf = f }) k

-- `proc_copy_frame(&process_list[proc_running].tf, tf_user)`
abbrev pub save_frame : Kernel → Kernel
save_frame k = set_tf k.proc_running (proc_copy_frame (current k).tf k.tf_user) k

-- `context_switch`: loads the frame, the satp in it, and `sepc` + 4; then `sret`.
unfoldable pub context_switch : {A : Type 0} → Kernel → Leaves A
context_switch k =
    let f = (current k).tf in
    to_user f (record k { csr = record k.csr { satp = f.satp; sepc = (f.sepc + 4) % word } })

-- The do loop of `proc_scheduler` from `i` and `j` on; it ends with the `i` and `j` that it leaves.
unfoldable pub scheduler_loop : ℕ → ℕ → ℕ → Kernel → ℕ × ℕ
scheduler_loop zero i j k = (i, j)
scheduler_loop (suc rounds) i j k =
    let i' = (i + 1) % max_processes in
    let rest = scheduler_loop rounds i' (j + 1) k in
    if not (is_paused (k.process_list i').status) && ltb (j + 1) max_processes
    then rest
    else (i', j + 1)

unfoldable pub schedule_found : ℕ × ℕ → Kernel → Leaves (Unit {0})
schedule_found (i, j) k =
    if j == max_processes
    then returns tt k
    else context_switch (set_status i running (record k { proc_running = i }))

unfoldable pub proc_scheduler : Kernel → Leaves (Unit {0})
proc_scheduler k = schedule_found (scheduler_loop max_processes k.proc_running 0 k) k

-- The loop of `proc_find_free_process_slot` from `count` on.
unfoldable pub find_slot_loop : ℕ → ℕ → Kernel → ℕ
find_slot_loop zero count k = count
find_slot_loop (suc rounds) count k =
    let rest = find_slot_loop rounds (count + 1) k in
    if not (count == max_processes) && not (is_free_slot (k.process_list count).status)
    then rest
    else count

unfoldable pub proc_find_free_process_slot : Kernel → ℤ
proc_find_free_process_slot k =
    let count = find_slot_loop max_processes 1 k in
    if k.processes_total == max_processes
    then negsuc 0
    else if count == max_processes
    then negsuc 0
    else pos count
