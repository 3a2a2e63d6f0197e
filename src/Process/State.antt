-- ===== src/Process/State.antt =====
-- The state that src/kernel/process.h, exception.h and timer.h declare: the process list, the trap frame
-- and the registers of the hart that the C code reads and writes.
use jake.Common.{
  ℕ, ◌+◌, ◌-◌, ◌*◌, ◌/◌, ◌%◌, ◌^◌, Bool, true, false, ◌&&◌, List, ltb, if◌then◌else◌, update,
}
use jake.Machine.{page_size, Machine, load}
use jake.Util.{Bytes}
use jake.Elf.{Elf}

-- enum PROCESS_STATUS
pub data Status : Type 0 where
  free_slot running paused reserved : Status

abbrev pub is_paused : Status → Bool
is_paused paused = true
is_paused free_slot = false
is_paused running = false
is_paused reserved = false

abbrev pub is_free_slot : Status → Bool
is_free_slot free_slot = true
is_free_slot running = false
is_free_slot paused = false
is_free_slot reserved = false

abbrev pub max_processes : ℕ
max_processes = 256

abbrev pub stack_pages : ℕ
stack_pages = 1

abbrev pub user_stack_base_vpn : ℕ
user_stack_base_vpn = (2 ^ 47 - 1 - stack_pages * page_size) / 2 ^ 12

abbrev pub user_heap_base_vpn : ℕ
user_heap_base_vpn = 0x8000_6000 / 2 ^ 12

-- `struct trap_frame`
pub record TrapFrame : Type 0 where
  pub sp : ℕ
  pub ra : ℕ
  pub t0 : ℕ
  pub t1 : ℕ
  pub t2 : ℕ
  pub a0 : ℕ
  pub a1 : ℕ
  pub a2 : ℕ
  pub a3 : ℕ
  pub a4 : ℕ
  pub a5 : ℕ
  pub a6 : ℕ
  pub a7 : ℕ
  pub t3 : ℕ
  pub t4 : ℕ
  pub t5 : ℕ
  pub t6 : ℕ
  pub satp : ℕ
  pub sepc : ℕ
  pub gp : ℕ
  pub tp : ℕ
  pub s0 : ℕ
  pub s1 : ℕ
  pub s2 : ℕ
  pub s3 : ℕ
  pub s4 : ℕ
  pub s5 : ℕ
  pub s6 : ℕ
  pub s7 : ℕ
  pub s8 : ℕ
  pub s9 : ℕ
  pub s10 : ℕ
  pub s11 : ℕ

-- `struct process`; its `satp` is a word of `Machine.mem`, at `satp_of`.
pub record Process : Type 0 where
  pub pid : ℕ
  pub status : Status
  pub uvmas : ℕ
  pub tf : TrapFrame
  pub elf : Elf

-- The registers of the hart that the kernel's C code reads and writes.
pub record Csr : Type 0 where
  pub satp : ℕ
  pub sepc : ℕ
  pub sip : ℕ
  pub sstatus : ℕ
  pub stval : ℕ
  pub scause : ℕ

pub record Kernel : Type 0 where
  pub machine : Machine
  pub bytes : Bytes
  pub process_list : ℕ → Process
  -- where the linker puts `process_list`
  pub process_list_at : ℕ
  pub proc_running : ℕ
  -- an `int`, as a word of 32 bits
  pub processes_total : ℕ
  pub last_pid : ℕ
  -- `*tf_user`
  pub tf_user : TrapFrame
  pub timer_check : ℕ
  pub csr : Csr
  -- what `scall_handler_print` gave to `put`, the last first
  pub output : List ℕ
  -- where app.S puts the two applications
  pub testing_at : ℕ
  pub hello_jr_at : ℕ
  -- where the local variable `satp` of `scall` lies on the kernel's stack
  pub local_satp_at : ℕ

-- How a function of the kernel ends: it returns to its caller, the hart goes to user mode with a frame,
-- the machine is off, or the code spins for ever.
pub data Leaves (A : Type 0) : Type 0 where
  returns : A → Kernel → Leaves A
  to_user : TrapFrame → Kernel → Leaves A
  halts : Kernel → Leaves A
  stalls : Kernel → Leaves A

-- What follows a call that can leave.
abbrev pub and_then : {A B : Type 0} → Leaves A → (A → Kernel → Leaves B) → Leaves B
and_then (returns a k) next = next a k
and_then (to_user f k) next = to_user f k
and_then (halts k) next = halts k
and_then (stalls k) next = stalls k

abbrev pub current : Kernel → Process
current k = k.process_list k.proc_running

abbrev pub set_process : ℕ → Process → Kernel → Kernel
set_process t p k = record k { process_list = update k.process_list t p }

abbrev pub set_status : ℕ → Status → Kernel → Kernel
set_status t st k = set_process t (record (k.process_list t) { status = st }) k

-- `&process_list[t].satp`: a process has 336 bytes, and its satp lies behind 280 of them.
abbrev pub satp_of : Kernel → ℕ → ℕ
satp_of k t = k.process_list_at + 336 * t + 280

abbrev pub write_satp : ℕ → Kernel → Kernel
write_satp v k = record k { csr = record k.csr { satp = v } }

-- `csrw(satp, ksatp)`
abbrev pub enter_kernel_space : Kernel → Kernel
enter_kernel_space k = write_satp (load k.machine k.machine.ksatp_at) k

-- `processes_total > 1`, on an `int`
abbrev pub several_processes : Kernel → Bool
several_processes k = ltb 1 k.processes_total && ltb k.processes_total (2 ^ 31)

-- A 64-bit value cut to an `int` and taken back to 64 bits.
abbrev pub sign_extend : ℕ → ℕ
sign_extend x = if ltb (x % 2 ^ 32) (2 ^ 31) then x % 2 ^ 32 else x % 2 ^ 32 + (2 ^ 64 - 2 ^ 32)

-- `tf_user->a3 = v`
abbrev pub answer : ℕ → Kernel → Kernel
answer v k = record k { tf_user = record k.tf_user { a3 = v } }
