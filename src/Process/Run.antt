-- ===== src/Process/Run.antt =====
-- src/kernel/process.c: starting and ending a process, and copying its binary.
use jake.Common.{
  ℕ, zero, suc, ◌+◌, ◌-◌, ◌*◌, ◌/◌, ◌%◌, ◌^◌, bit_or, Bool, true, false, ◌||◌, Option, none, some,
  ◌==◌, if◌then◌else◌, ◌>>=◌, ℤ, pos, negsuc, is_neg,
}
use jake.Machine.{word, page_size, Machine, node_at, vma_node_offset, load, store}
use jake.Util.{Bytes, memcpy}
use jake.Elf.{Elf, parse_elf}
use jake.Pt.Entry.{vma_read, vma_write, vma_exec, vma_user, ppn2phys}
use jake.Pt.Alloc.{pt_alloc_pt}
use jake.Pt.Vma.{pt_init_vmas_head, pt_alloc_vma, pt_vma_new, pt_vma_destroy}
use jake.Process.State.{
  free_slot, running, TrapFrame, Process, Kernel, Leaves, returns, to_user, stack_pages,
  user_stack_base_vpn, current, set_process, satp_of, write_satp, enter_kernel_space, sign_extend,
}
use jake.Process.Scheduler.{proc_find_free_process_slot}
use jake.Process.Space.{proc_setup_satp, proc_copy_kernel_pt}

abbrev pub user_flags : ℕ
user_flags = bit_or (bit_or (bit_or vma_read vma_write) vma_exec) vma_user

-- `text_pages_needed`, an `int` that `pt_vma_new` takes as 64 bits
abbrev pub text_pages : ℕ → ℕ
text_pages size_load =
    sign_extend (size_load / page_size + (if size_load % page_size == 0 then 0 else 1))

-- The two calls of `pt_vma_new`, and what follows them.
unfoldable pub new_user_vmas : ℕ → ℕ → Elf → ℕ → ℕ → Machine → Option (Bool × Machine)
new_user_vmas rounds satp elf text_vma stack_vma s = do
  (checker1, s₁) ←
      pt_vma_new rounds satp (elf.virtual_load / 2 ^ 12) (text_pages elf.size_load) user_flags
        text_vma s
  (checker2, s₂) ← pt_vma_new rounds satp user_stack_base_vpn stack_pages user_flags stack_vma s₁
  some
      (if is_neg checker1 then (false, s₁) else if is_neg checker2 then (false, s₂) else (true, s₂))

-- From `pt_init_vmas_head` on: whether the VMAs are there, the head of their list, and the machine.
unfoldable pub create_vmas : ℕ → ℕ → Elf → Machine → Option (Bool × ℕ × Machine)
create_vmas rounds satp elf s = do
  (checker1, head, s₁) ← pt_init_vmas_head s
  (text_vma, s₂) ← pt_alloc_vma head s₁
  (stack_vma, s₃) ← pt_alloc_vma head s₂
  (made, s₄) ← new_user_vmas rounds satp elf text_vma stack_vma s₃
  some (
      if is_neg checker1
      then (false, head, s₁)
      else if (text_vma == 0) || (stack_vma == 0)
      then (false, head, s₃)
      else (made, head, s₄))

unfoldable pub set_uvmas : ℕ → ℕ → Machine → Kernel → Kernel
set_uvmas t head s k = record (set_process t (record (k.process_list t) { uvmas = head }) k) {
  machine = s;
}

-- `proc_create_process_vmas`: the address of the stack, 0 for NULL.
unfoldable pub proc_create_process_vmas : ℕ → ℕ → Elf → Kernel → Option (ℕ × Kernel)
proc_create_process_vmas rounds t elf k =
    let (root_pt, s₁) = pt_alloc_pt k.machine in
    let s₂ = proc_setup_satp (satp_of k t) root_pt s₁ in
    let s₃ = proc_copy_kernel_pt (load s₂ (satp_of k t)) s₂ in
    let filled =
      (create_vmas rounds (satp_of k t) elf s₃ >>= λ ((made, head, s) : Bool × ℕ × Machine).
      let k' = set_uvmas t head s k in
      some (
        if made
        then (ppn2phys user_stack_base_vpn, write_satp (load s (satp_of k t)) k')
        else (0, k'))) in
    if root_pt == 0 then some (0, record k { machine = s₁ }) else filled

-- The registers that `proc_run_process` sets before its `sret`; satp and sepc are those of the hart.
unfoldable pub entry_frame : ℕ → ℕ → Kernel → TrapFrame
entry_frame stack arg k = record {
  sp = stack;
  ra = 0;
  t0 = 0;
  t1 = 0;
  t2 = 0;
  a0 = 0;
  a1 = 0;
  a2 = 0;
  a3 = arg;
  a4 = 0;
  a5 = 0;
  a6 = 0;
  a7 = 0;
  t3 = 0;
  t4 = 0;
  t5 = 0;
  t6 = 0;
  satp = k.csr.satp;
  sepc = k.csr.sepc;
  gp = 0;
  tp = 0;
  s0 = 0;
  s1 = 0;
  s2 = 0;
  s3 = 0;
  s4 = 0;
  s5 = 0;
  s6 = 0;
  s7 = 0;
  s8 = 0;
  s9 = 0;
  s10 = 0;
  s11 = 0;
}

-- `proc_run_process` once the VMAs are there.
unfoldable pub enter_process : ℕ → ℕ → Elf → ℕ × Kernel → Leaves ℤ
enter_process t a3 elf (virt_stack, k) =
    let k₁ = record (set_process t (record (k.process_list t) { status = running; elf = elf }) k) {
      processes_total = (k.processes_total + 1) % 2 ^ 32;
      last_pid = (k.last_pid + 1) % 2 ^ 32;
      proc_running = t;
      csr = record k.csr { sepc = elf.e_entry };
    } in
    if virt_stack == 0
    then returns (negsuc 0) k
    else to_user (entry_frame ((virt_stack + page_size * stack_pages) % word) a3 k₁) k₁

unfoldable pub run_in_slot : ℕ → ℕ → ℕ → ℕ → Kernel → Option (Leaves ℤ)
run_in_slot rounds ptr_elf a3 t k =
    let k₁ = set_process t (record (k.process_list t) { pid = k.last_pid }) k in
    let (failed, elf) = parse_elf ptr_elf k.bytes in
    let entered =
      (proc_create_process_vmas rounds t elf k₁ >>= λ (r : ℕ × Kernel).
      some (enter_process t a3 elf r)) in
    elim failed [
      | negsuc n ↦ some (returns (negsuc 0) k₁)
      | pos zero ↦ entered
      | pos (suc n) ↦ some (returns (negsuc 0) k₁)
    ]

unfoldable pub proc_run_process : ℕ → ℕ → ℕ → Kernel → Option (Leaves ℤ)
proc_run_process rounds ptr_elf a3 k =
    let k₁ = enter_kernel_space k in
    elim (proc_find_free_process_slot k₁) [
      | negsuc n ↦ some (returns (negsuc n) k₁)
      | pos t ↦ run_in_slot rounds ptr_elf a3 t k₁
    ]

-- The loop of `proc_kill_process` from `node` on; `next` is read before the VMA goes.
unfoldable pub kill_loop : ℕ → ℕ → ℕ → ℕ → Machine → Option Machine
kill_loop zero satp head node s = none
kill_loop (suc rounds) satp head node s =
    let next = (node_at s node).next in
    let rest =
      (pt_vma_destroy rounds satp (node - vma_node_offset) s >>= λ (s' : Machine).
      kill_loop rounds satp head next s') in
    if node == head then some s else rest

unfoldable pub reset_elf_struct : Elf → Elf
reset_elf_struct out = record out {
  e_entry = 0;
  offset_load = 0;
  size_load = 0;
  valid = 0;
  virtual_load = 0;
}

-- The entry of `process_list` that `proc_kill_process` leaves, but for its satp.
unfoldable pub killed : Process → Process
killed p = record p {
  pid = 0;
  status = free_slot;
  uvmas = 0;
  elf = record (reset_elf_struct p.elf) { ptr_elf = 0 };
}

-- `proc_kill_process` reads `proc_running`, not its argument.
unfoldable pub proc_kill_process : ℕ → ℕ → Kernel → Option Kernel
proc_kill_process rounds proc_index k = do
  let k₁ = enter_kernel_space k
  let head = (current k₁).uvmas
  let satp = satp_of k₁ k₁.proc_running
  s ← kill_loop rounds satp head (node_at k₁.machine head).next k₁.machine
  some (record (set_process k₁.proc_running (killed (current k₁)) k₁) { machine = store satp 0 s })

-- `proc_copy_binary`; `page_index` is an `int`, given as 64 bits.
unfoldable pub proc_copy_binary : ℕ → Elf → ℕ → Bytes → ℤ × Bytes
proc_copy_binary virt_text elf page_index m =
    let src = (elf.ptr_elf + elf.offset_load + page_size * page_index) % word in
    let n =
      (if page_index == sign_extend (elf.size_load / page_size)
        then elf.size_load % page_size
        else page_size) in
    if (virt_text == 0) || (elf.ptr_elf == 0)
    then (negsuc 0, m)
    else (pos 0, memcpy virt_text src n m)
