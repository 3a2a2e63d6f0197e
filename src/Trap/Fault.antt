-- ===== src/Trap/Fault.antt =====
-- src/kernel/exception.c, the trap handler of supervisor mode: page faults and `scall`.
use jake.Common.{
  ℕ, zero, suc, ◌+◌, ◌-◌, ◌/◌, ◌%◌, ◌^◌, bit_and, Bool, true, false, ◌&&◌, ◌||◌, not, Option, some,
  leb, ◌==◌, if◌then◌else◌, ◌>>=◌, ℤ, pos, negsuc, is_neg,
}
use jake.Machine.{word, page_size, Machine, Vma, vma_at, store}
use jake.Pt.Entry.{vma_read, vma_write, vma_exec, phys2ppn}
use jake.Pt.Page.{pt_vma_map_page_at_vpn}
use jake.Pt.Vma.{vpn2vma, get_kvirt}
use jake.Process.State.{
  Kernel, Leaves, returns, to_user, halts, stalls, and_then, current, satp_of, sign_extend,
}
use jake.Process.Run.{proc_copy_binary}
use jake.Trap.Scall.{from_supervisor, ecall_poweroff, timer_handler, scall_handler}

abbrev pub load_access_fault : ℕ
load_access_fault = 5

abbrev pub store_amo_access_fault : ℕ
store_amo_access_fault = 7

abbrev pub env_call_u : ℕ
env_call_u = 8

abbrev pub env_call_s : ℕ
env_call_s = 9

abbrev pub instruction_page_fault : ℕ
instruction_page_fault = 12

abbrev pub load_page_fault : ℕ
load_page_fault = 13

abbrev pub store_amo_page_fault : ℕ
store_amo_page_fault = 15

unfoldable pub vma_has_perm : Vma → ℕ → ℕ
vma_has_perm vma scause =
    if (scause == load_access_fault) || (scause == load_page_fault)
    then bit_and vma.flags vma_read
    else if (scause == store_amo_access_fault) || (scause == store_amo_page_fault)
    then bit_and vma.flags vma_write
    else if scause == instruction_page_fault
    then bit_and vma.flags vma_exec
    else 0

unfoldable pub handle_text_demand : ℕ → Kernel → ℤ × Kernel
handle_text_demand stval k =
    let virt_text = get_kvirt (satp_of k k.proc_running) stval k.machine in
    let elf = (current k).elf in
    let page_index = sign_extend ((stval + word - elf.virtual_load) % word / page_size) in
    let (ret, bytes) = proc_copy_binary virt_text elf page_index k.bytes in
    (if is_neg ret then negsuc 0 else pos 0, record k { bytes = bytes })

-- A fault in the text of a process; `spp` is not set.
abbrev pub in_text : ℕ → Kernel → Bool
in_text stval k =
    let elf = (current k).elf in
    leb stval ((elf.virtual_load + elf.size_load) % word) && leb elf.virtual_load stval

-- What follows the call of `pt_vma_map_page_at_vpn`.
unfoldable pub after_map : ℕ → ℤ × Machine → Kernel → Leaves (Unit {0})
after_map stval (negsuc n, s) k = ecall_poweroff (record k { machine = s })
after_map stval (pos zero, s) k = ecall_poweroff (record k { machine = s })
after_map stval (pos (suc n), s) k =
    let k₁ = record k { machine = s } in
    let (ret, k₂) = handle_text_demand stval k₁ in
    if not (from_supervisor k.csr.sstatus) && in_text stval k₁
    then (if is_neg ret then ecall_poweroff k₂ else returns tt k₂)
    else returns tt k₁

-- The fault at `csr.stval`, once `vpn2vma` has given the VMA's address, 0 for NULL.
unfoldable pub fault_in : ℕ → ℕ → Kernel → Leaves (Unit {0})
fault_in vma scause k =
    let k₁ = record k { machine = store k.local_satp_at k.csr.satp k.machine } in
    let v = vma_at k₁.machine vma in
    if vma == 0
    then ecall_poweroff k₁
    else if vma_has_perm v scause == 0
    then ecall_poweroff k₁
    else after_map k.csr.stval
        (pt_vma_map_page_at_vpn k.local_satp_at v (phys2ppn k.csr.stval) 0 k₁.machine) k₁

unfoldable pub page_fault : ℕ → ℕ → Kernel → Option (Leaves (Unit {0}))
page_fault rounds scause k = do
  let head = if from_supervisor k.csr.sstatus then k.machine.kvmas_head else (current k).uvmas
  vma ← vpn2vma rounds head (phys2ppn k.csr.stval) k.machine
  some (fault_in vma scause k)

-- `fix_sepc`
abbrev pub fix_sepc : Kernel → Kernel
fix_sepc k = record k { csr = record k.csr { sepc = (k.csr.sepc + 4) % word } }

abbrev pub is_page_fault : ℕ → Bool
is_page_fault scause =
    (scause == load_access_fault)
    || (scause == load_page_fault)
    || (scause == store_amo_access_fault)
    || (scause == store_amo_page_fault)
    || (scause == instruction_page_fault)

-- `scall` once no timer interrupt is pending.
unfoldable pub exception : ℕ → Kernel → Option (Leaves (Unit {0}))
exception rounds k =
    let scause = k.csr.scause % 2 ^ 63 in
    let call =
      (scall_handler rounds k >>= λ (r : Leaves (Unit {0})).
      some (and_then r λ done k'. returns tt (fix_sepc k'))) in
    if scause / 2 ^ 63 % 2 == 1
    then some (ecall_poweroff k)
    else if (scause == env_call_u) || (scause == env_call_s)
    then call
    else if is_page_fault scause
    then page_fault rounds scause k
    else some (ecall_poweroff k)

unfoldable pub after_timer : ℕ → Leaves Bool → Option (Leaves (Unit {0}))
after_timer rounds (returns true k) = some (returns tt k)
after_timer rounds (returns false k) = exception rounds k
after_timer rounds (to_user f k) = some (to_user f k)
after_timer rounds (halts k) = some (halts k)
after_timer rounds (stalls k) = some (stalls k)

unfoldable pub scall : ℕ → Kernel → Option (Leaves (Unit {0}))
scall rounds k = after_timer rounds (timer_handler k)
