-- ===== src/Process/Space.antt =====
-- src/kernel/process.c: satp values and the kernel's half of a process's address space.
use jake.Common.{ℕ, zero, suc, ◌+◌, ◌*◌, ◌%◌, ◌^◌, bit_or, bit_and, ◌==◌, if◌then◌else◌}
use jake.Process.State.{Csr}
use jake.Machine.{Machine, load, store}
use jake.Pt.Entry.{
  satp_set, satp_mode_bare, satp_mode_sv48, satp_mode_width, satp_mode_shift, satp_ppn_width,
  satp_ppn_shift, pte_get_ppn,
}

-- `proc_setup_satp` on the word at `satp`.
unfoldable pub setup_satp : ℕ → ℕ → ℕ
setup_satp satp root_pt =
    let bare = satp_set satp satp_mode_bare satp_mode_width satp_mode_shift in
    let root = satp_set bare (pte_get_ppn root_pt) satp_ppn_width satp_ppn_shift in
    satp_set root satp_mode_sv48 satp_mode_width satp_mode_shift

unfoldable pub proc_setup_satp : ℕ → ℕ → Machine → Machine
proc_setup_satp satp root_pt s = store satp (setup_satp (load s satp) root_pt) s

-- `satp2virt`: the low 32 bits of satp, shifted, in the kernel's half.
unfoldable pub satp2virt : ℕ → ℕ
satp2virt x = bit_or (x % 2 ^ 32 * 2 ^ 12) 0xffff_8000_0000_0000

-- The words that `memcpy` moves in `proc_copy_kernel_pt`, of which `n` are left from word `i` on.
unfoldable pub copy_words : ℕ → ℕ → ℕ → ℕ → Machine → Machine
copy_words zero i dest src s = s
copy_words (suc n) i dest src s =
    copy_words n (i + 1) dest src (store (dest + 8 * i) (load s (src + 8 * i)) s)

-- `proc_copy_kernel_pt`
unfoldable pub proc_copy_kernel_pt : ℕ → Machine → Machine
proc_copy_kernel_pt satp s =
    let ptr_ksatp = satp2virt (load s s.ksatp_at) in
    let ptr_satp = satp2virt satp in copy_words 511 1 ptr_satp ptr_ksatp (store ptr_satp 0 s)

abbrev pub sstatus_sum : ℕ
sstatus_sum = 2 ^ 18

-- The two functions of pt.c that let the supervisor reach pages of the user, and no longer.
unfoldable pub unset_vma_protection : Csr → Csr
unset_vma_protection c = record c { sstatus = bit_or c.sstatus sstatus_sum }

-- `!SSTATUS_SUM` is the number 0.
unfoldable pub set_vma_protection : Csr → Csr
set_vma_protection c =
    let mask = if sstatus_sum == 0 then 1 else 0 in record c { sstatus = bit_and c.sstatus mask }
