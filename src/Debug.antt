-- ===== src/Debug.antt =====
-- What the kernel prints to find errors with: src/kernel/debug.c, printptr and printdbg of util.c,
-- proc_print_frame of process.c, and pt_pte_print and pt_print of pt.c. What `put` is given is a list of
-- bytes.
pub mod Ends
use Prim.Native.Char.{code}
use Prim.Native.String.{String}
use jake.Common.{
  ℕ, zero, suc, ◌+◌, ◌*◌, ◌/◌, ◌%◌, ◌^◌, bit_and, Bool, true, false, ◌&&◌, not, List, [], ◌∷◌, ◌++◌,
  Option, some, none, ◌>>=◌, ◌==◌, ltb, leb, if◌then◌else◌, ℤ, pos, negsuc, is_neg,
}
use jake.Machine.{word, page_size, Machine, virt_mem_kernel_base}
use jake.Util.{printnum}
use jake.Pt.Entry.{
  level2depth, level2pagen, pte_get, pte_get_ppn, ppn2phys, phys2ppn, pte_valid_shift,
  pte_read_shift, pte_write_shift, pte_exec_shift, pte_user_shift,
}
use jake.Pt.Walk.{no_ptes, pt_get_pte}
use jake.Pt.Vma.{Layout}
use jake.Process.State.{TrapFrame}

-- `__printstr`: the bytes of a text.
unfoldable pub printstr : String → List ℕ
printstr String.[] = []
printstr (String.◌∷◌ c s) = code c ∷ printstr s

unfoldable pub printptr : ℕ → ℕ → List ℕ
printptr ptr end = printnum ptr ++ (end ∷ [])

abbrev pub mag : String
mag = "\u{1b}[35m"

abbrev pub reset : String
reset = "\u{1b}[0m"

unfoldable pub printdbg : String → ℕ → List ℕ
printdbg str ptr = printstr str ++ printstr mag ++ printptr ptr b'\n' ++ printstr reset

-- Calls of printdbg, one after the other.
unfoldable pub all_printdbg : List (String × ℕ) → List ℕ
all_printdbg [] = []
all_printdbg ((str, ptr) ∷ rest) = printdbg str ptr ++ all_printdbg rest

unfoldable pub proc_print_frame : TrapFrame → List ℕ
proc_print_frame src = all_printdbg (
    ("sp: \t\t", src.sp)
    ∷ ("ra: \t\t", src.ra)
    ∷ ("t0: \t\t", src.t0)
    ∷ ("t1: \t\t", src.t1)
    ∷ ("t2: \t\t", src.t2)
    ∷ ("a0: \t\t", src.a0)
    ∷ ("a1: \t\t", src.a1)
    ∷ ("a2: \t\t", src.a2)
    ∷ ("a3: \t\t", src.a3)
    ∷ ("a4: \t\t", src.a4)
    ∷ ("a5: \t\t", src.a5)
    ∷ ("a6: \t\t", src.a6)
    ∷ ("a7: \t\t", src.a7)
    ∷ ("t3: \t\t", src.t3)
    ∷ ("t4: \t\t", src.t4)
    ∷ ("t5: \t\t", src.t5)
    ∷ ("t6: \t\t", src.t6)
    ∷ ("gp: \t\t", src.gp)
    ∷ ("tp: \t\t", src.tp)
    ∷ ("s0: \t\t", src.s0)
    ∷ ("s1: \t\t", src.s1)
    ∷ ("s2: \t\t", src.s2)
    ∷ ("s3: \t\t", src.s3)
    ∷ ("s4: \t\t", src.s4)
    ∷ ("s5: \t\t", src.s5)
    ∷ ("s6: \t\t", src.s6)
    ∷ ("s7: \t\t", src.s7)
    ∷ ("s8: \t\t", src.s8)
    ∷ ("s9: \t\t", src.s9)
    ∷ ("s1: \t\t", src.s10)
    ∷ ("s1: \t\t", src.s11)
    ∷ ("satp: \t\t", src.satp)
    ∷ ("sepc: \t\t", src.sepc)
    ∷ [])

-- `read` is what csrr and read_r find in the register of a name.

unfoldable pub print_call_info : (String → ℕ) → List ℕ
print_call_info read = all_printdbg (
    ("sstatus: ", read "sstatus")
    ∷ ("SPIE: ", bit_and (read "sstatus") (2 ^ 5))
    ∷ ("UPIE: ", bit_and (read "sstatus") (2 ^ 4))
    ∷ ("SPP: ", bit_and (read "sstatus") (2 ^ 8) / 2 ^ 8)
    ∷ ("sepc: ", read "sepc")
    ∷ ("stval: ", read "stval")
    ∷ ("sip: ", read "sip")
    ∷ ("sie: ", read "sie")
    ∷ ("scause: ", read "scause")
    ∷ ("sscratch: ", read "sscratch")
    ∷ ("sp: ", read "sp")
    ∷ [])

-- `word_at` reads the registers of the timer in memory.
unfoldable pub mprint_call_info : (String → ℕ) → (ℕ → ℕ) → List ℕ
mprint_call_info read word_at = all_printdbg (
    ("sscratch: ", read "sscratch")
    ∷ ("mscratch: ", read "mscratch")
    ∷ ("sstatus: ", read "sstatus")
    ∷ ("sepc: ", read "sepc")
    ∷ ("mepc: ", read "mepc")
    ∷ ("stval: ", read "stval")
    ∷ ("mtval: ", read "mtval")
    ∷ ("sip: ", read "sip")
    ∷ ("sie: ", read "sie")
    ∷ ("mie: ", read "mie")
    ∷ ("mstatus: ", read "mstatus")
    ∷ ("MPIE: ", bit_and (read "mstatus") (2 ^ 7))
    ∷ ("SPIE: ", bit_and (read "mstatus") (2 ^ 5))
    ∷ ("UPIE: ", bit_and (read "mstatus") (2 ^ 4))
    ∷ ("SPP: ", bit_and (read "mstatus") (2 ^ 8) / 2 ^ 8)
    ∷ ("MPP: ", bit_and (read "mstatus") (3 * 2 ^ 11) / 2 ^ 11)
    ∷ ("mideleg: ", read "mideleg")
    ∷ ("medeleg: ", read "medeleg")
    ∷ ("mip: ", read "mip")
    ∷ ("scause: ", read "scause")
    ∷ ("mcause: ", read "mcause")
    ∷ ("misa: \t\t", read "misa")
    ∷ ("mtime: \t\t", word_at 0x200_bff8)
    ∷ ("mtimecmp: \t", word_at 0x200_4000)
    ∷ ("satp: ", read "satp")
    ∷ [])

unfoldable pub print_all_registers : (String → ℕ) → TrapFrame → List ℕ
print_all_registers read tf_user =
    all_printdbg (
      ("sp: ", read "sp")
      ∷ ("ra: ", read "ra")
      ∷ ("t0: ", read "t0")
      ∷ ("t1: ", read "t1")
      ∷ ("t2: ", read "t2")
      ∷ ("t3: ", read "t3")
      ∷ ("t4: ", read "t4")
      ∷ ("t5: ", read "t5")
      ∷ ("t6: ", read "t6")
      ∷ ("a0: ", read "a0")
      ∷ ("a1: ", read "a1")
      ∷ ("a2: ", read "a2")
      ∷ ("a3: ", read "a3")
      ∷ ("a4: ", read "a4")
      ∷ ("a5: ", read "a5")
      ∷ ("a6: ", read "a6")
      ∷ ("a7: ", read "a7")
      ∷ ("tp: ", read "tp")
      ∷ ("gp: ", read "gp")
      ∷ ("s1: ", read "s1")
      ∷ ("sepc: ", read "sepc")
      ∷ ("satp: ", read "satp")
      ∷ [])
    ++ printstr "tf_user:\n"
    ++ proc_print_frame tf_user

unfoldable pub pt_pte_print : ℕ → List ℕ
pt_pte_print pte = all_printdbg (
    ("reser: ", pte / 2 ^ 53 % 2 ^ 10)
    ∷ ("ppn  : ", pte_get_ppn pte)
    ∷ ("(phy): ", ppn2phys (pte_get_ppn pte))
    ∷ ("rsw  : ", pte / 2 ^ 8 % 2 ^ 2)
    ∷ ("dirty: ", pte_get pte 7)
    ∷ ("acc. : ", pte_get pte 6)
    ∷ ("glob.: ", pte_get pte 5)
    ∷ ("user : ", pte_get pte pte_user_shift)
    ∷ ("exec : ", pte_get pte pte_exec_shift)
    ∷ ("write: ", pte_get pte pte_write_shift)
    ∷ ("read : ", pte_get pte pte_read_shift)
    ∷ ("valid: ", pte_get pte pte_valid_shift)
    ∷ [])

-- `depth != prev`
abbrev pub same_depth : ℤ → ℤ → Bool
same_depth (pos m) (pos n) = m == n
same_depth (negsuc m) (negsuc n) = m == n
same_depth (pos m) (negsuc n) = false
same_depth (negsuc m) (pos n) = false

-- The first page number of the kernel's half.
abbrev pub kernel_vpn : ℕ
kernel_vpn = phys2ppn virt_mem_kernel_base

-- What is printed at a page number, where the depth before was `prev`.
unfoldable pub print_region : ℕ → ℕ → ℤ → ℤ → List ℕ
print_region user vpn (pos d) prev =
    if not (same_depth (pos d) prev)
    then printdbg "---- ---- " (ppn2phys vpn)
      ++ printdbg "    |     " (level2depth d)
      ++ printstr "    |     \n"
    else []
print_region user vpn (negsuc e) prev =
    if not (vpn == user) && not (same_depth (negsuc e) prev)
    then printdbg "---- ---- " (ppn2phys vpn) ++ printstr "\n\n"
    else []

-- The page number that follows.
unfoldable pub next_region : ℕ → ℕ → ℤ → ℤ → ℕ
next_region user vpn depth prev =
    let on : ℕ = elim depth [ pos d ↦ level2pagen (level2depth d) | negsuc e ↦ level2pagen 0 ] in
    if is_neg prev && ltb ((user + 256 * page_size) % word) vpn && ltb vpn kernel_vpn
    then kernel_vpn
    else (vpn + on) % word

-- The loop of `pt_print` up to the page number `last`; `none` says that its rounds ran out.
unfoldable pub print_loop : ℕ → ℕ → ℕ → ℕ → ℤ → Machine → Option (List ℕ)
print_loop zero user last vpn prev s = none
print_loop (suc rounds) user last vpn prev s =
    let depth = (pt_get_pte s.ksatp_at vpn no_ptes s).depth in
    let rest =
      (print_loop rounds user last (next_region user vpn depth prev) depth s >>= λ (out : List ℕ).
      some (print_region user vpn depth prev ++ out)) in
    if leb vpn last then rest else some []

-- `user` is the signed argument as 64 bits.
unfoldable pub pt_print : ℕ → ℕ → Layout → Machine → Option (List ℕ)
pt_print rounds user layout s =
    let last = phys2ppn ((virt_mem_kernel_base + layout.phys_end + layout.kstack_size) % word) in
    print_loop rounds user last (if ltb user (2 ^ 63) then user else kernel_vpn) (negsuc 0) s
