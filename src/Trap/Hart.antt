-- ===== src/Trap/Hart.antt =====
-- src/kernel/timer.c, and `mcall` of src/kernel/exception.c: the machine mode.
use jake.Common.{
  ℕ, ◌+◌, ◌-◌, ◌*◌, ◌/◌, ◌%◌, ◌^◌, bit_and, bit_or, Bool, true, ◌&&◌, ◌==◌, if◌then◌else◌,
}
use jake.Machine.{word}

-- The registers that the machine mode reads and writes, and the two of the timer.
pub record Hart : Type 0 where
  pub mstatus : ℕ
  pub mie : ℕ
  pub sie : ℕ
  pub mip : ℕ
  pub mcause : ℕ
  pub mepc : ℕ
  pub mtime : ℕ
  pub mtimecmp : ℕ
  -- `tf_generic->a0`
  pub a0 : ℕ
  pub off : Bool

abbrev pub period_timer : ℕ
period_timer = 100000

-- Both writes to `mtimecmp`: the second has MASK_HIGH, of 56 ones.
unfoldable pub increase_timer : Hart → Hart
increase_timer h =
    let total = (h.mtime + period_timer) % word in
    let low = record h { mtimecmp = total % 2 ^ 28 } in record low { mtimecmp = total % 2 ^ 56 }

unfoldable pub timer_setup : Hart → Hart
timer_setup h = increase_timer (record h {
  mstatus = bit_or (bit_or h.mstatus (2 ^ 3)) (2 ^ 1);
  mie = bit_or (bit_or h.mie (2 ^ 7)) (2 ^ 5);
  sie = bit_or (bit_or h.sie (2 ^ 7)) (2 ^ 5);
})

abbrev pub turn_off : Hart → Hart
turn_off h = record h { off = true }

-- `trigger_timer_s`
abbrev pub trigger_timer_s : Hart → Hart
trigger_timer_s h = record h { mip = bit_or h.mip 0x20 }

-- `clear_timer_s`
abbrev pub clear_timer_s : Hart → Hart
clear_timer_s h = record h { mip = bit_and h.mip (word - 1 - 0x20) }

-- `fix_mepc`
abbrev pub fix_mepc : Hart → Hart
fix_mepc h = record h { mepc = (h.mepc + 4) % word }

unfoldable pub machine_timer : Hart → Hart
machine_timer h =
    let spp = bit_and h.mstatus (2 ^ 8) / 2 ^ 8 in
    let mpp = bit_and h.mstatus (3 * 2 ^ 11) / 2 ^ 11 in
    let h₁ = increase_timer h in
    if (mpp == 0) && (spp == 0) then trigger_timer_s h₁ else if mpp == 3 then turn_off h₁ else h₁

-- The switch over `tf_generic->a0`.
unfoldable pub machine_call : Hart → Hart
machine_call h =
    if h.a0 == 5 then timer_setup h else if h.a0 == 2 then clear_timer_s h else turn_off h

unfoldable pub mcall : Hart → Hart
mcall h =
    if bit_and h.mip 0x80 == 0x80
    then machine_timer h
    else if bit_and h.mcause 9 == 9
    then fix_mepc (machine_call h)
    else turn_off h
