-- ===== src/Elf.antt =====
-- src/kernel/elfpars.c and elfpars.h: the parser of application binaries, on byte memory.
pub mod Headers
pub mod Check
mod Tests
use jake.Common.{ℕ, zero, suc, ◌+◌, ◌*◌, ◌%◌, ◌&&◌, not, ◌==◌, if◌then◌else◌, ℤ, pos, negsuc}
use jake.Machine.{word}
use jake.Util.{Bytes, strncmp, memcpy}

-- A little-endian read of `n` bytes at `at`.
unfoldable pub read_le : ℕ → ℕ → Bytes → ℕ
read_le zero at m = 0
read_le (suc n) at m = m at + 256 * read_le n (at + 1) m

-- `struct elf_jake`, with `struct elf_simple` inside
pub record Elf : Type 0 where
  pub e_entry : ℕ
  pub size_load : ℕ
  pub offset_load : ℕ
  pub virtual_load : ℕ
  pub valid : ℕ
  pub ptr_elf : ℕ

abbrev pub pt_load : ℕ
pt_load = 1

-- The loop over the program headers: where it stops, and `valid`.
unfoldable pub find_load : ℕ → ℕ → ℕ → Bytes → ℕ × ℕ
find_load zero ptr_ph e_phentsize m = (ptr_ph, 0)
find_load (suc n) ptr_ph e_phentsize m =
    let rest = find_load n ((ptr_ph + e_phentsize) % word) e_phentsize m in
    if read_le 4 ptr_ph m == pt_load then (ptr_ph, 1) else rest

unfoldable pub parse_elf : ℕ → Bytes → ℤ × Elf
parse_elf ptr_elf m =
    let e_phoff = read_le 8 (ptr_elf + 0x20) m in
    let (ptr_ph, valid) =
      find_load (read_le 2 (ptr_elf + 0x38) m) ((ptr_elf + e_phoff) % word)
        (read_le 2 (ptr_elf + 0x36) m) m in
    (
      pos 0,
      record {
        e_entry = read_le 8 (ptr_elf + 0x18) m;
        virtual_load = read_le 8 (ptr_ph + 0x10) m;
        offset_load = read_le 8 (ptr_ph + 0x08) m;
        size_load = read_le 8 (ptr_ph + 0x20) m;
        valid = valid;
        ptr_elf = ptr_elf;
      },
    )

abbrev pub riscv_elf : ℕ
riscv_elf = 243

abbrev pub et_rel : ℕ
et_rel = 1

abbrev pub et_exec : ℕ
et_exec = 2

-- `parse_header` behind its copy of the header to `head`: `elfmag` is where the bytes of ELFMAG lie.
unfoldable pub check_header : ℕ → ℕ → Bytes → ℤ
check_header head elfmag m =
    if strncmp 4 head elfmag m == 0
    then negsuc 0
    else if not (read_le 2 (head + 16) m == et_exec) && not (read_le 2 (head + 16) m == et_rel)
    then negsuc 0
    else if not (read_le 2 (head + 18) m == riscv_elf)
    then negsuc 0
    else pos 0

abbrev pub size_of_header : ℕ
size_of_header = 64

-- What `parse_header` returns, and the memory that it leaves.
unfoldable pub parse_header : ℕ → ℕ → ℕ → ℕ → Bytes → ℤ × Bytes
parse_header head ptr len elfmag m =
    let m' = memcpy head ptr size_of_header m in
    if head == 0
    then (negsuc 0, m)
    else if ptr == 0
    then (negsuc 0, m)
    else if len == 0
    then (negsuc 0, m)
    else (check_header head elfmag m', m')
