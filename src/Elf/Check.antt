-- ===== src/Elf/Check.antt =====
-- What `parse_header` of src/kernel/elfpars.c accepts.
use jake.Common.{
  ℕ, zero, suc, ◌+◌, ◌≤◌, ◌<◌, ◌≡◌, ◌≢◌, ◌↔◌, refl, sym, ap, ◌∙◌, arith, false, not, ◌==◌, ==→eq,
  Bool-cases, ◌⊎◌, inl, inr, ◌&&◌, ℤ, pos, negsuc,
}
use jake.Util.{Bytes, strncmp, memcpy}
use jake.Util.Memory.{Apart, memcpy-copies}
use jake.Util.Compare.{strncmp_iff}
use jake.Elf.{read_le, riscv_elf, et_exec, et_rel, check_header, size_of_header, parse_header}

-- The bytes at `ptr` begin with ELFMAG, and the type and the machine are those of a RISC-V program.
pub record IsRiscvElf (ptr elfmag : ℕ) (m : Bytes) : Type 0 where
  pub magic : (i : ℕ) → i < 4 → m (ptr + i) ≡ m (elfmag + i)
  pub kind : (read_le 2 (ptr + 16) m ≡ et_exec) ⊎ (read_le 2 (ptr + 16) m ≡ et_rel)
  pub machine : read_le 2 (ptr + 18) m ≡ riscv_elf

pub strncmp-cases : (n a b : ℕ) (m : Bytes) → (strncmp n a b m ≡ 0) ⊎ (strncmp n a b m ≡ 1)
unfolding strncmp
strncmp-cases zero a b m = inr refl
strncmp-cases (suc n) a b m = elim (Bool-cases (m a == m b)) [
  | inl e ↦ rw e (strncmp-cases n (a + 1) (b + 1) m)
  | inr e ↦ rw e (inl refl)
]

refused : ◌≡◌ {A = ℤ} (negsuc 0) (pos 0) → ⊥
refused e = cc

is_one : (a : ℕ) → (a ≡ 0) ⊎ (a ≡ 1) → (a == 0) ≡ false → a ≡ 1
is_one a (inl z) n = absurd (ground (arith, z, n))
is_one a (inr o) n = o

-- What check_header accepts.
module _ (head elfmag : ℕ) (m : Bytes) where
  abbrev type_at : ℕ
  type_at = read_le 2 (head + 16) m

  kind_accepted :
      (not (type_at == et_exec) && not (type_at == et_rel)) ≡ false
      → (type_at ≡ et_exec) ⊎ (type_at ≡ et_rel)
  kind_accepted e = elim (Bool-cases (type_at == et_exec)) [
    | inl p ↦ inl (==→eq _ _ p)
    | inr p ↦ elim (Bool-cases (type_at == et_rel)) [
      | inl q ↦ inr (==→eq _ _ q)
      | inr q ↦ absurd (ground (arith, e, p, q))
    ]
  ]

  accepted :
      check_header head elfmag m ≡ pos 0
      → (strncmp 4 head elfmag m ≡ 1)
        × ((type_at ≡ et_exec) ⊎ (type_at ≡ et_rel))
        × (read_le 2 (head + 18) m ≡ riscv_elf)
  unfolding check_header
  accepted e = elim (Bool-cases (strncmp 4 head elfmag m == 0)) [
    | inl s ↦ absurd (refused (rw s at e))
    | inr s ↦ elim (Bool-cases (not (type_at == et_exec) && not (type_at == et_rel))) [
      | inl k ↦ absurd (refused (rw (s, k) at e))
      | inr k ↦ elim (Bool-cases (read_le 2 (head + 18) m == riscv_elf)) [
        | inl q ↦ (is_one _ (strncmp-cases 4 head elfmag m) s, kind_accepted k, ==→eq _ _ q)
        | inr q ↦ absurd (refused (rw (s, k, q) at e))
      ]
    ]
  ]

  accepts :
      strncmp 4 head elfmag m ≡ 1
      → (type_at ≡ et_exec) ⊎ (type_at ≡ et_rel)
      → read_le 2 (head + 18) m ≡ riscv_elf
      → check_header head elfmag m ≡ pos 0
  unfolding check_header
  accepts s (inl k) q = rw (s, k, q) refl
  accepts s (inr k) q = rw (s, k, q) refl

-- The copy of the header reads like the original.
module _ (head ptr : ℕ) (m : Bytes) (apart : Apart head ptr size_of_header) where
  abbrev copied : Bytes
  copied = memcpy head ptr size_of_header m

  read_copied :
      (k : ℕ) → k + 2 ≤ size_of_header → read_le 2 (head + k) copied ≡ read_le 2 (ptr + k) m
  unfolding read_le
  read_copied k l =
      let (new, old) = memcpy-copies head ptr size_of_header m apart in
      let a : copied (head + k) ≡ m (ptr + k) = new k (omega arith) in
      let b : copied (head + k + 1) ≡ m (ptr + k + 1) =
        ap copied (omega arith) ∙ new (k + 1) (omega arith) ∙ ap m (omega arith) in
      rw (a, b) refl

  module _ (elfmag : ℕ) (away : (elfmag + 4 ≤ head) ⊎ (head + size_of_header ≤ elfmag)) where
    magic_copied : (i : ℕ) → i < 4 → copied (elfmag + i) ≡ m (elfmag + i)
    magic_copied i l =
        let (new, old) = memcpy-copies head ptr size_of_header m apart in
        old (elfmag + i) (ground (arith, away))

    -- The check of the copy.
    check_iff : (check_header head elfmag copied ≡ pos 0) ↔ IsRiscvElf ptr elfmag m
    check_iff = (
      λ e.
          let (s, k, q) = accepted head elfmag copied e in
          let type_read = read_copied 16 (omega arith) in
          record {
            magic = λ i l.
                sym (new i l) ∙ (strncmp_iff 4 head elfmag copied).0 s i l ∙ magic_copied i l;
            kind = rw⁻¹ type_read k;
            machine = sym (read_copied 18 (omega arith)) ∙ q;
          },
      λ w.
          accepts head elfmag copied
            ((strncmp_iff 4 head elfmag copied).1
              (λ i l. new i l ∙ w.magic i l ∙ sym (magic_copied i l)))
            (rw (read_copied 16 (omega arith)) w.kind) (read_copied 18 (omega arith) ∙ w.machine),
    )
      where
        new : (i : ℕ) → i < 4 → copied (head + i) ≡ m (ptr + i)
        new i l = (memcpy-copies head ptr size_of_header m apart).0 i (omega arith)

-- With a header, a binary and a length that are not 0, and room for the copy that neither the binary's
-- header nor ELFMAG lie in, parse_header answers 0 exactly if the binary begins with ELFMAG, is of the
-- type ET_EXEC or ET_REL, and is for RISC-V.
pub parse_header_iff :
    (head ptr len elfmag : ℕ) (m : Bytes)
    → head ≢ 0
    → ptr ≢ 0
    → len ≢ 0
    → Apart head ptr size_of_header
    → (elfmag + 4 ≤ head) ⊎ (head + size_of_header ≤ elfmag)
    → ((parse_header head ptr len elfmag m).0 ≡ pos 0) ↔ IsRiscvElf ptr elfmag m
unfolding parse_header
parse_header_iff head ptr len elfmag m h p l apart away =
    let a : (head == 0) ≡ false = ground (arith, h) in
    let b : (ptr == 0) ≡ false = ground (arith, p) in
    let c : (len == 0) ≡ false = ground (arith, l) in
    rw (a, b, c) (check_iff head ptr m apart elfmag away)
