-- ===== src/Pt/Entry.antt =====
-- The macros of pt.h and pt.c on page table entries, satp and page numbers. `x & (2^k - 1)` is
-- `x % 2 ^ k` (`Common.Bits.bit_and_mask`), and a shift is a product or a quotient.
use jake.Common.{ℕ, ◌-◌, ◌*◌, ◌/◌, ◌%◌, ◌^◌, bit_and, bit_or, bit_xor, Bool, ◌==◌, ◌||◌, not}
use jake.Machine.{word, page_size}

-- Errors of pt.c, which returns their negation.
abbrev pub einvalargs : ℕ
einvalargs = 1

abbrev pub enoresources : ℕ
enoresources = 2

abbrev pub enotmapped : ℕ
enotmapped = 3

abbrev pub emapped : ℕ
emapped = 4

abbrev pub pt_num_levels : ℕ
pt_num_levels = 5

-- enum levels
abbrev pub page_normal : ℕ
page_normal = 0

abbrev pub page_tera : ℕ
page_tera = 3

abbrev pub vma_read : ℕ
vma_read = 1

abbrev pub vma_write : ℕ
vma_write = 2 ^ 2

abbrev pub vma_exec : ℕ
vma_exec = 2 ^ 3

abbrev pub vma_populate : ℕ
vma_populate = 2 ^ 4

abbrev pub vma_identity : ℕ
vma_identity = 2 ^ 5

abbrev pub vma_user : ℕ
vma_user = 2 ^ 6

-- `flags & VMA_…` as a condition.
abbrev pub has_flag : ℕ → ℕ → Bool
has_flag flags flag = not (bit_and flags flag == 0)

abbrev pub pte_valid_shift : ℕ
pte_valid_shift = 0

abbrev pub pte_read_shift : ℕ
pte_read_shift = 1

abbrev pub pte_write_shift : ℕ
pte_write_shift = 2

abbrev pub pte_exec_shift : ℕ
pte_exec_shift = 3

abbrev pub pte_user_shift : ℕ
pte_user_shift = 4

-- level2depth and depth2level, which are one macro
abbrev pub level2depth : ℕ → ℕ
level2depth level = pt_num_levels - 1 - level

abbrev pub pte_get : ℕ → ℕ → ℕ
pte_get pte shift = pte / 2 ^ shift % 2

unfoldable pub pte_set : ℕ → ℕ → ℕ
pte_set pte shift = bit_or pte (2 ^ shift)

abbrev pub pte_get_ppn : ℕ → ℕ
pte_get_ppn pte = pte / 2 ^ 10 % 2 ^ 44

unfoldable pub pte_clear_ppn : ℕ → ℕ
pte_clear_ppn pte = bit_xor pte (pte_get_ppn pte * 2 ^ 10)

unfoldable pub pte_set_ppn : ℕ → ℕ → ℕ
pte_set_ppn pte new = bit_xor (pte_clear_ppn pte) (new % 2 ^ 44 * 2 ^ 10)

-- The macros on satp take a mask of `width` ones.
abbrev pub satp_get : ℕ → ℕ → ℕ → ℕ
satp_get satp width shift = satp / 2 ^ shift % 2 ^ width

unfoldable pub satp_clear : ℕ → ℕ → ℕ → ℕ
satp_clear satp width shift = bit_xor satp (satp_get satp width shift * 2 ^ shift)

unfoldable pub satp_set : ℕ → ℕ → ℕ → ℕ → ℕ
satp_set satp new width shift = bit_xor (satp_clear satp width shift) (new % 2 ^ width * 2 ^ shift)

abbrev pub satp_mode_width : ℕ
satp_mode_width = 4

abbrev pub satp_mode_shift : ℕ
satp_mode_shift = 60

abbrev pub satp_ppn_width : ℕ
satp_ppn_width = 44

abbrev pub satp_ppn_shift : ℕ
satp_ppn_shift = 0

abbrev pub satp_mode_bare : ℕ
satp_mode_bare = 0

abbrev pub satp_mode_sv48 : ℕ
satp_mode_sv48 = 9

unfoldable pub satp2pte : ℕ → ℕ
satp2pte satp = pte_set_ppn 1 (satp_get satp satp_ppn_width satp_ppn_shift)

abbrev pub pte_is_leaf : ℕ → Bool
pte_is_leaf pte = (pte_get pte pte_read_shift == 1) || (pte_get pte pte_exec_shift == 1)

abbrev pub pte_is_valid : ℕ → Bool
pte_is_valid pte = pte_get pte pte_valid_shift == 1

abbrev pub ppn2phys : ℕ → ℕ
ppn2phys ppn = ppn * 2 ^ 12 % word

abbrev pub phys2ppn : ℕ → ℕ
phys2ppn phys = phys / 2 ^ 12

abbrev pub vpn2vpnlevel : ℕ → ℕ → ℕ
vpn2vpnlevel vpn level = vpn / 2 ^ (9 * level) % 2 ^ 9

abbrev pub level2pagen : ℕ → ℕ
level2pagen level = 2 ^ (9 * level)

abbrev pub level2order : ℕ → ℕ
level2order level = level * 9

abbrev pub level2size : ℕ → ℕ
level2size level = level2pagen level * page_size

-- `vpn & (-1L * level2pagen(level))`
unfoldable pub vpn2prevpageboundary : ℕ → ℕ → ℕ
vpn2prevpageboundary vpn level = bit_and vpn (word - level2pagen level)
