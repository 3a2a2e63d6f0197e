-- ===== src/Pt/Page.antt =====
-- struct page of pt.c, and how a page of a VMA gets its size, its PTE and its place in the tables.
use jake.Common.{
  ℕ, zero, suc, ◌+◌, ◌-◌, ◌%◌, Bool, ◌&&◌, Option, none, some, ltb, leb, ◌==◌, if◌then◌else◌, ℤ,
  pos, negsuc,
}
use jake.Machine.{word, Machine, Vma}
use jake.Pt.Entry.{
  level2depth, level2pagen, has_flag, vma_read, vma_write, vma_exec, vma_populate, vma_identity,
  vma_user, pte_set, pte_set_ppn, pte_valid_shift, pte_read_shift, pte_write_shift, pte_exec_shift,
  pte_user_shift, page_tera, phys2ppn, vpn2prevpageboundary,
}
use jake.Pt.Alloc.{pt_alloc}
use jake.Pt.Walk.{pt_set_pte_leaf, find_level_of_highest_empty_pte}

-- `struct page`
pub record Page : Type 0 where
  pub vpn : ℕ
  pub level : ℕ
  pub ppn : ℕ
  pub pte : ℕ

-- `struct page page = { 0 }`
abbrev pub zero_page : Page
zero_page = record { vpn = 0; level = 0; ppn = 0; pte = 0 }

-- One of the four assignments of `__pt_page_pte_set_perm`.
abbrev pub perm_step : ℕ → ℕ → ℕ → ℕ → ℕ
perm_step flags flag shift pte = if has_flag flags flag then pte_set pte shift else pte

unfoldable pub page_pte_set_perm : Page → ℕ → Page
page_pte_set_perm page flags = record page {
  pte = perm_step flags vma_user pte_user_shift (
      perm_step flags vma_exec pte_exec_shift (
        perm_step flags vma_write pte_write_shift
          (perm_step flags vma_read pte_read_shift page.pte)));
}

-- The end of `__pt_page_needs_pte`, once the page has its PPN.
abbrev pub finish_pte : Page → Page
finish_pte page = record page { pte = pte_set (pte_set_ppn page.pte page.ppn) pte_valid_shift }

unfoldable pub page_needs_pte : Vma → ℕ → Page → Machine → ℤ × Page × Machine
page_needs_pte vma ppn out s =
    let out₁ = page_pte_set_perm out vma.flags in
    let (phys, s') = pt_alloc out₁.level s in
    let given = record out₁ { ppn = ppn } in
    let asked = record out₁ { ppn = phys2ppn phys } in
    if has_flag vma.flags vma_populate && has_flag vma.flags vma_identity
    then (negsuc 0, out₁, s)
    else if has_flag vma.flags vma_identity
    then (pos 0, finish_pte given, s)
    else if asked.ppn == 0
    then (negsuc 1, asked, s')
    else (pos 0, finish_pte asked, s')

unfoldable pub new_page_at_vpn_of_level : Vma → ℕ → ℕ → ℕ → Page → Machine → ℤ × Page × Machine
new_page_at_vpn_of_level vma vpn ppn level out s =
    page_needs_pte vma ppn (record out { vpn = vpn; level = level }) s

-- Requirement 1 of `pt_vma_new_page_at_vpn`: the test that its first loop ends by, and the loop from
-- `level` down; `none` is `level < 0`.
unfoldable pub fits : Vma → ℕ → ℕ → Bool
fits vma vpn level =
    leb vma.vpn (vpn2prevpageboundary vpn level)
    && leb ((vpn2prevpageboundary vpn level + level2pagen level) % word)
        ((vma.vpn + vma.pagen) % word)

unfoldable pub fit_level : Vma → ℕ → ℕ → Option ℕ
fit_level vma vpn zero = if fits vma vpn 0 then some 0 else none
fit_level vma vpn (suc level) =
    let lower = fit_level vma vpn level in
    if fits vma vpn (suc level) then some (suc level) else lower

-- Requirement 3: the loop that asks for memory, from `level` down.
unfoldable pub fill_level : Vma → ℕ → ℕ → ℕ → Page → Machine → Option ℕ × Page × Machine
fill_level vma vpn ppn zero out s =
    let (ret, out', s') = new_page_at_vpn_of_level vma (vpn2prevpageboundary vpn 0) ppn 0 out s in
    elim ret [
      | pos zero ↦ (some 0, out', s')
      | pos (suc n) ↦ (none, out', s')
      | negsuc n ↦ (none, out', s')
    ]
fill_level vma vpn ppn (suc level) out s =
    let (ret, out', s') =
      new_page_at_vpn_of_level vma (vpn2prevpageboundary vpn (suc level)) ppn (suc level) out s in
    let lower = fill_level vma vpn ppn level out' s' in
    elim ret [ pos zero ↦ (some (suc level), out', s') | pos (suc n) ↦ lower | negsuc n ↦ lower ]

-- `pt_vma_new_page_at_vpn` behind the choice of `level` by the two first requirements.
unfoldable pub filled : ℕ → Option ℕ × Page × Machine → ℤ × Page × Machine
filled vpn (none, out, s) = (pos 0, out, s)
filled vpn (some level, out, s) =
    (pos (vpn2prevpageboundary vpn level + level2pagen level - vpn), out, s)

unfoldable pub new_page_of_maxlevel : Vma → ℕ → ℕ → ℕ → ℤ → Page → Machine → ℤ × Page × Machine
new_page_of_maxlevel vma vpn ppn level (negsuc n) out s = (negsuc n, out, s)
new_page_of_maxlevel vma vpn ppn level (pos maxlevel) out s =
    filled vpn (fill_level vma vpn ppn (if ltb maxlevel level then maxlevel else level) out s)

unfoldable pub new_page_at_vpn : ℕ → Vma → ℕ → ℕ → Page → Machine → ℤ × Page × Machine
new_page_at_vpn satp vma vpn ppn out s = elim (fit_level vma vpn page_tera) [
  | none ↦ (pos 0, out, s)
  | some level ↦
      new_page_of_maxlevel vma vpn ppn level
        (find_level_of_highest_empty_pte satp (vpn2prevpageboundary vpn level) s) out s
]

-- `__pt_map_page`
unfoldable pub map_page : ℕ → Page → Machine → ℤ × Machine
map_page satp page s =
    if ltb page_tera page.level
    then (negsuc 0, s)
    else pt_set_pte_leaf satp page.vpn page.pte (level2depth page.level) s

-- `pt_vma_map_page_at_vpn` behind the call of `pt_vma_new_page_at_vpn`. A negative `pagen` is not
-- zero: the code goes on to map the page.
unfoldable pub map_new_page : ℕ → ℤ × Page × Machine → ℤ × Machine
map_new_page satp (pagen, page, s) =
    let (ret, s') = map_page satp page s in
    let mapped : ℤ × Machine = elim ret [
      | pos zero ↦ (pagen, s')
      | pos (suc n) ↦ (pos (suc n), s')
      | negsuc n ↦ (negsuc n, s')
    ] in
    elim pagen [ pos zero ↦ (pos 0, s) | pos (suc n) ↦ mapped | negsuc n ↦ mapped ]

unfoldable pub pt_vma_map_page_at_vpn : ℕ → Vma → ℕ → ℕ → Machine → ℤ × Machine
pt_vma_map_page_at_vpn satp vma vpn ppn s =
    map_new_page satp (new_page_at_vpn satp vma vpn ppn zero_page s)
