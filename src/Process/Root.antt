-- ===== src/Process/Root.antt =====
-- The satp value that src/kernel/process.c builds for a process.
use jake.Common.{ℕ, ◌≡◌, refl, ◌∙◌, arith}
use jake.Pt.Entry.{
  satp_get, satp_set, satp_mode_bare, satp_mode_sv48, satp_mode_width, satp_mode_shift,
  satp_ppn_width, satp_ppn_shift, pte_get_ppn,
}
use jake.Pt.Codec.{satp_set-field}
use jake.Process.Space.{setup_satp}

-- After `proc_setup_satp` the register has mode Sv48, and the page number of the root page table:
-- whatever the register held, and whatever the entry holds beside that number.
pub setup_satp-fields :
    (satp root_pt : ℕ)
    → (satp_get (setup_satp satp root_pt) satp_mode_width satp_mode_shift ≡ satp_mode_sv48)
      × (satp_get (setup_satp satp root_pt) satp_ppn_width satp_ppn_shift ≡ pte_get_ppn root_pt)
unfolding setup_satp
setup_satp-fields satp root_pt =
    let bare = satp_set satp satp_mode_bare satp_mode_width satp_mode_shift in
    let root = satp_set bare (pte_get_ppn root_pt) satp_ppn_width satp_ppn_shift in
    let mode = satp_set-field root satp_mode_sv48 satp_mode_width satp_mode_shift in
    let ppn = satp_set-field bare (pte_get_ppn root_pt) satp_ppn_width satp_ppn_shift in
    (mode.0 ∙ refl, omega (arith, mode.1, ppn.0))
