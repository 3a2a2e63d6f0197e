-- ===== src/Pt/Write.antt =====
-- What one write to a page table does to the walks: mapping and unmapping a page where the tables on
-- the way are there, in src/kernel/pt.c.
use jake.Common.{
  ℕ, zero, suc, ◌+◌, ◌*◌, ◌≤◌, ◌<◌, ◌≡◌, ◌≢◌, refl, ap, ◌∙◌, arith, update_self, update_ne,
}
use jake.Machine.{Machine, kvirt2phys, load, store, is_paging_enabled, phys2kvirt}
use jake.Pt.Entry.{
  level2depth, pte_get_ppn, pte_is_leaf, pte_is_valid, satp2pte, ppn2phys, vpn2vpnlevel,
}
use jake.Pt.Path.{entry_below, pte_at, addr_at, IsTable}

-- A write to `a` leaves the entries on the way to a page number alone, up to depth `d`: it meets
-- neither them nor ksatp.
pub record Spares (a satp vpn d : ℕ) (s : Machine) : Type 0 where
  pub mode : kvirt2phys s.ksatp_at ≢ kvirt2phys a
  pub entries : (i : ℕ) → i < d → kvirt2phys (addr_at satp vpn s i) ≢ kvirt2phys a

module _ (a v : ℕ) (s : Machine) where
  pub load-store_ne : (x : ℕ) → kvirt2phys x ≢ kvirt2phys a → load (store a v s) x ≡ load s x
  load-store_ne x n = update_ne s.mem (kvirt2phys a) (kvirt2phys x) v n

  load-store_self : load (store a v s) a ≡ v
  load-store_self = update_self s.mem (kvirt2phys a) v

  phys2kvirt-store :
      (x : ℕ) → kvirt2phys s.ksatp_at ≢ kvirt2phys a → phys2kvirt (store a v s) x ≡ phys2kvirt s x
  unfolding phys2kvirt is_paging_enabled
  phys2kvirt-store x n = rw (load-store_ne s.ksatp_at n) refl

  module _ (satp vpn d : ℕ) (w : Spares a satp vpn d s) where
    pte_of_addr :
        (i : ℕ)
        → addr_at satp vpn (store a v s) (suc i) ≡ addr_at satp vpn s (suc i)
        → suc i < d
        → pte_at satp vpn (store a v s) (suc i) ≡ pte_at satp vpn s (suc i)
    unfolding pte_at addr_at
    pte_of_addr i e l =
        ap (λ (t : ℕ). load (store a v s) t) e
        ∙ load-store_ne (addr_at satp vpn s (suc i)) (w.entries (suc i) l)

    entry_below-store :
        (i p q : ℕ) → p ≡ q → entry_below vpn (store a v s) i p ≡ entry_below vpn s i q
    unfolding entry_below
    entry_below-store i p q e =
        phys2kvirt-store (ppn2phys (pte_get_ppn p) + vpn2vpnlevel vpn (level2depth (i + 1)) * 8)
          w.mode
        ∙ ap
            (λ (t : ℕ).
              phys2kvirt s (ppn2phys (pte_get_ppn t) + vpn2vpnlevel vpn (level2depth (i + 1)) * 8))
            e

    -- The walk after the write is the walk before it, up to the address at depth `d`.
    pub walk-store :
        (i : ℕ)
        → i ≤ d
        → (addr_at satp vpn (store a v s) i ≡ addr_at satp vpn s i)
          × (i < d → pte_at satp vpn (store a v s) i ≡ pte_at satp vpn s i)
    unfolding pte_at addr_at
    walk-store zero l = (refl, λ h. ap satp2pte (load-store_ne satp (w.entries 0 h)))
    walk-store (suc i) l =
        let (e, f) = walk-store i (omega arith) in
        let g =
          entry_below-store i (pte_at satp vpn (store a v s) i) (pte_at satp vpn s i)
            (f (omega arith)) in
        (g, λ h. pte_of_addr i g h)

    pub IsTable-store : (i : ℕ) → i < d → IsTable satp vpn s i → IsTable satp vpn (store a v s) i
    IsTable-store i l t =
        let e = (walk-store i (omega arith)).1 l in
        (ap (λ (x : ℕ). pte_is_leaf x) e ∙ t.0, ap (λ (x : ℕ). pte_is_valid x) e ∙ t.1)

-- The entry at the address that was written.
pub pte_at-store_self :
    (satp vpn i v : ℕ) (s : Machine)
    → Spares (addr_at satp vpn s (suc i)) satp vpn (suc i) s
    → pte_at satp vpn (store (addr_at satp vpn s (suc i)) v s) (suc i) ≡ v
unfolding pte_at addr_at
pte_at-store_self satp vpn i v s w =
    let a = addr_at satp vpn s (suc i) in
    ap (λ (t : ℕ). load (store a v s) t)
      (walk-store a v s satp vpn (suc i) w (suc i) (omega arith)).0
    ∙ load-store_self a v s
