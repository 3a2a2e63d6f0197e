-- ===== src/Pt/Boundary.antt =====
-- The page of each size that holds a page number: vpn2prevpageboundary of src/kernel/pt.c.
use jake.Common.{ℕ, zero, suc, ◌+◌, ◌-◌, ◌^◌, ◌≤◌, ◌<◌, ◌≡◌, arith}
use jake.Common.Bits.{bit_and_high}
use jake.Machine.{word}
use jake.Pt.Entry.{level2pagen, vpn2prevpageboundary}

-- The end of the page of the level that holds the page number.
abbrev pub page_end : ℕ → ℕ → ℕ
page_end vpn level = vpn2prevpageboundary vpn level + level2pagen level

page_end_next :
    (vpn level : ℕ) → vpn < word → level < 3 → page_end vpn level ≤ page_end vpn (suc level)
unfolding vpn2prevpageboundary
page_end_next vpn zero b l = omega (arith, bit_and_high 64 0 vpn b, bit_and_high 55 9 vpn b)
page_end_next vpn (suc zero) b l = omega (arith, bit_and_high 55 9 vpn b, bit_and_high 46 18 vpn b)
page_end_next vpn (suc (suc zero)) b l =
    omega (arith, bit_and_high 46 18 vpn b, bit_and_high 37 27 vpn b)
page_end_next vpn (suc (suc (suc level))) b l = absurd (omega arith)

page_end_upto :
    (vpn level gap : ℕ)
    → vpn < word
    → level + gap ≤ 3
    → page_end vpn level ≤ page_end vpn (level + gap)
page_end_upto vpn level zero b l = let e : level + 0 ≡ level = omega arith in rw e (omega arith)
page_end_upto vpn level (suc gap) b l =
    let e : level + suc gap ≡ suc (level + gap) = omega arith in
    rw e (
      omega (
        arith,
        page_end_upto vpn level gap b (omega arith),
        page_end_next vpn (level + gap) b (omega arith),
      ))

pub page_end_mono :
    (vpn low high : ℕ) → vpn < word → low ≤ high → high ≤ 3 → page_end vpn low ≤ page_end vpn high
page_end_mono vpn low high b l h =
    let e : low + (high - low) ≡ high = omega arith in
    rw e at (page_end_upto vpn low (high - low) b (omega arith))

boundary_next :
    (vpn level : ℕ)
    → vpn < word
    → level < 3
    → vpn2prevpageboundary vpn (suc level) ≤ vpn2prevpageboundary vpn level
unfolding vpn2prevpageboundary
boundary_next vpn zero b l = omega (arith, bit_and_high 64 0 vpn b, bit_and_high 55 9 vpn b)
boundary_next vpn (suc zero) b l = omega (arith, bit_and_high 55 9 vpn b, bit_and_high 46 18 vpn b)
boundary_next vpn (suc (suc zero)) b l =
    omega (arith, bit_and_high 46 18 vpn b, bit_and_high 37 27 vpn b)
boundary_next vpn (suc (suc (suc level))) b l = absurd (omega arith)

boundary_upto :
    (vpn level gap : ℕ)
    → vpn < word
    → level + gap ≤ 3
    → vpn2prevpageboundary vpn (level + gap) ≤ vpn2prevpageboundary vpn level
boundary_upto vpn level zero b l = let e : level + 0 ≡ level = omega arith in rw e (omega arith)
boundary_upto vpn level (suc gap) b l =
    let e : level + suc gap ≡ suc (level + gap) = omega arith in
    rw e (
      omega (
        arith,
        boundary_upto vpn level gap b (omega arith),
        boundary_next vpn (level + gap) b (omega arith),
      ))

pub boundary_mono :
    (vpn low high : ℕ)
    → vpn < word
    → low ≤ high
    → high ≤ 3
    → vpn2prevpageboundary vpn high ≤ vpn2prevpageboundary vpn low
boundary_mono vpn low high b l h =
    let e : low + (high - low) ≡ high = omega arith in
    rw e at (boundary_upto vpn low (high - low) b (omega arith))

pub boundary_le : (vpn level : ℕ) → vpn < word → level ≤ 3 → vpn2prevpageboundary vpn level ≤ vpn
unfolding vpn2prevpageboundary
boundary_le vpn zero b l = omega (arith, bit_and_high 64 0 vpn b)
boundary_le vpn (suc zero) b l = omega (arith, bit_and_high 55 9 vpn b)
boundary_le vpn (suc (suc zero)) b l = omega (arith, bit_and_high 46 18 vpn b)
boundary_le vpn (suc (suc (suc zero))) b l = omega (arith, bit_and_high 37 27 vpn b)
boundary_le vpn (suc (suc (suc (suc level)))) b l = absurd (omega arith)

pub page_end_near : (vpn level : ℕ) → vpn < word → level ≤ 3 → page_end vpn level ≤ vpn + 2 ^ 27
unfolding vpn2prevpageboundary
page_end_near vpn zero b l = omega (arith, bit_and_high 64 0 vpn b)
page_end_near vpn (suc zero) b l = omega (arith, bit_and_high 55 9 vpn b)
page_end_near vpn (suc (suc zero)) b l = omega (arith, bit_and_high 46 18 vpn b)
page_end_near vpn (suc (suc (suc zero))) b l = omega (arith, bit_and_high 37 27 vpn b)
page_end_near vpn (suc (suc (suc (suc level)))) b l = absurd (omega arith)
