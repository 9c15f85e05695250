-- ===== src/Db/Bans/Offset.antt =====
-- `days = days * 24 * 60 * 60 * 1000` in `banUser` (DB/DBPostgres.cpp, DB/DBSQLite.cpp).
use wrongthink.Base.{
  ℕ, ◌*◌, ◌%◌, ◌-◌, ◌≤◌, ◌<◌, ◌^◌, ◌≡◌, ap, arith, leb, if◌then◌else◌, Bool-cases, inl, inr,
}
use wrongthink.Base.Int.{pos, negsuc, mul32}
use wrongthink.Db.Bans.{ban_offset}

mul32_small : (a k : ℕ) → a * k < 2 ^ 31 → a < 2 ^ 32 → mul32 (pos a) k ≡ pos (a * k)
unfolding mul32
mul32_small a k h b =
    let low : a % 2 ^ 32 ≡ a = omega arith in
    let product : a * k % 2 ^ 32 ≡ a * k = omega arith in rw (low, product) (ground arith)

mul32_wrapped :
    (a k : ℕ)
    → 2 ^ 31 ≤ a * k
    → a * k < 2 ^ 32
    → a < 2 ^ 32
    → mul32 (pos a) k ≡ negsuc (2 ^ 32 - a * k - 1)
unfolding mul32
mul32_wrapped a k h h' b =
    let low : a % 2 ^ 32 ≡ a = omega arith in
    let product : a * k % 2 ^ 32 ≡ a * k = omega arith in rw (low, product) (ground arith)

seconds : (days : ℕ) → days < 50 → mul32 (mul32 (mul32 (pos days) 24) 60) 60 ≡ pos (days * 86400)
seconds days h =
    rw
      (
        mul32_small days 24 (omega arith) (omega arith),
        mul32_small (days * 24) 60 (omega arith) (omega arith),
        mul32_small (days * 24 * 60) 60 (omega arith) (omega arith),
      )
      (ap pos (omega arith))

-- Up to 24 days the offset is the days in milliseconds.
pub ban_offset_exact : (days : ℕ) → days ≤ 24 → ban_offset (pos days) ≡ pos (days * 86400000)
unfolding ban_offset
ban_offset_exact days h =
    rw (seconds days (omega arith), mul32_small (days * 86400) 1000 (omega arith) (omega arith))
      (ap pos (omega arith))

-- From 25 to 49 days the product wraps to a negative offset.
pub ban_offset_negative :
    (days : ℕ)
    → 25 ≤ days
    → days ≤ 49
    → ban_offset (pos days) ≡ negsuc (2 ^ 32 - days * 86400000 - 1)
unfolding ban_offset
ban_offset_negative days h h' =
    rw
      (
        seconds days (omega arith),
        mul32_wrapped (days * 86400) 1000 (omega arith) (omega arith) (omega arith),
      )
      (ap negsuc (omega arith))

-- For up to 49 days: up to 24, the offset is the days in milliseconds; from 25 on, the product wraps
-- in 32 bits, and the offset is negative.
pub ban_offset_lem :
    (days : ℕ)
    → days ≤ 49
    → ban_offset (pos days)
      ≡ (if leb days 24 then pos (days * 86400000) else negsuc (2 ^ 32 - days * 86400000 - 1))
ban_offset_lem days h = elim (Bool-cases (leb days 24)) [
  | inl short ↦ rw short (ban_offset_exact days (ground (arith, short)))
  | inr long ↦ rw long (ban_offset_negative days (ground (arith, long)) h)
]
