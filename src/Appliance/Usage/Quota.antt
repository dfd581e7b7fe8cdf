-- ===== src/Appliance/Usage/Quota.antt =====
-- crates/myriadmesh-appliance/src/power.rs: what the quota of data usage lets through.
use myriadmesh_server.Base.{
  ℕ, ◌+◌, ◌/◌, ◌%◌, ◌≤◌, ◌<◌, ◌≡◌, ◌≢◌, ◌↔◌, ◌⊎◌, true, refl, All, List, [], ◌∷◌, arith, u32_mod,
  u64_mod,
}
use myriadmesh_server.Base.Result.{ok}
use myriadmesh_server.Appliance.Usage.{
  DataUsageTracker, denied, megabyte, duration_secs, check_quota, get_usage_mb, get_remaining_mb,
  add_usage, reset_if_needed,
}

-- With a limit that is enabled and not nought, a transmission is denied exactly when its
-- megabytes are more than those that remain, or the limit is exceeded already.
pub denied_iff_beyond_remaining :
    (t : DataUsageTracker) (size : ℕ)
    → t.policy.enabled ≡ true
    → 0 < t.policy.hard_limit_mb
    → t.usage_bytes < u32_mod
    → size < u32_mod
    → (check_quota t size ≡ ok denied)
      ↔ ((get_remaining_mb t < size / megabyte) ⊎ (t.policy.hard_limit_mb < get_usage_mb t))
unfolding check_quota get_remaining_mb get_usage_mb
denied_iff_beyond_remaining t size on limited fits fits' = ground (arith, on, limited, fits, fits')

-- A limit of 8190 megabytes or more is never reached, since the usage is counted in 32 bits.
pub large_limit_never_denies :
    (t : DataUsageTracker) (size : ℕ)
    → 8190 ≤ t.policy.hard_limit_mb
    → t.usage_bytes < u32_mod
    → size < u32_mod
    → check_quota t size ≢ ok denied
unfolding check_quota get_usage_mb
large_limit_never_denies t size large fits fits' h = ground (arith, large, fits, fits', h)

-- What is added once the period is over is not counted in the next one.
pub usage_across_period_dropped :
    (now bytes : ℕ) (t : DataUsageTracker)
    → t.policy.period_start + duration_secs t.policy.reset_period ≤ now
    → now < u64_mod
    → ((add_usage now t bytes).usage_bytes ≡ 0)
      × ((add_usage now t bytes).policy.period_start ≡ now)
unfolding add_usage reset_if_needed
usage_across_period_dropped now bytes t past fits = ground (arith, past, fits)

-- The usage after transmissions, each of a time and a number of bytes, the last one first.
unfoldable pub add_all : DataUsageTracker → List (ℕ × ℕ) → DataUsageTracker
add_all t [] = t
add_all t ((now, bytes) ∷ rest) = add_usage now (add_all t rest) bytes

abbrev pub sum_bytes : List (ℕ × ℕ) → ℕ
sum_bytes [] = 0
sum_bytes ((now, bytes) ∷ rest) = bytes + sum_bytes rest

-- Within a period the usage is the sum of what was added, in 32 bits, and the policy stays as
-- it was, where the end of the period does not wrap.
pub usage-add_all :
    (t : DataUsageTracker) (l : List (ℕ × ℕ))
    → t.usage_bytes < u32_mod
    → t.policy.period_start + duration_secs t.policy.reset_period < u64_mod
    → All (λ e. e.0 < t.policy.period_start + duration_secs t.policy.reset_period) l
    → ((add_all t l).usage_bytes ≡ (t.usage_bytes + sum_bytes l) % u32_mod)
      × ((add_all t l).policy ≡ t.policy)
unfolding add_all add_usage reset_if_needed
usage-add_all t [] fits room before = (omega (arith, fits), refl)
usage-add_all t ((now, bytes) ∷ rest) fits room before =
    let u = usage-add_all t rest fits room before.1 in ground (arith, u.0, u.1, before.0, room)
