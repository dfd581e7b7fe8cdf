-- ===== src/Appliance/Usage.antt =====
-- crates/myriadmesh-appliance/src/power.rs: the tracker of data usage and its quota. Words of 32
-- bits wrap, times are counts of seconds, and an operation is given the time that it reads.
pub mod Quota
use myriadmesh_server.Base.{
  ℕ, ◌+◌, ◌-◌, ◌*◌, ◌/◌, ◌%◌, Bool, true, false, not, ◌&&◌, ◌||◌, String, ltb, leb, eqb,
  if◌then◌else◌, add64, u32_mod,
}
use myriadmesh_server.Base.Result.{Result, ok, err}

pub data ResetPeriod : Type 0 where
  daily weekly monthly quarterly : ResetPeriod

unfoldable pub duration_secs : ResetPeriod → ℕ
duration_secs daily = 86_400
duration_secs weekly = 604_800
duration_secs monthly = 2_592_000
duration_secs quarterly = 7_776_000

pub record DataUsagePolicy : Type 0 where
  pub enabled : Bool
  pub warn_threshold_mb : ℕ
  pub hard_limit_mb : ℕ
  pub reset_period : ResetPeriod
  pub period_start : ℕ

unfoldable pub default_policy : ℕ → DataUsagePolicy
default_policy now = record {
  enabled = false;
  warn_threshold_mb = 1000;
  hard_limit_mb = 0;
  reset_period = monthly;
  period_start = now;
}

pub data QuotaCheck : Type 0 where
  allow warn_but_allow denied : QuotaCheck

pub record DataUsageTracker : Type 0 where
  pub policy : DataUsagePolicy
  pub usage_bytes : ℕ

unfoldable pub new : DataUsagePolicy → DataUsageTracker
new policy = record { policy = policy; usage_bytes = 0 }

abbrev pub megabyte : ℕ
megabyte = 1024 * 1024

unfoldable pub get_usage_mb : DataUsageTracker → ℕ
get_usage_mb t = t.usage_bytes / megabyte

unfoldable pub check_quota : DataUsageTracker → ℕ → Result String QuotaCheck
unfolding get_usage_mb
check_quota t size_bytes =
    if not t.policy.enabled
    then ok allow
    else (let total : ℕ = (get_usage_mb t + size_bytes / megabyte) % u32_mod in
        if ltb 0 t.policy.hard_limit_mb && ltb t.policy.hard_limit_mb total
        then ok denied
        else if ltb t.policy.warn_threshold_mb total
        then ok warn_but_allow
        else ok allow)

unfoldable pub get_remaining_mb : DataUsageTracker → ℕ
unfolding get_usage_mb
get_remaining_mb t =
    if not t.policy.enabled || eqb t.policy.hard_limit_mb 0
    then u32_mod - 1
    else t.policy.hard_limit_mb - get_usage_mb t

abbrev pub begin_period : ℕ → DataUsageTracker → DataUsageTracker
begin_period now t = record { policy = record t.policy { period_start = now }; usage_bytes = 0 }

unfoldable pub reset_if_needed : ℕ → DataUsageTracker → DataUsageTracker
unfolding duration_secs
reset_if_needed now t =
    if leb (add64 t.policy.period_start (duration_secs t.policy.reset_period)) now
    then begin_period now t
    else t

-- `bytes as u32`, added by a wrapping `fetch_add`
unfoldable pub add_usage : ℕ → DataUsageTracker → ℕ → DataUsageTracker
unfolding reset_if_needed
add_usage now t bytes =
    reset_if_needed now (record t { usage_bytes = (t.usage_bytes + bytes % u32_mod) % u32_mod })

unfoldable pub reset : ℕ → DataUsageTracker → DataUsageTracker
reset now t = begin_period now t

unfoldable pub get_policy : DataUsageTracker → DataUsagePolicy
get_policy t = t.policy

unfoldable pub update_policy : DataUsageTracker → DataUsagePolicy → DataUsageTracker
update_policy t policy = record t { policy = policy }
