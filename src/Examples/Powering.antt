-- ===== src/Examples/Powering.antt =====
-- The theorems on the power and the data usage of an appliance, at small tables and quotas.
use myriadmesh_server.Base.{ℕ, ◌*◌, ◌+◌, ◌%◌, ◌≡◌, true, [], ◌∷◌, ◌++◌, arith, u32_mod}
use myriadmesh_server.Appliance.Power.{tx_power}
use myriadmesh_server.Appliance.Power.Scaling.{tx_power_orders}
use myriadmesh_server.Appliance.Usage.{DataUsageTracker, daily, megabyte, duration_secs}
use myriadmesh_server.Appliance.Usage.Quota.{add_all, sum_bytes, usage-add_all}

-- The power is 10 dBm or 25 dBm, as the entries at or below half of the battery are read first or
-- last.
tx_power_orders_example :
    (tx_power 50 30 (((50, 25) ∷ (20, 20) ∷ []) ++ ((100, 10) ∷ (80, 15) ∷ [])) ≡ 10)
    × (tx_power 50 30 (((100, 10) ∷ (80, 15) ∷ []) ++ ((50, 25) ∷ (20, 20) ∷ [])) ≡ 25)
tx_power_orders_example =
    tx_power_orders 50 ((50, 25) ∷ (20, 20) ∷ []) ((100, 10) ∷ (80, 15) ∷ [])
      (omega arith, (omega arith, tt)) (omega arith, (omega arith, tt))

abbrev limited : ℕ → DataUsageTracker
limited limit = record {
  policy = record {
    enabled = true;
    warn_threshold_mb = 10;
    hard_limit_mb = limit;
    reset_period = daily;
    period_start = 1000;
  };
  usage_bytes = 15 * megabyte;
}

usage-add_all_example :
    ((add_all (limited 20) ((2000, 5) ∷ (1500, 7) ∷ [])).usage_bytes
      ≡ (15 * megabyte + sum_bytes ((2000, 5) ∷ (1500, 7) ∷ [])) % u32_mod)
    × ((add_all (limited 20) ((2000, 5) ∷ (1500, 7) ∷ [])).policy ≡ (limited 20).policy)
unfolding duration_secs
usage-add_all_example =
    usage-add_all (limited 20) ((2000, 5) ∷ (1500, 7) ∷ []) (omega arith) (omega arith)
      (omega arith, (omega arith, tt))
