-- ===== src/Appliance/Power.antt =====
-- crates/myriadmesh-appliance/src/power.rs: the power supply and what it lets the adapters do.
-- `f` is the arithmetic of the 32-bit floats, `g` that of the 64-bit ones. The order of a table is
-- that in which it is iterated, which is not specified.
pub mod Scaling
use myriadmesh_server.Base.{
  ℕ, ◌+◌, ◌-◌, ◌%◌, Bool, true, false, not, ◌&&◌, Option, none, some, List, [], ◌∷◌, String, ltb,
  leb, eqb, if◌then◌else◌, nat_eq,
}
use myriadmesh_server.Base.Double.{Double, F64}
use myriadmesh_server.Base.Map.{Map, get}
use myriadmesh_server.Base.Result.{Result, ok, err}
use myriadmesh_server.Ledger.Entry.{AdapterType}

pub record Battery : Type 0 where
  pub capacity_mwh : ℕ
  pub current_mwh : ℕ
  pub charge_rate_mwh_per_hour : F64
  pub discharge_rate_mwh_per_hour : F64
  pub low_power_threshold_percent : ℕ
  pub critical_threshold_percent : ℕ

-- Power over Ethernet has the watts available and those reserved.
pub data PowerSupply : Type 0 where
  ac_mains : PowerSupply
  poe : F64 → F64 → PowerSupply
  battery : Battery → PowerSupply

pub data PowerAction : Type 0 where
  full_power disable_adapter listen_only : PowerAction
  reduce_power : ℕ → PowerAction

pub record BatteryThreshold : Type 0 where
  pub threshold_percent : ℕ
  pub action : PowerAction

pub record PowerManagerConfig : Type 0 where
  pub supply : PowerSupply
  pub power_scaling_table : Map ℕ ℕ
  pub adapter_thresholds : Map AdapterType (List BatteryThreshold)

unfoldable pub default_config : PowerManagerConfig
default_config = record {
  supply = ac_mains;
  power_scaling_table = (100, 30) ∷ (50, 25) ∷ (20, 20) ∷ (5, 10) ∷ [];
  adapter_thresholds = [];
}

-- `matches!(action, FullPower | ReducePower { .. })`
abbrev pub permits : PowerAction → Bool
permits full_power = true
permits (reduce_power percent) = true
permits disable_adapter = false
permits listen_only = false

unfoldable pub is_battery_powered : PowerSupply → Bool
is_battery_powered ac_mains = false
is_battery_powered (poe available reserved) = false
is_battery_powered (battery b) = true

abbrev pub set_battery : PowerManagerConfig → ℕ → PowerSupply → Result String PowerManagerConfig
set_battery config current ac_mains = err "Not a battery-powered device"
set_battery config current (poe available reserved) = err "Not a battery-powered device"
set_battery config current (battery b) =
    ok (record config { supply = battery (record b { current_mwh = current }) })

unfoldable pub update_battery_state : PowerManagerConfig → ℕ → Result String PowerManagerConfig
update_battery_state config current = set_battery config current config.supply

-- the difference of two bytes, which wraps
abbrev pub sub8 : ℕ → ℕ → ℕ
sub8 a b = (a + 256 - b) % 256

-- the entry of the scaling table that is closest so far, as its percentage and power
abbrev pub closer : ℕ → ℕ × ℕ → ℕ × ℕ → ℕ × ℕ
closer percent closest entry =
    if leb entry.0 percent && ltb (sub8 percent entry.0) (sub8 percent closest.0)
    then entry
    else closest

unfoldable pub closest_entry : ℕ → ℕ × ℕ → Map ℕ ℕ → ℕ × ℕ
closest_entry percent closest [] = closest
closest_entry percent closest (entry ∷ rest) =
    closest_entry percent (closer percent closest entry) rest

-- `max` and `min`
abbrev pub tx_step : ℕ → ℕ → ℕ × ℕ → ℕ
tx_step percent result entry =
    if leb entry.0 percent
    then (if ltb result entry.1 then entry.1 else result)
    else (if ltb entry.1 result then entry.1 else result)

unfoldable pub tx_power : ℕ → ℕ → Map ℕ ℕ → ℕ
tx_power percent result [] = result
tx_power percent result (entry ∷ rest) = tx_power percent (tx_step percent result entry) rest

-- the first threshold that the percentage is at or below
unfoldable pub first_threshold : ℕ → List BatteryThreshold → Option Bool
first_threshold percent [] = none
first_threshold percent (t ∷ rest) =
    let later : Option Bool = first_threshold percent rest in
    if leb percent t.threshold_percent then some (permits t.action) else later

module _ (f : Double) where
  unfoldable pub battery_percent : PowerSupply → Option ℕ
  battery_percent ac_mains = none
  battery_percent (poe available reserved) = none
  battery_percent (battery b) =
      if eqb b.capacity_mwh 0
      then some 0
      else some
          (f.to_u8 (f.mul (f.div (f.of_nat b.current_mwh) (f.of_nat b.capacity_mwh)) (f.lit 100 1)))

  abbrev pub at_or_below : ℕ → Option ℕ → Bool
  at_or_below threshold none = false
  at_or_below threshold (some percent) = leb percent threshold

  unfoldable pub is_low_battery : PowerSupply → Bool
  unfolding battery_percent
  is_low_battery ac_mains = false
  is_low_battery (poe available reserved) = false
  is_low_battery (battery b) =
      at_or_below b.low_power_threshold_percent (battery_percent (battery b))

  unfoldable pub is_critical_battery : PowerSupply → Bool
  unfolding battery_percent
  is_critical_battery ac_mains = false
  is_critical_battery (poe available reserved) = false
  is_critical_battery (battery b) =
      at_or_below b.critical_threshold_percent (battery_percent (battery b))

  abbrev pub battery_watts : Option ℕ → F64
  battery_watts none = f.lit 5 1
  battery_watts (some percent) = f.mul (f.div (f.of_nat percent) (f.lit 100 1)) (f.lit 10 1)

  unfoldable pub available_power_watts : PowerSupply → F64
  unfolding battery_percent
  available_power_watts ac_mains = f.greatest
  available_power_watts (poe available reserved) = f.sub available reserved
  available_power_watts (battery b) = battery_watts (battery_percent (battery b))

  unfoldable pub get_power_budget : PowerManagerConfig → AdapterType → Result String ℕ
  unfolding available_power_watts
  get_power_budget config adapter = ok (f.to_u32 (available_power_watts config.supply))

  -- what the thresholds of the adapter say, if they say anything
  abbrev pub threshold_verdict : Option (List BatteryThreshold) → Option ℕ → Option Bool
  threshold_verdict (some thresholds) (some percent) = first_threshold percent thresholds
  threshold_verdict (some thresholds) none = none
  threshold_verdict none percent = none

  abbrev pub verdict_or : Option Bool → Bool → Bool
  verdict_or (some verdict) default = verdict
  verdict_or none default = default

  unfoldable pub is_adapter_active : PowerManagerConfig → AdapterType → Result String Bool
  unfolding battery_percent is_critical_battery first_threshold
  is_adapter_active config adapter = ok (
      verdict_or
        (threshold_verdict (get config.adapter_thresholds adapter) (battery_percent config.supply))
        (not (is_critical_battery config.supply)))

  abbrev pub max_tx_of : Map ℕ ℕ → Option ℕ → ℕ
  max_tx_of table none = 30
  max_tx_of table (some percent) = tx_power percent 30 table

  unfoldable pub get_max_tx_power_dbm : PowerManagerConfig → ℕ
  unfolding battery_percent tx_power
  get_max_tx_power_dbm config = max_tx_of config.power_scaling_table (battery_percent config.supply)

module _ (f g : Double) where
  abbrev pub scaling_of : Map ℕ ℕ → Option ℕ → F64
  scaling_of table none = g.lit 1 1
  scaling_of table (some percent) =
      g.div (g.of_nat (closest_entry percent (100, 30) table).1) (g.lit 30 1)

  unfoldable pub get_power_scaling : PowerManagerConfig → F64
  unfolding battery_percent closest_entry
  get_power_scaling config = scaling_of config.power_scaling_table (battery_percent f config.supply)
