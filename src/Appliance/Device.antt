-- ===== src/Appliance/Device.antt =====
-- crates/myriadmesh-appliance/src/device.rs: the devices paired with the appliance, and their file.
-- Times are counts of nanoseconds, and an operation is given the time that it reads. The hash of a
-- session token, as a text, is a parameter.
pub mod Saving
use myriadmesh_server.Base.{
  ℕ, ◌/◌, Bool, true, false, Option, none, some, List, [], String, ltb, if◌then◌else◌, ◌==◌,
  string_eq,
}
use myriadmesh_server.Base.Bytes.{Bytes}
use myriadmesh_server.Base.Map.{Map, values, get, insert, remove}
use myriadmesh_server.Base.Counts.{count_values, update}
use myriadmesh_server.Base.Sort.{sort_by}
use myriadmesh_server.Base.Result.{Result, ok, err}
use myriadmesh_server.Ledger.Entry.{NodeId}
use myriadmesh_server.Appliance.Error.{ApplianceError, ApplianceResult, Outcome, io, serialization}
use myriadmesh_server.Appliance.Cache.Entries.{CacheFile}
use myriadmesh_server.Appliance.Preferences.{DevicePreferences, default_preferences}

pub record PairedDevice : Type 0 where
  pub device_id : String
  pub node_id : NodeId
  pub public_key : Bytes
  pub paired_at : ℕ
  pub last_seen : ℕ
  pub session_token_hash : String
  pub preferences : DevicePreferences
  pub active : Bool

abbrev pub new_device : ℕ → String → NodeId → Bytes → String → PairedDevice
new_device now device_id node_id public_key session_token_hash = record {
  device_id = device_id;
  node_id = node_id;
  public_key = public_key;
  paired_at = now;
  last_seen = now;
  session_token_hash = session_token_hash;
  preferences = default_preferences;
  active = true;
}

abbrev pub seen_at : ℕ → PairedDevice → PairedDevice
seen_at now device = record device { last_seen = now }

abbrev pub update_preferences : PairedDevice → DevicePreferences → PairedDevice
update_preferences device preferences = record device { preferences = preferences }

unfoldable pub verify_token : (String → String) → PairedDevice → String → Bool
verify_token hash device token = device.session_token_hash == hash token

abbrev pub revoke : PairedDevice → PairedDevice
revoke device = record device { active = false }

-- what the interface shows of a device; its times are in seconds
pub record PairedDeviceInfo : Type 0 where
  pub device_id : String
  pub node_id : NodeId
  pub paired_at : ℕ
  pub last_seen : ℕ
  pub active : Bool
  pub cached_messages : ℕ

abbrev pub info_of : PairedDevice → PairedDeviceInfo
info_of device = record {
  device_id = device.device_id;
  node_id = device.node_id;
  paired_at = device.paired_at / 1_000_000_000;
  last_seen = device.last_seen / 1_000_000_000;
  active = device.active;
  cached_messages = 0;
}

abbrev pub Devices : Type 0
Devices = Map String PairedDevice

-- `serde_json`: to text, which can fail, and back
pub record DeviceJson : Type 0 where
  pub to_string_pretty : Devices → Option String
  pub from_str : String → Option Devices

pub record DeviceStore : Type 0 where
  pub devices : Devices
  pub file : CacheFile

unfoldable pub get_device : DeviceStore → String → Option PairedDevice
get_device s device_id = get s.devices device_id

abbrev pub seen_later : PairedDevice → PairedDevice → Bool
seen_later a b = if ltb a.last_seen b.last_seen then false else true

unfoldable pub list_all : DeviceStore → List PairedDevice
list_all s = sort_by seen_later (values s.devices)

unfoldable pub count_active : DeviceStore → ℕ
count_active s = count_values (λ (d : PairedDevice). d.active) s.devices

module _ (json : DeviceJson) where
  unfoldable pub open_store : CacheFile → ApplianceResult DeviceStore
  open_store file = elim file.contents [
    | none ↦ ok (record { devices = []; file = file })
    | some text ↦
        if file.read_fails
        then err io
        else (if text == ""
            then ok (record { devices = []; file = file })
            else elim (json.from_str text) [
              | none ↦ err serialization
              | some entries ↦ ok (record { devices = entries; file = file })
            ])
  ]

  -- the end of `save`, with the text of the devices
  abbrev pub write_text : DeviceStore → Option String → Outcome DeviceStore (Unit {0})
  write_text s none = (err serialization, s)
  write_text s (some text) =
      if s.file.write_fails
      then (err io, s)
      else (ok tt, record s { file = record s.file { contents = some text } })

  unfoldable pub save_devices : DeviceStore → Outcome DeviceStore (Unit {0})
  save_devices s = write_text s (json.to_string_pretty s.devices)

  unfoldable pub store_device : DeviceStore → PairedDevice → Outcome DeviceStore (Unit {0})
  unfolding save_devices
  store_device s device =
      save_devices (record s { devices = insert s.devices device.device_id device })

  unfoldable pub delete_device : DeviceStore → String → Outcome DeviceStore (Unit {0})
  unfolding save_devices
  delete_device s device_id = save_devices (record s { devices = remove s.devices device_id })

  unfoldable pub update_last_seen : ℕ → DeviceStore → String → Outcome DeviceStore (Unit {0})
  unfolding save_devices
  update_last_seen now s device_id =
      save_devices (record s { devices = update s.devices device_id (seen_at now) })
