-- ===== src/Examples/Appliances.antt =====
-- The theorems on the appliance at one that pairs a phone and keeps its messages.
use myriadmesh_server.Base.{
  true, false, not, some, none, [], ◌∷◌, refl, ◌≡◌, ◌==◌, string_eq, All, String,
}
use myriadmesh_server.Base.Bytes.{bytes_eq, bytes_beq}
use myriadmesh_server.Base.Map.{get, insert}
use myriadmesh_server.Base.Counts.{update}
use myriadmesh_server.Base.Result.{err}
use myriadmesh_server.Appliance.Error.{device_not_found}
use myriadmesh_server.Appliance.Cache.Message.{CachedMessage}
use myriadmesh_server.Appliance.Pairing.{new}
use myriadmesh_server.Appliance.Pairing
use myriadmesh_server.Appliance.Pairing.Changes
use myriadmesh_server.Appliance.Device.{DeviceJson, new_device}
use myriadmesh_server.Appliance.Manager.{
  ApplianceManager, default_manager_config, get_paired_device, verify_session_token,
}
use myriadmesh_server.Appliance.Manager.Calls.{complete_pairing, unpair_device}
use myriadmesh_server.Appliance.Manager.Sessions.{Opens, complete_pairing-Opens}
use myriadmesh_server.Appliance.Manager.Ownership.{IsTidy}
use myriadmesh_server.Appliance.Manager.History.{
  completing, caching, run, run-IsTidy, unpair_device-forgets,
}
use myriadmesh_server.Examples.Pairings.{toy_keys, phone, phone_key, answer, paired}
use myriadmesh_server.Examples.Pairings
use myriadmesh_server.Examples.Caching.{json, letter, full, empty}

abbrev devices : DeviceJson
devices = record { to_string_pretty = λ d. some "{}"; from_str = λ text. some [] }

-- the manager of the pairing, once the phone has asked and is approved
abbrev waiting : ApplianceManager
waiting = record {
  config = default_manager_config;
  device_store = record {
    devices = [];
    file = record { contents = none; read_fails = false; write_fails = false };
  };
  message_cache = empty;
  pairing_manager = Pairing.Changes.run toy_keys Pairings.calls (new (3 ∷ []) "node" true);
}

abbrev holding : ApplianceManager
holding = record waiting {
  device_store = record waiting.device_store {
    devices = ("phone", new_device 40 "phone" (7 ∷ []) phone_key "s") ∷ [];
  };
  message_cache = full;
}

waiting-IsTidy : IsTidy waiting
waiting-IsTidy = record { owned = tt; writable = refl }

holding-IsTidy : IsTidy holding
unfolding get
holding-IsTidy = record { owned = (refl, (refl, tt)); writable = refl }

complete_pairing-Opens_example :
    Opens toy_keys devices
      (λ t. t)
      30
      40
      "s"
      waiting
      answer
      "phone"
      (7 ∷ [])
      phone_key
      (record { success = true; session_token = some "s"; problem = none })
      (complete_pairing toy_keys devices
        (λ t. t)
        30
        40
        "s"
        waiting
        answer
        "phone"
        (7 ∷ [])
        phone_key).1
unfolding complete_pairing get Pairing.Changes.run Pairing.approve_pairing Pairing.initiate_pairing
    insert new Pairing.is_expired update Pairing.check_challenge bytes_beq
complete_pairing-Opens_example =
    complete_pairing-Opens toy_keys devices (λ t. t) 30 40 "s" waiting answer "phone" (7 ∷ [])
      phone_key paired refl refl

run-IsTidy_example : IsTidy (
    run toy_keys json devices
      (λ t. t)
      (caching 50 letter ∷ completing 30 40 "s" answer "phone" (7 ∷ []) phone_key ∷ [])
      waiting)
run-IsTidy_example =
    run-IsTidy toy_keys json devices (λ t. t) (λ d. refl)
      (caching 50 letter ∷ completing 30 40 "s" answer "phone" (7 ∷ []) phone_key ∷ []) waiting
      waiting-IsTidy

unpair_device-forgets_example :
    let m' = (unpair_device json devices holding "phone").1 in
    (get_paired_device m' "phone" ≡ none)
    × (verify_session_token (λ t. t) m' "phone" "s" ≡ err (device_not_found "phone"))
    × All
        (λ (e : String × CachedMessage). not (e.1.device_id == "phone") ≡ true)
        m'.message_cache.messages
unpair_device-forgets_example =
    unpair_device-forgets toy_keys json devices (λ t. t) (λ d. refl) holding "phone" "s"
      holding-IsTidy
