-- ===== src/Appliance/Manager/Ownership.antt =====
-- crates/myriadmesh-appliance/src/manager.rs: whose messages the cache of an appliance holds, and the
-- pairing of devices.
use myriadmesh_server.Base.{
  ℕ, true, false, not, inl, inr, ◌≡◌, refl, sym, ◌∙◌, All, String, ◌==◌, string_eq, Bool-cases,
  Option-cases, arith,
}
use mathlib.Core.Path.{subst}
use myriadmesh_server.Base.Bytes.{Bytes}
use myriadmesh_server.Base.Members.{All-mono}
use myriadmesh_server.Base.Map.{get, insert, remove, contains_key, contains_key-insert, get-remove}
use myriadmesh_server.Base.Counts.{update, get-update}
use myriadmesh_server.Base.Result.{ok, err, Result-cases}
use myriadmesh_server.Ledger.Entry.{NodeId}
use myriadmesh_server.Appliance.Error.{Outcome}
use myriadmesh_server.Appliance.Cache.Message.{CachedMessage}
use myriadmesh_server.Appliance.Pairing.{
  Keys, PairingManager, PairingRequest, PairingResponse, PairingResult,
}
use myriadmesh_server.Appliance.Pairing
use myriadmesh_server.Appliance.Device.{
  DeviceJson, Devices, PairedDevice, new_device, seen_at, store_device, update_last_seen,
}
use myriadmesh_server.Appliance.Device.Saving.{
  devices-store_device, devices-update_last_seen, write_fails-store_device,
  write_fails-update_last_seen,
}
use myriadmesh_server.Appliance.Manager.{ApplianceManager, and_then, check_request, on_devices}
use myriadmesh_server.Appliance.Manager.Calls.{after_pairing, complete_pairing, initiate_pairing}

-- A message is for a device that the table holds.
abbrev pub HasOwner : Devices → String × CachedMessage → Type 0
HasOwner devices e = contains_key devices e.1.device_id ≡ true

-- Every cached message has its device, and the devices can be written.
pub record IsTidy (m : ApplianceManager) : Type 0 where
  pub owned : All (HasOwner m.device_store.devices) m.message_cache.messages
  pub writable : m.device_store.file.write_fails ≡ false

HasOwner-insert :
    (devices : Devices) (id : String) (d : PairedDevice) (e : String × CachedMessage)
    → HasOwner devices e
    → HasOwner (insert devices id d) e
HasOwner-insert devices id d e h = ground (arith, contains_key-insert devices id e.1.device_id d, h)

HasOwner-update :
    (devices : Devices) (id : String) (f : PairedDevice → PairedDevice) (e : String × CachedMessage)
    → HasOwner devices e
    → HasOwner (update devices id f) e
HasOwner-update devices id f e h = elim (Option-cases (get devices e.1.device_id)) [
  | inl absent ↦ absurd (ground (arith, absent, h))
  | inr (d, held) ↦ rw (get-update devices id e.1.device_id f, held) (ground arith)
]

pub HasOwner-remove :
    (devices : Devices) (id : String) (e : String × CachedMessage)
    → HasOwner devices e × (not (e.1.device_id == id) ≡ true)
    → HasOwner (remove devices id) e
HasOwner-remove devices id e h = ground (
  arith,
  get-remove devices id e.1.device_id,
  h.0,
  h.1,
  string_eq.same_iff id e.1.device_id,
  string_eq.same_iff e.1.device_id id,
)

module _ (json : DeviceJson) where
  pub stored-IsTidy :
      (m : ApplianceManager) (d : PairedDevice)
      → IsTidy m
      → IsTidy (record m { device_store = (store_device json m.device_store d).1 })
  stored-IsTidy m d t = record {
    owned =
        subst (λ x. All (HasOwner x) m.message_cache.messages)
          (sym (devices-store_device json m.device_store d))
          (All-mono (HasOwner-insert m.device_store.devices d.device_id d) _ t.owned);
    writable = write_fails-store_device json m.device_store d ∙ t.writable;
  }

  pub seen-IsTidy :
      (nanos : ℕ) (m : ApplianceManager) (id : String)
      → IsTidy m
      → IsTidy (record m { device_store = (update_last_seen json nanos m.device_store id).1 })
  seen-IsTidy nanos m id t = record {
    owned =
        subst (λ x. All (HasOwner x) m.message_cache.messages)
          (sym (devices-update_last_seen json nanos m.device_store id))
          (All-mono (HasOwner-update m.device_store.devices id (seen_at nanos)) _ t.owned);
    writable = write_fails-update_last_seen json nanos m.device_store id ∙ t.writable;
  }

-- The state after a call and what follows it, where that leaves the state.
pub state-and_then :
    {A B : Type 0} (o : Outcome ApplianceManager A)
    (f : A → ApplianceManager → Outcome ApplianceManager B)
    → ((a : A) (m : ApplianceManager) → (f a m).1 ≡ m)
    → (and_then o f).1 ≡ o.1
state-and_then (err e, m) f h = refl
state-and_then (ok a, m) f h = h a m

module _ (keys : Keys) where
  pub initiate_pairing-IsTidy :
      (secs : ℕ) (token : String) (challenge : Bytes) (m : ApplianceManager)
      (request : PairingRequest)
      → IsTidy m
      → IsTidy (initiate_pairing keys secs token challenge m request).1
  unfolding initiate_pairing
  initiate_pairing-IsTidy secs token challenge m request t =
      elim (Result-cases (check_request m request)) [
        | inr (why, failed) ↦ rw failed t
        | inl (u, passed) ↦ rw passed (record { owned = t.owned; writable = t.writable })
      ]

module _ (keys : Keys) (devices : DeviceJson) (hash : String → String) where
  paired-IsTidy :
      (nanos : ℕ) (id : String) (node : NodeId) (key : Bytes) (r : PairingResult)
      (m : ApplianceManager)
      → IsTidy m
      → IsTidy (after_pairing keys devices hash nanos id node key r m).1
  paired-IsTidy nanos id node key r m t = elim (Bool-cases r.success) [
    | inr refused ↦ rw refused t
    | inl accepted ↦ elim (Option-cases r.session_token) [
      | inl absent ↦ rw (accepted, absent) t
      | inr (session, drawn) ↦
          let d = new_device nanos id node key (hash session) in
          rw (accepted, drawn)
            (subst IsTidy
              (sym (
                state-and_then (on_devices m (store_device devices m.device_store d)) _
                  (λ a x. refl)))
              (stored-IsTidy devices m d t))
    ]
  ]

  pub complete_pairing-IsTidy :
      (secs nanos : ℕ) (session : String) (m : ApplianceManager) (r : PairingResponse) (id : String)
      (node : NodeId) (key : Bytes)
      → IsTidy m
      → IsTidy (complete_pairing keys devices hash secs nanos session m r id node key).1
  unfolding complete_pairing
  complete_pairing-IsTidy secs nanos session m r id node key t =
      let paired = Pairing.complete_pairing keys secs session m.pairing_manager r in
      let m1 : ApplianceManager = record m { pairing_manager = paired.1 } in
      let t1 : IsTidy m1 = record { owned = t.owned; writable = t.writable } in
      elim (Result-cases paired.0) [
        | inr (why, failed) ↦ rw failed t1
        | inl (x, got) ↦ rw got (paired-IsTidy nanos id node key x m1 t1)
      ]
