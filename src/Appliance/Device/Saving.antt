-- ===== src/Appliance/Device/Saving.antt =====
-- crates/myriadmesh-appliance/src/device.rs: what a call leaves of the devices, whether the file can
-- be written or not.
use myriadmesh_server.Base.{
  ℕ, true, false, Option, none, some, inl, inr, ◌≡◌, refl, String, string_eq, is_some, arith,
  Bool-cases, Option-cases,
}
use myriadmesh_server.Base.Map.{insert, remove, get-insert_self}
use myriadmesh_server.Base.Counts.{update}
use myriadmesh_server.Base.Result.{ok}
use myriadmesh_server.Appliance.Device.{
  Devices, DeviceJson, DeviceStore, PairedDevice, delete_device, get_device, save_devices, seen_at,
  store_device, update_last_seen, write_text,
}

module _ (json : DeviceJson) where
  devices-write_text :
      (s : DeviceStore) (text : Option String) → (write_text json s text).1.devices ≡ s.devices
  devices-write_text s none = refl
  devices-write_text s (some text) = elim (Bool-cases s.file.write_fails) [
    | inl broken ↦ rw broken refl
    | inr writable ↦ rw writable refl
  ]

  devices-save_devices : (s : DeviceStore) → (save_devices json s).1.devices ≡ s.devices
  unfolding save_devices
  devices-save_devices s = devices-write_text s (json.to_string_pretty s.devices)

  pub devices-store_device :
      (s : DeviceStore) (d : PairedDevice)
      → (store_device json s d).1.devices ≡ insert s.devices d.device_id d
  unfolding store_device
  devices-store_device s d =
      devices-save_devices (record s { devices = insert s.devices d.device_id d })

  pub devices-delete_device :
      (s : DeviceStore) (id : String) → (delete_device json s id).1.devices ≡ remove s.devices id
  unfolding delete_device
  devices-delete_device s id = devices-save_devices (record s { devices = remove s.devices id })

  pub devices-update_last_seen :
      (now : ℕ) (s : DeviceStore) (id : String)
      → (update_last_seen json now s id).1.devices ≡ update s.devices id (seen_at now)
  unfolding update_last_seen
  devices-update_last_seen now s id =
      devices-save_devices (record s { devices = update s.devices id (seen_at now) })

  write_fails-write_text :
      (s : DeviceStore) (text : Option String)
      → (write_text json s text).1.file.write_fails ≡ s.file.write_fails
  write_fails-write_text s none = refl
  write_fails-write_text s (some text) = elim (Bool-cases s.file.write_fails) [
    | inl broken ↦ rw broken refl
    | inr writable ↦ rw writable refl
  ]

  write_fails-save_devices :
      (s : DeviceStore) → (save_devices json s).1.file.write_fails ≡ s.file.write_fails
  unfolding save_devices
  write_fails-save_devices s = write_fails-write_text s (json.to_string_pretty s.devices)

  -- No call changes whether the file of the devices can be written.
  pub write_fails-store_device :
      (s : DeviceStore) (d : PairedDevice)
      → (store_device json s d).1.file.write_fails ≡ s.file.write_fails
  unfolding store_device
  write_fails-store_device s d =
      write_fails-save_devices (record s { devices = insert s.devices d.device_id d })

  pub write_fails-delete_device :
      (s : DeviceStore) (id : String)
      → (delete_device json s id).1.file.write_fails ≡ s.file.write_fails
  unfolding delete_device
  write_fails-delete_device s id =
      write_fails-save_devices (record s { devices = remove s.devices id })

  pub write_fails-update_last_seen :
      (now : ℕ) (s : DeviceStore) (id : String)
      → (update_last_seen json now s id).1.file.write_fails ≡ s.file.write_fails
  unfolding update_last_seen
  write_fails-update_last_seen now s id =
      write_fails-save_devices (record s { devices = update s.devices id (seen_at now) })

  -- A device is deleted without an error where the devices can be serialised and written.
  pub delete_device-written :
      (s : DeviceStore) (id : String)
      → ((d : Devices) → is_some (json.to_string_pretty d) ≡ true)
      → s.file.write_fails ≡ false
      → (delete_device json s id).0 ≡ ok tt
  unfolding delete_device save_devices
  delete_device-written s id total writable =
      elim (Option-cases (json.to_string_pretty (remove s.devices id))) [
        | inl failed ↦ absurd (ground (arith, total (remove s.devices id), failed))
        | inr (text, printed) ↦ rw (printed, writable) refl
      ]

  -- A device that is stored is the one found under its identifier.
  pub get_device-store_device :
      (s : DeviceStore) (d : PairedDevice)
      → get_device (store_device json s d).1 d.device_id ≡ some d
  unfolding get_device
  get_device-store_device s d =
      rw (devices-store_device s d) (get-insert_self s.devices d.device_id d)
