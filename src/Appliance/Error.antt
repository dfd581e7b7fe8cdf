-- ===== src/Appliance/Error.antt =====
-- crates/myriadmesh-appliance/src/types.rs: the errors of the appliance.
use myriadmesh_server.Base.{ℕ, String}
use myriadmesh_server.Base.Result.{Result}

pub data ApplianceError : Type 0 where
  device_not_found : String → ApplianceError
  device_already_paired : String → ApplianceError
  max_devices_reached : ℕ → ApplianceError
  invalid_pairing_token : String → ApplianceError
  pairing_expired : ApplianceError
  signature_verification_failed : ApplianceError
  cache_full : ApplianceError
  message_not_found : String → ApplianceError
  invalid_priority : ℕ → ApplianceError
  configuration : String → ApplianceError
  crypto : String → ApplianceError
  serialization : ApplianceError
  io : ApplianceError
  other : String → ApplianceError

abbrev pub ApplianceResult : Type 0 → Type 0
ApplianceResult = Result ApplianceError

-- What an operation returns, and the state that it leaves, after an error as well.
abbrev pub Outcome : Type 0 → Type 0 → Type 0
Outcome S A = ApplianceResult A × S
