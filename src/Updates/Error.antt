-- ===== src/Updates/Error.antt =====
-- crates/myriadmesh-updates/src/lib.rs: the errors of the update system. A text that the code
-- formats is kept as the values it is formatted from.
use myriadmesh_server.Base.{ℕ, Option, String}
use myriadmesh_server.Base.Bytes.{Bytes}
use myriadmesh_server.Base.Result.{Result}

-- why a package does not pass the verification, with the number of its trusted signatures
pub data Reason : Type 0 where
  publisher_signature_failed unknown_reason : Reason
  insufficient_for_official insufficient_trusted : ℕ → Reason

pub data UpdateError : Type 0 where
  insufficient_signatures : Reason → UpdateError
  invalid_signature schedule_conflict other : String → UpdateError
  no_fallback_adapters verification_period_not_elapsed serialization io crypto : UpdateError
  hash_mismatch : Bytes → Option Bytes → UpdateError

abbrev pub UpdateResult : Type 0 → Type 0
UpdateResult = Result UpdateError

-- What an operation returns, and the state that it leaves, after an error as well.
abbrev pub Outcome : Type 0 → Type 0 → Type 0
Outcome S A = UpdateResult A × S
