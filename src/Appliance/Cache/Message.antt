-- ===== src/Appliance/Cache/Message.antt =====
-- crates/myriadmesh-appliance/src/cache.rs: a cached message, and the orders of messages.
use myriadmesh_server.Base.{
  ℕ, ◌+◌, ◌-◌, ◌*◌, ◌/◌, Bool, false, ◌&&◌, ◌||◌, Option, none, some, List, [], ◌∷◌, String, ltb,
  leb, eqb, if◌then◌else◌,
}
use myriadmesh_server.Base.Bytes.{Bytes}
use myriadmesh_server.Base.Result.{ok, err}
use myriadmesh_server.Appliance.Error.{ApplianceResult, invalid_priority}

pub data MessagePriority : Type 0 where
  low normal high urgent : MessagePriority

unfoldable pub default_ttl_days : MessagePriority → ℕ
default_ttl_days low = 3
default_ttl_days normal = 7
default_ttl_days high = 14
default_ttl_days urgent = 7

-- the discriminant, which the derived order compares
abbrev pub rank : MessagePriority → ℕ
rank low = 0
rank normal = 1
rank high = 2
rank urgent = 3

unfoldable pub from_u8 : ℕ → ApplianceResult MessagePriority
from_u8 value =
    if eqb value 0
    then ok low
    else (if eqb value 1
        then ok normal
        else (if eqb value 2
            then ok high
            else (if eqb value 3 then ok urgent else err (invalid_priority value))))

pub data MessageDirection : Type 0 where
  inbound outbound : MessageDirection

pub record CachedMessage : Type 0 where
  pub message_id : String
  pub device_id : String
  pub direction : MessageDirection
  pub priority : MessagePriority
  pub payload : Bytes
  pub metadata : Option String
  pub received_at : ℕ
  pub expires_at : ℕ
  pub delivered : Bool
  pub delivery_attempts : ℕ

-- the milliseconds of a day
abbrev pub day : ℕ
day = 24 * 3600 * 1000

-- the values for the identifiers, the payload and the rest; `now` is the time that is read
unfoldable pub new :
    ℕ
    → String
    → String
    → MessageDirection
    → MessagePriority
    → Bytes
    → Option String
    → Option ℕ
    → CachedMessage
unfolding default_ttl_days
new now message_id device_id direction priority payload metadata ttl_days =
    let ttl : ℕ = elim ttl_days [ none ↦ default_ttl_days priority | some days ↦ days ] in
    record {
      message_id = message_id;
      device_id = device_id;
      direction = direction;
      priority = priority;
      payload = payload;
      metadata = metadata;
      received_at = now;
      expires_at = now + ttl * day;
      delivered = false;
      delivery_attempts = 0;
    }

unfoldable pub is_expired : ℕ → CachedMessage → Bool
is_expired now m = ltb m.expires_at now

-- `(a.priority, a.received_at) <= (b.priority, b.received_at)`: what is evicted first
abbrev pub device_order : String × CachedMessage → String × CachedMessage → Bool
device_order (_, a) (_, b) =
    ltb (rank a.priority) (rank b.priority)
    || (eqb (rank a.priority) (rank b.priority) && leb a.received_at b.received_at)

-- `(b.priority, a.received_at) <= (a.priority, b.received_at)`: what is delivered first
abbrev pub delivery_order : CachedMessage → CachedMessage → Bool
delivery_order a b =
    ltb (rank b.priority) (rank a.priority)
    || (eqb (rank b.priority) (rank a.priority) && leb a.received_at b.received_at)

-- A signed number of seconds: of the past, or so many of the future.
pub data Seconds : Type 0 where
  ago ahead : ℕ → Seconds

-- `now.signed_duration_since(time).num_seconds()`, which rounds towards zero
unfoldable pub seconds_between : ℕ → ℕ → Seconds
seconds_between now time =
    if leb time now
    then ago ((now - time) / 1000)
    else (if ltb (time - now) 1000 then ago 0 else ahead ((time - now) / 1000))

abbrev pub later : Seconds → Seconds → Seconds
later (ago a) (ago b) = if leb a b then ago b else ago a
later (ago a) (ahead b) = ago a
later (ahead a) (ago b) = ago b
later (ahead a) (ahead b) = if leb a b then ahead a else ahead b

-- `max().unwrap_or(0)`
unfoldable pub longest : List Seconds → Seconds
longest [] = ago 0
longest (x ∷ []) = x
longest (x ∷ y ∷ xs) = later x (longest (y ∷ xs))
