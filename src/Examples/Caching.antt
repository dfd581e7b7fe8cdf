-- ===== src/Examples/Caching.antt =====
-- The theorems on the message cache at a cache of two messages.
use myriadmesh_server.Base.{
  ◌≤◌, [], ◌∷◌, refl, ◌≡◌, none, some, true, false, arith, select, string_eq,
}
use myriadmesh_server.Base.Map
use myriadmesh_server.Base.Map.{get, values}
use myriadmesh_server.Base.Result.{err}
use myriadmesh_server.Appliance.Error.{cache_full}
use myriadmesh_server.Appliance.Cache.Message.{CachedMessage, outbound, low, urgent, high}
use myriadmesh_server.Appliance.Cache.{store}
use myriadmesh_server.Appliance.Cache.Entries.{MessageCache, Json, retrieve}
use myriadmesh_server.Appliance.Cache.Limits.{IsWithinLimits}
use myriadmesh_server.Appliance.Cache.History.{
  stay, call, perform, storing, marking, cleaning, reached-IsWithinLimits,
}
use myriadmesh_server.Appliance.Cache.Eviction.{waiting, store_full}
use myriadmesh_server.Appliance.Cache.Delivery.{IsRetrieval, asked_for, retrieve-IsRetrieval}

abbrev pub letter : CachedMessage
letter = record {
  message_id = "m1";
  device_id = "phone";
  direction = outbound;
  priority = low;
  payload = 1 ∷ [];
  metadata = none;
  received_at = 10;
  expires_at = 100;
  delivered = false;
  delivery_attempts = 0;
}

abbrev pub alarm : CachedMessage
alarm = record letter { message_id = "m2"; priority = urgent; received_at = 20; expires_at = 50 }

abbrev pub json : Json
json = record { to_string_pretty = λ m. some "{}"; from_str = λ text. some [] }

-- a cache that holds as many messages of the phone as it may
abbrev pub full : MessageCache
full = record {
  messages = ("m1", letter) ∷ ("m2", alarm) ∷ [];
  config = record { max_messages_per_device = 2; max_total_messages = 5 };
  file = record { contents = none; read_fails = false; write_fails = false };
}

abbrev pub empty : MessageCache
empty = record full { messages = [] }

empty-IsWithinLimits : IsWithinLimits json empty
unfolding select
empty-IsWithinLimits = record { distinct = tt; total = omega arith; per_device = λ d. omega arith }

full-Distinct : Map.Distinct full.messages
unfolding get
full-Distinct = (refl, (refl, tt))

full-IsWithinLimits : IsWithinLimits json full
unfolding select
full-IsWithinLimits = record {
  distinct = full-Distinct;
  total = omega arith;
  per_device = λ d. ground arith;
}

reached-IsWithinLimits_example : IsWithinLimits json (
    perform json
      (cleaning 60)
      (perform json (marking ("m1" ∷ [])) (perform json (storing 5 letter) empty)))
reached-IsWithinLimits_example =
    reached-IsWithinLimits json empty
      (perform json (cleaning 60)
        (perform json (marking ("m1" ∷ [])) (perform json (storing 5 letter) empty)))
      (call (cleaning 60) (call (marking ("m1" ∷ [])) (call (storing 5 letter) stay)))
      empty-IsWithinLimits

full_waiting : 2 ≤ waiting "phone" full.messages
unfolding select
full_waiting = omega arith

store_full_example :
    (store json 30 full (record letter { message_id = "m3"; priority = high })).0 ≡ err cache_full
store_full_example =
    store_full json 30 full (record letter { message_id = "m3"; priority = high })
      full-IsWithinLimits full_waiting

retrieve-IsRetrieval_example :
    IsRetrieval (asked_for full "phone" true) 1 (retrieve full "phone" (some 1) true)
retrieve-IsRetrieval_example = retrieve-IsRetrieval full "phone" (some 1) true
