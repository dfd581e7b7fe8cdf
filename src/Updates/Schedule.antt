-- ===== src/Updates/Schedule.antt =====
-- crates/myriadmesh-updates/src/schedule.rs: the windows of updates, the downtimes of peers and the
-- requests to neighbours. Times are counts of seconds in words that wrap, durations the seconds
-- that the code reads of them, and an operation is given the time that it reads.
pub mod Overlap
pub mod Requests
use myriadmesh_server.Base.{
  ℕ, Bool, true, false, not, ◌&&◌, Option, none, some, List, [], ◌∷◌, ◌++◌, String, ltb,
  if◌then◌else◌, add64, sub64, is_empty, select, any_of, all_of, or_empty, ◌==◌, string_eq, nat_eq,
}
use myriadmesh_server.Base.Bytes.{Bytes, bytes_eq}
use myriadmesh_server.Base.Map.{Map, values, retain, get, insert, remove, contains_key}
use myriadmesh_server.Base.Result.{Result, ok}
use myriadmesh_server.Ledger.Entry.{NodeId, Signature, AdapterType}
use myriadmesh_server.Updates.Error.{UpdateResult}
use myriadmesh_server.Updates.Package.{SemanticVersion}

pub record UpdateSchedule : Type 0 where
  pub node_id : NodeId
  pub adapter_type : AdapterType
  pub current_version : SemanticVersion
  pub target_version : SemanticVersion
  pub scheduled_start : ℕ
  pub estimated_duration : ℕ
  pub fallback_adapters : List AdapterType
  pub signature : Option Signature
  pub created_at : ℕ

unfoldable pub new_schedule :
    ℕ
    → NodeId
    → AdapterType
    → SemanticVersion
    → SemanticVersion
    → ℕ
    → ℕ
    → List AdapterType
    → UpdateSchedule
new_schedule now node adapter current target start duration fallbacks = record {
  node_id = node;
  adapter_type = adapter;
  current_version = current;
  target_version = target;
  scheduled_start = start;
  estimated_duration = duration;
  fallback_adapters = fallbacks;
  signature = none;
  created_at = now;
}

unfoldable pub scheduled_end : UpdateSchedule → ℕ
scheduled_end s = add64 s.scheduled_start s.estimated_duration

unfoldable pub overlaps_with : UpdateSchedule → UpdateSchedule → Bool
unfolding scheduled_end
overlaps_with s t =
    ltb s.scheduled_start (scheduled_end t) && ltb t.scheduled_start (scheduled_end s)

pub record UpdateScheduleRequest : Type 0 where
  pub schedule : UpdateSchedule
  pub request_id : String

-- The reason of a rejection is the fallback adapter that is not available.
pub data UpdateScheduleResponse : Type 0 where
  acknowledged : NodeId → List AdapterType → String → UpdateScheduleResponse
  reschedule : NodeId → ℕ → String → UpdateScheduleResponse
  rejected : NodeId → AdapterType → String → UpdateScheduleResponse

unfoldable pub response_node : UpdateScheduleResponse → NodeId
response_node (acknowledged node fallbacks id) = node
response_node (reschedule node proposed id) = node
response_node (rejected node adapter id) = node

unfoldable pub is_acknowledged : UpdateScheduleResponse → Bool
is_acknowledged (acknowledged node fallbacks id) = true
is_acknowledged (reschedule node proposed id) = false
is_acknowledged (rejected node adapter id) = false

pub record PeerDowntime : Type 0 where
  pub peer_id : NodeId
  pub adapter_type : AdapterType
  pub start_time : ℕ
  pub end_time : ℕ
  pub fallback_adapters : List AdapterType

-- `get(peer)`, or nothing for a peer that is not there
abbrev pub downtimes_of : Map NodeId (List PeerDowntime) → NodeId → List PeerDowntime
downtimes_of downtimes peer = or_empty (get downtimes peer)

unfoldable pub register_peer_downtime :
    Map NodeId (List PeerDowntime) → PeerDowntime → Map NodeId (List PeerDowntime)
register_peer_downtime downtimes d =
    insert downtimes d.peer_id (downtimes_of downtimes d.peer_id ++ (d ∷ []))

-- `values_mut()`
unfoldable pub map_values :
    (List PeerDowntime → List PeerDowntime)
    → Map NodeId (List PeerDowntime)
    → Map NodeId (List PeerDowntime)
map_values f [] = []
map_values f ((peer, list) ∷ rest) = (peer, f list) ∷ map_values f rest

unfoldable pub cleanup_expired_downtimes :
    ℕ → Map NodeId (List PeerDowntime) → Map NodeId (List PeerDowntime)
unfolding map_values
cleanup_expired_downtimes now downtimes =
    retain (λ peer list. not (is_empty list))
      (map_values (select (λ (d : PeerDowntime). ltb now d.end_time)) downtimes)

-- a time slot and a downtime have a time in common
abbrev pub meets : ℕ → ℕ → PeerDowntime → Bool
meets slot slot_end d = ltb slot d.end_time && ltb d.start_time slot_end

unfoldable pub has_conflict : Map NodeId (List PeerDowntime) → ℕ → ℕ → List NodeId → Bool
unfolding any_of
has_conflict downtimes slot duration neighbors =
    any_of (λ peer. any_of (meets slot (add64 slot duration)) (downtimes_of downtimes peer))
      neighbors

pub record UpdateScheduleManager : Type 0 where
  pub pending_schedules : Map AdapterType UpdateSchedule
  pub sent_requests : Map String (UpdateScheduleRequest × List NodeId)
  pub received_responses : Map String (Map NodeId UpdateScheduleResponse)

unfoldable pub new : UpdateScheduleManager
new = record { pending_schedules = []; sent_requests = []; received_responses = [] }

unfoldable pub add_pending_schedule : UpdateScheduleManager → UpdateSchedule → UpdateScheduleManager
add_pending_schedule m s = record m {
  pending_schedules = insert m.pending_schedules s.adapter_type s;
}

unfoldable pub get_pending_schedule : UpdateScheduleManager → AdapterType → Option UpdateSchedule
get_pending_schedule m adapter = get m.pending_schedules adapter

unfoldable pub remove_pending_schedule :
    UpdateScheduleManager → AdapterType → Option UpdateSchedule × UpdateScheduleManager
remove_pending_schedule m adapter = (
  get m.pending_schedules adapter,
  record m { pending_schedules = remove m.pending_schedules adapter },
)

unfoldable pub list_pending_schedules : UpdateScheduleManager → UpdateResult (List UpdateSchedule)
list_pending_schedules m = ok (values m.pending_schedules)

unfoldable pub record_sent_request :
    UpdateScheduleManager → UpdateScheduleRequest → List NodeId → UpdateScheduleManager
record_sent_request m request neighbors = record m {
  sent_requests = insert m.sent_requests request.request_id (request, neighbors);
}

-- the responses to a request, or none as yet
abbrev pub responses_to : UpdateScheduleManager → String → Map NodeId UpdateScheduleResponse
responses_to m id = or_empty (get m.received_responses id)

unfoldable pub record_response :
    UpdateScheduleManager → String → UpdateScheduleResponse → UpdateScheduleManager
unfolding response_node
record_response m id response = record m {
  received_responses =
      insert m.received_responses id (insert (responses_to m id) (response_node response) response);
}

abbrev pub each_responded :
    Option (UpdateScheduleRequest × List NodeId) → Option (Map NodeId UpdateScheduleResponse) → Bool
each_responded (some (request, neighbors)) (some table) = all_of (contains_key table) neighbors
each_responded (some sent) none = false
each_responded none table = false

unfoldable pub all_responded : UpdateScheduleManager → String → Bool
unfolding all_of
all_responded m id = each_responded (get m.sent_requests id) (get m.received_responses id)

unfoldable pub get_responses :
    UpdateScheduleManager → String → Option (Map NodeId UpdateScheduleResponse)
get_responses m id = get m.received_responses id

-- younger than 24 hours, in wrapping arithmetic
abbrev pub is_recent : ℕ → UpdateScheduleRequest → Bool
is_recent now request = ltb (sub64 now request.schedule.created_at) 86_400

unfoldable pub cleanup_old_requests : ℕ → UpdateScheduleManager → UpdateScheduleManager
cleanup_old_requests now m =
    let sent : Map String (UpdateScheduleRequest × List NodeId) =
      retain (λ id entry. is_recent now entry.0) m.sent_requests in
    record m {
      sent_requests = sent;
      received_responses = retain (λ id table. contains_key sent id) m.received_responses;
    }
