-- ===== src/Updates/Schedule/Requests.antt =====
-- crates/myriadmesh-updates/src/schedule.rs: the requests to neighbours, their responses and their
-- clean-up.
use myriadmesh_server.Base.{
  ℕ, ◌+◌, ◌≤◌, ◌<◌, ◌≡◌, ◌↔◌, ◌⊎◌, ◌∙◌, refl, true, false, ◌||◌, Option, none, some, List, [], ◌∷◌,
  String, all_of, arith, ◌^◌, Bool, Bool-cases, inl, inr, ◌==◌, string_eq, same_refl, keep_if,
  if◌then◌else◌,
}
use myriadmesh_server.Base.Bytes.{bytes_eq}
use myriadmesh_server.Base.Map.{
  get, insert, retain, contains_key, Distinct, get-insert, get-retain, contains_key-insert,
}
use myriadmesh_server.Ledger.Entry.{NodeId}
use myriadmesh_server.Updates.Schedule.{
  UpdateScheduleRequest, UpdateScheduleResponse, UpdateScheduleManager, all_responded,
  record_response, record_sent_request, responses_to, response_node, is_recent,
  cleanup_old_requests,
}

all_of-cong {ℓ} :
    {A : Type ℓ} (p q : A → Bool) (xs : List A) → ((a : A) → p a ≡ q a) → all_of p xs ≡ all_of q xs
unfolding all_of
all_of-cong p q [] same = refl
all_of-cong p q (x ∷ xs) same = ground (arith, same x, all_of-cong p q xs same)

-- Once a response is recorded, all have responded to a request exactly if each of its
-- neighbours is the one that responds or has responded before.
pub all_responded-record_response :
    (m : UpdateScheduleManager) (id : String) (request : UpdateScheduleRequest)
    (neighbors : List NodeId) (response : UpdateScheduleResponse)
    → get m.sent_requests id ≡ some (request, neighbors)
    → all_responded (record_response m id response) id
      ≡ all_of (λ n. response_node response == n || contains_key (responses_to m id) n) neighbors
unfolding all_responded record_response
all_responded-record_response m id request neighbors response sent =
    rw
      (
        sent,
        get-insert m.received_responses id id
            (insert (responses_to m id) (response_node response) response),
        same_refl id,
      )
      (all_of-cong _ _ neighbors
        λ n. contains_key-insert (responses_to m id) (response_node response) n response)

-- A request that is sent to no neighbour never counts as answered by all while no response to
-- it is recorded.
pub no_neighbors_no_answer :
    (m : UpdateScheduleManager) (request : UpdateScheduleRequest)
    → get m.received_responses request.request_id ≡ none
    → all_responded (record_sent_request m request []) request.request_id ≡ false
unfolding all_responded record_sent_request
no_neighbors_no_answer m request silent =
    rw
      (
        get-insert m.sent_requests request.request_id request.request_id (request, []),
        same_refl request.request_id,
        silent,
      )
      refl

-- A request is recent when it is of the last day, and not of a later time than the clock's.
is_recent_iff :
    (now : ℕ) (request : UpdateScheduleRequest)
    → now < 2 ^ 63
    → request.schedule.created_at < 2 ^ 63
    → (is_recent now request ≡ true)
      ↔ ((request.schedule.created_at ≤ now) × (now < request.schedule.created_at + 86_400))
is_recent_iff now request hn hc = ground (arith, hn, hc)

keep_if-const {ℓ} :
    {V : Type ℓ} (b : Bool) (o : Option V) → keep_if (λ _. b) o ≡ (if b then o else none)
keep_if-const b none = ground arith
keep_if-const b (some v) = refl

-- A clean-up keeps a request, with its responses, if it was created within the last day, and
-- forgets both if it is older or dated after the time of the clean-up, where no key stands
-- twice and times are below two to the power 63.
pub cleanup_old_requests-keeps :
    (now : ℕ) (m : UpdateScheduleManager) (id : String) (request : UpdateScheduleRequest)
    (neighbors : List NodeId)
    → Distinct m.sent_requests
    → Distinct m.received_responses
    → get m.sent_requests id ≡ some (request, neighbors)
    → now < 2 ^ 63
    → request.schedule.created_at < 2 ^ 63
    → let cleaned = cleanup_old_requests now m in
      ((get cleaned.sent_requests id ≡ some (request, neighbors))
        × (get cleaned.received_responses id ≡ get m.received_responses id)
        × (request.schedule.created_at ≤ now)
        × (now < request.schedule.created_at + 86_400))
      ⊎ ((get cleaned.sent_requests id ≡ none)
          × (get cleaned.received_responses id ≡ none)
          × ((now < request.schedule.created_at) ⊎ (request.schedule.created_at + 86_400 ≤ now)))
unfolding cleanup_old_requests
cleanup_old_requests-keeps now m id request neighbors ds dr sent hn hc =
    let sent' = retain (λ j e. is_recent now e.0) m.sent_requests in
    let kept : get sent' id ≡ keep_if (λ e. is_recent now e.0) (get m.sent_requests id) =
      get-retain (λ j e. is_recent now e.0) m.sent_requests id ds in
    let answers : get (retain (λ j t. contains_key sent' j) m.received_responses) id
        ≡ (if contains_key sent' id then get m.received_responses id else none) =
      get-retain (λ j t. contains_key sent' j) m.received_responses id dr
      ∙ keep_if-const (contains_key sent' id) (get m.received_responses id) in
    elim (Bool-cases (is_recent now request)) [
      | inl recent ↦ inl (
        ground (arith, kept, sent, recent),
        ground (arith, kept, sent, recent, answers),
        ground (arith, recent),
        ground (arith, recent),
      )
      | inr old ↦ inr (
        ground (arith, kept, sent, old),
        ground (arith, kept, sent, old, answers),
        ground (arith, old),
      )
    ]
