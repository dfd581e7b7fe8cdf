-- ===== src/Examples/Updating.antt =====
-- The theorems on the distribution and the coordination of updates, at a few calls.
use myriadmesh_server.Base.{
  ℕ, ◌+◌, ◌*◌, ◌<◌, ◌≡◌, refl, false, some, none, List, [], ◌∷◌, All, arith, ltb, ◌==◌, nat_eq,
  string_eq, select,
}
use myriadmesh_server.Base.Bytes.{bytes_eq, bytes_beq}
use myriadmesh_server.Base.Map.{get, insert}
use myriadmesh_server.Base.Counts.{update}
use myriadmesh_server.Base.Sets.{set_insert}
use myriadmesh_server.Base.Result.{ok}
use myriadmesh_server.Updates.Package.{is_critical_security_update, second}
use myriadmesh_server.Updates.Distribution.{get_ready_updates}
use myriadmesh_server.Updates.Distribution.Ready.{
  Call, adding, verifying, marking, run, IsJustified, get_ready_updates-IsJustified,
}
use myriadmesh_server.Updates.Coordination.{
  UpdateCoordinator, receive_update_package, schedule_adapter_update, handle_schedule_request,
}
use myriadmesh_server.Updates.Coordination.Receive.{Settles, receive_update_package-Settles}
use myriadmesh_server.Updates.Coordination.Accept.{
  Answers, Plans, handle_schedule_request-Answers, schedule_adapter_update-Plans,
}
use myriadmesh_server.Updates.Schedule.{
  UpdateSchedule, UpdateScheduleRequest, UpdateScheduleResponse, UpdateScheduleManager,
}
use myriadmesh_server.Updates.Window.{find_optimal_window, evaluate_update_slot}
use myriadmesh_server.Updates.Window.Best.{find_optimal_window-best}
use myriadmesh_server.Examples.Numbers.{halves, halves-IsStrict}
use myriadmesh_server.Examples.Packages.{toy_crypto, toy_verifier, signed_thrice, release}

abbrev calls : List Call
calls =
    marking 2 "1.2.0"
    ∷ verifying 2 "1.2.0" (1 ∷ [])
    ∷ verifying 2 "1.2.0" (2 ∷ [])
    ∷ verifying 2 "1.2.0" (3 ∷ [])
    ∷ verifying 2 "1.2.0" (4 ∷ [])
    ∷ verifying 2 "1.2.0" (5 ∷ [])
    ∷ adding 0 release
    ∷ []

get_ready_updates-IsJustified_example :
    All (IsJustified (21_600 * second) calls) (get_ready_updates (21_600 * second) (run calls))
get_ready_updates-IsJustified_example = get_ready_updates-IsJustified (21_600 * second) calls

-- The package is ready, at the end of the period and not before.
ready_after_six_hours : get_ready_updates (21_600 * second) (run calls) ≡ release ∷ []
unfolding get_ready_updates run update insert select is_critical_security_update set_insert
    bytes_beq
ready_after_six_hours = refl

abbrev coordinator : UpdateCoordinator
coordinator = record {
  node_id = 8 ∷ [];
  schedules = record { pending_schedules = []; sent_requests = []; received_responses = [] };
  distribution = record { pending_updates = []; installed_updates = []; max_pending = 100 };
  windows = record { peer_downtimes = []; network_load_history = [] };
  verifier = some toy_verifier;
  adapter_versions = (2, "1.1.0") ∷ [];
  adapter_neighbors = (2, (1 ∷ []) ∷ []) ∷ [];
  available_adapters = 2 ∷ 3 ∷ [];
}

receive_update_package-Settles_example :
    Settles toy_crypto 7
      (λ v w. v == w)
      coordinator
      signed_thrice
      (receive_update_package toy_crypto 7 (λ v w. v == w) coordinator signed_thrice).0
      (receive_update_package toy_crypto 7 (λ v w. v == w) coordinator signed_thrice).1
receive_update_package-Settles_example =
    receive_update_package-Settles toy_crypto 7 (λ v w. v == w) coordinator signed_thrice

find_optimal_window-best_example :
    let score = λ (slot : ℕ).
      evaluate_update_slot halves 36_000 coordinator.windows slot ((1 ∷ []) ∷ []) 600 in
    (j : ℕ) × (j < 288)
    × (find_optimal_window halves (λ slot. 36_000) 36_000 coordinator.windows ((1 ∷ []) ∷ []) 600
        ≡ ok (36_000 + 300 * j))
    × (ltb (score (36_000 + 300 * j)) (score (36_000 + 300 * 5)) ≡ false)
unfolding evaluate_update_slot get
find_optimal_window-best_example =
    find_optimal_window-best halves halves-IsStrict (λ slot. 36_000) 36_000 coordinator.windows
      ((1 ∷ []) ∷ []) 600 5 (omega arith) refl (omega arith)

abbrev window : ℕ → UpdateSchedule
window start = record {
  node_id = 1 ∷ [];
  adapter_type = 2;
  current_version = "1.1.0";
  target_version = "1.2.0";
  scheduled_start = start;
  estimated_duration = 600;
  fallback_adapters = 3 ∷ [];
  signature = none;
  created_at = 100;
}

handle_schedule_request-Answers_example :
    (r : UpdateScheduleResponse) × ((handle_schedule_request halves
        (λ slot. 500)
        500
        coordinator
        (window 1000)
        "id").0
      ≡ ok r)
    × Answers halves
        (λ slot. 500)
        500
        coordinator
        (window 1000)
        "id"
        r
        (handle_schedule_request halves (λ slot. 500) 500 coordinator (window 1000) "id").1
handle_schedule_request-Answers_example =
    handle_schedule_request-Answers halves (λ slot. 500) 500 coordinator (window 1000) "id"

schedule_adapter_update-Plans_example :
    Plans coordinator 2 "1.2.0"
      (schedule_adapter_update halves (λ slot. 500) 500 coordinator 2 "1.2.0" 600).0
      (schedule_adapter_update halves (λ slot. 500) 500 coordinator 2 "1.2.0" 600).1
schedule_adapter_update-Plans_example =
    schedule_adapter_update-Plans halves (λ slot. 500) 500 coordinator 2 "1.2.0" 600

abbrev asked : UpdateScheduleRequest
asked = record { schedule = window 1000; request_id = "r" }

abbrev asking : UpdateScheduleManager
asking = record {
  pending_schedules = [];
  sent_requests = ("r", (asked, (1 ∷ []) ∷ [])) ∷ [];
  received_responses = [];
}
