-- ===== src/Node/Heartbeat/Limiter.antt =====
-- myriadnode-full/src/heartbeat.rs: what the limiter lets through.
use myriadmesh_server.Base.{
  ℕ, ◌+◌, ◌≤◌, ◌≡◌, refl, ◌∙◌, true, false, some, List, [], ◌∷◌, All, arith, length, leb,
  Bool-cases, inl, inr, ◌==◌,
}
use myriadmesh_server.Base.Bytes.{bytes_eq}
use myriadmesh_server.Base.Map.{get, get-insert, get-insert_self}
use myriadmesh_server.Ledger.Entry.{NodeId}
use myriadmesh_server.Node.Heartbeat.{HeartbeatRateLimiter, limiter_allow, too_soon, pop_old}

-- the limiter after calls, each of a time and a node, the last one first
unfoldable pub run_limiter : HeartbeatRateLimiter → List (ℕ × NodeId) → HeartbeatRateLimiter
run_limiter r [] = r
run_limiter r ((now, node) ∷ earlier) = (limiter_allow now (run_limiter r earlier) node).1

-- A node was last let through at a time or later.
abbrev LastFrom : ℕ → NodeId → HeartbeatRateLimiter → Type 0
LastFrom t node r = (l : ℕ) × (get r.last_received node ≡ some l) × (t ≤ l)

allow-LastFrom :
    (t now : ℕ) (node other : NodeId) (r : HeartbeatRateLimiter)
    → t ≤ now
    → LastFrom t node r
    → LastFrom t node (limiter_allow now r other).1
unfolding limiter_allow
allow-LastFrom t now node other r after (l, last, from) =
    elim (Bool-cases (too_soon now r.min_interval (get r.last_received other))) [
      | inl soon ↦ rw soon (l, last, from)
      | inr free ↦ elim (Bool-cases (leb r.max_per_second (length (pop_old now r.recent)))) [
        | inl full ↦ rw (free, full) (l, last, from)
        | inr room ↦
            rw (free, room)
              (elim (Bool-cases (other == node)) [
                | inl same ↦
                    (now, ground (arith, same, get-insert r.last_received other node now), after)
                | inr differ ↦ (
                  l,
                  ground (arith, differ, last, get-insert r.last_received other node now),
                  from,
                )
              ])
      ]
    ]

run_limiter-LastFrom :
    (t : ℕ) (node : NodeId) (r : HeartbeatRateLimiter) (calls : List (ℕ × NodeId))
    → All (λ c. t ≤ c.0) calls
    → LastFrom t node r
    → LastFrom t node (run_limiter r calls)
unfolding run_limiter
run_limiter-LastFrom t node r [] after from = from
run_limiter-LastFrom t node r ((now, other) ∷ earlier) after from =
    allow-LastFrom t now node other (run_limiter r earlier) after.0
      (run_limiter-LastFrom t node r earlier after.1 from)

allowed-LastFrom :
    (t : ℕ) (node : NodeId) (r : HeartbeatRateLimiter)
    → (limiter_allow t r node).0 ≡ true
    → LastFrom t node (limiter_allow t r node).1
unfolding limiter_allow
allowed-LastFrom t node r let_in =
    elim (Bool-cases (too_soon t r.min_interval (get r.last_received node))) [
      | inl soon ↦ absurd (ground (arith, soon, let_in))
      | inr free ↦ elim (Bool-cases (leb r.max_per_second (length (pop_old t r.recent)))) [
        | inl full ↦ absurd (ground (arith, free, full, let_in))
        | inr room ↦ rw (free, room) (t, get-insert_self r.last_received node t, omega arith)
      ]
    ]

min_interval-allow :
    (t : ℕ) (node : NodeId) (r : HeartbeatRateLimiter)
    → (limiter_allow t r node).1.min_interval ≡ r.min_interval
unfolding limiter_allow
min_interval-allow t node r = ground arith

min_interval-run_limiter :
    (r : HeartbeatRateLimiter) (calls : List (ℕ × NodeId))
    → (run_limiter r calls).min_interval ≡ r.min_interval
unfolding run_limiter
min_interval-run_limiter r [] = refl
min_interval-run_limiter r ((now, other) ∷ earlier) =
    min_interval-allow now other (run_limiter r earlier) ∙ min_interval-run_limiter r earlier

allowed-not_soon :
    (t : ℕ) (node : NodeId) (r : HeartbeatRateLimiter)
    → (limiter_allow t r node).0 ≡ true
    → too_soon t r.min_interval (get r.last_received node) ≡ false
unfolding limiter_allow
allowed-not_soon t node r let_in =
    elim (Bool-cases (too_soon t r.min_interval (get r.last_received node))) [
      | inl soon ↦ absurd (ground (arith, soon, let_in))
      | inr free ↦ free
    ]

-- Between two heartbeats of a node that the limiter allows lies the least interval at least,
-- whatever calls are made between them, where the clock never runs back.
pub allowed_apart :
    (r : HeartbeatRateLimiter) (node : NodeId) (first second : ℕ) (between : List (ℕ × NodeId))
    → (limiter_allow first r node).0 ≡ true
    → All (λ c. first ≤ c.0) between
    → first ≤ second
    → (limiter_allow second (run_limiter (limiter_allow first r node).1 between) node).0 ≡ true
    → first + r.min_interval ≤ second
allowed_apart r node first second between let_in after later again =
    let once = (limiter_allow first r node).1 in
    let (l, last, from) =
      run_limiter-LastFrom first node once between after (allowed-LastFrom first node r let_in) in
    let free = allowed-not_soon second node (run_limiter once between) again in
    let interval : (run_limiter once between).min_interval ≡ r.min_interval =
      min_interval-run_limiter once between ∙ min_interval-allow first node r in
    ground (arith, last, from, free, interval, later)
