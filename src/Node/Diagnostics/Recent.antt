-- ===== src/Node/Diagnostics/Recent.antt =====
-- myriadnode-full/src/diagnostics.rs: what a collector remembers, in any history of calls.
use myriadmesh_server.Base.{
  ℕ, zero, suc, ◌+◌, ◌-◌, ◌≤◌, ◌<◌, Bool, true, false, not, Option, none, some, inl, inr, ◌≡◌, refl,
  sym, ap, ◌∙◌, List, [], ◌∷◌, ◌++◌, String, ltb, if◌then◌else◌, length, drop, length-drop,
  Bool-cases, arith,
}
use myriadmesh_server.Node.Diagnostics.{
  DiagnosticsCollector, DiagnosticsConfig, FailureEvent, FailureType, InitCheckpoint, InitPhase,
  LifecycleEvent, LifecycleEventType, RouterHealthSnapshot, StartupMetadata, checkpoint, event,
  failure, max_events, max_init_checkpoints, push_bounded, set_startup_metadata,
  update_router_health, with_config,
}

module _ {ℓ} {A : Type ℓ} where
  -- the last ones of a list
  abbrev pub last_of : ℕ → List A → List A
  last_of n xs = drop (length xs - n) xs

  length-snoc : (xs : List A) (x : A) → length (xs ++ (x ∷ [])) ≡ length xs + 1
  length-snoc [] x = refl
  length-snoc (y ∷ xs) x = ground (arith, length-snoc xs x)

  drop-snoc :
      (k : ℕ) (xs : List A) (x : A)
      → k ≤ length xs
      → drop k (xs ++ (x ∷ [])) ≡ drop k xs ++ (x ∷ [])
  drop-snoc zero xs x h = refl
  drop-snoc (suc k) [] x h = absurd (omega (arith, h))
  drop-snoc (suc k) (y ∷ xs) x h = drop-snoc k xs x (omega (arith, h))

  drop-one : (k : ℕ) (xs : List A) → drop 1 (drop k xs) ≡ drop (suc k) xs
  drop-one zero [] = refl
  drop-one zero (x ∷ xs) = refl
  drop-one (suc k) [] = refl
  drop-one (suc k) (x ∷ xs) = drop-one k xs

  -- Pushing on the last ones leaves the last ones.
  push_bounded-last :
      (most : ℕ) (xs : List A) (x : A)
      → 0 < most
      → push_bounded most (last_of most xs) x ≡ last_of most (xs ++ (x ∷ []))
  unfolding push_bounded
  push_bounded-last most xs x h =
      let kept = length-drop (length xs - most) xs in
      let pushed = length-snoc (drop (length xs - most) xs) x in
      elim (Bool-cases (ltb (length xs) most)) [
        | inl short ↦
            let none_left : length xs - most ≡ 0 = ground (arith, short) in
            let none_more : length (xs ++ (x ∷ [])) - most ≡ 0 =
              ground (arith, short, length-snoc xs x) in
            let fits : ltb most (length (xs ++ (x ∷ []))) ≡ false =
              ground (arith, short, length-snoc xs x) in
            rw (none_left, none_more, fits) refl
        | inr long ↦
            let full : ltb most (length (drop (length xs - most) xs ++ (x ∷ []))) ≡ true =
              ground (arith, long, kept, pushed) in
            let more : length (xs ++ (x ∷ [])) - most ≡ suc (length xs - most) =
              ground (arith, long, length-snoc xs x) in
            rw (full, more)
              (ap (drop 1) (sym (drop-snoc (length xs - most) xs x (omega arith)))
                ∙ drop-one (length xs - most) (xs ++ (x ∷ [])))
      ]

  push_bounded-kept :
      (most : ℕ) (kept xs : List A) (x : A)
      → 0 < most
      → kept ≡ last_of most xs
      → push_bounded most kept x ≡ last_of most (xs ++ (x ∷ []))
  push_bounded-kept most kept xs x h e =
      ap (λ l. push_bounded most l x) e ∙ push_bounded-last most xs x h

-- The calls that a collector records, each with the time that it reads.
pub data Call : Type 0 where
  checkpointing : ℕ → InitPhase → ℕ → Bool → Option String → Call
  eventing : ℕ → LifecycleEventType → Option String → Call
  failing : ℕ → FailureType → String → String → Call
  checking_health : RouterHealthSnapshot → Call
  starting : StartupMetadata → Call

unfoldable pub perform : Call → DiagnosticsCollector → DiagnosticsCollector
perform (checkpointing now phase duration success error) c =
    checkpoint now c phase duration success error
perform (eventing now kind metadata) c = event now c kind metadata
perform (failing now kind context error) c = failure now c kind context error
perform (checking_health health) c = update_router_health c health
perform (starting metadata) c = set_startup_metadata c metadata

-- the collector after calls, the last one first
unfoldable pub run : List Call → DiagnosticsCollector → DiagnosticsCollector
unfolding perform
run [] c = c
run (call ∷ earlier) c = perform call (run earlier c)

-- the failures, the events and the checkpoints of the calls, the first one first
abbrev pub failure_of : Call → Option FailureEvent
failure_of (failing now kind context error) = some (record {
  timestamp = now;
  failure_type = kind;
  context = context;
  error = error;
  stack_trace = none;
})
failure_of (checkpointing now phase duration success error) = none
failure_of (eventing now kind metadata) = none
failure_of (checking_health health) = none
failure_of (starting metadata) = none

abbrev pub event_of : Call → Option LifecycleEvent
event_of (eventing now kind metadata) =
    some (record { timestamp = now; event = kind; metadata = metadata })
event_of (failing now kind context error) = none
event_of (checkpointing now phase duration success error) = none
event_of (checking_health health) = none
event_of (starting metadata) = none

abbrev pub checkpoint_of : Call → Option InitCheckpoint
checkpoint_of (checkpointing now phase duration success error) = some (record {
  timestamp = now;
  checkpoint = phase;
  duration_ms = duration;
  success = success;
  error = error;
})
checkpoint_of (eventing now kind metadata) = none
checkpoint_of (failing now kind context error) = none
checkpoint_of (checking_health health) = none
checkpoint_of (starting metadata) = none

abbrev pub add_if {ℓ} : {A : Type ℓ} → List A → Option A → List A
add_if xs none = xs
add_if xs (some x) = xs ++ (x ∷ [])

unfoldable pub in_order {ℓ} : {A : Type ℓ} → (Call → Option A) → List Call → List A
in_order f [] = []
in_order f (call ∷ earlier) = add_if (in_order f earlier) (f call)

-- What is remembered of calls, from a new collector on.
pub record Remembers (config : DiagnosticsConfig) (cs : List Call) (c : DiagnosticsCollector)
    : Type 0 where
  pub configured : c.config ≡ config
  pub failures : c.failures ≡ last_of max_events (in_order failure_of cs)
  pub events :
      c.lifecycle_events
      ≡ (if config.enabled then last_of max_events (in_order event_of cs) else [])
  pub checkpoints :
      c.init_checkpoints
      ≡ (if config.enabled then last_of max_init_checkpoints (in_order checkpoint_of cs) else [])

if_off :
    {A : Type 0} (P : A → Type 0) (test : Bool) (a b : A)
    → test ≡ false
    → P a
    → P (if not test then a else b)
if_off P test a b e p = rw e p

if_on :
    {A : Type 0} (P : A → Type 0) (test : Bool) (a b : A)
    → test ≡ true
    → P b
    → P (if not test then a else b)
if_on P test a b e p = rw e p

perform-Remembers :
    (config : DiagnosticsConfig) (call : Call) (cs : List Call) (c : DiagnosticsCollector)
    → Remembers config cs c
    → Remembers config (call ∷ cs) (perform call c)
unfolding perform in_order failure checkpoint event update_router_health set_startup_metadata
perform-Remembers config (failing now kind context error) cs c r = record {
  configured = r.configured;
  failures =
      push_bounded-kept max_events c.failures (in_order failure_of cs) _ (omega arith) r.failures;
  events = r.events;
  checkpoints = r.checkpoints;
}
perform-Remembers config (eventing now kind metadata) cs c r = elim (Bool-cases config.enabled) [
  | inr off ↦
      let ce : c.config.enabled ≡ false = ap (λ x. x.enabled) r.configured ∙ off in
      if_off (Remembers config _) c.config.enabled c _ ce (record {
        configured = r.configured;
        failures = r.failures;
        events = rw off (rw off at r.events);
        checkpoints = r.checkpoints;
      })
  | inl on ↦
      let ce : c.config.enabled ≡ true = ap (λ x. x.enabled) r.configured ∙ on in
      if_on (Remembers config _) c.config.enabled c _ ce (record {
        configured = r.configured;
        failures = r.failures;
        events = rw on (
            push_bounded-kept max_events c.lifecycle_events (in_order event_of cs) _ (omega arith)
              (rw on at r.events));
        checkpoints = r.checkpoints;
      })
]
perform-Remembers config (checkpointing now phase duration success error) cs c r =
    elim (Bool-cases config.enabled) [
      | inr off ↦
          let ce : c.config.enabled ≡ false = ap (λ x. x.enabled) r.configured ∙ off in
          if_off (Remembers config _) c.config.enabled c _ ce (record {
            configured = r.configured;
            failures = r.failures;
            events = r.events;
            checkpoints = rw off (rw off at r.checkpoints);
          })
      | inl on ↦
          let ce : c.config.enabled ≡ true = ap (λ x. x.enabled) r.configured ∙ on in
          if_on (Remembers config _) c.config.enabled c _ ce (record {
            configured = r.configured;
            failures = r.failures;
            events = r.events;
            checkpoints = rw on (
                push_bounded-kept max_init_checkpoints c.init_checkpoints
                  (in_order checkpoint_of cs) _ (omega arith) (rw on at r.checkpoints));
          })
    ]
perform-Remembers config (checking_health health) cs c r = record {
  configured = r.configured;
  failures = r.failures;
  events = r.events;
  checkpoints = r.checkpoints;
}
perform-Remembers config (starting metadata) cs c r = record {
  configured = r.configured;
  failures = r.failures;
  events = r.events;
  checkpoints = r.checkpoints;
}

-- Whatever is recorded by a new collector, it holds the last 10000 failures in order, and, if
-- it is enabled, the last 10000 events and the last 100 checkpoints, and none of these if it
-- is not.
pub run-Remembers :
    (config : DiagnosticsConfig) (session : String) (cs : List Call)
    → Remembers config cs (run cs (with_config config session))
unfolding run in_order with_config
run-Remembers config session [] = record {
  configured = refl;
  failures = refl;
  events = ground arith;
  checkpoints = ground arith;
}
run-Remembers config session (call ∷ cs) =
    perform-Remembers config call cs (run cs (with_config config session))
      (run-Remembers config session cs)
