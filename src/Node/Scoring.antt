-- ===== src/Node/Scoring.antt =====
-- myriadnode-full/src/scoring.rs: the weighted scores of adapters and their ranking. The arithmetic
-- of doubles is a parameter. A list stands for a table in the order in which it is iterated.
pub mod Ranking
use myriadmesh_server.Base.{
  ℕ, ◌*◌, Bool, true, false, not, Option, none, some, List, [], ◌∷◌, map, String, if◌then◌else◌,
}
use myriadmesh_server.Base.Double.{Double, F64, clamp_unit}
use myriadmesh_server.Base.Map.{Map}
use myriadmesh_server.Base.Sort.{sort_by}

pub record ScoringWeights : Type 0 where
  pub latency : F64
  pub bandwidth : F64
  pub reliability : F64
  pub power : F64
  pub privacy : F64

pub record AdapterMetrics : Type 0 where
  pub latency_ms : F64
  pub bandwidth_bps : ℕ
  pub reliability : F64
  pub power_consumption : F64
  pub privacy_level : F64

pub record AdapterScore : Type 0 where
  pub adapter_id : String
  pub total_score : F64
  pub latency_score : F64
  pub bandwidth_score : F64
  pub reliability_score : F64
  pub power_score : F64
  pub privacy_score : F64

pub record AdapterScorer : Type 0 where
  pub weights : ScoringWeights
  pub max_bandwidth_bps : ℕ
  pub max_latency_ms : F64

-- `into_iter().next()`
abbrev pub first_of {ℓ} : {A : Type ℓ} → List A → Option A
first_of [] = none
first_of (x ∷ xs) = some x

module _ (d : Double) where
  -- weights in hundredths
  abbrev pub weigh : ℕ → ℕ → ℕ → ℕ → ℕ → ScoringWeights
  weigh latency bandwidth reliability power privacy = record {
    latency = d.lit latency 100;
    bandwidth = d.lit bandwidth 100;
    reliability = d.lit reliability 100;
    power = d.lit power 100;
    privacy = d.lit privacy 100;
  }

  unfoldable pub default_weights : ScoringWeights
  default_weights = weigh 25 20 30 10 15

  unfoldable pub battery_optimized : ScoringWeights
  battery_optimized = weigh 15 10 25 40 10

  unfoldable pub performance_optimized : ScoringWeights
  performance_optimized = weigh 35 30 20 5 10

  unfoldable pub reliability_optimized : ScoringWeights
  reliability_optimized = weigh 10 10 65 5 10

  unfoldable pub privacy_optimized : ScoringWeights
  privacy_optimized = weigh 10 5 20 10 55

  abbrev pub sum_of_weights : ScoringWeights → F64
  sum_of_weights w =
      d.add (d.add (d.add (d.add w.latency w.bandwidth) w.reliability) w.power) w.privacy

  unfoldable pub is_valid : ScoringWeights → Bool
  is_valid w = d.lt (d.abs (d.sub (sum_of_weights w) (d.lit 1 1))) (d.lit 1 100)

  unfoldable pub normalize : ScoringWeights → ScoringWeights
  normalize w =
      let sum : F64 = sum_of_weights w in
      if d.lt (d.lit 0 1) sum
      then record {
        latency = d.div w.latency sum;
        bandwidth = d.div w.bandwidth sum;
        reliability = d.div w.reliability sum;
        power = d.div w.power sum;
        privacy = d.div w.privacy sum;
      }
      else w

  -- 100 Mbps and one second
  unfoldable pub new_scorer : ScoringWeights → AdapterScorer
  new_scorer weights = record {
    weights = weights;
    max_bandwidth_bps = 100_000_000;
    max_latency_ms = d.lit 1000 1;
  }

  unfoldable pub new_with_defaults : AdapterScorer
  unfolding new_scorer default_weights
  new_with_defaults = new_scorer default_weights

  unfoldable pub score_latency : AdapterScorer → F64 → F64
  score_latency s latency =
      if d.le latency (d.lit 0 1)
      then d.lit 1 1
      else clamp_unit d (d.sub (d.lit 1 1) (d.div latency s.max_latency_ms))

  -- `min(1.0)`, which takes 1 for a NaN
  unfoldable pub score_bandwidth : AdapterScorer → ℕ → F64
  score_bandwidth s bandwidth =
      let share : F64 = d.div (d.of_nat bandwidth) (d.of_nat s.max_bandwidth_bps) in
      if d.le share (d.lit 1 1) then share else d.lit 1 1

  unfoldable pub score_power : F64 → F64
  score_power consumption = clamp_unit d (d.sub (d.lit 1 1) consumption)

  unfoldable pub calculate_score : AdapterScorer → String → AdapterMetrics → AdapterScore
  unfolding score_latency score_bandwidth score_power
  calculate_score s id m =
      let w : ScoringWeights = s.weights in
      let latency : F64 = score_latency s m.latency_ms in
      let bandwidth : F64 = score_bandwidth s m.bandwidth_bps in
      let power : F64 = score_power m.power_consumption in
      record {
        adapter_id = id;
        total_score =
            d.add
              (d.add
                (d.add (d.add (d.mul latency w.latency) (d.mul bandwidth w.bandwidth))
                  (d.mul m.reliability w.reliability))
                (d.mul power w.power))
              (d.mul m.privacy_level w.privacy);
        latency_score = latency;
        bandwidth_score = bandwidth;
        reliability_score = m.reliability;
        power_score = power;
        privacy_score = m.privacy_level;
      }

  -- `b.partial_cmp(a)`, where what cannot be compared counts as equal, is not `Greater`
  abbrev pub ranks_before : AdapterScore → AdapterScore → Bool
  ranks_before a b = not (d.lt a.total_score b.total_score)

  unfoldable pub rank_adapters : AdapterScorer → Map String AdapterMetrics → List AdapterScore
  unfolding calculate_score
  rank_adapters s adapters = sort_by ranks_before (map (λ e. calculate_score s e.0 e.1) adapters)

  unfoldable pub get_best_adapter : AdapterScorer → Map String AdapterMetrics → Option AdapterScore
  unfolding rank_adapters
  get_best_adapter s adapters = first_of (rank_adapters s adapters)

unfoldable pub set_weights : AdapterScorer → ScoringWeights → AdapterScorer
set_weights s weights = record s { weights = weights }
