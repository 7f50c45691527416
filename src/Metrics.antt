-- ===== src/Metrics.antt =====
-- internal/metrics/metrics.go: the metrics and what is registered of them. Counting belongs to
-- prometheus.
use rond.Prelude.{ℕ, String, List, [], ◌∷◌}

-- `prometheus.NewHistogramVec`, with its labels.
pub record HistogramVec : Type 0 where
  pub namespace : String
  pub name : String
  pub help : String
  pub buckets : List ℕ
  pub labels : List String

pub record Metrics : Type 0 where
  pub policy_evaluation_duration_milliseconds : HistogramVec

abbrev pub setup_metrics : String → Metrics
setup_metrics prefix = record {
  policy_evaluation_duration_milliseconds = record {
    namespace = prefix;
    name = "policy_evaluation_duration_milliseconds";
    help = "A histogram of the policy evaluation durations in milliseconds.";
    buckets = 1 ∷ 5 ∷ 10 ∷ 50 ∷ 100 ∷ 250 ∷ 500 ∷ [];
    labels = "policy_name" ∷ [];
  };
}

pub data Collector : Type 0 where
  go_collector process_collector : Collector
  histogram : HistogramVec → Collector

-- What `MustRegister` hands to the registry.
abbrev pub must_register : Metrics → List Collector
must_register m =
    go_collector ∷ process_collector ∷ histogram m.policy_evaluation_duration_milliseconds ∷ []
