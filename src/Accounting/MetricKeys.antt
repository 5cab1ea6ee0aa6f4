-- ===== src/Accounting/MetricKeys.antt =====
-- The metrics of an `Observation` as the keys of a map.
use fleetdiff.Base.{ℕ, ◌≡◌, ◌↔◌, refl, true, arith, ◌==◌, Eq, Distinct, contains}
use fleetdiff.Accounting.Names.{
  Field, input, output, cache_read_input, cache_write_input, reasoning_output, Metric,
  requests_total, total_tokens_total, missing_token_usage_total, total_of, metrics,
}

abbrev field_number : Field → ℕ
field_number input = 0
field_number output = 1
field_number cache_read_input = 2
field_number cache_write_input = 3
field_number reasoning_output = 4

abbrev metric_number : Metric → ℕ
metric_number (total_of f) = field_number f
metric_number requests_total = 5
metric_number total_tokens_total = 6
metric_number missing_token_usage_total = 7

field_of_number : (f g : Field) → field_number f ≡ field_number g → f ≡ g
field_of_number f g e = ground arith

metric_of_number : (m n : Metric) → metric_number m ≡ metric_number n → m ≡ n
metric_of_number m n e = ground arith

pub metric_eq_iff : (m n : Metric) → ((metric_number m == metric_number n) ≡ true) ↔ (m ≡ n)
metric_eq_iff m n = (λ e. metric_of_number m n (ground arith), λ e. ground (arith, e))

instance abbrev pub metric_eq : Eq Metric
metric_eq = record { beq = λ m n. metric_number m == metric_number n; beq_iff = metric_eq_iff }

pub metrics-Distinct : Distinct metrics
unfolding contains
metrics-Distinct = (refl, (refl, (refl, (refl, (refl, (refl, (refl, (refl, tt))))))))

pub metrics-contains : (m : Metric) → contains metrics m ≡ true
unfolding contains
metrics-contains (total_of f) = ground arith
metrics-contains _ = refl
