-- ===== src/Canary/Parity.antt =====
-- app/canary/parity.py: one comparison of production and candidate, and the check for a spike.
use reg_engine_ai.Base.{
  ℕ, String, not, Option, none, some, Result, ok, err, ◌>>=◌, is_empty, leb, if◌then◌else◌,
}
use reg_engine_ai.Execution.Models.{Decision, allow, deny, flagged}
use reg_engine_ai.Execution.Evaluator.{OpaDecision, OpaEngineError, list_or_nil}
use reg_engine_ai.Canary.Models.{
  FloatOps, ComparisonResult, CanaryRun, CanaryDecision, continue, roll_back_now, divergence_pct,
}
use reg_engine_ai.Canary.Store.{CanaryStore, CanaryError, get_run, record_comparison}

unfoldable pub decision_from_opa_result : Option OpaDecision → Decision
decision_from_opa_result none = flagged
decision_from_opa_result (some d) = if is_empty (list_or_nil d.violations) then allow else deny

-- An answer of OPA is a result or an error; an error is flagged.
abbrev pub shadow_decision : Result OpaEngineError (Option OpaDecision) → Decision
shadow_decision (err e) = flagged
shadow_decision (ok result) = decision_from_opa_result result

pub record Thresholds (Float : Type 0) : Type 0 where
  pub promotion_max_divergence_pct : Float
  pub rollback_divergence_pct : Float
  pub rollback_min_sample_size : ℕ
  pub evaluation_window_seconds : ℕ

-- The answer of OPA and the time that it took.
pub record Answer (Float : Type 0) : Type 0 where
  pub result : Result OpaEngineError (Option OpaDecision)
  pub latency_ms : Float

module _ {Float : Type 0} (flt : FloatOps Float) where
  unfoldable pub compare_and_record :
      String
      → String
      → Answer Float
      → Answer Float
      → CanaryStore Float
      → Result CanaryError (ComparisonResult Float × CanaryStore Float)
  compare_and_record canary_id transaction_id production candidate s =
      let c : ComparisonResult Float = record {
        transaction_id = transaction_id;
        production_decision = shadow_decision production.result;
        candidate_decision = shadow_decision candidate.result;
        production_latency_ms = production.latency_ms;
        candidate_latency_ms = candidate.latency_ms;
      } in
      record_comparison flt canary_id c s >>= λ after. ok (c, after.1)

  abbrev pub spike_of : Thresholds Float → Option (CanaryRun Float) → CanaryDecision
  spike_of t none = continue
  spike_of t (some r) =
      if not (leb t.rollback_min_sample_size r.stats.total_compared)
      then continue
      else if flt.at_most t.rollback_divergence_pct (divergence_pct flt r.stats)
      then roll_back_now
      else continue

  unfoldable pub check_rollback_spike :
      Thresholds Float → String → CanaryStore Float → CanaryDecision
  unfolding divergence_pct
  check_rollback_spike t canary_id s = spike_of t (get_run canary_id s)
