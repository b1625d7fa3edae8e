-- ===== src/Canary/Sweep.antt =====
-- app/canary/mirroring.py and the sweep of app/canary/tasks.py: what calls the orchestrator. A
-- promotion that the sweep enqueues runs later, as `promote`.
use reg_engine_ai.Base.{ℕ, ◌+◌, String, List, [], ◌∷◌, ◌++◌, Result, ok, err, ◌>>=◌}
use reg_engine_ai.Canary.Models.{
  FloatOps, CanaryRun, CanaryDecision, continue, promote_now, roll_back_now,
}
use reg_engine_ai.Canary.Store.{CanaryError, list_active}
use reg_engine_ai.Canary.Parity.{Thresholds, Answer, compare_and_record, check_rollback_spike}
use reg_engine_ai.Canary.Orchestrator.{World, evaluate_window, rollback}

-- How many runs go on, the promotions that were enqueued, and how many runs were rolled back.
pub record SweepOutcome : Type 0 where
  pub continued : ℕ
  pub enqueued : List String
  pub rolled_back_count : ℕ

module _ {Float : Type 0} (flt : FloatOps Float) (t : Thresholds Float) where
  abbrev after_rollback :
      World Float → Result CanaryError (CanaryRun Float × World Float) → World Float
  after_rollback w (err e) = w
  after_rollback w (ok (r, w')) = w'

  abbrev after_comparison : String → String → ℕ → World Float → CanaryDecision → World Float
  after_comparison canary_id reason now w roll_back_now =
      after_rollback w (rollback canary_id reason now w)
  after_comparison canary_id reason now w _ = w

  -- `opa` answers for a package; every exception is swallowed.
  unfoldable pub shadow_evaluate :
      (String → Answer Float) → CanaryRun Float → String → String → ℕ → World Float → World Float
  shadow_evaluate opa r transaction_id reason now w =
      elim (compare_and_record flt r.canary_id transaction_id (opa r.production_package)
        (opa r.candidate_package) w.store) [
          | err e ↦ w
          | ok (c, s') ↦
              after_comparison r.canary_id reason now (record w { store = s' })
                (check_rollback_spike flt t r.canary_id s')
        ]

  -- A `KeyError` or `ValueError` of a rollback ends the sweep.
  unfoldable pub sweep_runs :
      String
      → ℕ
      → List (CanaryRun Float)
      → SweepOutcome
      → World Float
      → Result CanaryError (SweepOutcome × World Float)
  sweep_runs reason now [] o w = ok (o, w)
  sweep_runs reason now (r ∷ rs) o w = elim (evaluate_window flt t now r.canary_id w.store) [
    | roll_back_now ↦ rollback r.canary_id reason now w >>= λ after.
        sweep_runs reason now rs (record o { rolled_back_count = o.rolled_back_count + 1 }) after.1
    | promote_now ↦
        sweep_runs reason now rs (record o { enqueued = o.enqueued ++ r.canary_id ∷ [] }) w
    | continue ↦ sweep_runs reason now rs (record o { continued = o.continued + 1 }) w
  ]

  unfoldable pub evaluate_canary_windows :
      String → ℕ → World Float → Result CanaryError (SweepOutcome × World Float)
  unfolding sweep_runs
  evaluate_canary_windows reason now w =
      sweep_runs reason now (list_active w.store)
        (record { continued = 0; enqueued = []; rolled_back_count = 0 }) w
