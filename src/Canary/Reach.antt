-- ===== src/Canary/Reach.antt =====
-- Any sequence of starts, shadow evaluations, sweeps and promotions.
use reg_engine_ai.Base.{
  ℕ, String, ◌⊎◌, inl, inr, ◌≡◌, refl, ap, subst, Option, List, [], ◌∷◌, ok, ok-injective,
  bind_value, Result-cases,
}
use reg_engine_ai.Canary.Models.{
  FloatOps, CanaryRun, CanaryDecision, continue, promote_now, roll_back_now,
}
use reg_engine_ai.Canary.Store.{list_active}
use reg_engine_ai.Canary.Parity.{Thresholds, Answer, compare_and_record, check_rollback_spike}
use reg_engine_ai.Canary.Orchestrator.{
  World, ProductionRule, CandidateRow, CandidateNames, start_canary, evaluate_window, rollback,
  promote,
}
use reg_engine_ai.Canary.Sweep.{SweepOutcome, shadow_evaluate, sweep_runs, evaluate_canary_windows}
use reg_engine_ai.Canary.Tallies.{IsSound}
use reg_engine_ai.Canary.Lifecycle.{
  rollback-IsSound, promote-IsSound, start_canary-IsSound, compare_and_record-IsSound,
}

CanaryDecision-cases :
    (d : CanaryDecision) → (d ≡ roll_back_now) ⊎ ((d ≡ promote_now) ⊎ (d ≡ continue))
CanaryDecision-cases roll_back_now = inl refl
CanaryDecision-cases promote_now = inr (inl refl)
CanaryDecision-cases continue = inr (inr refl)

module _ {Float : Type 0} (flt : FloatOps Float) (t : Thresholds Float) where
  sweep_runs-IsSound :
      (reason : String) (now : ℕ) (rs : List (CanaryRun Float)) (o : SweepOutcome) (w : World Float)
      {o' : SweepOutcome} {w' : World Float}
      → sweep_runs flt t reason now rs o w ≡ ok (o', w')
      → IsSound w.store
      → IsSound w'.store
  unfolding sweep_runs
  sweep_runs-IsSound reason now [] o w e h = subst IsSound (ap (λ x. x.1.store) (ok-injective e)) h
  sweep_runs-IsSound reason now (r ∷ rs) o w e h =
      elim (CanaryDecision-cases (evaluate_window flt t now r.canary_id w.store)) [
        | inl rolls ↦
            let (after, done, rest) =
              bind_value (rollback r.canary_id reason now w) _ (rw (rolls, sweep_runs) at e) in
            sweep_runs-IsSound reason now rs _ after.1 rest
              (rollback-IsSound r.canary_id reason now w done h)
        | inr (inl promotes) ↦
            sweep_runs-IsSound reason now rs _ w (rw (promotes, sweep_runs) at e) h
        | inr (inr goes_on) ↦ sweep_runs-IsSound reason now rs _ w (rw (goes_on, sweep_runs) at e) h
      ]

  evaluate_canary_windows-IsSound :
      (reason : String) (now : ℕ) (w : World Float) {o : SweepOutcome} {w' : World Float}
      → evaluate_canary_windows flt t reason now w ≡ ok (o, w')
      → IsSound w.store
      → IsSound w'.store
  unfolding evaluate_canary_windows
  evaluate_canary_windows-IsSound reason now w e h =
      sweep_runs-IsSound reason now (list_active w.store) _ w e h

  shadow_evaluate-IsSound :
      (opa : String → Answer Float) (r : CanaryRun Float) (transaction_id reason : String) (now : ℕ)
      (w : World Float)
      → IsSound w.store
      → IsSound (shadow_evaluate flt t opa r transaction_id reason now w).store
  unfolding shadow_evaluate
  shadow_evaluate-IsSound opa r transaction_id reason now w h =
      elim (Result-cases (
        compare_and_record flt r.canary_id transaction_id (opa r.production_package)
          (opa r.candidate_package) w.store)) [
            | inl (x, failed) ↦ rw (failed, shadow_evaluate) h
            | inr ((c, s'), recorded) ↦
                let h' =
                  compare_and_record-IsSound flt r.canary_id transaction_id
                    (opa r.production_package) (opa r.candidate_package) w.store recorded h in
                let w' : World Float = record w { store = s' } in
                elim (CanaryDecision-cases (check_rollback_spike flt t r.canary_id s')) [
                  | inl rolls ↦ elim (Result-cases (rollback r.canary_id reason now w')) [
                    | inl (x, failed) ↦ rw (recorded, rolls, failed, shadow_evaluate) h'
                    | inr ((r', w''), done) ↦
                        rw (recorded, rolls, done, shadow_evaluate)
                          (rollback-IsSound r.canary_id reason now w' done h')
                  ]
                  | inr (inl promotes) ↦ rw (recorded, promotes, shadow_evaluate) h'
                  | inr (inr goes_on) ↦ rw (recorded, goes_on, shadow_evaluate) h'
                ]
          ]

-- One call of an entry point that returns.
pub data Moves {Float : Type 0} (flt : FloatOps Float) (t : Thresholds Float) (w : World Float)
    : World Float → Type 0 where
  starts :
      {w' : World Float} (names : CandidateNames) (production : ProductionRule) (candidate now : ℕ)
      (r : CanaryRun Float)
      → start_canary flt names production candidate now w ≡ ok (r, w')
      → Moves flt t w w'
  shadows :
      (opa : String → Answer Float) (r : CanaryRun Float) (transaction_id reason : String) (now : ℕ)
      → Moves flt t w (shadow_evaluate flt t opa r transaction_id reason now w)
  sweeps :
      {w' : World Float} (reason : String) (now : ℕ) (o : SweepOutcome)
      → evaluate_canary_windows flt t reason now w ≡ ok (o, w')
      → Moves flt t w w'
  promotes :
      {w' : World Float} (find_candidate : ℕ → Option CandidateRow) (k reason : String) (now : ℕ)
      (r : CanaryRun Float)
      → promote find_candidate k reason now w ≡ ok (r, w')
      → Moves flt t w w'

pub data Reaches {Float : Type 0} (flt : FloatOps Float) (t : Thresholds Float) (w : World Float)
    : World Float → Type 0 where
  stays : Reaches flt t w w
  moves : {v v' : World Float} → Reaches flt t w v → Moves flt t v v' → Reaches flt t w v'

module _ {Float : Type 0} (flt : FloatOps Float) (t : Thresholds Float) where
  Moves-IsSound : {w w' : World Float} → Moves flt t w w' → IsSound w.store → IsSound w'.store
  Moves-IsSound {w} (starts names production candidate now r e) h =
      start_canary-IsSound flt names production candidate now w e h
  Moves-IsSound {w} (shadows opa r transaction_id reason now) h =
      shadow_evaluate-IsSound flt t opa r transaction_id reason now w h
  Moves-IsSound {w} (sweeps reason now o e) h =
      evaluate_canary_windows-IsSound flt t reason now w e h
  Moves-IsSound {w} (promotes find_candidate k reason now r e) h =
      promote-IsSound find_candidate k reason now w e h

  -- From a sound store any sequence of starts, shadow evaluations, sweeps and promotions, one after
  -- another, leads to a sound one: every run's counters agree with its breakdown, and the set of the
  -- active runs names exactly the running ones.
  pub Reaches-IsSound :
      {w w' : World Float} → Reaches flt t w w' → IsSound w.store → IsSound w'.store
  Reaches-IsSound stays h = h
  Reaches-IsSound (moves before m) h = Moves-IsSound m (Reaches-IsSound before h)
