-- ===== src/Canary/Lifecycle.antt =====
-- What the entry points of the canary keep, in any order of calls that run one after another.
use reg_engine_ai.Base.{
  ℕ, String, inl, inr, ◌≡◌, refl, ap, subst, ◌&&◌, Option, none, some, arith, ok, ok-injective,
  bind_value, Bool-cases,
}
use reg_engine_ai.Canary.Models.{FloatOps, ComparisonResult, CanaryRun, is_running, promoted}
use reg_engine_ai.Canary.Store.{
  CanaryStore, get_run, or_no_such_run, resolve_run, mark_promoted, mark_rolled_back,
  record_comparison,
}
use reg_engine_ai.Canary.Parity.{Answer, compare_and_record}
use reg_engine_ai.Canary.Orchestrator.{
  World, ProductionRule, CandidateNames, CandidateRow, has_package, publish_approved,
  remove_candidate, publish_and_mark, start_canary, rollback, promote,
}
use reg_engine_ai.Canary.Tallies.{
  IsSound, record_comparison-IsSound, create_run-IsSound, resolve_run-IsSound,
}

module _ {Float : Type 0} where
  pub rollback-IsSound :
      (k reason : String) (now : ℕ) (w : World Float) {r : CanaryRun Float} {w' : World Float}
      → rollback k reason now w ≡ ok (r, w')
      → IsSound w.store
      → IsSound w'.store
  unfolding rollback mark_rolled_back
  rollback-IsSound k reason now w e h =
      let (r, read, rest) = bind_value (or_no_such_run (get_run k w.store)) _ e in
      elim (Bool-cases (is_running r.status)) [
        | inl live ↦
            let (after, marked, done) =
              bind_value (mark_rolled_back k reason now w.store) _ (rw live at rest) in
            subst IsSound (ap (λ x. x.1.store) (ok-injective done))
              (resolve_run-IsSound k _ reason now w.store refl marked h)
        | inr over ↦ subst IsSound (ap (λ x. x.1.store) (ok-injective (rw over at rest))) h
      ]

  published-IsSound :
      (k reason : String) (now : ℕ) (r : CanaryRun Float) (row : Option CandidateRow)
      (w : World Float) {r' : CanaryRun Float} {w' : World Float}
      → publish_and_mark k reason now r row w ≡ ok (r', w')
      → IsSound w.store
      → IsSound w'.store
  unfolding publish_approved remove_candidate mark_promoted
  published-IsSound k reason now r none w e h = absurd (ground arith)
  published-IsSound k reason now r (some row) w e h =
      elim (Bool-cases (has_package row.rego_policy && has_package row.opa_package_name)) [
        | inl given ↦
            let (after, marked, done) =
              bind_value (resolve_run k promoted reason now w.store) _ (rw given at e) in
            subst IsSound (ap (λ x. x.1.store) (ok-injective done))
              (resolve_run-IsSound k _ reason now w.store refl marked h)
        | inr missing ↦ absurd (ground (arith, missing, e))
      ]

  pub promote-IsSound :
      (find_candidate : ℕ → Option CandidateRow) (k reason : String) (now : ℕ) (w : World Float)
      {r : CanaryRun Float} {w' : World Float}
      → promote find_candidate k reason now w ≡ ok (r, w')
      → IsSound w.store
      → IsSound w'.store
  unfolding promote
  promote-IsSound find_candidate k reason now w e h =
      let (r, read, rest) = bind_value (or_no_such_run (get_run k w.store)) _ e in
      elim (Bool-cases (is_running r.status)) [
        | inl live ↦
            published-IsSound k reason now r (find_candidate r.candidate_compiled_rule_id) w
              (rw live at rest) h
        | inr over ↦ subst IsSound (ap (λ x. x.1.store) (ok-injective (rw over at rest))) h
      ]

module _ {Float : Type 0} (flt : FloatOps Float) where
  pub start_canary-IsSound :
      (names : CandidateNames) (production : ProductionRule) (candidate now : ℕ) (w : World Float)
      {r : CanaryRun Float} {w' : World Float}
      → start_canary flt names production candidate now w ≡ ok (r, w')
      → IsSound w.store
      → IsSound w'.store
  unfolding start_canary
  start_canary-IsSound names production candidate now w e h =
      elim (Bool-cases (has_package production.opa_package_name)) [
        | inl given ↦
            subst IsSound (ap (λ x. x.1.store) (ok-injective (rw given at e)))
              (create_run-IsSound _ w.store refl (refl, refl, refl) h)
        | inr missing ↦ absurd (ground (arith, missing, e))
      ]

  pub compare_and_record-IsSound :
      (k transaction_id : String) (production candidate : Answer Float) (s : CanaryStore Float)
      {c : ComparisonResult Float} {s' : CanaryStore Float}
      → compare_and_record flt k transaction_id production candidate s ≡ ok (c, s')
      → IsSound s
      → IsSound s'
  unfolding compare_and_record
  compare_and_record-IsSound k transaction_id production candidate s e h =
      let (after, recorded, done) = bind_value (record_comparison flt k _ s) _ e in
      subst IsSound (ap (λ x. x.1) (ok-injective done))
        (record_comparison-IsSound flt k _ s recorded h)
