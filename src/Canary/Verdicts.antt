-- ===== src/Canary/Verdicts.antt =====
-- When a canary is promoted or rolled back, and what a late write undoes.
use reg_engine_ai.Base.{
  ℕ, Option, ◌-◌, ◌<◌, String, inl, inr, ◌≡◌, refl, subst, Bool, true, false, ◌&&◌, some, [], ◌∷◌,
  ◌++◌, arith, ok, ok-injective, insert, srem, lookup-insert, str_eq, eq_iff, Bool-cases, leb,
}
use reg_engine_ai.Canary.Models.{
  FloatOps, promoted, rolled_back, ComparisonResult, CanaryRun, CanaryDecision, promote_now,
  roll_back_now, is_running, empty_stats, divergence_pct, window_elapsed,
}
use reg_engine_ai.Canary.Store.{
  CanaryStore, create_run, get_run, resolve_run, mark_promoted, mark_rolled_back, write_comparison,
}
use reg_engine_ai.Canary.Parity.{Thresholds, check_rollback_spike}
use reg_engine_ai.Canary.Orchestrator.{
  World, ProductionRule, CandidateRow, publish_approved, remove_candidate, CandidateNames,
  has_package, start_canary, evaluate_window, rollback, promote,
}

abbrev pub is_roll_back : CanaryDecision → Bool
is_roll_back roll_back_now = true
is_roll_back _ = false

abbrev pub is_promotion : CanaryDecision → Bool
is_promotion promote_now = true
is_promotion _ = false

-- the id finds itself
eq_refl : (k : String) → str_eq k k ≡ true
eq_refl k = ground (arith, eq_iff k k)

module _ {Float : Type 0} (flt : FloatOps Float) (t : Thresholds Float) where
  -- For a running canary the sweep rolls back exactly when the check after each comparison does, at
  -- whatever time, and it does not then ask for a promotion.
  pub evaluate_window-check_rollback_spike :
      (now : ℕ) (k : String) (s : CanaryStore Float) {r : CanaryRun Float}
      → get_run k s ≡ some r
      → is_running r.status ≡ true
      → (is_roll_back (evaluate_window flt t now k s)
          ≡ is_roll_back (check_rollback_spike flt t k s))
        × (is_roll_back (check_rollback_spike flt t k s)
              && is_promotion (evaluate_window flt t now k s)
            ≡ false)
  unfolding evaluate_window check_rollback_spike
  evaluate_window-check_rollback_spike now k s found live =
      (ground (arith, found, live), ground (arith, found, live))

  -- If no comparison was made since a canary was started, the sweep's decision once its window has
  -- passed is to promote it, when the promotion bar is no less than 0 and the rollback asks for at
  -- least one comparison.
  pub unseen_promotion :
      (names : CandidateNames) (production : ProductionRule) (candidate now later : ℕ)
      (w : World Float) {r : CanaryRun Float} {w' : World Float}
      → start_canary flt names production candidate now w ≡ ok (r, w')
      → leb t.evaluation_window_seconds (later - now) ≡ true
      → flt.at_most flt.zero_float t.promotion_max_divergence_pct ≡ true
      → 0 < t.rollback_min_sample_size
      → evaluate_window flt t later names.canary_id w'.store ≡ promote_now
  unfolding start_canary create_run get_run evaluate_window divergence_pct window_elapsed
      empty_stats
  unseen_promotion names production candidate now later w {r} {w'} e elapsed bar sample =
      elim (Bool-cases (has_package production.opa_package_name)) [
        | inr missing ↦ absurd (ground (arith, missing, e))
        | inl given ↦
            let after = ok-injective (rw given at e) in
            subst
              (λ (x : CanaryRun Float × World Float).
                evaluate_window flt t later names.canary_id x.1.store ≡ promote_now)
              after
              (rw
                (
                  lookup-insert names.canary_id names.canary_id _ w.store.runs,
                  eq_refl names.canary_id,
                )
                (ground (arith, elapsed, bar, sample)))
      ]

module _ {Float : Type 0} where
  -- A promotion of a running canary whose candidate has a row with Rego and a package publishes the
  -- candidate, once: the run is promoted, and any further promotion or rollback of it returns the run and changes nothing.
  pub promote_once :
      (find_candidate : ℕ → Option CandidateRow) (row : CandidateRow) (k reason reason' : String)
      (now now' : ℕ) (w : World Float) {r : CanaryRun Float}
      → get_run k w.store ≡ some r
      → is_running r.status ≡ true
      → find_candidate r.candidate_compiled_rule_id ≡ some row
      → (has_package row.rego_policy && has_package row.opa_package_name) ≡ true
      → (r' : CanaryRun Float) × (w' : World Float) × (promote find_candidate k reason now w
          ≡ ok (r', w'))
        × (r'.status ≡ promoted)
        × (w'.published ≡ w.published ++ row.id ∷ [])
        × (promote find_candidate k reason' now' w' ≡ ok (r', w'))
        × (rollback k reason' now' w' ≡ ok (r', w'))
  unfolding promote publish_approved remove_candidate rollback mark_promoted mark_rolled_back
      resolve_run get_run
  promote_once find_candidate row k reason reason' now now' w {r} found live there given =
      let r' : CanaryRun Float = record r {
        status = promoted;
        resolved_at = some now;
        resolution_reason = some reason;
      } in
      let w' : World Float = record {
        store = record { runs = insert k r' w.store.runs; active = srem k w.store.active };
        opa_candidates = srem r.candidate_opa_rule_id w.opa_candidates;
        published = w.published ++ row.id ∷ [];
      } in
      let again : get_run k w'.store ≡ some r' =
        ground (arith, lookup-insert k k r' w.store.runs, eq_refl k) in
      (
        r',
        w',
        rw (found, live, there, given, found, live) refl,
        refl,
        refl,
        ground (arith, again),
        ground (arith, again),
      )

module _ {Float : Type 0} (flt : FloatOps Float) where
  -- If the write of a comparison that was read before a rollback lands after it, the run that was marked
  -- as rolled back is running again, and a promotion publishes the candidate that was rolled back, if it has a row with Rego
  -- and a package.
  pub lost_update :
      (find_candidate : ℕ → Option CandidateRow) (row : CandidateRow) (k reason reason' : String)
      (now now' : ℕ) (c : ComparisonResult Float) (w : World Float) {r r₁ : CanaryRun Float}
      {w₁ : World Float}
      → get_run k w.store ≡ some r
      → is_running r.status ≡ true
      → find_candidate r.candidate_compiled_rule_id ≡ some row
      → (has_package row.rego_policy && has_package row.opa_package_name) ≡ true
      → rollback k reason now w ≡ ok (r₁, w₁)
      → let late : World Float = record w₁ { store = (write_comparison flt k c r w₁.store).1 } in
        (r₂ : CanaryRun Float) × (w₂ : World Float) × (promote find_candidate k reason' now' late
          ≡ ok (r₂, w₂))
        × (r₁.status ≡ rolled_back)
        × (w₂.published ≡ w₁.published ++ row.id ∷ [])
  unfolding write_comparison get_run rollback mark_rolled_back resolve_run
  lost_update find_candidate row k reason reason' now now' c w {r} {r₁} {w₁} found live there given
        e =
      let (late, late') = write_comparison flt k c r w₁.store in
      let again : get_run k late' ≡ some late =
        ground (arith, lookup-insert k k late w₁.store.runs, eq_refl k) in
      let (r₂, w₂, done, status, published, promoted_again, rolled_again) =
        promote_once find_candidate row k reason' reason' now' now' (record w₁ { store = late' })
          again live there given in
      (r₂, w₂, done, ground (arith, found, live, e), published)
