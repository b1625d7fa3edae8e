-- ===== src/Canary/Orchestrator.antt =====
-- app/canary/orchestrator.py, mirroring.py and the sweep of tasks.py. OPA answers every call that
-- publishes or removes a module; `World` holds the ids of the candidates that it has, and the
-- compiled rules that were published for live traffic.
use reg_engine_ai.Base.{
  ℕ, String, Bool, false, not, ◌&&◌, Option, none, some, List, [], ◌∷◌, ◌++◌, Result, ok, err,
  ◌>>=◌, leb, sadd, srem, if◌then◌else◌, str_eq,
}
use reg_engine_ai.Canary.Models.{
  FloatOps, running, CanaryRun, CanaryDecision, continue, promote_now, roll_back_now, is_running,
  window_elapsed, divergence_pct, empty_stats,
}
use reg_engine_ai.Canary.Store.{
  CanaryStore, CanaryError, not_published, no_candidate_rule, nothing_to_publish, create_run,
  get_run, or_no_such_run, mark_promoted, mark_rolled_back,
}
use reg_engine_ai.Canary.Parity.{Thresholds}

pub record World (Float : Type 0) : Type 0 where
  pub store : CanaryStore Float
  pub opa_candidates : List String
  pub published : List ℕ

pub record ProductionRule : Type 0 where
  pub rule_id : String
  pub tenant_id : String
  pub opa_package_name : Option String

-- A row of `compiled_rules`, as far as the publisher reads it.
pub record CandidateRow : Type 0 where
  pub id : ℕ
  pub rego_policy : Option String
  pub opa_package_name : Option String

-- the truth value of an optional name
abbrev pub has_package : Option String → Bool
has_package none = false
has_package (some p) = not (str_eq p "")

abbrev package_or_empty : Option String → String
package_or_empty none = ""
package_or_empty (some p) = p

-- The uuid and the names that `publish_candidate` derives from it.
pub record CandidateNames : Type 0 where
  pub canary_id : String
  pub namespaced_rule_id : String
  pub namespaced_package : String

module _ {Float : Type 0} (flt : FloatOps Float) where
  unfoldable pub start_canary :
      CandidateNames
      → ProductionRule
      → ℕ
      → ℕ
      → World Float
      → Result CanaryError (CanaryRun Float × World Float)
  unfolding empty_stats
  start_canary names production candidate_compiled_rule_id now w =
      let r : CanaryRun Float = record {
        canary_id = names.canary_id;
        rule_id = production.rule_id;
        tenant_id = some production.tenant_id;
        production_package = package_or_empty production.opa_package_name;
        candidate_package = names.namespaced_package;
        candidate_opa_rule_id = names.namespaced_rule_id;
        candidate_compiled_rule_id = candidate_compiled_rule_id;
        status = running;
        stats = empty_stats flt;
        started_at = now;
        resolved_at = none;
        resolution_reason = none;
      } in
      if has_package production.opa_package_name
      then ok (
        r,
        record w {
          store = create_run r w.store;
          opa_candidates = sadd names.namespaced_rule_id w.opa_candidates;
        },
      )
      else err not_published

  abbrev pub window_of : Thresholds Float → ℕ → Option (CanaryRun Float) → CanaryDecision
  window_of t now none = continue
  window_of t now (some r) =
      if not (is_running r.status)
      then continue
      else if leb t.rollback_min_sample_size r.stats.total_compared
          && flt.at_most t.rollback_divergence_pct (divergence_pct flt r.stats)
      then roll_back_now
      else if window_elapsed r t.evaluation_window_seconds now
          && flt.at_most (divergence_pct flt r.stats) t.promotion_max_divergence_pct
      then promote_now
      else continue

  unfoldable pub evaluate_window :
      Thresholds Float → ℕ → String → CanaryStore Float → CanaryDecision
  unfolding divergence_pct window_elapsed
  evaluate_window t now canary_id s = window_of t now (get_run canary_id s)

module _ {Float : Type 0} where
  unfoldable pub rollback :
      String → String → ℕ → World Float → Result CanaryError (CanaryRun Float × World Float)
  rollback canary_id reason now w = or_no_such_run (get_run canary_id w.store) >>= λ r.
      let removed : List String = srem r.candidate_opa_rule_id w.opa_candidates in
      let marked = mark_rolled_back canary_id reason now w.store >>= λ after.
      ok (after.0, record w { store = after.1; opa_candidates = removed }) in
      if is_running r.status then marked else ok (r, w)

  -- `_publish_active`: a row without Rego or package is refused before anything is written.
  unfoldable pub publish_approved : CandidateRow → World Float → Result CanaryError (World Float)
  publish_approved row w =
      if has_package row.rego_policy && has_package row.opa_package_name
      then ok (record w { published = w.published ++ row.id ∷ [] })
      else err nothing_to_publish

  unfoldable pub remove_candidate : CanaryRun Float → World Float → World Float
  remove_candidate r w = record w { opa_candidates = srem r.candidate_opa_rule_id w.opa_candidates }

  -- the end of `promote`, with the row that the session gave
  abbrev pub publish_and_mark :
      String
      → String
      → ℕ
      → CanaryRun Float
      → Option CandidateRow
      → World Float
      → Result CanaryError (CanaryRun Float × World Float)
  publish_and_mark canary_id reason now r none w = err no_candidate_rule
  publish_and_mark canary_id reason now r (some row) w = publish_approved row w >>= λ w₁.
      let w₂ : World Float = remove_candidate r w₁ in
      mark_promoted canary_id reason now w₂.store >>= λ after.
      ok (after.0, record w₂ { store = after.1 })

  -- `find_candidate` is the table `compiled_rules`, by id.
  unfoldable pub promote :
      (ℕ → Option CandidateRow)
      → String
      → String
      → ℕ
      → World Float
      → Result CanaryError (CanaryRun Float × World Float)
  unfolding publish_approved remove_candidate
  promote find_candidate canary_id reason now w =
      or_no_such_run (get_run canary_id w.store) >>= λ r.
      let published =
        publish_and_mark canary_id reason now r (find_candidate r.candidate_compiled_rule_id) w in
      if is_running r.status then published else ok (r, w)
