-- ===== src/Canary/Tests.antt =====
-- The canary at exact fractions and one candidate.
use reg_engine_ai.Base.{
  ℕ, ◌+◌, ◌*◌, ◌≡◌, refl, false, ◌&&◌, none, some, [], ◌∷◌, ◌++◌, ok, leb, lookup, insert, sadd,
  srem, is_member,
}
use reg_engine_ai.Execution.Models.{allow}
use reg_engine_ai.Canary.Models.{
  FloatOps, running, promoted, rolled_back, ComparisonResult, CanaryRun, empty_stats,
}
use reg_engine_ai.Canary.Store.{
  create_run, get_run, write_comparison, resolve_run, mark_rolled_back,
}
use reg_engine_ai.Canary.Parity.{Thresholds, check_rollback_spike}
use reg_engine_ai.Canary.Orchestrator.{
  World, ProductionRule, CandidateRow, CandidateNames, start_canary, evaluate_window, rollback,
  promote,
}
use reg_engine_ai.Canary.Tallies.{IsSound}
use reg_engine_ai.Canary.Reach.{starts, stays, moves, Reaches-IsSound}
use reg_engine_ai.Canary.Verdicts.{
  is_roll_back, is_promotion, evaluate_window-check_rollback_spike, promote_once, lost_update,
}

abbrev Fraction : Type 0
Fraction = ℕ × ℕ

abbrev exact : FloatOps Fraction
exact = record {
  zero_float = (0, 1);
  add = λ a b. (a.0 * b.1 + b.0 * a.1, a.1 * b.1);
  ratio = λ d n. (d, n);
  at_most = λ a b. leb (a.0 * b.1) (b.0 * a.1);
}

abbrev bars : Thresholds Fraction
bars = record {
  promotion_max_divergence_pct = (1, 100);
  rollback_divergence_pct = (5, 100);
  rollback_min_sample_size = 50;
  evaluation_window_seconds = 3600;
}

abbrev idle : World Fraction
idle = record { store = record { runs = []; active = [] }; opa_candidates = []; published = [] }

abbrev margin : ProductionRule
margin = record {
  rule_id = "margin";
  tenant_id = "broker-1";
  opa_package_name = some "sebi.margin";
}

abbrev names : CandidateNames
names = record {
  canary_id = "c1";
  namespaced_rule_id = "canary-c1-margin";
  namespaced_package = "canary.c1.margin";
}

abbrev run : CanaryRun Fraction
run = record {
  canary_id = "c1";
  rule_id = "margin";
  tenant_id = some "broker-1";
  production_package = "sebi.margin";
  candidate_package = "canary.c1.margin";
  candidate_opa_rule_id = "canary-c1-margin";
  candidate_compiled_rule_id = 9;
  status = running;
  stats = record {
    total_compared = 0;
    matched = 0;
    diverged = 0;
    decision_breakdown = [];
    production_latency_ms_sum = (0, 1);
    candidate_latency_ms_sum = (0, 1);
  };
  started_at = 100;
  resolved_at = none;
  resolution_reason = none;
}

abbrev started : World Fraction
started = record {
  store = record { runs = ("c1", run) ∷ []; active = "c1" ∷ [] };
  opa_candidates = "canary-c1-margin" ∷ [];
  published = [];
}

start_canary-started : start_canary exact names margin 9 100 idle ≡ ok (run, started)
unfolding start_canary create_run empty_stats insert sadd
start_canary-started = refl

get_run-started : get_run "c1" started.store ≡ some run
unfolding get_run lookup
get_run-started = refl

idle-IsSound : IsSound idle.store
unfolding get_run lookup is_member
idle-IsSound = (λ k r e. absurd (cc), λ k. refl)

Reaches-IsSound_example : IsSound started.store
Reaches-IsSound_example =
    Reaches-IsSound exact bars (moves stays (starts names margin 9 100 run start_canary-started))
      idle-IsSound

evaluate_window-check_rollback_spike_example :
    (is_roll_back (evaluate_window exact bars 5000 "c1" started.store)
      ≡ is_roll_back (check_rollback_spike exact bars "c1" started.store))
    × (is_roll_back (check_rollback_spike exact bars "c1" started.store)
          && is_promotion (evaluate_window exact bars 5000 "c1" started.store)
        ≡ false)
evaluate_window-check_rollback_spike_example =
    evaluate_window-check_rollback_spike exact bars 5000 "c1" started.store get_run-started refl

abbrev candidate_row : CandidateRow
candidate_row = record { id = 9; rego_policy = some "package c1"; opa_package_name = some "c1" }

promote_once_example :
    (r : CanaryRun Fraction) × (w : World Fraction) × (promote
        (λ n. some candidate_row)
        "c1"
        "within the bar"
        5000
        started
      ≡ ok (r, w))
    × (r.status ≡ promoted)
    × (w.published ≡ [] ++ 9 ∷ [])
    × (promote (λ n. some candidate_row) "c1" "again" 5001 w ≡ ok (r, w))
    × (rollback "c1" "again" 5001 w ≡ ok (r, w))
promote_once_example =
    promote_once (λ n. some candidate_row) candidate_row "c1" "within the bar" "again" 5000 5001
      started get_run-started refl refl refl

abbrev back : CanaryRun Fraction
back = record run { status = rolled_back; resolved_at = some 200; resolution_reason = some "spike" }

abbrev cleared : World Fraction
cleared = record {
  store = record { runs = ("c1", back) ∷ []; active = [] };
  opa_candidates = [];
  published = [];
}

rollback-started : rollback "c1" "spike" 200 started ≡ ok (back, cleared)
unfolding rollback mark_rolled_back resolve_run get_run lookup insert srem
rollback-started = refl

abbrev agreement : ComparisonResult Fraction
agreement = record {
  transaction_id = "t1";
  production_decision = allow;
  candidate_decision = allow;
  production_latency_ms = (2, 1);
  candidate_latency_ms = (3, 1);
}

lost_update_example :
    (r : CanaryRun Fraction) × (w : World Fraction) × (promote
        (λ n. some candidate_row)
        "c1"
        "queued"
        300
        (record cleared { store = (write_comparison exact "c1" agreement run cleared.store).1 })
      ≡ ok (r, w))
    × (rolled_back ≡ rolled_back)
    × (w.published ≡ [] ++ 9 ∷ [])
lost_update_example =
    lost_update exact (λ n. some candidate_row) candidate_row "c1" "spike" "queued" 200 300
      agreement started get_run-started refl refl refl rollback-started
