-- ===== src/Canary/Store.antt =====
-- app/canary/store.py: the runs in Redis and the set of the active ones. A read and the write that
-- follows it are two steps, so that another call can come between.
use reg_engine_ai.Base.{
  ℕ, ◌+◌, String, ◌&&◌, Option, none, some, List, [], ◌∷◌, Result, ok, err, ◌>>=◌, Dict, lookup,
  insert, sadd, srem, leb, if◌then◌else◌,
}
use reg_engine_ai.Execution.Models.{Decision}
use reg_engine_ai.Canary.Models.{
  FloatOps, CanaryStatus, promoted, rolled_back, ComparisonResult, Cell, CanaryWindowStats,
  CanaryRun, is_running, has_diverged, same_decision,
}

pub record CanaryStore (Float : Type 0) : Type 0 where
  pub runs : Dict (CanaryRun Float)
  pub active : List String

-- KeyError and ValueError
pub data CanaryError : Type 0 where
  no_such_run already_resolved_run not_published no_candidate_rule nothing_to_publish : CanaryError

-- `breakdown[key] = breakdown.get(key, 0) + 1`
unfoldable pub bump : Decision → Decision → List Cell → List Cell
bump p c [] = record { production = p; candidate = c; count = 1 } ∷ []
bump p c (x ∷ xs) =
    if same_decision x.production p && same_decision x.candidate c
    then record x { count = x.count + 1 } ∷ xs
    else x ∷ bump p c xs

module _ {Float : Type 0} where
  unfoldable pub create_run : CanaryRun Float → CanaryStore Float → CanaryStore Float
  create_run r s = record { runs = insert r.canary_id r s.runs; active = sadd r.canary_id s.active }

  unfoldable pub get_run : String → CanaryStore Float → Option (CanaryRun Float)
  get_run canary_id s = lookup canary_id s.runs

  abbrev pub or_no_such_run : Option (CanaryRun Float) → Result CanaryError (CanaryRun Float)
  or_no_such_run none = err no_such_run
  or_no_such_run (some r) = ok r

  abbrev add_running : Option (CanaryRun Float) → List (CanaryRun Float) → List (CanaryRun Float)
  add_running none rest = rest
  add_running (some r) rest = if is_running r.status then r ∷ rest else rest

  unfoldable pub running_runs : CanaryStore Float → List String → List (CanaryRun Float)
  unfolding get_run
  running_runs s [] = []
  running_runs s (k ∷ ks) = add_running (get_run k s) (running_runs s ks)

  unfoldable pub insert_run : CanaryRun Float → List (CanaryRun Float) → List (CanaryRun Float)
  insert_run r [] = r ∷ []
  insert_run r (x ∷ xs) = if leb r.started_at x.started_at then r ∷ x ∷ xs else x ∷ insert_run r xs

  -- `sorted(runs, key=lambda r: r.started_at)`
  unfoldable pub by_start : List (CanaryRun Float) → List (CanaryRun Float)
  unfolding insert_run
  by_start [] = []
  by_start (r ∷ rs) = insert_run r (by_start rs)

  unfoldable pub list_active : CanaryStore Float → List (CanaryRun Float)
  unfolding running_runs by_start
  list_active s = by_start (running_runs s s.active)

  -- `_resolve` from the run that it read
  unfoldable pub resolve_run :
      String
      → CanaryStatus
      → String
      → ℕ
      → CanaryStore Float
      → Result CanaryError (CanaryRun Float × CanaryStore Float)
  unfolding get_run
  resolve_run canary_id status reason now s = or_no_such_run (get_run canary_id s) >>= λ r.
      let r' : CanaryRun Float = record r {
        status = status;
        resolved_at = some now;
        resolution_reason = some reason;
      } in
      if is_running r.status
      then ok (r', record { runs = insert canary_id r' s.runs; active = srem canary_id s.active })
      else err already_resolved_run

  unfoldable pub mark_promoted :
      String
      → String
      → ℕ
      → CanaryStore Float
      → Result CanaryError (CanaryRun Float × CanaryStore Float)
  mark_promoted canary_id = resolve_run canary_id promoted

  unfoldable pub mark_rolled_back :
      String
      → String
      → ℕ
      → CanaryStore Float
      → Result CanaryError (CanaryRun Float × CanaryStore Float)
  mark_rolled_back canary_id = resolve_run canary_id rolled_back

module _ {Float : Type 0} (flt : FloatOps Float) where
  unfoldable pub tally : ComparisonResult Float → CanaryWindowStats Float → CanaryWindowStats Float
  unfolding bump
  tally c s = record {
    total_compared = s.total_compared + 1;
    matched = if has_diverged c then s.matched else s.matched + 1;
    diverged = if has_diverged c then s.diverged + 1 else s.diverged;
    decision_breakdown = bump c.production_decision c.candidate_decision s.decision_breakdown;
    production_latency_ms_sum = flt.add s.production_latency_ms_sum c.production_latency_ms;
    candidate_latency_ms_sum = flt.add s.candidate_latency_ms_sum c.candidate_latency_ms;
  }

  -- the second half of `record_comparison`: the write of the run that was read, tallied
  unfoldable pub write_comparison :
      String
      → ComparisonResult Float
      → CanaryRun Float
      → CanaryStore Float
      → CanaryRun Float × CanaryStore Float
  unfolding tally
  write_comparison canary_id c r s =
      let r' : CanaryRun Float = record r { stats = tally c r.stats } in
      (r', record s { runs = insert canary_id r' s.runs })

  unfoldable pub record_comparison :
      String
      → ComparisonResult Float
      → CanaryStore Float
      → Result CanaryError (CanaryRun Float × CanaryStore Float)
  unfolding get_run write_comparison
  record_comparison canary_id c s =
      or_no_such_run (get_run canary_id s) >>= λ r. ok (write_comparison canary_id c r s)
