-- ===== src/Canary/Models.antt =====
-- app/canary/models.py. `Float` is the type of the floating point numbers and `FloatOps` what the
-- canary asks of them; a time is a number of seconds. The texts of errors are left out.
use reg_engine_ai.Base.{
  ℕ, ◌-◌, String, Bool, true, false, not, Option, List, [], ◌==◌, leb, if◌then◌else◌,
}
use reg_engine_ai.Execution.Models.{Decision, allow, deny, flagged}

-- addition, `/` of two counts, `>=` with the arguments swapped, and 0.0
pub record FloatOps (Float : Type 0) : Type 0 where
  pub zero_float : Float
  pub add : Float → Float → Float
  pub ratio : ℕ → ℕ → Float
  pub at_most : Float → Float → Bool

pub data CanaryStatus : Type 0 where
  running promoted rolled_back : CanaryStatus

pub record ComparisonResult (Float : Type 0) : Type 0 where
  pub transaction_id : String
  pub production_decision : Decision
  pub candidate_decision : Decision
  pub production_latency_ms : Float
  pub candidate_latency_ms : Float

unfoldable pub same_decision : Decision → Decision → Bool
same_decision allow allow = true
same_decision deny deny = true
same_decision flagged flagged = true
same_decision _ _ = false

-- The breakdown counts pairs of a production and a candidate decision.
pub record Cell : Type 0 where
  pub production : Decision
  pub candidate : Decision
  pub count : ℕ

pub record CanaryWindowStats (Float : Type 0) : Type 0 where
  pub total_compared : ℕ
  pub matched : ℕ
  pub diverged : ℕ
  pub decision_breakdown : List Cell
  pub production_latency_ms_sum : Float
  pub candidate_latency_ms_sum : Float

pub record CanaryRun (Float : Type 0) : Type 0 where
  pub canary_id : String
  pub rule_id : String
  pub tenant_id : Option String
  pub production_package : String
  pub candidate_package : String
  pub candidate_opa_rule_id : String
  pub candidate_compiled_rule_id : ℕ
  pub status : CanaryStatus
  pub stats : CanaryWindowStats Float
  pub started_at : ℕ
  pub resolved_at : Option ℕ
  pub resolution_reason : Option String

pub data CanaryDecision : Type 0 where
  continue promote_now roll_back_now : CanaryDecision

abbrev pub is_running : CanaryStatus → Bool
is_running running = true
is_running _ = false

module _ {Float : Type 0} where
  -- `ComparisonResult.diverged`
  abbrev pub has_diverged : ComparisonResult Float → Bool
  has_diverged c = not (same_decision c.production_decision c.candidate_decision)

  -- A clock reading that is no earlier than the start.
  unfoldable pub window_elapsed : CanaryRun Float → ℕ → ℕ → Bool
  window_elapsed r window_seconds now = leb window_seconds (now - r.started_at)

module _ {Float : Type 0} (flt : FloatOps Float) where
  unfoldable pub divergence_pct : CanaryWindowStats Float → Float
  divergence_pct s =
      if s.total_compared == 0 then flt.zero_float else flt.ratio s.diverged s.total_compared

  unfoldable pub mean_production_latency_ms : (Float → ℕ → Float) → CanaryWindowStats Float → Float
  mean_production_latency_ms over s =
      if s.total_compared == 0
      then flt.zero_float
      else over s.production_latency_ms_sum s.total_compared

  unfoldable pub mean_candidate_latency_ms : (Float → ℕ → Float) → CanaryWindowStats Float → Float
  mean_candidate_latency_ms over s =
      if s.total_compared == 0
      then flt.zero_float
      else over s.candidate_latency_ms_sum s.total_compared

  -- the defaults of the model
  unfoldable pub empty_stats : CanaryWindowStats Float
  empty_stats = record {
    total_compared = 0;
    matched = 0;
    diverged = 0;
    decision_breakdown = [];
    production_latency_ms_sum = flt.zero_float;
    candidate_latency_ms_sum = flt.zero_float;
  }
