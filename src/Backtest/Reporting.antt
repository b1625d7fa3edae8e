-- ===== src/Backtest/Reporting.antt =====
-- app/backtest/reporting.py: the old decision of a replayed transaction against the new one, and the
-- counts of a report. The rates, the brokers' shares, the amounts and the texts of a report are left
-- out: they are computed from these.
use reg_engine_ai.Base.{
  ℕ, ◌+◌, ◌≡◌, String, Bool, true, false, not, ◌&&◌, List, [], ◌∷◌, map, length, arith,
  if◌then◌else◌,
}
use reg_engine_ai.Execution.Models.{Decision, deny, flagged}

pub data DeltaChangeType : Type 0 where
  unchanged_pass unchanged_fail new_failure newly_passing undefined_now : DeltaChangeType

pub record HistoricalTransaction : Type 0 where
  pub transaction_id : String
  pub broker_id : String
  pub old_decision : Decision
  pub evaluated_at : ℕ

pub record BacktestOutcome : Type 0 where
  pub transaction_id : String
  pub broker_id : String
  pub evaluated_at : ℕ
  pub old_decision : Decision
  pub new_decision : Decision
  pub change_type : DeltaChangeType

pub record SummaryCounts : Type 0 where
  pub total_transactions : ℕ
  pub old_fail_count : ℕ
  pub new_fail_count : ℕ
  pub new_failures : ℕ
  pub newly_passing_count : ℕ
  pub undefined_count : ℕ
  pub unchanged_count : ℕ

abbrev pub is_deny : Decision → Bool
is_deny deny = true
is_deny _ = false

abbrev pub is_unevaluated : Decision → Bool
is_unevaluated flagged = true
is_unevaluated _ = false

unfoldable pub classify : Decision → Decision → DeltaChangeType
classify old new =
    if is_unevaluated new
    then undefined_now
    else if is_deny old && is_deny new
    then unchanged_fail
    else if not (is_deny old) && not (is_deny new)
    then unchanged_pass
    else if not (is_deny old) && is_deny new
    then new_failure
    else newly_passing

unfoldable pub build_outcomes : List (HistoricalTransaction × Decision) → List BacktestOutcome
unfolding classify
build_outcomes replayed =
    map
      (λ p. record {
        transaction_id = p.0.transaction_id;
        broker_id = p.0.broker_id;
        evaluated_at = p.0.evaluated_at;
        old_decision = p.0.old_decision;
        new_decision = p.1;
        change_type = classify p.0.old_decision p.1;
      })
      replayed

abbrev pub count_if : (BacktestOutcome → Bool) → List BacktestOutcome → ℕ
count_if p [] = 0
count_if p (o ∷ os) = (if p o then 1 else 0) + count_if p os

abbrev has_change : DeltaChangeType → BacktestOutcome → Bool
has_change unchanged_pass o = elim o.change_type [ unchanged_pass ↦ true | _ ↦ false ]
has_change unchanged_fail o = elim o.change_type [ unchanged_fail ↦ true | _ ↦ false ]
has_change new_failure o = elim o.change_type [ new_failure ↦ true | _ ↦ false ]
has_change newly_passing o = elim o.change_type [ newly_passing ↦ true | _ ↦ false ]
has_change undefined_now o = elim o.change_type [ undefined_now ↦ true | _ ↦ false ]

unfoldable pub build_summary : List BacktestOutcome → SummaryCounts
build_summary outcomes = record {
  total_transactions = length outcomes;
  old_fail_count = count_if (λ o. is_deny o.old_decision) outcomes;
  new_fail_count = count_if (λ o. is_deny o.new_decision) outcomes;
  new_failures = count_if (has_change new_failure) outcomes;
  newly_passing_count = count_if (has_change newly_passing) outcomes;
  undefined_count = count_if (has_change undefined_now) outcomes;
  unchanged_count =
      count_if (has_change unchanged_pass) outcomes + count_if (has_change unchanged_fail) outcomes;
}

abbrev pub failing_undefined : BacktestOutcome → Bool
failing_undefined o = is_deny o.old_decision && is_unevaluated o.new_decision

-- Every replayed transaction is counted under one kind of change. The failures after the replay are
-- those before, less the ones that now pass or can no longer be evaluated, with the new ones.
pub build_summary-build_outcomes :
    (replayed : List (HistoricalTransaction × Decision))
    → let s = build_summary (build_outcomes replayed) in
      (s.unchanged_count + s.new_failures + s.newly_passing_count + s.undefined_count
        ≡ length replayed)
      × (s.new_fail_count
            + s.newly_passing_count
            + count_if failing_undefined (build_outcomes replayed)
          ≡ s.old_fail_count + s.new_failures)
unfolding build_summary build_outcomes classify
build_summary-build_outcomes [] = ground arith
build_summary-build_outcomes ((t, new) ∷ replayed) =
    ground (arith, build_summary-build_outcomes replayed)
