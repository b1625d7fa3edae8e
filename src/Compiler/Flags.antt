-- ===== src/Compiler/Flags.antt =====
-- app/compiler/hitl.py: the flags of an audited rule. Their identifiers, times and descriptions are
-- left out.
use Prim.Native.String.{◌++◌ as append}
use reg_engine_ai.Base.{
  String, Bool, true, false, not, ◌&&◌, ◌||◌, none, some, List, [], ◌∷◌, ◌++◌, map, any_of, keep_if,
  is_empty, str_eq, ltb, length, Dict, if◌then◌else◌,
}
use reg_engine_ai.Backtest.Json.{Numbers}
use reg_engine_ai.Compiler.Models.{
  ObligationType, recommended, ComparisonOperator, op_gte, op_gt, op_lte, op_lt, TargetEntity,
  NumericalThreshold, ExtractedComplianceRule, AuditVerdict, audit_approved, AuditedComplianceRule,
  HitlReasonCode, qualitative_directive, ambiguous_span, low_extraction_confidence,
  audit_not_approved, no_deterministic_logic, conflicting_thresholds, unresolved_entity,
  unknown_fact_metric, invalid_metric_unit, invalid_threshold_value, HitlSeverity, blocking,
  advisory, HitlFlag,
}
use reg_engine_ai.Compiler.Facts.{
  Unicode, CanonicalFact, FactResolution, missing_mapping, wrong_unit, wrong_threshold, valid,
  resolve_canonical_fact,
}

abbrev pub flag : String → HitlReasonCode → HitlSeverity → String → HitlFlag
flag rule_id code severity scope = record {
  rule_id = rule_id;
  reason_code = code;
  severity = severity;
  scope = scope;
}

abbrev pub is_blocking_flag : HitlFlag → Bool
is_blocking_flag f = elim f.severity [ blocking ↦ true | advisory ↦ false ]

unfoldable pub has_blocking_flags : List HitlFlag → Bool
has_blocking_flags fs = any_of is_blocking_flag fs

abbrev pub is_recommended : ObligationType → Bool
is_recommended recommended = true
is_recommended _ = false

abbrev pub is_audited : AuditVerdict → Bool
is_audited audit_approved = true
is_audited _ = false

abbrev pub is_lower : ComparisonOperator → Bool
is_lower op_gte = true
is_lower op_gt = true
is_lower _ = false

abbrev pub is_upper : ComparisonOperator → Bool
is_upper op_lte = true
is_upper op_lt = true
is_upper _ = false

abbrev pub is_unresolved_entity : TargetEntity → Bool
is_unresolved_entity e = elim e.normalized_entity [ none ↦ true | some n ↦ false ]

module _ {Number : Type 0} where
  unfoldable pub flag_qualitative_directives : ExtractedComplianceRule Number → List HitlFlag
  flag_qualitative_directives r =
      map (flag r.rule_id qualitative_directive advisory) r.qualitative_directives

  unfoldable pub flag_ambiguous_spans : ExtractedComplianceRule Number → List HitlFlag
  flag_ambiguous_spans r = map (flag r.rule_id ambiguous_span advisory) r.ambiguous_spans

  unfoldable pub flag_unresolved_entities : ExtractedComplianceRule Number → List HitlFlag
  flag_unresolved_entities r =
      map (λ e. flag r.rule_id unresolved_entity advisory e.raw_text)
        (keep_if is_unresolved_entity r.target_entities)

  unfoldable pub flag_no_deterministic_logic : ExtractedComplianceRule Number → List HitlFlag
  flag_no_deterministic_logic r =
      if not (is_empty r.deterministic_logic)
      then []
      else if is_recommended r.obligation_type
      then []
      else flag r.rule_id no_deterministic_logic blocking "deterministic_logic" ∷ []

  unfoldable pub flag_audit_not_approved : AuditedComplianceRule Number → List HitlFlag
  flag_audit_not_approved a =
      if is_audited a.verdict then [] else flag a.rule.rule_id audit_not_approved blocking "" ∷ []

  -- `by_field.setdefault(key, []).append(t)`
  abbrev pub field_key : NumericalThreshold Number → String
  field_key t = append t.metric (append "|" t.unit)

  unfoldable pub add_to_group :
      NumericalThreshold Number
      → Dict (List (NumericalThreshold Number))
      → Dict (List (NumericalThreshold Number))
  add_to_group t [] = (field_key t, t ∷ []) ∷ []
  add_to_group t ((key, ts) ∷ groups) =
      if str_eq key (field_key t)
      then (key, ts ++ t ∷ []) ∷ groups
      else (key, ts) ∷ add_to_group t groups

  unfoldable pub group_by_field :
      List (NumericalThreshold Number)
      → Dict (List (NumericalThreshold Number))
      → Dict (List (NumericalThreshold Number))
  unfolding add_to_group
  group_by_field [] groups = groups
  group_by_field (t ∷ ts) groups = group_by_field ts (add_to_group t groups)

  abbrev pub lower_bounds : List (NumericalThreshold Number) → List Number
  lower_bounds ts = map (λ t. t.value) (keep_if (λ t. is_lower t.operator) ts)

  abbrev pub upper_bounds : List (NumericalThreshold Number) → List Number
  upper_bounds ts = map (λ t. t.value) (keep_if (λ t. is_upper t.operator) ts)

  module _ (num : Numbers Number) where
    -- `LOW_CONFIDENCE_THRESHOLD` is the argument `threshold`
    unfoldable pub flag_low_confidence : Number → ExtractedComplianceRule Number → List HitlFlag
    flag_low_confidence threshold r =
        if num.num_lt threshold r.extraction_confidence
          || num.num_eq r.extraction_confidence threshold
        then []
        else flag r.rule_id low_extraction_confidence blocking "extraction_confidence" ∷ []

    -- Python's `min` and `max`: the first of the extreme elements
    unfoldable pub min_from : Number → List Number → Number
    min_from best [] = best
    min_from best (x ∷ xs) = min_from (if num.num_lt x best then x else best) xs

    unfoldable pub max_from : Number → List Number → Number
    max_from best [] = best
    max_from best (x ∷ xs) = max_from (if num.num_lt best x then x else best) xs

    abbrev pub bounds_conflict : List Number → List Number → Bool
    bounds_conflict [] us = false
    bounds_conflict (l ∷ ls) [] = false
    bounds_conflict (l ∷ ls) (u ∷ us) = num.num_lt (max_from u us) (min_from l ls)

    unfoldable pub thresholds_conflict : List (NumericalThreshold Number) → Bool
    unfolding min_from max_from
    thresholds_conflict ts =
        ltb 1 (length ts) && bounds_conflict (lower_bounds ts) (upper_bounds ts)

    unfoldable pub flag_groups : String → Dict (List (NumericalThreshold Number)) → List HitlFlag
    unfolding thresholds_conflict
    flag_groups rule_id [] = []
    flag_groups rule_id ((key, ts) ∷ groups) =
        let rest = flag_groups rule_id groups in
        if thresholds_conflict ts
        then flag rule_id conflicting_thresholds blocking key ∷ rest
        else rest

    unfoldable pub flag_conflicting_thresholds : ExtractedComplianceRule Number → List HitlFlag
    unfolding flag_groups group_by_field
    flag_conflicting_thresholds r = flag_groups r.rule_id (group_by_field r.deterministic_logic [])

    module _ (uni : Unicode) (catalogue : List (CanonicalFact Number)) where
      abbrev pub fact_flags : String → String → FactResolution → List HitlFlag
      fact_flags rule_id metric missing_mapping =
          flag rule_id unknown_fact_metric blocking metric ∷ []
      fact_flags rule_id metric (wrong_unit f) =
          flag rule_id invalid_metric_unit blocking metric ∷ []
      fact_flags rule_id metric (wrong_threshold f) =
          flag rule_id invalid_threshold_value blocking metric ∷ []
      fact_flags rule_id metric (valid f) = []

      unfoldable pub flag_facts : String → List (NumericalThreshold Number) → List HitlFlag
      unfolding resolve_canonical_fact
      flag_facts rule_id [] = []
      flag_facts rule_id (t ∷ ts) =
          fact_flags rule_id t.metric
            (resolve_canonical_fact uni num catalogue t.metric t.unit (some t.value) t.value_upper)
          ++ flag_facts rule_id ts

      unfoldable pub flag_unmapped_or_invalid_facts : ExtractedComplianceRule Number → List HitlFlag
      unfolding flag_facts
      flag_unmapped_or_invalid_facts r = flag_facts r.rule_id r.deterministic_logic

      unfoldable pub collect_hitl_flags : Number → AuditedComplianceRule Number → List HitlFlag
      unfolding flag_audit_not_approved flag_low_confidence flag_unmapped_or_invalid_facts
          flag_conflicting_thresholds flag_no_deterministic_logic flag_qualitative_directives
          flag_ambiguous_spans flag_unresolved_entities
      collect_hitl_flags threshold a =
          flag_audit_not_approved a
          ++ flag_low_confidence threshold a.rule
          ++ flag_unmapped_or_invalid_facts a.rule
          ++ flag_conflicting_thresholds a.rule
          ++ flag_no_deterministic_logic a.rule
          ++ flag_qualitative_directives a.rule
          ++ flag_ambiguous_spans a.rule
          ++ flag_unresolved_entities a.rule
