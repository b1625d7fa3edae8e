-- ===== src/Compiler/Gate.antt =====
-- When a rule is held back: the blocking flags of `collect_hitl_flags` as one condition on the rule.
use reg_engine_ai.Base.{
  String, ◌≡◌, refl, sym, ap₂, ◌∙◌, Bool, true, false, not, ◌&&◌, ◌||◌, some, List, [], ◌∷◌, ◌++◌,
  map, any_of, keep_if, is_empty, arith, Dict,
}
use reg_engine_ai.Backtest.Json.{Numbers}
use reg_engine_ai.Compiler.Models.{
  NumericalThreshold, ExtractedComplianceRule, AuditedComplianceRule, HitlReasonCode, advisory,
}
use reg_engine_ai.Compiler.Facts.{
  Unicode, CanonicalFact, FactResolution, valid, resolve_canonical_fact,
}
use reg_engine_ai.Compiler.Flags.{
  flag, is_blocking_flag, has_blocking_flags, is_audited, is_recommended, is_unresolved_entity,
  flag_audit_not_approved, flag_low_confidence, fact_flags, flag_facts,
  flag_unmapped_or_invalid_facts, thresholds_conflict, flag_groups, group_by_field,
  flag_conflicting_thresholds, flag_no_deterministic_logic, flag_qualitative_directives,
  flag_ambiguous_spans, flag_unresolved_entities, collect_hitl_flags,
}

any_of-append {ℓ} :
    {A : Type ℓ} (p : A → Bool) (xs ys : List A)
    → any_of p (xs ++ ys) ≡ (any_of p xs || any_of p ys)
any_of-append p [] ys = refl
any_of-append p (x ∷ xs) ys = ground (arith, any_of-append p xs ys)

join_parts {ℓ} :
    {A : Type ℓ} (p : A → Bool) (xs ys : List A) {b c : Bool}
    → any_of p xs ≡ b
    → any_of p ys ≡ c
    → any_of p (xs ++ ys) ≡ (b || c)
join_parts p xs ys e f = any_of-append p xs ys ∙ ap₂ (λ (x y : Bool). x || y) e f

or_false : {b : Bool} → (b || false) ≡ b
or_false {b = true} = refl
or_false {b = false} = refl

five_false :
    {a b c d : Bool} (e : Bool)
    → (not a || not b || c || d || e) ≡ false
    → (a ≡ true) × (b ≡ true) × (c ≡ false) × (d ≡ false)
five_false e h = ground arith

advisory_only :
    {A : Type 0} (id : String) (code : HitlReasonCode) (f : A → String) (xs : List A)
    → any_of is_blocking_flag (map (λ x. flag id code advisory (f x)) xs) ≡ false
advisory_only id code f [] = refl
advisory_only id code f (x ∷ xs) = advisory_only id code f xs

abbrev pub is_valid : FactResolution → Bool
is_valid (valid f) = true
is_valid _ = false

module _ {Number : Type 0} (num : Numbers Number) where
  abbrev pub is_confident : Number → ExtractedComplianceRule Number → Bool
  is_confident threshold r =
      num.num_lt threshold r.extraction_confidence || num.num_eq r.extraction_confidence threshold

  any_of-flag_audit_not_approved :
      (a : AuditedComplianceRule Number)
      → any_of is_blocking_flag (flag_audit_not_approved a) ≡ not (is_audited a.verdict)
  unfolding flag_audit_not_approved
  any_of-flag_audit_not_approved a = ground arith

  any_of-flag_low_confidence :
      (threshold : Number) (r : ExtractedComplianceRule Number)
      → any_of is_blocking_flag (flag_low_confidence num threshold r)
        ≡ not (is_confident threshold r)
  unfolding flag_low_confidence
  any_of-flag_low_confidence threshold r = ground arith

  any_of-flag_no_deterministic_logic :
      (r : ExtractedComplianceRule Number)
      → any_of is_blocking_flag (flag_no_deterministic_logic r)
        ≡ (is_empty r.deterministic_logic && not (is_recommended r.obligation_type))
  unfolding flag_no_deterministic_logic
  any_of-flag_no_deterministic_logic r = ground arith

  any_of-flag_groups :
      (id : String) (groups : Dict (List (NumericalThreshold Number)))
      → any_of is_blocking_flag (flag_groups num id groups)
        ≡ any_of (λ g. thresholds_conflict num g.1) groups
  unfolding flag_groups
  any_of-flag_groups id [] = refl
  any_of-flag_groups id ((key, ts) ∷ groups) = ground (arith, any_of-flag_groups id groups)

  module _ (uni : Unicode) (catalogue : List (CanonicalFact Number)) where
    -- The metric, the unit and the bounds of a threshold agree with the taxonomy.
    abbrev pub is_mapped : NumericalThreshold Number → Bool
    is_mapped t =
        is_valid
          (resolve_canonical_fact uni num catalogue t.metric t.unit (some t.value) t.value_upper)

    any_of-fact_flags :
        (id metric : String) (r : FactResolution)
        → any_of is_blocking_flag (fact_flags num uni catalogue id metric r) ≡ not (is_valid r)
    any_of-fact_flags id metric r = ground arith

    any_of-flag_facts :
        (id : String) (ts : List (NumericalThreshold Number))
        → any_of is_blocking_flag (flag_facts num uni catalogue id ts)
          ≡ any_of (λ t. not (is_mapped t)) ts
    unfolding flag_facts
    any_of-flag_facts id [] = refl
    any_of-flag_facts id (t ∷ ts) =
        join_parts is_blocking_flag (fact_flags num uni catalogue id t.metric _) _
          (any_of-fact_flags id t.metric
            (resolve_canonical_fact uni num catalogue t.metric t.unit (some t.value) t.value_upper))
          (any_of-flag_facts id ts)

    -- A rule has a blocking flag exactly where its audit did not approve it, its confidence is below
    -- the threshold, a metric, unit or value of it is not in the taxonomy, `thresholds_conflict` holds
    -- of its thresholds on some one field, or it has no threshold and does not merely recommend.
    pub has_blocking_flags-collect_hitl_flags :
        (threshold : Number) (a : AuditedComplianceRule Number)
        → has_blocking_flags (collect_hitl_flags num uni catalogue threshold a) ≡ (
            not (is_audited a.verdict)
            || not (is_confident threshold a.rule)
            || any_of (λ t. not (is_mapped t)) a.rule.deterministic_logic
            || any_of
                (λ g. thresholds_conflict num g.1)
                (group_by_field a.rule.deterministic_logic [])
            || (is_empty a.rule.deterministic_logic && not (is_recommended a.rule.obligation_type)))
    unfolding has_blocking_flags collect_hitl_flags flag_qualitative_directives flag_ambiguous_spans
        flag_unresolved_entities flag_unmapped_or_invalid_facts flag_conflicting_thresholds
    has_blocking_flags-collect_hitl_flags threshold a =
        let r = a.rule in
        let ts = r.deterministic_logic in
        let f1 = flag_audit_not_approved a in
        let f2 = f1 ++ flag_low_confidence num threshold r in
        let f3 = f2 ++ flag_facts num uni catalogue r.rule_id ts in
        let f4 = f3 ++ flag_groups num r.rule_id (group_by_field ts []) in
        let f5 = f4 ++ flag_no_deterministic_logic r in
        let f6 = f5 ++ flag_qualitative_directives r in
        let f7 = f6 ++ flag_ambiguous_spans r in
        let e2 =
          join_parts is_blocking_flag f1 (flag_low_confidence num threshold r)
            (any_of-flag_audit_not_approved a) (any_of-flag_low_confidence threshold r) in
        let e3 =
          join_parts is_blocking_flag f2 (flag_facts num uni catalogue r.rule_id ts) e2
            (any_of-flag_facts r.rule_id ts) in
        let e4 =
          join_parts is_blocking_flag f3 (flag_groups num r.rule_id (group_by_field ts [])) e3
            (any_of-flag_groups r.rule_id (group_by_field ts [])) in
        let e5 =
          join_parts is_blocking_flag f4 (flag_no_deterministic_logic r) e4
            (any_of-flag_no_deterministic_logic r) in
        let e6 =
          join_parts is_blocking_flag f5 (flag_qualitative_directives r) e5
            (advisory_only r.rule_id _ (λ s. s) r.qualitative_directives) in
        let e7 =
          join_parts is_blocking_flag f6 (flag_ambiguous_spans r) e6
            (advisory_only r.rule_id _ (λ s. s) r.ambiguous_spans) in
        join_parts is_blocking_flag f7 (flag_unresolved_entities r) e7 (
          advisory_only r.rule_id _ (λ e. e.raw_text)
            (keep_if is_unresolved_entity r.target_entities))
        ∙ or_false
        ∙ or_false
        ∙ or_false

    pub unblocked :
        (threshold : Number) (a : AuditedComplianceRule Number)
        → has_blocking_flags (collect_hitl_flags num uni catalogue threshold a) ≡ false
        → (is_audited a.verdict ≡ true)
          × (is_confident threshold a.rule ≡ true)
          × (any_of (λ t. not (is_mapped t)) a.rule.deterministic_logic ≡ false)
          × (any_of
                (λ g. thresholds_conflict num g.1)
                (group_by_field a.rule.deterministic_logic [])
              ≡ false)
    unblocked threshold a h =
        five_false _ (sym (has_blocking_flags-collect_hitl_flags threshold a) ∙ h)
