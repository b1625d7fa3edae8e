-- ===== src/Hitl/Effects.antt =====
-- What one call of the service does to the rules and the circular of its review.
use reg_engine_ai.Base.{
  none, ℕ, String, inl, inr, ◌≡◌, refl, sym, ap, ◌∙◌, subst, Bool, true, false, not, ◌&&◌, ◌||◌,
  ◌↔◌, ◌⊎◌, Option, some, List, [], ◌∷◌, arith, ok, err, ◌==◌, ==_iff, str_eq, all_of, find_row,
  update_row, update_where, Option-cases, if◌then◌else◌, Bool-cases,
}
use reg_engine_ai.Hitl.Models.{
  revision_required, ReviewStatus, RuleHitlStatus, hitl_blocking, ProcessingState, ingested,
  extracting, extracted, compiling, awaiting_hitl, approved, deployed, failed, HitlReview,
  CompiledRule, Circular, Db, rejected,
}
use reg_engine_ai.Hitl.Gate.{Verdict, evaluate_rule_hitl_gate}
use reg_engine_ai.Hitl.GateLaws.{all_approved, gate_exact}
use reg_engine_ai.Hitl.Service.{
  name_error, get_pending_review, has_review_id, reviews_of, is_rule, settle, policy_hash, activate,
  deactivate, hold, apply_verdict, circular_of, move_circular, Approval, Officer, approve_with,
  approved_review, approve_review,
}
use reg_engine_ai.Hitl.Refusal.{
  refuse_stale_rule, refuse_rule, change_rule_of, is_failed, fail_circular, reject_review,
  request_revision, reaches_missing_name, is_revisable,
}
use reg_engine_ai.Hitl.Reachable.{approve_circular-SameRules, fail_circular-SameRules}

-- Of the rows with a rule's business key only its own is active, whatever the tenant.
abbrev pub only_active : CompiledRule → List CompiledRule → Bool
only_active rule = all_of (λ r.
    if r.id == rule.id then r.is_active else not (str_eq r.rule_id rule.rule_id && r.is_active))

abbrev pub never_active : ℕ → List CompiledRule → Bool
never_active rule_pk = all_of (λ r. not (r.id == rule_pk && r.is_active))

only_active-update :
    (hash : Option String) (rule : CompiledRule) (rules : List CompiledRule)
    → only_active rule (
        update_where (is_rule rule.id) (activate hash) (
          update_where
            (λ r. str_eq r.rule_id rule.rule_id && not (r.id == rule.id))
            deactivate
            rules))
      ≡ true
unfolding activate deactivate
only_active-update hash rule [] = refl
only_active-update hash rule (r ∷ rules) =
    ground (arith, only_active-update hash rule rules, ==_iff r.id rule.id)

never_active-update :
    (f : CompiledRule → CompiledRule) (rule_pk : ℕ) (rules : List CompiledRule)
    → ((r : CompiledRule) → (f r).is_active ≡ false)
    → ((r : CompiledRule) → (f r).id ≡ r.id)
    → never_active rule_pk (update_where (is_rule rule_pk) f rules) ≡ true
never_active-update f rule_pk [] off key = refl
never_active-update f rule_pk (r ∷ rules) off key =
    ground (arith, never_active-update f rule_pk rules off key, off r, key r)

apply_verdict-active :
    (hash : Option String) (rule : CompiledRule) (v : Verdict) (rules : List CompiledRule)
    → (if v.can_activate
        then only_active rule (apply_verdict hash rule v rules)
        else never_active rule.id (apply_verdict hash rule v rules))
      ≡ true
unfolding apply_verdict hold
apply_verdict-active hash rule v rules = ground (
  arith,
  only_active-update hash rule rules,
  never_active-update (hold hash v.target_status) rule.id rules (λ r. refl) (λ r. refl),
)

-- the row that a search by id gives has that id
find_circular-id :
    (k : ℕ) (cs : List Circular) {c : Circular} → find_row (λ x. x.id == k) cs ≡ some c → c.id ≡ k
find_circular-id k [] e = absurd (cc)
find_circular-id k (x ∷ cs) {c} e = ground (arith, find_circular-id k cs {c = c})

pub circular_of-found :
    (review : HitlReview) (db : Db) {c : Circular}
    → circular_of review db ≡ some c
    → find_row (λ x. x.id == c.id) db.circulars ≡ some c
unfolding circular_of
circular_of-found review db {c} e =
    elim (Option-cases (find_row (λ x. x.id == review.clause_id) db.clauses)) [
      | inl missing ↦ absurd (ground (arith, e, missing))
      | inr (clause, found) ↦
          let there : find_row (λ x. x.id == clause.circular_id) db.circulars ≡ some c =
            ground (arith, e, found) in
          subst (λ (k : ℕ). find_row (λ x. x.id == k) db.circulars ≡ some c)
            (sym (find_circular-id clause.circular_id db.circulars there)) there
    ]

pub find-update_where :
    (f : Circular → Circular) (k : ℕ) (cs : List Circular) {c : Circular}
    → ((x : Circular) → (f x).id ≡ x.id)
    → find_row (λ x. x.id == k) cs ≡ some c
    → find_row (λ x. x.id == k) (update_where (λ x. x.id == k) f cs) ≡ some (f c)
find-update_where f k [] key e = absurd (cc)
find-update_where f k (x ∷ cs) {c} key e =
    ground (arith, key x, find-update_where f k cs {c = c} key)

fail_circular-found :
    (subject : String) (review : HitlReview) (db : Db) {c : Circular}
    → circular_of review db ≡ some c
    → fail_circular subject review db ≡ (
        if is_failed c.processing_state
        then db
        else move_circular c failed subject review.review_id
            (some (record { review_id = review.review_id; rejected_by = subject }))
            db)
unfolding fail_circular
fail_circular-found subject review db belongs = ground (arith, belongs)

fail_circular-failed :
    (subject : String) (review : HitlReview) (db : Db) {c : Circular}
    → circular_of review db ≡ some c
    → (x : Circular) × (find_row (λ x. x.id == c.id) (fail_circular subject review db).circulars
        ≡ some x)
      × (is_failed x.processing_state ≡ true)
unfolding move_circular
fail_circular-failed subject review db {c} belongs =
    let found = circular_of-found review db belongs in
    elim (Bool-cases (is_failed c.processing_state)) [
      | inl over ↦ (c, rw (fail_circular-found subject review db belongs, over) found, over)
      | inr open_ ↦
          let fails : Circular → Circular = (λ x. record x {
            processing_state = failed;
            error_message = some (record { review_id = review.review_id; rejected_by = subject });
          }) in
          (
            fails c,
            rw (fail_circular-found subject review db belongs, open_)
                (find-update_where fails c.id db.circulars (λ x. refl) found),
            refl,
          )
    ]

module _ (sha256 : String → String) (o : Officer) (review_id : String) where
  approve_with_exact :
      (publishes : Bool) (review : HitlReview) (db : Db) (rule : CompiledRule)
      → (a : Approval) × (db' : Db) × (approve_with sha256 o review_id publishes review db
            (some rule)
          ≡ ok (a, db'))
        × (a.rule_activated ≡ all_approved (reviews_of rule.id db'.reviews))
        × ((if a.rule_activated then only_active rule db'.rules else never_active rule.id db'.rules)
            ≡ true)
  unfolding approve_with approved_review
  approve_with_exact publishes review db rule =
      let hash = policy_hash sha256 rule in
      let r = approved_review sha256 o review_id rule review in
      let rs' = update_row (has_review_id review_id) (λ x. r) db.reviews in
      let v = evaluate_rule_hitl_gate (reviews_of rule.id rs') in
      let db₁ = record db { reviews = rs'; rules = apply_verdict hash rule v db.rules } in
      let same = approve_circular-SameRules o.principal_subject r db₁ in
      (
        _,
        _,
        refl,
        rw same.0 ((gate_exact (reviews_of rule.id rs')).0),
        rw same.1 (apply_verdict-active hash rule v db.rules),
      )

  approve_review-approve_with :
      (publishes : Bool) (db : Db) (review : HitlReview) (rule_pk : ℕ)
      → get_pending_review review_id db ≡ ok review
      → review.compiled_rule_id ≡ some rule_pk
      → approve_review sha256 o review_id publishes db
        ≡ approve_with sha256 o review_id publishes review db (find_row (is_rule rule_pk) db.rules)
  unfolding approve_review
  approve_review-approve_with publishes db review rule_pk read attached = simp (read, attached)

  -- The approval of a pending review whose rule exists returns. It activates the rule exactly when
  -- afterwards every review of the rule is resolved; then the rule's row is active and no other row
  -- with the same rule id is, of this tenant or any other; else the rule's row is inactive.
  pub approve_review_exact :
      (publishes : Bool) (db : Db) {review : HitlReview} {rule_pk : ℕ} {rule : CompiledRule}
      → get_pending_review review_id db ≡ ok review
      → review.compiled_rule_id ≡ some rule_pk
      → find_row (is_rule rule_pk) db.rules ≡ some rule
      → (a : Approval) × (db' : Db) × (approve_review sha256 o review_id publishes db ≡ ok (a, db'))
        × (a.rule_activated ≡ all_approved (reviews_of rule.id db'.reviews))
        × ((if a.rule_activated then only_active rule db'.rules else never_active rule.id db'.rules)
            ≡ true)
  approve_review_exact publishes db {review} {rule_pk} {rule} read attached found =
      let (a, db', run, activated, active) = approve_with_exact publishes review db rule in
      (
        a,
        db',
        approve_review-approve_with publishes db review rule_pk read attached
            ∙ ap (approve_with sha256 o review_id publishes review db) found
            ∙ run,
        activated,
        active,
      )

-- The states in which a revision would reset the clauses of a circular.
pub data IsRevisable : ProcessingState → Type 0 where
  awaits_review : IsRevisable awaiting_hitl
  was_approved : IsRevisable approved

abbrev pub Stalls : HitlReview → Db → Type 0
Stalls review db =
    (c : Circular) × (circular_of review db ≡ some c) × IsRevisable c.processing_state

is_held : RuleHitlStatus → Bool
is_held hitl_blocking = true
is_held _ = false

-- Every row of the rule is inactive, not compiled and held back.
pub is_refused : ℕ → List CompiledRule → Bool
is_refused rule_pk =
    all_of (λ r.
      not (r.id == rule_pk) || (not r.is_active && not r.is_compiled && is_held r.hitl_status))

abbrev pub IsRefused : Option ℕ → List CompiledRule → List CompiledRule → Type 0
IsRefused none rules rules' = rules' ≡ rules
IsRefused (some rule_pk) rules rules' = is_refused rule_pk rules' ≡ true

is_refused-update :
    (rule_pk : ℕ) (rules : List CompiledRule)
    → is_refused rule_pk (update_where (is_rule rule_pk) refuse_stale_rule rules) ≡ true
unfolding is_refused is_held refuse_stale_rule
is_refused-update rule_pk [] = refl
is_refused-update rule_pk (r ∷ rules) = ground (arith, is_refused-update rule_pk rules)

revisable_iff : (s : ProcessingState) → (is_revisable s ≡ true) ↔ IsRevisable s
revisable_iff awaiting_hitl = (λ e. awaits_review, λ h. refl)
revisable_iff approved = (λ e. was_approved, λ h. refl)
revisable_iff ingested = (λ e. cc, λ h. elim h [ ])
revisable_iff extracting = (λ e. cc, λ h. elim h [ ])
revisable_iff extracted = (λ e. cc, λ h. elim h [ ])
revisable_iff compiling = (λ e. cc, λ h. elim h [ ])
revisable_iff deployed = (λ e. cc, λ h. elim h [ ])
revisable_iff failed = (λ e. cc, λ h. elim h [ ])

rules-IsRefused :
    (review : HitlReview) (rules : List CompiledRule)
    → IsRefused review.compiled_rule_id rules (change_rule_of refuse_stale_rule review rules)
unfolding change_rule_of
rules-IsRefused review rules = elim (Option-cases review.compiled_rule_id) [
  | inl alone ↦ rw alone refl
  | inr (k, attached) ↦ rw attached (is_refused-update k rules)
]

module _ (o : Officer) (review_id : String) where
  abbrev sent_back : HitlReview → HitlReview
  sent_back review = record (settle revision_required o.principal_subject o.notes o.now review) {
    compiled_rule_id = none;
  }

  abbrev revised : HitlReview → Db → Db
  revised review db = record db {
    reviews = update_row (has_review_id review_id) (λ x. sent_back review) db.reviews;
    rules = change_rule_of refuse_stale_rule review db.rules;
  }

  request_revision_run :
      (db : Db) {review : HitlReview}
      → get_pending_review review_id db ≡ ok review
      → request_revision o review_id db ≡ (
          if reaches_missing_name (sent_back review) db
          then err name_error
          else ok (sent_back review, revised review db))
  unfolding request_revision
  request_revision_run db read = rw read refl

  reaches_missing_name_found :
      (review : HitlReview) (db : Db) (found : Option Circular)
      → circular_of review db ≡ found
      → reaches_missing_name (sent_back review) db
        ≡ elim found [ none ↦ false | some c ↦ is_revisable c.processing_state ]
  unfolding reaches_missing_name circular_of settle
  reaches_missing_name_found review db found e =
      ap
        (λ (x : Option Circular). elim x [
          | none ↦ false
          | some c ↦ is_revisable c.processing_state
        ])
        e

  missing_name_Stalls :
      (review : HitlReview) (db : Db)
      → (reaches_missing_name (sent_back review) db ≡ true) ↔ Stalls review db
  missing_name_Stalls review db = elim (Option-cases (circular_of review db)) [
    | inl none_found ↦ (
      λ e. absurd (cc (reaches_missing_name_found review db none none_found, e)),
      λ (c, found, h). absurd (cc (none_found, found)),
    )
    | inr (c, found) ↦ (
      λ e. (
        c,
        found,
        (revisable_iff c.processing_state).0
            (sym (reaches_missing_name_found review db (some c) found) ∙ e),
      ),
      λ (d, found', h).
          reaches_missing_name_found review db (some d) found'
          ∙ (revisable_iff d.processing_state).1 h,
    )
  ]

  -- The revision of a pending review raises a `NameError` exactly when its circular awaits review or
  -- is approved, since the module does not import the name that it uses there. Else it returns: the
  -- review is one that requires revision, detached from its rule; each row of the rule is inactive,
  -- not compiled and held back, and no row changes where the review has no rule; no circular moves.
  pub request_revision_exact :
      (db : Db) {review : HitlReview}
      → get_pending_review review_id db ≡ ok review
      → ((request_revision o review_id db ≡ err name_error) × Stalls review db)
        ⊎ ((r : HitlReview) × (db' : Db) × (request_revision o review_id db ≡ ok (r, db'))
            × (¬ (Stalls review db))
            × (r.status ≡ revision_required)
            × (r.compiled_rule_id ≡ none)
            × IsRefused review.compiled_rule_id db.rules db'.rules
            × (db'.circulars ≡ db.circulars)
            × (db'.transitions ≡ db.transitions))
  unfolding settle
  request_revision_exact db {review} read =
      let run = request_revision_run db read in
      elim (Bool-cases (reaches_missing_name (sent_back review) db)) [
        | inl stalls ↦ inl (rw stalls at run, (missing_name_Stalls review db).0 stalls)
        | inr clear ↦ inr (
          sent_back review,
          revised review db,
          rw clear at run,
          λ s. cc ((missing_name_Stalls review db).1 s, clear),
          refl,
          refl,
          rules-IsRefused review db.rules,
          refl,
          refl,
        )
      ]

  circular_of_settled :
      (status : ReviewStatus) (db : Db) (review : HitlReview) (reviews : List HitlReview)
      (rules : List CompiledRule) {c : Circular}
      → circular_of review db ≡ some c
      → circular_of
          (settle status o.principal_subject o.notes o.now review)
          (record db { reviews = reviews; rules = rules })
        ≡ some c
  unfolding circular_of settle
  circular_of_settled status db review reviews rules e = e

  -- The rejection of a pending review that has a rule and a circular returns. It leaves no row of
  -- the rule active, and the circular failed.
  pub reject_review_effect :
      (db : Db) {review : HitlReview} {rule_pk : ℕ} {c : Circular}
      → get_pending_review review_id db ≡ ok review
      → review.compiled_rule_id ≡ some rule_pk
      → circular_of review db ≡ some c
      → (r : HitlReview) × (db' : Db) × (reject_review o review_id db ≡ ok (r, db'))
        × (never_active rule_pk db'.rules ≡ true)
        × ((x : Circular) × (find_row (λ x. x.id == c.id) db'.circulars ≡ some x)
            × (is_failed x.processing_state ≡ true))
  unfolding reject_review change_rule_of refuse_rule
  reject_review_effect db {review} {rule_pk} {c} read attached belongs =
      let r = settle rejected o.principal_subject o.notes o.now review in
      let rules' = change_rule_of refuse_rule review db.rules in
      let db₁ = record db {
        reviews = update_row (has_review_id review_id) (λ x. r) db.reviews;
        rules = rules';
      } in
      (
        r,
        fail_circular o.principal_subject r db₁,
        rw read refl,
        rw (fail_circular-SameRules o.principal_subject r db₁).1 (
            rw attached (never_active-update refuse_rule rule_pk db.rules (λ x. refl) (λ x. refl))),
        fail_circular-failed o.principal_subject r db₁
            (circular_of_settled rejected db review db₁.reviews rules' belongs),
      )
