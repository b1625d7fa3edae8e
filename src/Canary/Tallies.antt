-- ===== src/Canary/Tallies.antt =====
-- What holds of every run's tally and of the set of the active runs.
use reg_engine_ai.Base.{
  ℕ, ◌+◌, String, inl, inr, Bool-cases, ◌≡◌, refl, ap, subst, Bool, true, false, not, Option, none,
  some, List, [], ◌∷◌, arith, ok, ok-injective, bind_value, insert, srem, is_member, lookup-insert,
  is_member-sadd, is_member-srem, str_eq, eq_iff, if◌then◌else◌,
}
use reg_engine_ai.Execution.Models.{Decision}
use reg_engine_ai.Canary.Models.{
  FloatOps, CanaryStatus, ComparisonResult, Cell, CanaryWindowStats, CanaryRun, is_running,
  same_decision,
}
use reg_engine_ai.Canary.Store.{
  CanaryStore, bump, create_run, get_run, or_no_such_run, resolve_run, tally, write_comparison,
  record_comparison,
}

abbrev same_cell : Bool → Bool → Bool
same_cell true b = b
same_cell false b = not b

-- The counts of the cells with equal, or with different, decisions.
abbrev pub count_cells : Bool → List Cell → ℕ
count_cells b [] = 0
count_cells b (x ∷ xs) =
    if same_cell b (same_decision x.production x.candidate)
    then x.count + count_cells b xs
    else count_cells b xs

same_decision_equal : (a b : Decision) → same_decision a b ≡ true → a ≡ b
unfolding same_decision
same_decision_equal a b h = ground arith

same_decision_trans :
    (a b c d : Decision)
    → same_decision a c ≡ true
    → same_decision b d ≡ true
    → same_decision a b ≡ same_decision c d
same_decision_trans a b c d h k = rw (same_decision_equal a c h, same_decision_equal b d k) refl

count_cells-bump :
    (b : Bool) (p c : Decision) (xs : List Cell)
    → count_cells b (bump p c xs)
      ≡ (if same_cell b (same_decision p c) then count_cells b xs + 1 else count_cells b xs)
unfolding bump
count_cells-bump b p c [] = ground arith
count_cells-bump b p c (x ∷ xs) =
    ground (arith, count_cells-bump b p c xs, same_decision_trans x.production x.candidate p c)

module _ {Float : Type 0} where
  -- The counters agree with the breakdown: what matched, what diverged, and all together.
  abbrev pub IsTallied : CanaryWindowStats Float → Type 0
  IsTallied s =
      (s.matched ≡ count_cells true s.decision_breakdown)
      × (s.diverged ≡ count_cells false s.decision_breakdown)
      × (s.total_compared ≡ s.matched + s.diverged)

  abbrev pub is_live : Option (CanaryRun Float) → Bool
  is_live none = false
  is_live (some r) = is_running r.status

  -- Every run's counters agree, and the set of the active runs names exactly the running ones.
  abbrev pub IsSound : CanaryStore Float → Type 0
  IsSound s =
      ((k : String) (r : CanaryRun Float) → get_run k s ≡ some r → IsTallied r.stats)
      × ((k : String) → is_member k s.active ≡ is_live (get_run k s))

  insert-IsSound :
      (k : String) (r : CanaryRun Float) (active : List String) (s : CanaryStore Float)
      → IsTallied r.stats
      → ((j : String)
          → is_member j active ≡ (if str_eq k j then is_running r.status else is_member j s.active))
      → IsSound s
      → IsSound (record { runs = insert k r s.runs; active = active })
  unfolding get_run
  insert-IsSound k r active s tallied indexed h = (
    λ j x found. elim (Bool-cases (str_eq k j)) [
      | inl same ↦
          let here : r ≡ x = ground (arith, same, found, lookup-insert k j r s.runs) in
          subst (λ (y : CanaryRun Float). IsTallied y.stats) here tallied
      | inr other ↦ h.0 j x (ground (arith, other, found, lookup-insert k j r s.runs))
    ],
    λ j. ground (arith, indexed j, h.1 j, lookup-insert k j r s.runs),
  )

module _ {Float : Type 0} (flt : FloatOps Float) where
  tally-IsTallied :
      (c : ComparisonResult Float) (s : CanaryWindowStats Float)
      → IsTallied s
      → IsTallied (tally flt c s)
  unfolding tally
  tally-IsTallied c s h = ground (
    arith,
    h,
    count_cells-bump true c.production_decision c.candidate_decision s.decision_breakdown,
    count_cells-bump false c.production_decision c.candidate_decision s.decision_breakdown,
  )

  pub record_comparison-IsSound :
      (k : String) (c : ComparisonResult Float) (s : CanaryStore Float) {r : CanaryRun Float}
      {s' : CanaryStore Float}
      → record_comparison flt k c s ≡ ok (r, s')
      → IsSound s
      → IsSound s'
  unfolding record_comparison write_comparison get_run
  record_comparison-IsSound k c s e h =
      let (r, read, rest) = bind_value (or_no_such_run (get_run k s)) _ e in
      let found : get_run k s ≡ some r = ground (arith, read) in
      subst IsSound (ap (λ x. x.1) (ok-injective rest)) (
        insert-IsSound k (record r { stats = tally flt c r.stats }) s.active s
          (tally-IsTallied c r.stats (h.0 k r found))
          (λ j. ground (arith, h.1 j, found, eq_iff k j)) h)

module _ {Float : Type 0} where
  pub create_run-IsSound :
      (r : CanaryRun Float) (s : CanaryStore Float)
      → is_running r.status ≡ true
      → IsTallied r.stats
      → IsSound s
      → IsSound (create_run r s)
  unfolding create_run
  create_run-IsSound r s live tallied h =
      insert-IsSound r.canary_id r _ s tallied
        (λ j. ground (arith, live, is_member-sadd r.canary_id j s.active)) h

  pub resolve_run-IsSound :
      (k : String) (status : CanaryStatus) (reason : String) (now : ℕ) (s : CanaryStore Float)
      {r : CanaryRun Float} {s' : CanaryStore Float}
      → is_running status ≡ false
      → resolve_run k status reason now s ≡ ok (r, s')
      → IsSound s
      → IsSound s'
  unfolding resolve_run
  resolve_run-IsSound k status reason now s final e h =
      let (r, read, rest) = bind_value (or_no_such_run (get_run k s)) _ e in
      let found : get_run k s ≡ some r = ground (arith, read) in
      let r' : CanaryRun Float = record r {
        status = status;
        resolved_at = some now;
        resolution_reason = some reason;
      } in
      elim (Bool-cases (is_running r.status)) [
        | inl live ↦ subst IsSound (ap (λ x. x.1) (ok-injective (rw live at rest))) (
            insert-IsSound k r' (srem k s.active) s (h.0 k r found)
              (λ j. ground (arith, final, is_member-srem k j s.active)) h)
        | inr over ↦ absurd (ground (arith, over, rest))
      ]
