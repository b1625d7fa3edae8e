-- ===== src/Negotiation/Settling.antt =====
-- What further rounds of a negotiation can change.
use reg_engine_ai.Base.{
  ℕ, zero, suc, ◌≡◌, refl, sym, ap, ap₂, ◌∙◌, String, Bool, true, false, not, ◌&&◌, ◌||◌, ◌⊎◌,
  Option, none, some, List, [], ◌∷◌, map, any_of, All, str_eq, arith, Bool-cases, inl, inr,
  if◌then◌else◌,
}
use reg_engine_ai.Execution.Models.{Decision, deny, PolicyOutcome}
use reg_engine_ai.Compiler.Facts.{Unicode}
use reg_engine_ai.Negotiation.Models.{Scores, AgentVerdict, NegotiationRound}
use reg_engine_ai.Negotiation.Agents.{
  DomainAgent, Confidences, is_deny_verdict, presses, softened, apply_negotiation_pressure,
  scoped_outcomes, reduce_scoped_outcomes, collect_verdicts,
}
use reg_engine_ai.Negotiation.Consensus.{
  decides_same, ConsensusState, consensus_state, deadlocked, check_consensus, tally_votes, round_of,
  round_or_stop, run_from, run_rounds,
}

-- What another agent sees of a verdict: all but its confidence and its reasons.
record Stance (Score : Type 0) : Type 0 where
  key : String
  decided : Decision
  strength : Score
  cites : Option String

List-cases {ℓ} : {A : Type ℓ} (xs : List A) → (xs ≡ []) ⊎ ((y : A) × (ys : List A) × (xs ≡ y ∷ ys))
List-cases [] = inl refl
List-cases (y ∷ ys) = inr (y, ys, refl)

module _ {Score : Type 0} where
  stance : AgentVerdict Score → Stance Score
  stance v = record {
    key = v.agent_key;
    decided = v.decision;
    strength = v.weight;
    cites = v.cited_circular_number;
  }

  module _ (score : Scores Score) (conf : Confidences Score) where
    stance-apply_negotiation_pressure :
        (a : DomainAgent Score) (v : AgentVerdict Score)
        (prior : Option (List (AgentVerdict Score)))
        → stance (apply_negotiation_pressure score conf a v prior) ≡ stance v
    unfolding apply_negotiation_pressure stance
    stance-apply_negotiation_pressure a v none = refl
    stance-apply_negotiation_pressure a v (some vs) =
        elim (Bool-cases (any_of (presses score conf a v) vs)) [
          | inl h ↦ rw h refl
          | inr h ↦ rw h refl
        ]

    -- `presses` as a test of the stance alone
    presses_by : DomainAgent Score → AgentVerdict Score → Stance Score → Bool
    presses_by a v s =
        not (str_eq s.key a.agent_key)
        && decides_same s.decided deny
        && not (is_deny_verdict score conf v)
        && not (score.less s.strength a.weight)
        && elim s.cites [ none ↦ false | some c ↦ true ]

    presses-stance :
        (a : DomainAgent Score) (v w : AgentVerdict Score)
        → presses_by a v (stance w) ≡ presses score conf a v w
    unfolding presses_by stance
    presses-stance a v w = ground arith

    any_of-presses :
        (a : DomainAgent Score) (v : AgentVerdict Score) (vs : List (AgentVerdict Score))
        → any_of (presses_by a v) (map stance vs) ≡ any_of (presses score conf a v) vs
    any_of-presses a v [] = refl
    any_of-presses a v (w ∷ vs) =
        ap₂ (λ (x y : Bool). x || y) (presses-stance a v w) (any_of-presses a v vs)

    pressed_alike :
        (a : DomainAgent Score) (v : AgentVerdict Score) (vs ws : List (AgentVerdict Score))
        → map stance vs ≡ map stance ws
        → apply_negotiation_pressure score conf a v (some vs)
          ≡ apply_negotiation_pressure score conf a v (some ws)
    unfolding apply_negotiation_pressure
    pressed_alike a v vs ws h =
        ap (λ b. if b then softened score conf v else v)
          (sym (any_of-presses a v vs) ∙ ap (any_of (presses_by a v)) h ∙ any_of-presses a v ws)

    module _ (uni : Unicode) (outcomes : List PolicyOutcome) where
      stance_unmoved :
          (p : Option (List (AgentVerdict Score))) (agents : List (DomainAgent Score))
          → map stance (collect_verdicts score conf uni outcomes p agents)
            ≡ map stance (collect_verdicts score conf uni outcomes none agents)
      unfolding collect_verdicts
      stance_unmoved p [] = refl
      stance_unmoved p (a ∷ agents) = elim (List-cases (scoped_outcomes uni a outcomes)) [
        | inl e ↦ rw e (stance_unmoved p agents)
        | inr (o, os, e) ↦
            let v = reduce_scoped_outcomes score conf a o os in
            rw e (
              ap₂ (λ (x : Stance Score) xs. x ∷ xs)
                (stance-apply_negotiation_pressure a v p
                  ∙ sym (stance-apply_negotiation_pressure a v none))
                (stance_unmoved p agents))
      ]

      collect_alike :
          (vs ws : List (AgentVerdict Score)) (agents : List (DomainAgent Score))
          → map stance vs ≡ map stance ws
          → collect_verdicts score conf uni outcomes (some vs) agents
            ≡ collect_verdicts score conf uni outcomes (some ws) agents
      unfolding collect_verdicts
      collect_alike vs ws [] h = refl
      collect_alike vs ws (a ∷ agents) h = elim (List-cases (scoped_outcomes uni a outcomes)) [
        | inl e ↦ rw e (collect_alike vs ws agents h)
        | inr (o, os, e) ↦ rw e (
            ap₂ (λ (x : AgentVerdict Score) xs. x ∷ xs)
              (pressed_alike a (reduce_scoped_outcomes score conf a o os) vs ws h)
              (collect_alike vs ws agents h))
      ]

      -- The verdicts of a round depend only on whether there was a round before.
      collect_settles :
          (p q : Option (List (AgentVerdict Score))) (agents : List (DomainAgent Score))
          → collect_verdicts score conf uni outcomes
              (some (collect_verdicts score conf uni outcomes p agents))
              agents
            ≡ collect_verdicts score conf uni outcomes
                (some (collect_verdicts score conf uni outcomes q agents))
                agents
      collect_settles p q agents =
          collect_alike _ _ agents (stance_unmoved p agents ∙ sym (stance_unmoved q agents))

module _ {Score : Type 0} (score : Scores Score) (conf : Confidences Score) (uni : Unicode)
    (margin threshold : Score) (agents : List (DomainAgent Score))
    (outcomes : List PolicyOutcome) where
  loop : ℕ → ℕ → Option (List (AgentVerdict Score)) → List (NegotiationRound Score) × ConsensusState
  loop = run_from score margin conf uni agents threshold outcomes

  collected : Option (List (AgentVerdict Score)) → List (AgentVerdict Score)
  collected p = collect_verdicts score conf uni outcomes p agents

  agrees : List (AgentVerdict Score) → Bool
  agrees vs = check_consensus score margin threshold (tally_votes score margin vs)

  -- how a round ends, when the rounds after it end in `s`
  ends : List (AgentVerdict Score) → ConsensusState → ConsensusState
  ends [] s = deadlocked
  ends (v ∷ vs) s = if agrees (v ∷ vs) then consensus_state else s

  ends_idem :
      (vs : List (AgentVerdict Score)) (s : ConsensusState) → ends vs (ends vs s) ≡ ends vs s
  unfolding ends
  ends_idem [] s = refl
  ends_idem (v ∷ vs) s = elim (Bool-cases (agrees (v ∷ vs))) [
    | inl h ↦ rw h refl
    | inr h ↦ rw h refl
  ]

  round_or_stop_state :
      (n : ℕ) (vs : List (AgentVerdict Score))
      (rest : List (NegotiationRound Score) × ConsensusState)
      → (round_or_stop score margin threshold n vs rest).1 ≡ ends vs rest.1
  unfolding ends agrees
  round_or_stop_state n [] rest = refl
  round_or_stop_state n (v ∷ vs) rest = elim (Bool-cases (agrees (v ∷ vs))) [
    | inl h ↦ rw h refl
    | inr h ↦ rw h refl
  ]

  loop_end : (n : ℕ) (p : Option (List (AgentVerdict Score))) → (loop 0 n p).1 ≡ deadlocked
  unfolding loop run_from
  loop_end n p = refl

  loop_step :
      (left n : ℕ) (p : Option (List (AgentVerdict Score)))
      → (loop (suc left) n p).1 ≡ ends (collected p) (loop left (suc n) (some (collected p))).1
  unfolding loop run_from collected
  loop_step left n p = round_or_stop_state n (collected p) _

  -- Rounds that repeat the verdicts of the round before them change nothing.
  repeats :
      (left n : ℕ) (vs : List (AgentVerdict Score))
      → collected (some vs) ≡ vs
      → ends vs (loop left n (some vs)).1 ≡ ends vs deadlocked
  repeats zero n vs h = ap (ends vs) (loop_end n (some vs))
  repeats (suc left) n vs h =
      let again : (loop (suc left) n (some vs)).1 ≡ ends vs (loop left (suc n) (some vs)).1 =
        loop_step left n (some vs) ∙ ap (λ ws. ends ws (loop left (suc n) (some ws)).1) h in
      ap (ends vs) again ∙ ends_idem vs _ ∙ repeats left (suc n) vs h

  second_round :
      (left n : ℕ) (vs : List (AgentVerdict Score))
      → collected (some (collected (some vs))) ≡ collected (some vs)
      → (loop (suc left) n (some vs)).1 ≡ (loop 1 n (some vs)).1
  second_round left n vs h =
      loop_step left n (some vs)
      ∙ repeats left (suc n) (collected (some vs)) h
      ∙ sym (loop_step 0 n (some vs) ∙ ap (ends (collected (some vs))) (loop_end (suc n) _))

  -- A round with the verdicts of the first round, or with those of the second.
  abbrev pub IsOld : NegotiationRound Score → Type 0
  IsOld r =
      let first = collect_verdicts score conf uni outcomes none agents in
      let second = collect_verdicts score conf uni outcomes (some first) agents in
      (r ≡ round_of score margin threshold r.round_number first)
      ⊎ (r ≡ round_of score margin threshold r.round_number second)

  either-IsOld :
      (b : Bool) (x y : List (NegotiationRound Score) × ConsensusState)
      → All IsOld x.0
      → All IsOld y.0
      → All IsOld (if b then x else y).0
  either-IsOld true x y h k = h
  either-IsOld false x y h k = k

  added-IsOld :
      (n : ℕ) (vs : List (AgentVerdict Score))
      (rest : List (NegotiationRound Score) × ConsensusState)
      → IsOld (round_of score margin threshold n vs)
      → All IsOld rest.0
      → All IsOld (round_or_stop score margin threshold n vs rest).0
  added-IsOld n [] rest h hs = tt
  added-IsOld n (v ∷ vs) rest h hs =
      either-IsOld (round_of score margin threshold n (v ∷ vs)).consensus_reached _ _ (h, tt)
        (h, hs)

  loop-IsOld :
      (left n : ℕ) (p : Option (List (AgentVerdict Score)))
      → (collected p ≡ collected none) ⊎ (collected p ≡ collected (some (collected none)))
      → All IsOld (loop left n p).0
  unfolding loop run_from collected
  loop-IsOld zero n p h = tt
  loop-IsOld (suc left) n p h =
      added-IsOld n (collected p) _
        (elim h [
          | inl e ↦ inl (ap (round_of score margin threshold n) e)
          | inr e ↦ inr (ap (round_of score margin threshold n) e)
        ])
        (loop-IsOld left (suc n) (some (collected p))
          (inr (collect_settles score conf uni outcomes p none agents)))

  -- A negotiation of more than two rounds has the state of one of two rounds, and each of its
  -- rounds is, but for its number, the first or the second: the verdicts, the tally and the
  -- dissenting agents are those that the two rounds have.
  pub run_settles :
      (more : ℕ)
      → let (rounds, state) =
          run_rounds score margin conf uni agents threshold outcomes (suc (suc more)) in
        (state ≡ (run_rounds score margin conf uni agents threshold outcomes 2).1)
        × All IsOld rounds
  unfolding run_rounds loop collected
  run_settles more =
      let vs = collected none in
      let h = collect_settles score conf uni outcomes (some vs) none agents in
      (
        loop_step (suc more) 1 none
            ∙ ap (ends vs) (second_round more 2 vs h)
            ∙ sym (loop_step 1 1 none),
        loop-IsOld (suc (suc more)) 1 none (inl refl),
      )
