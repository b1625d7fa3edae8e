-- ===== src/Negotiation/Outcomes.antt =====
-- How a negotiation ends: its rounds, the escalation to the queue, and the weight of a cited clause.
use reg_engine_ai.Base.{
  ℕ, zero, suc, ◌≤◌, ◌≡◌, refl, ap, ◌∙◌, subst, String, Bool, true, false, ◌⊎◌, Option, none, some,
  List, [], ◌∷◌, any_of, keep_if, length, ok, bind_value, ok-injective, arith, Bool-cases, inl, inr,
}
use reg_engine_ai.Execution.Models.{deny, flagged, PolicyOutcome, TransactionPayload, Reason}
use reg_engine_ai.Execution.HitlQueue.{HitlQueue, enqueue}
use reg_engine_ai.Execution.Queueing.{Adds, pending_case, enqueue-Adds}
use reg_engine_ai.Compiler.Facts.{Unicode}
use reg_engine_ai.Negotiation.Models.{
  Scores, AgentVerdict, NegotiationRound, ArbiterResolution, NegotiationStatus, arbitrated,
  escalated_to_hitl, NegotiationResult,
}
use reg_engine_ai.Negotiation.Agents.{DomainAgent, Confidences, collect_verdicts}
use reg_engine_ai.Negotiation.Consensus.{
  ConsensusState, consensus_state, deadlocked, round_of, round_or_stop, run_from, run_rounds,
}
use reg_engine_ai.Negotiation.Arbiter.{
  is_clause_deny, last_round, deny_precedence, arbitrate, deny_by,
}
use reg_engine_ai.Negotiation.Orchestrator.{
  resolve_deadlock, settled_by, consensus_result, conclude, negotiate,
}

abbrev pub is_escalated : NegotiationStatus → Bool
is_escalated escalated_to_hitl = true
is_escalated _ = false

-- What a test finds is kept by it.
kept {ℓ} :
    {A : Type ℓ} (p : A → Bool) (xs : List A)
    → any_of p xs ≡ true
    → (y : A) × (ys : List A) × (keep_if p xs ≡ y ∷ ys)
kept p [] h = absurd (cc)
kept p (x ∷ xs) h = elim (Bool-cases (p x)) [
  | inl e ↦ (x, keep_if p xs, rw e refl)
  | inr e ↦ rw e (kept p xs (rw e at h))
]

module _ {Score : Type 0} where
  -- Rounds numbered from `n` on, of which only the last may have a consensus, which is then the state.
  abbrev pub IsTranscript : ℕ → List (NegotiationRound Score) → ConsensusState → Type 0
  IsTranscript n [] s = s ≡ deadlocked
  IsTranscript n (r ∷ rs) s =
      (r.round_number ≡ n)
      × (((r.consensus_reached ≡ true) × (rs ≡ []) × (s ≡ consensus_state))
          ⊎ ((r.consensus_reached ≡ false) × IsTranscript (suc n) rs s))

  module _ (score : Scores Score) (margin : Score) (conf : Confidences Score) (uni : Unicode)
      (agents : List (DomainAgent Score)) (threshold : Score) (outcomes : List PolicyOutcome) where
    round_or_stop-IsTranscript :
        (left n : ℕ) (vs : List (AgentVerdict Score))
        (rest : List (NegotiationRound Score) × ConsensusState)
        → length rest.0 ≤ left
        → IsTranscript (suc n) rest.0 rest.1
        → let (rounds, state) = round_or_stop score margin threshold n vs rest in
          (length rounds ≤ suc left) × IsTranscript n rounds state
    round_or_stop-IsTranscript left n [] rest l h = (omega arith, refl)
    round_or_stop-IsTranscript left n (v ∷ vs) rest l h =
        elim (Bool-cases (round_of score margin threshold n (v ∷ vs)).consensus_reached) [
          | inl e ↦ rw e (omega arith, (refl, inl (refl, refl, refl)))
          | inr e ↦ rw e (omega (arith, l), (refl, inr (refl, h)))
        ]

    run_from-IsTranscript :
        (left n : ℕ) (p : Option (List (AgentVerdict Score)))
        → let (rounds, state) = run_from score margin conf uni agents threshold outcomes left n p in
          (length rounds ≤ left) × IsTranscript n rounds state
    unfolding run_from
    run_from-IsTranscript zero n p = (omega arith, refl)
    run_from-IsTranscript (suc left) n p =
        let r =
          run_from-IsTranscript left (suc n)
            (some (collect_verdicts score conf uni outcomes p agents)) in
        round_or_stop-IsTranscript left n _ _ r.0 r.1

    -- A negotiation has at most the allowed number of rounds, numbered from one; it stops at the first
    -- round with a consensus, and its state is a consensus exactly where such a round ends it.
    pub run_rounds-IsTranscript :
        (max_rounds : ℕ)
        → let (rounds, state) =
            run_rounds score margin conf uni agents threshold outcomes max_rounds in
          (length rounds ≤ max_rounds) × IsTranscript 1 rounds state
    unfolding run_rounds
    run_rounds-IsTranscript max_rounds = run_from-IsTranscript max_rounds 1 none

  module _ {Facts : Type 0} (score : Scores Score) (margin min_confidence : Score)
      (reason : List (NegotiationRound Score) → List Reason) (negotiation_id case_id : String)
      (now : ℕ) (transaction : TransactionPayload Facts) (outcomes : List PolicyOutcome)
      (queue : HitlQueue Facts) where
    -- What an ending does to the queue.
    abbrev pub IsSettled :
        List (NegotiationRound Score) → NegotiationResult Score × HitlQueue Facts → Type 0
    IsSettled rounds x =
        (x.0.rounds ≡ rounds)
        × (((x.0.status ≡ escalated_to_hitl)
              × (x.0.final_decision ≡ flagged)
              × (x.0.hitl_case_id ≡ some case_id)
              × Adds true (pending_case case_id now transaction (reason rounds) outcomes) queue x.1)
            ⊎ ((is_escalated x.0.status ≡ false) × (x.0.hitl_case_id ≡ none) × (x.1 ≡ queue)))

    consensus_result-IsSettled :
        (rounds : List (NegotiationRound Score)) (r : Option (NegotiationRound Score))
        → IsSettled rounds (
          consensus_result score margin min_confidence reason negotiation_id case_id now transaction
              outcomes queue rounds r,
          queue,
        )
    consensus_result-IsSettled rounds none = (refl, inr (refl, refl, refl))
    consensus_result-IsSettled rounds (some r) = (refl, inr (refl, refl, refl))

    settled_by-IsSettled :
        (rounds : List (NegotiationRound Score)) (resolution : Option (ArbiterResolution Score))
        → IsSettled rounds (
            settled_by score margin min_confidence reason negotiation_id case_id now transaction
              outcomes queue rounds resolution)
    unfolding enqueue
    settled_by-IsSettled rounds none = (
      refl,
      inl (refl, refl, refl, enqueue-Adds case_id now transaction (reason rounds) outcomes queue),
    )
    settled_by-IsSettled rounds (some r) = (refl, inr (refl, refl, refl))

    resolve_deadlock-IsSettled :
        (rounds : List (NegotiationRound Score)) {x : NegotiationResult Score × HitlQueue Facts}
        → resolve_deadlock score margin min_confidence reason negotiation_id case_id now transaction
            outcomes queue rounds
          ≡ ok x
        → IsSettled rounds x
    unfolding resolve_deadlock
    resolve_deadlock-IsSettled [] e =
        subst (IsSettled []) (ok-injective e) (refl, inr (refl, refl, refl))
    resolve_deadlock-IsSettled (r ∷ rs) e =
        let (resolution, p, q) = bind_value (arbitrate score margin min_confidence (r ∷ rs)) _ e in
        subst (IsSettled (r ∷ rs)) (ok-injective q) (settled_by-IsSettled (r ∷ rs) resolution)

    resolve_with :
        (rounds : List (NegotiationRound Score)) (r : NegotiationRound Score)
        (resolution : ArbiterResolution Score)
        → last_round rounds ≡ some r
        → deny_precedence score r ≡ some resolution
        → resolve_deadlock score margin min_confidence reason negotiation_id case_id now transaction
            outcomes queue rounds
          ≡ ok (
              settled_by score margin min_confidence reason negotiation_id case_id now transaction
                outcomes queue rounds
                (some resolution))
    unfolding resolve_deadlock arbitrate
    resolve_with [] r resolution l p = absurd (cc)
    resolve_with (x ∷ rs) r resolution l p = rw (l, p) refl

    conclude-IsSettled :
        (o : List (NegotiationRound Score) × ConsensusState)
        {x : NegotiationResult Score × HitlQueue Facts}
        → conclude score margin min_confidence reason negotiation_id case_id now transaction
            outcomes queue o
          ≡ ok x
        → IsSettled o.0 x
    conclude-IsSettled (rounds, consensus_state) e =
        subst (IsSettled rounds) (ok-injective e)
          (consensus_result-IsSettled rounds (last_round rounds))
    conclude-IsSettled (rounds, deadlocked) e = resolve_deadlock-IsSettled rounds e

    module _ (conf : Confidences Score) (uni : Unicode) (agents : List (DomainAgent Score))
        (threshold : Score) (max_rounds : ℕ) where
      -- A negotiation that is escalated is flagged and carries the new case id, under which the queue
      -- then gives a pending case with the transaction and the outcomes, and which it lists as
      -- pending; every other id is as it was. One that is not leaves the queue alone. The result carries the rounds of the consensus engine.
      pub negotiate-IsSettled :
          (result : NegotiationResult Score) (after : HitlQueue Facts)
          → negotiate score margin min_confidence reason negotiation_id case_id now transaction
              outcomes queue conf uni agents threshold max_rounds
            ≡ ok (result, after)
          → IsSettled
              (run_rounds score margin conf uni agents threshold outcomes max_rounds).0
              (result, after)
      unfolding negotiate
      negotiate-IsSettled result after e =
          conclude-IsSettled (run_rounds score margin conf uni agents threshold outcomes max_rounds)
            e

      denied_by :
          (verdicts ds : List (AgentVerdict Score)) (v : AgentVerdict Score)
          (vs : List (AgentVerdict Score))
          → ds ≡ v ∷ vs
          → (resolution : ArbiterResolution Score) × (deny_by score verdicts ds ≡ some resolution)
            × (resolution.resolved_decision ≡ deny)
      denied_by verdicts [] v vs e = absurd (cc)
      denied_by verdicts (d ∷ ds) v vs e = (_, refl, refl)

      clause_deny_wins :
          (r : NegotiationRound Score)
          → any_of is_clause_deny r.verdicts ≡ true
          → (resolution : ArbiterResolution Score) × (deny_precedence score r ≡ some resolution)
            × (resolution.resolved_decision ≡ deny)
      unfolding deny_precedence
      clause_deny_wins r h =
          let (v, vs, e) = kept is_clause_deny r.verdicts h in
          denied_by r.verdicts (keep_if is_clause_deny r.verdicts) v vs e

      -- In a deadlock, a DENY of the last round that cites a circular and a clause decides: the
      -- transaction is denied by arbitration and nobody is asked, whatever the weights.
      pub clause_deny_decides :
          (rounds : List (NegotiationRound Score)) (r : NegotiationRound Score)
          → run_rounds score margin conf uni agents threshold outcomes max_rounds
            ≡ (rounds, deadlocked)
          → last_round rounds ≡ some r
          → any_of is_clause_deny r.verdicts ≡ true
          → (result : NegotiationResult Score) × (negotiate score margin min_confidence reason
                negotiation_id case_id now transaction outcomes queue conf uni agents threshold
                max_rounds
              ≡ ok (result, queue))
            × (result.final_decision ≡ deny)
            × (result.status ≡ arbitrated)
      unfolding negotiate
      clause_deny_decides rounds r h l d =
          let (resolution, p, q) = clause_deny_wins r d in
          let answer =
            settled_by score margin min_confidence reason negotiation_id case_id now transaction
              outcomes queue rounds (some resolution) in
          (
            answer.0,
            ap
                  (conclude score margin min_confidence reason negotiation_id case_id now
                    transaction outcomes queue)
                  h
                ∙ resolve_with rounds r resolution l p,
            q,
            refl,
          )
