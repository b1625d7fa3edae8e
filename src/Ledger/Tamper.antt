-- ===== src/Ledger/Tamper.antt =====
-- Tamper evidence: two ledgers that verify and end in the same hash, or a collision of SHA-256.
use reg_engine_ai.Base.{
  ℕ, ℤ, next_ℤ, ◌≡◌, refl, sym, ◌∙◌, ap, ◌≢◌, ◌⊎◌, inl, inr, true, none, List, [], ◌∷◌, arith,
  length, text_eq, text_eq_iff, append-injective, Bool-cases,
}
use reg_engine_ai.Ledger.Models.{genesis_hash, Row}
use reg_engine_ai.Ledger.HashChain.{
  Primitives, canonical_payload, compute_payload_digest, block_material, compute_block_hash,
  row_payload,
}
use reg_engine_ai.Ledger.Verifier.{order_by_sequence, verify_chain}
use reg_engine_ai.Ledger.Chain.{head_hash, Follows, Linked}
use reg_engine_ai.Ledger.Order.{length-order}
use reg_engine_ai.Ledger.Build.{verify_chain-iff-IsChain}

module _ {Details : Type 0} (p : Primitives Details) where
  -- Two different texts with one hash.
  pub record Collision : Type 0 where
    pub left : List ℕ
    pub right : List ℕ
    pub differ : left ≢ right
    pub same_hash : p.sha256 left ≡ p.sha256 right

  -- Row by row, what the payload digest covers is the same text.
  abbrev pub SamePayloads : List (Row Details) → List (Row Details) → Type 0
  SamePayloads [] [] = Unit
  SamePayloads (r ∷ rs) (s ∷ ss) =
      (canonical_payload p (row_payload r) ≡ canonical_payload p (row_payload s))
      × SamePayloads rs ss
  SamePayloads _ _ = ⊥

  equal_or_collision : (a b : List ℕ) → p.sha256 a ≡ p.sha256 b → Collision ⊎ (a ≡ b)
  equal_or_collision a b e = elim (Bool-cases (text_eq a b)) [
    | inl same ↦ inr ((text_eq_iff a b).0 same)
    | inr other ↦ inl (record {
      left = a;
      right = b;
      differ = λ q. cc ((text_eq_iff a b).1 q, other);
      same_hash = e;
    })
  ]

  ∷-tail : {x y : ℕ} {xs ys : List ℕ} → x ∷ xs ≡ y ∷ ys → xs ≡ ys
  ∷-tail e = cc

  module _ (sha256_length : (m : List ℕ) → length (p.sha256 m) ≡ 64) where
    sha256_lengths : (a b : List ℕ) → length (p.sha256 a) ≡ length (p.sha256 b)
    sha256_lengths a b = sha256_length a ∙ sym (sha256_length b)

    current_hash_length :
        (h : List ℕ) (n : ℤ) (r : Row Details) → Follows p h n r → length r.current_hash ≡ 64
    unfolding compute_block_hash
    current_hash_length h n r f = ap length f.block_right ∙ sha256_length _

    digests_length :
        (h k : List ℕ) (n m : ℤ) (r s : Row Details)
        → Follows p h n r
        → Follows p k m s
        → length r.payload_digest ≡ length s.payload_digest
    unfolding compute_payload_digest
    digests_length h k n m r s fr fs =
        ap length fr.digest_right ∙ sha256_lengths _ _ ∙ sym (ap length fs.digest_right)

    materials_agree :
        (r s : Row Details)
        → length r.previous_hash ≡ length s.previous_hash
        → length r.payload_digest ≡ length s.payload_digest
        → block_material p r.previous_hash r.payload_digest r.sequence_num r.evaluated_at
          ≡ block_material p s.previous_hash s.payload_digest s.sequence_num s.evaluated_at
        → (r.previous_hash ≡ s.previous_hash) × (r.payload_digest ≡ s.payload_digest)
    unfolding block_material
    materials_agree r s lp ld e =
        let first = append-injective r.previous_hash _ s.previous_hash _ lp e in
        let rest : _ ≡ _ = ∷-tail first.1 in
        (first.0, (append-injective r.payload_digest _ s.payload_digest _ ld rest).0)

    -- Rows with one block hash point back at one hash and have one payload text.
    rows_agree :
        (h k : List ℕ) (n m : ℤ) (r s : Row Details)
        → length h ≡ 64
        → length k ≡ 64
        → Follows p h n r
        → Follows p k m s
        → r.current_hash ≡ s.current_hash
        → Collision
          ⊎ ((h ≡ k) × (canonical_payload p (row_payload r) ≡ canonical_payload p (row_payload s)))
    unfolding compute_block_hash compute_payload_digest
    rows_agree h k n m r s lh lk fr fs e =
        elim (equal_or_collision _ _ (sym fr.block_right ∙ e ∙ fs.block_right)) [
          | inl collision ↦ inl collision
          | inr material ↦
              let back =
                materials_agree r s
                  (ap length fr.points_back ∙ lh ∙ sym (ap length fs.points_back ∙ lk))
                  (digests_length h k n m r s fr fs) material in
              elim (equal_or_collision _ _ (sym fr.digest_right ∙ back.1 ∙ fs.digest_right)) [
                | inl collision ↦ inl collision
                | inr payload ↦ inr (sym fr.points_back ∙ back.0 ∙ fs.points_back, payload)
              ]
        ]

    pub chains_agree :
        (h k : List ℕ) (n m : ℤ) (rs ss : List (Row Details))
        → length h ≡ 64
        → length k ≡ 64
        → Linked p h n rs
        → Linked p k m ss
        → length rs ≡ length ss
        → head_hash h rs ≡ head_hash k ss
        → Collision ⊎ ((h ≡ k) × SamePayloads rs ss)
    chains_agree h k n m [] [] lh lk l o c e = inr (e, tt)
    chains_agree h k n m [] (s ∷ ss) lh lk l o c e = absurd (omega arith)
    chains_agree h k n m (r ∷ rs) [] lh lk l o c e = absurd (omega arith)
    chains_agree h k n m (r ∷ rs) (s ∷ ss) lh lk l o c e =
        elim (chains_agree r.current_hash s.current_hash (next_ℤ n) (next_ℤ m) rs ss
          (current_hash_length h n r l.0) (current_hash_length k m s o.0) l.1 o.1 (omega arith) e) [
            | inl collision ↦ inl collision
            | inr (same, rest) ↦ elim (rows_agree h k n m r s lh lk l.0 o.0 same) [
              | inl collision ↦ inl collision
              | inr (back, payload) ↦ inr (back, (payload, rest))
            ]
          ]

    -- Two tables of one length that both verify and whose newest rows carry one hash hold, row by
    -- row, the same payload texts, or two texts are at hand that SHA-256 takes to one hash.
    pub same_head-SamePayloads :
        (t u : List (Row Details))
        → (verify_chain p t none none).valid ≡ true
        → (verify_chain p u none none).valid ≡ true
        → length t ≡ length u
        → head_hash genesis_hash (order_by_sequence t)
          ≡ head_hash genesis_hash (order_by_sequence u)
        → Collision ⊎ SamePayloads (order_by_sequence t) (order_by_sequence u)
    same_head-SamePayloads t u vt vu c e =
        let (n, n_low, l) = (verify_chain-iff-IsChain p t).0 vt in
        let (m, m_low, o) = (verify_chain-iff-IsChain p u).0 vu in
        elim (chains_agree genesis_hash genesis_hash n m (order_by_sequence t) (order_by_sequence u)
          refl refl l o (length-order t ∙ c ∙ sym (length-order u)) e) [
            | inl collision ↦ inl collision
            | inr (_, same) ↦ inr same
          ]
