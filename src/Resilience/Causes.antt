-- ===== src/Resilience/Causes.antt =====
-- The search of the causes ends, also on a cycle, and finds what there is.
use reg_engine_ai.Base.{
  ℕ, suc, zero, ◌<◌, ◌≤◌, ◌⊎◌, inl, inr, ◌≡◌, refl, sym, subst, Bool, true, false, ◌||◌, Option,
  some, List, [], ◌∷◌, arith, ◌==◌, ==_iff, length, if◌then◌else◌, Bool-cases, Option-cases,
}
use reg_engine_ai.Resilience.Retry.{is_seen, search_causes, is_transient}

-- how many of the exceptions are not seen yet
abbrev unseen : List ℕ → List ℕ → ℕ
unseen seen [] = 0
unseen seen (k ∷ ks) = if is_seen seen k then unseen seen ks else suc (unseen seen ks)

unseen-fewer : (x : ℕ) (seen ks : List ℕ) → unseen (x ∷ seen) ks ≤ unseen seen ks
unfolding is_seen
unseen-fewer x seen [] = omega arith
unseen-fewer x seen (k ∷ ks) = ground (arith, unseen-fewer x seen ks)

unseen-less :
    (x : ℕ) (seen ks : List ℕ)
    → is_seen ks x ≡ true
    → is_seen seen x ≡ false
    → unseen (x ∷ seen) ks < unseen seen ks
unfolding is_seen
unseen-less x seen [] here new = absurd (cc)
unseen-less x seen (k ∷ ks) here new =
    ground (arith, unseen-less x seen ks, unseen-fewer x seen ks, ==_iff k x, ==_iff x k)

unseen-length : (ks : List ℕ) → unseen [] ks ≤ length ks
unfolding is_seen
unseen-length [] = omega arith
unseen-length (k ∷ ks) = ground (arith, unseen-length ks)

-- An exception and those behind it, along `__cause__`.
pub data Behind (cause : ℕ → Option ℕ) : ℕ → ℕ → Type 0 where
  itself : {x : ℕ} → Behind cause x x
  caused : {x y z : ℕ} → cause x ≡ some y → Behind cause y z → Behind cause x z

module _ (cause : ℕ → Option ℕ) (is_network : ℕ → Bool) where
  search_causes-ends :
      (ks : List ℕ) (fuel : ℕ) (seen : List ℕ) (x : ℕ)
      → ((y z : ℕ) → is_seen ks y ≡ true → cause y ≡ some z → is_seen ks z ≡ true)
      → is_seen ks x ≡ true
      → unseen seen ks < fuel
      → (b : Bool) × (search_causes cause is_network fuel seen (some x) ≡ some b)
  unfolding search_causes
  search_causes-ends ks zero seen x closed here enough = absurd (omega arith)
  search_causes-ends ks (suc n) seen x closed here enough = elim (Bool-cases (is_seen seen x)) [
    | inl old ↦ (false, rw old refl)
    | inr new ↦ elim (Bool-cases (is_network x)) [
      | inl network ↦ (true, rw (new, network) refl)
      | inr local ↦ elim (Option-cases (cause x)) [
        | inl first ↦ (false, rw (new, local, first) refl)
        | inr (y, e) ↦
            let rest =
              search_causes-ends ks n (x ∷ seen) y closed (closed x y here e)
                (omega (arith, unseen-less x seen ks here new, enough)) in
            (rest.0, rw (new, local, e) rest.1)
      ]
    ]
  ]

  search_causes-found :
      (fuel : ℕ) (seen : List ℕ) (x : ℕ)
      → search_causes cause is_network fuel seen (some x) ≡ some true
      → (y : ℕ) × Behind cause x y × (is_network y ≡ true)
  unfolding search_causes
  search_causes-found zero seen x e = absurd (cc)
  search_causes-found (suc n) seen x e = elim (Bool-cases (is_network x)) [
    | inl network ↦ (x, itself, network)
    | inr local ↦ elim (Option-cases (cause x)) [
      | inl first ↦ absurd (ground (arith, e, local, first))
      | inr (y, c) ↦
          let rest : search_causes cause is_network n (x ∷ seen) (some y) ≡ some true =
            ground (arith, e, local, c) in
          let (z, behind, network) = search_causes-found n (x ∷ seen) y rest in
          (z, caused c behind, network)
    ]
  ]

  -- What was seen is not transient, and its causes were seen or come next.
  abbrev IsCleared : List ℕ → ℕ → Type 0
  IsCleared seen x =
      (s : ℕ)
      → is_seen seen s ≡ true
      → (is_network s ≡ false) × ((z : ℕ) → cause s ≡ some z → (is_seen seen z || x == z) ≡ true)

  cycle-local :
      (seen : List ℕ) (x : ℕ) {y z : ℕ}
      → is_seen seen x ≡ true
      → IsCleared seen x
      → is_seen seen y ≡ true
      → Behind cause y z
      → is_network z ≡ false
  cycle-local seen x {y} old h here itself = (h y here).0
  cycle-local seen x {y} old h here (caused {y = w} e behind) =
      cycle-local seen x old h (ground (arith, (h y here).1 w e, old, ==_iff x w)) behind

  one_back :
      {x z : ℕ} → Behind cause x z → (z ≡ x) ⊎ ((y : ℕ) × (cause x ≡ some y) × Behind cause y z)
  one_back itself = inl refl
  one_back (caused {y = w} e behind) = inr (w, e, behind)

  IsCleared-cons :
      (seen : List ℕ) (x y : ℕ)
      → is_network x ≡ false
      → cause x ≡ some y
      → IsCleared seen x
      → IsCleared (x ∷ seen) y
  unfolding is_seen
  IsCleared-cons seen x y local c h s here = elim (Bool-cases (is_seen seen s)) [
    | inl old ↦ ((h s old).0, λ z e. ground (arith, (h s old).1 z e))
    | inr new ↦
        let same : x ≡ s = ground (arith, here, new, ==_iff x s) in
        (
          subst (λ (k : ℕ). is_network k ≡ false) same local,
          λ z e.
              let next : cause s ≡ some y = subst (λ (k : ℕ). cause k ≡ some y) same c in
              ground (arith, e, next, ==_iff y z),
        )
  ]

  search_causes-local :
      (fuel : ℕ) (seen : List ℕ) (x : ℕ) {z : ℕ}
      → IsCleared seen x
      → search_causes cause is_network fuel seen (some x) ≡ some false
      → Behind cause x z
      → is_network z ≡ false
  unfolding search_causes
  search_causes-local zero seen x h e behind = absurd (cc)
  search_causes-local (suc n) seen x h e behind = elim (Bool-cases (is_seen seen x)) [
    | inl old ↦ cycle-local seen x old h old behind
    | inr new ↦ elim (Bool-cases (is_network x)) [
      | inl network ↦ absurd (ground (arith, e, new, network))
      | inr local ↦ elim (one_back behind) [
        | inl same ↦ subst (λ (k : ℕ). is_network k ≡ false) (sym same) local
        | inr (y, c, back) ↦
            let rest : search_causes cause is_network n (x ∷ seen) (some y) ≡ some false =
              ground (arith, e, new, local, c) in
            search_causes-local n (x ∷ seen) y (IsCleared-cons seen x y local c h) rest back
      ]
    ]
  ]

  -- If the exceptions are finitely many, among them the one that is asked for and every cause of
  -- one of them, then with fuel for one more than their number the search ends, whether the causes
  -- form a cycle or not: with true and a transient exception at or behind the one that is asked
  -- for, or with false while there is none.
  pub is_transient_exact :
      (ks : List ℕ) (x : ℕ)
      → ((y z : ℕ) → is_seen ks y ≡ true → cause y ≡ some z → is_seen ks z ≡ true)
      → is_seen ks x ≡ true
      → ((is_transient cause is_network (suc (length ks)) x ≡ some true)
          × ((y : ℕ) × Behind cause x y × (is_network y ≡ true)))
        ⊎ ((is_transient cause is_network (suc (length ks)) x ≡ some false)
            × ((y : ℕ) → Behind cause x y → is_network y ≡ false))
  unfolding is_transient is_seen
  is_transient_exact ks x closed here =
      let (b, ended) =
        search_causes-ends ks (suc (length ks)) [] x closed here
          (omega (arith, unseen-length ks)) in
      elim (Bool-cases b) [
        | inl yes_ ↦
            let found : search_causes cause is_network (suc (length ks)) [] (some x) ≡ some true =
              ground (arith, ended, yes_) in
            inl (found, search_causes-found (suc (length ks)) [] x found)
        | inr no_ ↦
            let none_ : search_causes cause is_network (suc (length ks)) [] (some x) ≡ some false =
              ground (arith, ended, no_) in
            inr (
              none_,
              λ y behind.
                  search_causes-local (suc (length ks)) [] x (λ s e. absurd (cc)) none_ behind,
            )
      ]
