-- ===== src/Resilience/Listing.antt =====
-- What a listing of the queue shows.
use reg_engine_ai.Base.{
  ℕ, suc, zero, ◌+◌, ◌-◌, ◌≤◌, String, inl, inr, ◌≡◌, refl, ◌∙◌, Bool, true, false, ◌&&◌, Option,
  none, some, List, [], ◌∷◌, arith, ok, Result-cases, Dict, lookup, eq_iff, Bool-cases, all_of,
  length, map,
}
use reg_engine_ai.Resilience.Queue.{
  FailureCategory, DlqStatus, same_status, same_category, DlqEntry, DeadLetterQueue, get_entry,
}
use reg_engine_ai.Resilience.Indexes.{IsIndexed, is_listed, get_entry-found}
use reg_engine_ai.Resilience.Reading.{
  insert_member, sort_members, zrevrange, take, drop, index_of, is_filtered, collect, list_entries,
}

module _ {A : Type 0} (p : A → Bool) where
  all_of-take : (n : ℕ) (xs : List A) → all_of p xs ≡ true → all_of p (take n xs) ≡ true
  all_of-take zero xs h = refl
  all_of-take (suc n) [] h = refl
  all_of-take (suc n) (x ∷ xs) h = ground (arith, all_of-take n xs)

  all_of-drop : (n : ℕ) (xs : List A) → all_of p xs ≡ true → all_of p (drop n xs) ≡ true
  all_of-drop zero xs h = h
  all_of-drop (suc n) [] h = refl
  all_of-drop (suc n) (x ∷ xs) h = ground (arith, all_of-drop n xs)

length-take : {A : Type 0} (n : ℕ) (xs : List A) → length (take n xs) ≤ n
length-take zero xs = omega arith
length-take (suc n) [] = omega arith
length-take (suc n) (x ∷ xs) = omega (arith, length-take n xs)

-- Every member of a sorted set is found in it.
abbrev keyed_in : Dict ℕ → String × ℕ → Bool
keyed_in d x = is_listed (lookup x.0 d)

all_of-insert_member :
    (p : String × ℕ → Bool) (x : String × ℕ) (xs : List (String × ℕ))
    → all_of p (insert_member x xs) ≡ (p x && all_of p xs)
unfolding insert_member
all_of-insert_member p x [] = refl
all_of-insert_member p x (y ∷ ys) = ground (arith, all_of-insert_member p x ys)

all_of-sort_members :
    (p : String × ℕ → Bool) (xs : List (String × ℕ)) → all_of p (sort_members xs) ≡ all_of p xs
unfolding sort_members
all_of-sort_members p [] = refl
all_of-sort_members p (x ∷ xs) =
    ground (arith, all_of-sort_members p xs, all_of-insert_member p x (sort_members xs))

keyed_in-cons :
    (y : String × ℕ) (d : Dict ℕ) (xs : List (String × ℕ))
    → all_of (keyed_in d) xs ≡ true
    → all_of (keyed_in (y ∷ d)) xs ≡ true
unfolding lookup
keyed_in-cons y d [] h = refl
keyed_in-cons y d (x ∷ xs) h = ground (arith, keyed_in-cons y d xs)

all_keyed : (d : Dict ℕ) → all_of (keyed_in d) d ≡ true
unfolding lookup
all_keyed [] = refl
all_keyed (y ∷ d) = ground (arith, keyed_in-cons y d d (all_keyed d), eq_iff y.0 y.0)

all_of-map :
    (p : String → Bool) (xs : List (String × ℕ))
    → all_of p (map (λ x. x.0) xs) ≡ all_of (λ x. p x.0) xs
all_of-map p [] = refl
all_of-map p (x ∷ xs) = ground (arith, all_of-map p xs)

zrevrange-listed : (d : Dict ℕ) → all_of (λ k. is_listed (lookup k d)) (zrevrange d) ≡ true
unfolding zrevrange
zrevrange-listed d =
    all_of-map (λ k. is_listed (lookup k d)) (sort_members d)
    ∙ (all_of-sort_members (keyed_in d) d ∙ all_keyed d)

module _ {Payload : Type 0} (category : Option FailureCategory) (status : Option DlqStatus) where
  -- An entry that a listing asks for.
  abbrev pub fits : DlqEntry Payload → Bool
  fits e =
      elim category [ none ↦ true | some c ↦ same_category c e.category ]
      && elim status [ none ↦ true | some s ↦ same_status s e.status ]

same_status_sym : (s t : DlqStatus) → same_status s t ≡ same_status t s
unfolding same_status
same_status_sym s t = ground arith

module _ {Payload : Type 0} where
  found-fits :
      (category : Option FailureCategory) (status : Option DlqStatus) (q : DeadLetterQueue Payload)
      (k : String) {e : DlqEntry Payload}
      → IsIndexed q
      → is_listed (lookup k (index_of category status q)) ≡ true
      → get_entry k q ≡ ok e
      → is_filtered category status e ≡ false
      → fits category status e ≡ true
  unfolding index_of
  found-fits none none q k h listed read kept = refl
  found-fits none (some s) q k h listed read kept =
      ground (arith, (h k).3 s, (get_entry-found k q h read).0, listed)
  found-fits (some c) none q k h listed read kept =
      ground (arith, (h k).2 c, (get_entry-found k q h read).0, listed)
  found-fits (some c) (some s) q k {e} h listed read kept =
      ground
        (arith, (h k).2 c, (get_entry-found k q h read).0, listed, kept, same_status_sym s e.status)

module _ {Payload : Type 0} (category : Option FailureCategory) (status : Option DlqStatus) where
  collect-fits :
      (q : DeadLetterQueue Payload) (n : ℕ) (ks : List String)
      → IsIndexed q
      → all_of (λ k. is_listed (lookup k (index_of category status q))) ks ≡ true
      → all_of (fits category status) (collect category status q n ks) ≡ true
  unfolding collect
  collect-fits q n [] h listed = refl
  collect-fits q n (k ∷ ks) h listed =
      let here : is_listed (lookup k (index_of category status q)) ≡ true =
        ground (arith, listed) in
      let there : all_of (λ k. is_listed (lookup k (index_of category status q))) ks ≡ true =
        ground (arith, listed) in
      let rest = collect-fits q n ks h there in
      let next = collect-fits q (n - 1) ks h there in
      elim (Result-cases (get_entry k q)) [
        | inl (x, missing) ↦ rw (missing, collect) rest
        | inr (e, read) ↦ elim (Bool-cases (is_filtered category status e)) [
          | inl skipped ↦ rw (read, skipped, collect) rest
          | inr kept ↦
              rw (read, kept, collect)
                (ground (arith, found-fits category status q k h here read kept, next))
        ]
      ]

  -- While the indexes are in step with the items, a listing shows only items of the category and the
  -- status that it asks for, and no more than its limit.
  pub list_entries-fits :
      (limit offset : ℕ) (q : DeadLetterQueue Payload)
      → IsIndexed q
      → (all_of (fits category status) (list_entries category status limit offset q) ≡ true)
        × (length (list_entries category status limit offset q) ≤ limit)
  unfolding list_entries
  list_entries-fits limit offset q h =
      let ks = zrevrange (index_of category status q) in
      let found = collect category status q (offset + limit) ks in
      (
        all_of-take (fits category status) limit (drop offset found) (
            all_of-drop (fits category status) offset found (
              collect-fits q (offset + limit) ks h
                (zrevrange-listed (index_of category status q)))),
        length-take limit (drop offset found),
      )
