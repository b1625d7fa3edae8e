-- ===== src/Resilience/Reading.antt =====
-- app/resilience/dead_letter_queue.py: `list`, `count` and `stats`. `ZREVRANGE` gives the members of
-- a sorted set with the highest score first.
use reg_engine_ai.Base.{
  ℕ, ◌+◌, ◌-◌, suc, zero, String, Bool, false, not, Option, none, some, List, [], ◌∷◌, map, Result,
  ok, err, Dict, length, leb, if◌then◌else◌,
}
use reg_engine_ai.Resilience.Queue.{
  FailureCategory, pdf_parsing, llm_extraction, malformed_ast, vector_ingestion, rss_polling,
  policy_self_heal_exhausted, other, DlqStatus, pending, requeued, resolved, discarded, same_status,
  DlqEntry, DeadLetterQueue, DlqError, get_entry,
}

unfoldable pub insert_member : String × ℕ → List (String × ℕ) → List (String × ℕ)
insert_member x [] = x ∷ []
insert_member x (y ∷ ys) = if leb y.1 x.1 then x ∷ y ∷ ys else y ∷ insert_member x ys

unfoldable pub sort_members : Dict ℕ → List (String × ℕ)
unfolding insert_member
sort_members [] = []
sort_members (x ∷ xs) = insert_member x (sort_members xs)

unfoldable pub zrevrange : Dict ℕ → List String
unfolding sort_members
zrevrange d = map (λ x. x.0) (sort_members d)

-- `xs[offset : offset + limit]`
abbrev pub take {ℓ} : {A : Type ℓ} → ℕ → List A → List A
take zero xs = []
take (suc n) [] = []
take (suc n) (x ∷ xs) = x ∷ take n xs

abbrev pub drop {ℓ} : {A : Type ℓ} → ℕ → List A → List A
drop zero xs = xs
drop (suc n) [] = []
drop (suc n) (x ∷ xs) = drop n xs

module _ {Payload : Type 0} (category : Option FailureCategory) (status : Option DlqStatus) where
  unfoldable pub index_of : DeadLetterQueue Payload → Dict ℕ
  index_of q = elim category [
    | some c ↦ q.by_category c
    | none ↦ elim status [ some s ↦ q.by_status s | none ↦ q.all ]
  ]

  -- the filter on the second dimension
  abbrev pub is_filtered : DlqEntry Payload → Bool
  is_filtered e = elim category [
    | none ↦ false
    | some c ↦ elim status [ none ↦ false | some s ↦ not (same_status e.status s) ]
  ]

  abbrev pub add_entry :
      ℕ
      → Result DlqError (DlqEntry Payload)
      → List (DlqEntry Payload)
      → List (DlqEntry Payload)
      → List (DlqEntry Payload)
  add_entry n (err x) rest next = rest
  add_entry n (ok e) rest next =
      if is_filtered e then rest else if leb n 1 then e ∷ [] else e ∷ next

  -- The loop, which ends when `n` more entries are found, or at the first one if `n` is 0.
  unfoldable pub collect : DeadLetterQueue Payload → ℕ → List String → List (DlqEntry Payload)
  unfolding get_entry
  collect q n [] = []
  collect q n (k ∷ ks) = add_entry n (get_entry k q) (collect q n ks) (collect q (n - 1) ks)

  unfoldable pub list_entries : ℕ → ℕ → DeadLetterQueue Payload → List (DlqEntry Payload)
  unfolding index_of collect zrevrange
  list_entries limit offset q =
      take limit (drop offset (collect q (offset + limit) (zrevrange (index_of q))))

  unfoldable pub count_entries : DeadLetterQueue Payload → ℕ
  unfolding index_of
  count_entries q = length (index_of q)

pub record DlqStats : Type 0 where
  pub total : ℕ
  pub by_category : List ℕ
  pub by_status : List ℕ

module _ {Payload : Type 0} where
  unfoldable pub stats_of : DeadLetterQueue Payload → DlqStats
  unfolding count_entries
  stats_of q = record {
    total = count_entries none none q;
    by_category =
        map (λ c. count_entries (some c) none q)
          (pdf_parsing ∷ llm_extraction ∷ malformed_ast ∷ vector_ingestion ∷ rss_polling
            ∷ policy_self_heal_exhausted ∷ other ∷ []);
    by_status =
        map (λ s. count_entries none (some s) q) (pending ∷ requeued ∷ resolved ∷ discarded ∷ []);
  }
