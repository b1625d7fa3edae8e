-- ===== src/Compiler/Entities.antt =====
-- The entity clause of a compiled rule: the set of the names, and what the clause asks.
use reg_engine_ai.Base.{
  ◌≡◌, refl, ap, ◌∙◌, String, true, false, ◌||◌, List, [], ◌∷◌, map, Result, ok, ◌>>=◌, All, ◌↔◌,
  is_member, is_empty, str_eq, eq_iff, arith,
}
use reg_engine_ai.Backtest.Json.{
  Numbers, Json, boolean, text, list, Items, cons, Members, EvalError, compare_json, json_equal,
  json_in, item_among, member_of, split_path,
}
use reg_engine_ai.Backtest.Evaluator.{
  evaluate_jsonlogic, evaluate_items, resolve_var, walk, evaluate_node_lem, bind-evaluate_pair,
  evaluate_text,
}
use reg_engine_ai.Backtest.Candidate.{document}
use reg_engine_ai.Compiler.Models.{ExtractedComplianceRule}
use reg_engine_ai.Compiler.JsonLogic.{
  node, pair_of, var_, items, insert_sorted, sorted_set, entity_names, named_entities,
  entity_clause,
}
use reg_engine_ai.Compiler.Meaning.{IsSatisfied, IsSatisfied-boolean}

is_member-insert_sorted :
    (k s : String) (xs : List String)
    → is_member k (insert_sorted s xs) ≡ (str_eq s k || is_member k xs)
unfolding is_member insert_sorted
is_member-insert_sorted k s [] = refl
is_member-insert_sorted k s (x ∷ xs) =
    ground (arith, is_member-insert_sorted k s xs, eq_iff x s, eq_iff x k, eq_iff s k)

is_member-sorted_set :
    (k : String) (xs : List String) → is_member k (sorted_set xs) ≡ is_member k xs
unfolding is_member sorted_set
is_member-sorted_set k [] = refl
is_member-sorted_set k (x ∷ xs) =
    is_member-insert_sorted k x (sorted_set xs)
    ∙ ap (λ b. str_eq x k || b) (is_member-sorted_set k xs)

is_empty-insert_sorted : (s : String) (xs : List String) → is_empty (insert_sorted s xs) ≡ false
unfolding insert_sorted
is_empty-insert_sorted s [] = refl
is_empty-insert_sorted s (x ∷ xs) = ground arith

is_empty-sorted_set : (xs : List String) → is_empty (sorted_set xs) ≡ is_empty xs
unfolding sorted_set
is_empty-sorted_set [] = refl
is_empty-sorted_set (x ∷ xs) = is_empty-insert_sorted x (sorted_set xs)

module _ {Number : Type 0} where
  -- The order and the repetitions of the names do not matter.
  pub names_lem :
      (e : String) (rule : ExtractedComplianceRule Number)
      → (is_empty (entity_names rule) || is_member e (entity_names rule))
        ≡ (is_empty (named_entities rule) || is_member e (named_entities rule))
  unfolding entity_names
  names_lem e rule =
      rw (is_empty-sorted_set (named_entities rule), is_member-sorted_set e (named_entities rule))
        refl

  resolve_entity :
      (e : String) (facts : Members Number)
      → resolve_var "entity_type" (document e facts) ≡ ok (text e)
  unfolding resolve_var walk split_path member_of
  resolve_entity e facts = refl

module _ {Number : Type 0} (num : Numbers Number) where
  evaluate_texts :
      (es : List String) (d : Json Number)
      → evaluate_items num (items (map text es)) d ≡ ok (items (map text es))
  unfolding evaluate_jsonlogic
  evaluate_texts [] d = refl
  evaluate_texts (e ∷ es) d =
      ap (λ (z : Result EvalError (Items Number)). z >>= λ ys. ok (cons (text e) ys))
        (evaluate_texts es d)

  evaluate_text_list :
      (es : List String) (d : Json Number)
      → evaluate_jsonlogic num (list (items (map text es))) d ≡ ok (list (items (map text es)))
  unfolding evaluate_jsonlogic
  evaluate_text_list es d =
      ap (λ (z : Result EvalError (Items Number)). z >>= λ ys. ok (list ys)) (evaluate_texts es d)

  item_among_lem :
      (e : String) (es : List String)
      → item_among num (text e) (items (map text es)) ≡ is_member e es
  unfolding json_equal is_member
  item_among_lem e [] = refl
  item_among_lem e (x ∷ es) = ap (λ b. str_eq x e || b) (item_among_lem e es)

  evaluate_equal :
      (e x : String) (facts : Members Number)
      → evaluate_jsonlogic num
          (node "==" (pair_of (var_ "entity_type") (text x)))
          (document e facts)
        ≡ ok (boolean (str_eq e x))
  unfolding compare_json json_equal
  evaluate_equal e x facts =
      let d = document e facts in
      evaluate_node_lem num "==" (pair_of (var_ "entity_type") (text x)) d
      ∙ bind-evaluate_pair num "entity_type" (text x) (text x) d _ (evaluate_text num d x)
      ∙ rw (resolve_entity e facts) refl

  evaluate_member :
      (e : String) (es : List String) (facts : Members Number)
      → evaluate_jsonlogic num
          (node "in" (pair_of (var_ "entity_type") (list (items (map text es)))))
          (document e facts)
        ≡ ok (boolean (is_member e es))
  unfolding json_in
  evaluate_member e es facts =
      let d = document e facts in
      evaluate_node_lem num "in" (pair_of (var_ "entity_type") (list (items (map text es)))) d
      ∙ bind-evaluate_pair num "entity_type" _ _ d _ (evaluate_text_list es d)
      ∙ rw (resolve_entity e facts, item_among_lem e es) refl

  -- The entity clause asks that the entity is one of the names, if there is any.
  pub IsSatisfied-entities :
      (e : String) (facts : Members Number) (es : List String)
      → All (IsSatisfied num (document e facts)) (entity_clause es)
        ↔ ((is_empty es || is_member e es) ≡ true)
  unfolding is_member
  IsSatisfied-entities e facts [] = (λ h. refl, λ h. tt)
  IsSatisfied-entities e facts (x ∷ []) =
      let s = IsSatisfied-boolean num _ _ (evaluate_equal e x facts) in
      (
        λ h. ground (arith, s.0 h.0, eq_iff x e, eq_iff e x),
        λ h. (s.1 (ground (arith, h, eq_iff x e, eq_iff e x)), tt),
      )
  IsSatisfied-entities e facts (x ∷ y ∷ es) =
      let s = IsSatisfied-boolean num _ _ (evaluate_member e (x ∷ y ∷ es) facts) in
      (λ h. s.0 h.0, λ h. (s.1 h, tt))
