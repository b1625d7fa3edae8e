-- ===== src/Backtest/Evaluator.antt =====
-- app/backtest/jsonlogic_evaluator.py: the evaluator of the compiled JSON-Logic. `data` is the
-- document of the replayed transaction.
use reg_engine_ai.Base.{
  ◌≡◌, refl, ap, ◌∙◌, ◌↔◌, String, Bool, true, false, none, some, List, [], ◌∷◌, Result, ok, err,
  ◌>>=◌, str_eq, if◌then◌else◌,
}
use reg_engine_ai.Backtest.Json.{
  Numbers, Json, boolean, number, text, list, object, Items, nil, cons, end, member, Comparison, eq,
  ge, gt, le, lt, EvalError, missing_fact, unsupported_node, attribute_error, split_path, member_of,
  is_true, compare_json, json_in,
}

pub data Operator : Type 0 where
  op_var op_and op_in : Operator
  op_compare : Comparison → Operator
  op_unknown : Operator

abbrev pub operator_of : String → Operator
operator_of s =
    if str_eq s "var"
    then op_var
    else if str_eq s "and"
    then op_and
    else if str_eq s "in"
    then op_in
    else if str_eq s "=="
    then op_compare eq
    else if str_eq s ">="
    then op_compare ge
    else if str_eq s ">"
    then op_compare gt
    else if str_eq s "<="
    then op_compare le
    else if str_eq s "<"
    then op_compare lt
    else op_unknown

module _ {Number : Type 0} where
  -- the loop of `_resolve_var`: `whole` is the path that the exception names
  unfoldable pub walk : String → List String → Json Number → Result EvalError (Json Number)
  unfolding member_of
  walk whole [] node = ok node
  walk whole (part ∷ parts) (object ms) = elim (member_of part ms) [
    | none ↦ err (missing_fact whole)
    | some v ↦ walk whole parts v
  ]
  walk whole (part ∷ parts) node = err (missing_fact whole)

  unfoldable pub resolve_var : String → Json Number → Result EvalError (Json Number)
  unfolding walk split_path
  resolve_var path data_ = walk path (split_path path) data_

  -- the operand of `var`: a path that is no text has no `split`
  abbrev pub resolve_operand : Json Number → Json Number → Result EvalError (Json Number)
  resolve_operand (text path) data_ = resolve_var path data_
  resolve_operand v data_ = err attribute_error

-- `all(...)` stops at the first child that is false
abbrev pub and_then : Bool → Result EvalError Bool → Result EvalError Bool
and_then true rest = rest
and_then false rest = ok false

pub and_then_iff :
    {b : Bool} {rest : Result EvalError Bool}
    → (and_then b rest ≡ ok true) ↔ ((b ≡ true) × (rest ≡ ok true))
and_then_iff {b = true} = (λ e. (refl, e), λ h. h.1)
and_then_iff {b = false} = (λ e. absurd (cc), λ h. absurd (cc))

module _ {Number : Type 0} (num : Numbers Number) where
  -- The branches on the operator; an argument is what its operands give as a variable, as children
  -- and as two operands.
  abbrev pub apply_operator :
      Operator
      → Result EvalError (Json Number)
      → Result EvalError Bool
      → Result EvalError (Json Number × Json Number)
      → Result EvalError (Json Number)
  apply_operator op_var fact all_hold two = fact
  apply_operator op_and fact all_hold two = all_hold >>= λ b. ok (boolean b)
  apply_operator op_in fact all_hold two = two >>= λ p. json_in num p.0 p.1 >>= λ b. ok (boolean b)
  apply_operator (op_compare c) fact all_hold two =
      two >>= λ p. compare_json num c p.0 p.1 >>= λ b. ok (boolean b)
  apply_operator op_unknown fact all_hold two = err unsupported_node

  unfoldable mutual
    unfolding resolve_var compare_json json_in

    pub evaluate_jsonlogic : Json Number → Json Number → Result EvalError (Json Number)
    evaluate_jsonlogic (list xs) d = evaluate_items xs d >>= λ ys. ok (list ys)
    evaluate_jsonlogic (object (member s v end)) d =
        apply_operator (operator_of s) (resolve_operand v d) (evaluate_and v d) (evaluate_pair v d)
    evaluate_jsonlogic (object _) d = err unsupported_node
    evaluate_jsonlogic v d = ok v

    pub evaluate_items : Items Number → Json Number → Result EvalError (Items Number)
    evaluate_items nil d = ok nil
    evaluate_items (cons x xs) d =
        evaluate_jsonlogic x d >>= λ y. evaluate_items xs d >>= λ ys. ok (cons y ys)

    pub evaluate_and : Json Number → Json Number → Result EvalError Bool
    evaluate_and (list xs) d = evaluate_all xs d
    evaluate_and v d = err unsupported_node

    pub evaluate_all : Items Number → Json Number → Result EvalError Bool
    evaluate_all nil d = ok true
    evaluate_all (cons x xs) d =
        evaluate_jsonlogic x d >>= λ y. and_then (is_true num y) (evaluate_all xs d)

    -- the two operands of `in` and of a comparison
    pub evaluate_pair : Json Number → Json Number → Result EvalError (Json Number × Json Number)
    evaluate_pair (list (cons a (cons b nil))) d =
        evaluate_jsonlogic a d >>= λ x. evaluate_jsonlogic b d >>= λ y. ok (x, y)
    evaluate_pair v d = err unsupported_node

  pub evaluate_node_lem :
      (s : String) (v d : Json Number)
      → evaluate_jsonlogic (object (member s v end)) d
        ≡ apply_operator
            (operator_of s)
            (resolve_operand v d)
            (evaluate_and v d)
            (evaluate_pair v d)
  unfolding evaluate_jsonlogic
  evaluate_node_lem s v d = refl

  bind_beside :
      {A B C : Type 0} (x : Result EvalError A) (w : B) (f : A × B → Result EvalError C)
      → ((x >>= λ a. ok (a, w)) >>= f) ≡ (x >>= λ a. f (a, w))
  bind_beside (ok a) w f = refl
  bind_beside (err e) w f = refl

  -- A variable beside a literal.
  pub bind-evaluate_pair :
      (path : String) (v w d : Json Number)
      (f : Json Number × Json Number → Result EvalError (Json Number))
      → evaluate_jsonlogic v d ≡ ok w
      → evaluate_pair (list (cons (object (member "var" (text path) end)) (cons v nil))) d >>= f
        ≡ (resolve_var path d >>= λ x. f (x, w))
  unfolding evaluate_jsonlogic
  bind-evaluate_pair path v w d f h =
      ap
        (λ (z : Result EvalError (Json Number)).
          (resolve_var path d >>= λ x. z >>= λ y. ok (x, y)) >>= f)
        h
      ∙ bind_beside (resolve_var path d) w f

  pub evaluate_number :
      (d : Json Number) (n : Number) → evaluate_jsonlogic (number n) d ≡ ok (number n)
  unfolding evaluate_jsonlogic
  evaluate_number d n = refl

  pub evaluate_text : (d : Json Number) (s : String) → evaluate_jsonlogic (text s) d ≡ ok (text s)
  unfolding evaluate_jsonlogic
  evaluate_text d s = refl

  pub evaluate_and_lem :
      (xs : Items Number) (d : Json Number) → evaluate_and (list xs) d ≡ evaluate_all xs d
  unfolding evaluate_jsonlogic
  evaluate_and_lem xs d = refl

  pub evaluate_all-nil : (d : Json Number) → evaluate_all nil d ≡ ok true
  unfolding evaluate_jsonlogic
  evaluate_all-nil d = refl

  pub evaluate_all-cons :
      (x : Json Number) (xs : Items Number) (d : Json Number)
      → evaluate_all (cons x xs) d
        ≡ (evaluate_jsonlogic x d >>= λ y. and_then (is_true num y) (evaluate_all xs d))
  unfolding evaluate_jsonlogic
  evaluate_all-cons x xs d = refl
