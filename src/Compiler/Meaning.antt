-- ===== src/Compiler/Meaning.antt =====
-- What the compiled JSON-Logic means: the evaluator of app/backtest on the trees of the compiler.
use reg_engine_ai.Base.{
  ◌≡◌, refl, ap, ◌∙◌, String, Bool, true, Option, none, some, List, [], ◌∷◌, Result, ok, ◌>>=◌, All,
  ◌↔◌, bind_value, ok-injective, arith, sym, subst,
}
use reg_engine_ai.Backtest.Json.{
  Numbers, Json, null, boolean, number, text, list, object, Comparison, eq, ge, gt, le, lt,
  EvalError, as_number, number_order, numbers_equal, is_true, compare_numbers, compare_json,
  json_order, json_equal,
}
use reg_engine_ai.Backtest.Evaluator.{
  operator_of, op_compare, evaluate_all, and_then_iff, evaluate_node_lem, bind-evaluate_pair,
  evaluate_number, evaluate_and_lem, evaluate_all-cons, evaluate_all-nil, evaluate_jsonlogic,
  resolve_var,
}
use reg_engine_ai.Compiler.JsonLogic.{node, pair_of, var_, items}

module _ {Number : Type 0} (num : Numbers Number) where
  -- A node is satisfied by a document where it evaluates to a true value.
  abbrev pub IsSatisfied : Json Number → Json Number → Type 0
  IsSatisfied d c = (v : Json Number) × (evaluate_jsonlogic num c d ≡ ok v) × (is_true num v ≡ true)

  pub IsSatisfied-boolean :
      (d c : Json Number) {b : Bool}
      → evaluate_jsonlogic num c d ≡ ok (boolean b)
      → IsSatisfied d c ↔ (b ≡ true)
  IsSatisfied-boolean d c h = (
    λ s. subst (λ x. is_true num x ≡ true) (ok-injective (sym s.1 ∙ h)) s.2,
    λ e. (boolean true, h ∙ ap (λ x. ok (boolean x)) e, refl),
  )

  number_order_iff :
      (c : Comparison) (o : Option Number) (m : Number)
      → (number_order num c o (some m) ≡ ok true)
        ↔ ((n : Number) × (o ≡ some n) × (compare_numbers num c n m ≡ true))
  number_order_iff c none m = ground arith
  number_order_iff c (some n) m = (λ e. (n, refl, ok-injective e), λ h. cc)

  numbers_equal_iff :
      (o : Option Number) (m : Number)
      → (numbers_equal num o (some m) ≡ true)
        ↔ ((n : Number) × (o ≡ some n) × (compare_numbers num eq n m ≡ true))
  numbers_equal_iff none m = ground arith
  numbers_equal_iff (some n) m = (λ e. (n, refl, e), λ h. cc)

  ok_equal_iff :
      (o : Option Number) (m : Number)
      → (◌≡◌ {A = Result EvalError Bool} (ok (numbers_equal num o (some m))) (ok true))
        ↔ ((n : Number) × (o ≡ some n) × (compare_numbers num eq n m ≡ true))
  ok_equal_iff o m =
      (λ e. (numbers_equal_iff o m).0 (ok-injective e), λ h. ap ok ((numbers_equal_iff o m).1 h))

  pub compare_json-number :
      (c : Comparison) (v : Json Number) (m : Number)
      → (compare_json num c v (number m) ≡ ok true)
        ↔ ((n : Number) × (as_number num v ≡ some n) × (compare_numbers num c n m ≡ true))
  unfolding compare_json json_order json_equal
  compare_json-number eq null m = ok_equal_iff (as_number num null) m
  compare_json-number eq (boolean b) m = ok_equal_iff (as_number num (boolean b)) m
  compare_json-number eq (number n) m = ok_equal_iff (as_number num (number n)) m
  compare_json-number eq (text s) m = ok_equal_iff (as_number num (text s)) m
  compare_json-number eq (list xs) m = ok_equal_iff (as_number num (list xs)) m
  compare_json-number eq (object ms) m = ok_equal_iff (as_number num (object ms)) m
  compare_json-number ge null m = number_order_iff ge (as_number num null) m
  compare_json-number ge (boolean b) m = number_order_iff ge (as_number num (boolean b)) m
  compare_json-number ge (number n) m = number_order_iff ge (as_number num (number n)) m
  compare_json-number ge (text s) m = number_order_iff ge (as_number num (text s)) m
  compare_json-number ge (list xs) m = number_order_iff ge (as_number num (list xs)) m
  compare_json-number ge (object ms) m = number_order_iff ge (as_number num (object ms)) m
  compare_json-number gt null m = number_order_iff gt (as_number num null) m
  compare_json-number gt (boolean b) m = number_order_iff gt (as_number num (boolean b)) m
  compare_json-number gt (number n) m = number_order_iff gt (as_number num (number n)) m
  compare_json-number gt (text s) m = number_order_iff gt (as_number num (text s)) m
  compare_json-number gt (list xs) m = number_order_iff gt (as_number num (list xs)) m
  compare_json-number gt (object ms) m = number_order_iff gt (as_number num (object ms)) m
  compare_json-number le null m = number_order_iff le (as_number num null) m
  compare_json-number le (boolean b) m = number_order_iff le (as_number num (boolean b)) m
  compare_json-number le (number n) m = number_order_iff le (as_number num (number n)) m
  compare_json-number le (text s) m = number_order_iff le (as_number num (text s)) m
  compare_json-number le (list xs) m = number_order_iff le (as_number num (list xs)) m
  compare_json-number le (object ms) m = number_order_iff le (as_number num (object ms)) m
  compare_json-number lt null m = number_order_iff lt (as_number num null) m
  compare_json-number lt (boolean b) m = number_order_iff lt (as_number num (boolean b)) m
  compare_json-number lt (number n) m = number_order_iff lt (as_number num (number n)) m
  compare_json-number lt (text s) m = number_order_iff lt (as_number num (text s)) m
  compare_json-number lt (list xs) m = number_order_iff lt (as_number num (list xs)) m
  compare_json-number lt (object ms) m = number_order_iff lt (as_number num (object ms)) m

  -- A comparison of a variable with a number.
  evaluate_comparison :
      (c : Comparison) (k path : String) (m : Number) (d : Json Number)
      → operator_of k ≡ op_compare c
      → evaluate_jsonlogic num (node k (pair_of (var_ path) (number m))) d
        ≡ (resolve_var path d >>= λ v. compare_json num c v (number m) >>= λ b. ok (boolean b))
  evaluate_comparison c k path m d h =
      rw (evaluate_node_lem num k (pair_of (var_ path) (number m)) d, h)
        (bind-evaluate_pair num path (number m) (number m) d _ (evaluate_number num d m))

  pub IsSatisfied-comparison :
      (c : Comparison) (k path : String) (m : Number) (d : Json Number)
      → operator_of k ≡ op_compare c
      → IsSatisfied d (node k (pair_of (var_ path) (number m))) ↔ (
          (v : Json Number) × (n : Number) × (resolve_var path d ≡ ok v)
          × (as_number num v ≡ some n)
          × (compare_numbers num c n m ≡ true))
  IsSatisfied-comparison c k path m d h = rw (evaluate_comparison c k path m d h) (
      (
        λ s.
            let (v, p, q) = bind_value (resolve_var path d) _ s.1 in
            let (b, r, t) = bind_value (compare_json num c v (number m)) _ q in
            let e : b ≡ true = subst (λ x. is_true num x ≡ true) (sym (ok-injective t)) s.2 in
            let (n, x, y) = (compare_json-number c v m).0 (r ∙ ap ok e) in (v, n, p, x, y),
        λ t. (boolean true, rw (t.2, (compare_json-number c t.0 m).1 (t.1, t.3, t.4)) refl, refl),
      ))

  -- An `and` is satisfied where each of its children is.
  pub evaluate_all_iff :
      (cs : List (Json Number)) (d : Json Number)
      → (evaluate_all num (items cs) d ≡ ok true) ↔ All (IsSatisfied d) cs
  evaluate_all_iff [] d = (λ e. tt, λ h. evaluate_all-nil num d)
  evaluate_all_iff (c ∷ cs) d = rw (evaluate_all-cons num c (items cs) d) (
      (
        λ e.
            let (v, p, q) = bind_value (evaluate_jsonlogic num c d) _ e in
            let (r, t) = and_then_iff.0 q in ((v, p, r), (evaluate_all_iff cs d).0 t),
        λ h. rw h.0.1 (and_then_iff.1 (h.0.2, (evaluate_all_iff cs d).1 h.1)),
      ))

  pub IsSatisfied-and :
      (cs : List (Json Number)) (d : Json Number)
      → IsSatisfied d (node "and" (list (items cs))) ↔ All (IsSatisfied d) cs
  IsSatisfied-and cs d =
      let e =
        evaluate_node_lem num "and" (list (items cs)) d
        ∙ ap (λ (z : Result EvalError Bool). z >>= λ b. ok (boolean b))
            (evaluate_and_lem num (items cs) d) in
      (
        λ s.
            let (b, r, t) = bind_value (evaluate_all num (items cs) d) _ (sym e ∙ s.1) in
            let h : b ≡ true = subst (λ x. is_true num x ≡ true) (sym (ok-injective t)) s.2 in
            (evaluate_all_iff cs d).0 (r ∙ ap ok h),
        λ h. (
          boolean true,
          e
              ∙ ap (λ (z : Result EvalError Bool). z >>= λ b. ok (boolean b))
                  ((evaluate_all_iff cs d).1 h),
          refl,
        ),
      )
