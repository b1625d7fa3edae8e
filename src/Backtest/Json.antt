-- ===== src/Backtest/Json.antt =====
-- The JSON values that the compiler writes and the evaluator of app/backtest reads, with what
-- Python's `==`, `<`, `in` and truth test do on them. `Number` is the type of the numbers, integers
-- and floats, and `Numbers` what the code asks of them.
use Prim.Native.Char.{code}
use Prim.Native.String.{◌++◌ as append}
use reg_engine_ai.Base.{
  ℕ, String, Bool, true, false, not, ◌&&◌, ◌||◌, Option, none, some, List, [], ◌∷◌, Result, ok, err,
  ltb, ◌==◌, codes, str_eq, if◌then◌else◌,
}

pub record Numbers (Number : Type 0) : Type 0 where
  pub num_lt : Number → Number → Bool
  pub num_eq : Number → Number → Bool
  pub is_zero : Number → Bool
  pub is_finite : Number → Bool
  -- `True` and `False` are the integers 1 and 0
  pub of_bool : Bool → Number

mutual
  pub data Json (Number : Type 0) : Type 0 where
    null : Json Number
    boolean : Bool → Json Number
    number : Number → Json Number
    text : String → Json Number
    list : Items Number → Json Number
    object : Members Number → Json Number

  pub data Items (Number : Type 0) : Type 0 where
    nil : Items Number
    cons : Json Number → Items Number → Items Number

  pub data Members (Number : Type 0) : Type 0 where
    end : Members Number
    member : String → Json Number → Members Number → Members Number

-- The operators of `_COMPARISON_OPS`.
pub data Comparison : Type 0 where
  eq ge gt le lt : Comparison

-- MissingFactError, UnsupportedJsonLogicNodeError, and the exceptions of Python's own operations.
pub data EvalError : Type 0 where
  missing_fact : String → EvalError
  unsupported_node type_error attribute_error : EvalError

-- `s < t` and `needle in s` on texts, by code points
unfoldable pub text_lt : List ℕ → List ℕ → Bool
text_lt [] [] = false
text_lt [] (b ∷ bs) = true
text_lt (a ∷ cs) [] = false
text_lt (a ∷ cs) (b ∷ bs) = ltb a b || (a == b && text_lt cs bs)

unfoldable pub begins_with : List ℕ → List ℕ → Bool
begins_with [] s = true
begins_with (a ∷ n) [] = false
begins_with (a ∷ n) (b ∷ s) = a == b && begins_with n s

unfoldable pub contains_text : List ℕ → List ℕ → Bool
unfolding begins_with
contains_text n [] = begins_with n []
contains_text n (b ∷ s) = begins_with n (b ∷ s) || contains_text n s

-- `path.split(".")`
abbrev put_first : String → List String → List String
put_first s [] = s ∷ []
put_first s (p ∷ ps) = append s p ∷ ps

unfoldable pub split_path : String → List String
split_path String.[] = "" ∷ []
split_path (String.◌∷◌ c s) =
    let rest = split_path s in
    if code c == b'.' then "" ∷ rest else put_first (String.◌∷◌ c String.[]) rest

module _ {Number : Type 0} where
  unfoldable pub member_of : String → Members Number → Option (Json Number)
  member_of k end = none
  member_of k (member j v ms) = if str_eq j k then some v else member_of k ms

  abbrev pub size_of : Members Number → ℕ
  size_of end = 0
  size_of (member k v ms) = ℕ.suc (size_of ms)

module _ {Number : Type 0} (num : Numbers Number) where
  abbrev pub as_number : Json Number → Option Number
  as_number (number n) = some n
  as_number (boolean b) = some (num.of_bool b)
  as_number _ = none

  -- `bool(v)`
  abbrev pub is_true : Json Number → Bool
  is_true null = false
  is_true (boolean b) = b
  is_true (number n) = not (num.is_zero n)
  is_true (text s) = not (str_eq s "")
  is_true (list nil) = false
  is_true (list (cons x xs)) = true
  is_true (object end) = false
  is_true (object (member k v ms)) = true

  -- what an operator asks of the three ways in which two values can stand
  abbrev pub decide_by : Comparison → Bool → Bool → Bool → Bool
  decide_by eq less equal greater = equal
  decide_by ge less equal greater = greater || equal
  decide_by gt less equal greater = greater
  decide_by le less equal greater = less || equal
  decide_by lt less equal greater = less

  abbrev pub compare_numbers : Comparison → Number → Number → Bool
  compare_numbers c m n = decide_by c (num.num_lt m n) (num.num_eq m n) (num.num_lt n m)

  abbrev pub numbers_equal : Option Number → Option Number → Bool
  numbers_equal (some m) (some n) = num.num_eq m n
  numbers_equal _ _ = false

  abbrev pub number_order : Comparison → Option Number → Option Number → Result EvalError Bool
  number_order c (some m) (some n) = ok (compare_numbers c m n)
  number_order c _ _ = err type_error

  -- `a == b`
  unfoldable mutual
    pub json_equal : Json Number → Json Number → Bool
    json_equal null null = true
    json_equal (text s) (text t) = str_eq s t
    json_equal (list xs) (list ys) = items_equal xs ys
    json_equal (object ms) (object ns) = size_of ms == size_of ns && members_equal ms ns
    json_equal a b = numbers_equal (as_number a) (as_number b)

    pub items_equal : Items Number → Items Number → Bool
    items_equal nil nil = true
    items_equal (cons x xs) (cons y ys) = json_equal x y && items_equal xs ys
    items_equal _ _ = false

    pub members_equal : Members Number → Members Number → Bool
    members_equal end ns = true
    members_equal (member k v ms) ns = elim (member_of k ns) [
      | none ↦ false
      | some w ↦ json_equal v w && members_equal ms ns
    ]

  abbrev pub compare_texts : Comparison → String → String → Bool
  compare_texts c s t =
      decide_by c (text_lt (codes s) (codes t)) (str_eq s t) (text_lt (codes t) (codes s))

  -- `a >= b`, `a > b`, `a <= b`, `a < b`, which compare lists at the first place where they differ
  unfoldable mutual
    unfolding json_equal text_lt

    pub json_order : Comparison → Json Number → Json Number → Result EvalError Bool
    json_order c (text s) (text t) = ok (compare_texts c s t)
    json_order c (list xs) (list ys) = items_order c xs ys
    json_order c a b = number_order c (as_number a) (as_number b)

    pub items_order : Comparison → Items Number → Items Number → Result EvalError Bool
    items_order c nil nil = ok (decide_by c false true false)
    items_order c nil (cons y ys) = ok (decide_by c true false false)
    items_order c (cons x xs) nil = ok (decide_by c false false true)
    items_order c (cons x xs) (cons y ys) = elim (json_equal x y) [
      | true ↦ items_order c xs ys
      | false ↦ json_order c x y
    ]

  -- `_COMPARISON_OPS[operator](left, right)`
  unfoldable pub compare_json : Comparison → Json Number → Json Number → Result EvalError Bool
  unfolding json_equal json_order
  compare_json eq a b = ok (json_equal a b)
  compare_json c a b = json_order c a b

  abbrev pub item_among : Json Number → Items Number → Bool
  item_among v nil = false
  item_among v (cons x xs) = json_equal x v || item_among v xs

  -- `needle in haystack`
  unfoldable pub json_in : Json Number → Json Number → Result EvalError Bool
  unfolding json_equal contains_text member_of
  json_in v (list xs) = ok (item_among v xs)
  json_in (text n) (text s) = ok (contains_text (codes n) (codes s))
  json_in (text k) (object ms) = elim (member_of k ms) [ none ↦ ok false | some v ↦ ok true ]
  json_in (list xs) (object ms) = err type_error
  json_in (object ns) (object ms) = err type_error
  json_in v (object ms) = ok false
  json_in v w = err type_error
