-- ===== src/Compiler/Facts.antt =====
-- app/regulatory/facts.py: the canonical fact of a metric, its units and its bounds; the field name
-- of app/compiler/naming.py. The table `_CANONICAL_FACTS` is the argument `catalogue`, in its order,
-- with a pattern as its `match`. `Unicode` holds what Python's tables say of a code point.
use reg_engine_ai.Base.{
  ℕ, String, Bool, false, not, ◌&&◌, ◌||◌, Option, none, some, List, [], ◌∷◌, ◌++◌, any_of,
  find_row, leb, ◌==◌, codes, text_eq, str_eq, is_empty, if◌then◌else◌,
}
use reg_engine_ai.Backtest.Json.{Numbers}

pub record Unicode : Type 0 where
  pub lower : ℕ → List ℕ
  pub is_space : ℕ → Bool

pub record CanonicalFact (Number : Type 0) : Type 0 where
  pub identifier : String
  pub allowed_units : List (List ℕ)
  pub synonyms : List (List ℕ)
  pub min_value : Option Number
  pub max_value : Option Number
  pub regex_patterns : List (List ℕ → Bool)

-- FactValidationStatus with the identifier of the fact
pub data FactResolution : Type 0 where
  missing_mapping : FactResolution
  wrong_unit wrong_threshold valid : String → FactResolution

module _ (uni : Unicode) where
  unfoldable pub lower_text : List ℕ → List ℕ
  lower_text [] = []
  lower_text (c ∷ cs) = uni.lower c ++ lower_text cs

  unfoldable pub strip_left : List ℕ → List ℕ
  strip_left [] = []
  strip_left (c ∷ cs) = if uni.is_space c then strip_left cs else c ∷ cs

  unfoldable pub strip_right : List ℕ → List ℕ
  strip_right [] = []
  strip_right (c ∷ cs) =
      let rest = strip_right cs in if is_empty rest && uni.is_space c then [] else c ∷ rest

  unfoldable pub strip : List ℕ → List ℕ
  unfolding strip_left strip_right
  strip t = strip_right (strip_left t)

abbrev is_alnum : ℕ → Bool
is_alnum c = (leb b'a' c && leb c b'z') || (leb b'0' c && leb c b'9')

-- The two substitutions together: each run of characters outside a-z and 0-9 is one space.
abbrev add_gap : List ℕ → List ℕ
add_gap [] = b' ' ∷ []
add_gap (c ∷ cs) = if c == b' ' then c ∷ cs else b' ' ∷ c ∷ cs

unfoldable pub collapse : List ℕ → List ℕ
collapse [] = []
collapse (c ∷ cs) = let rest = collapse cs in if is_alnum c then c ∷ rest else add_gap rest

abbrev one_of : List String → List ℕ → Bool
one_of names u = any_of (λ s. text_eq (codes s) u) names

unfoldable pub normalize_metric_text : Unicode → List ℕ → List ℕ
unfolding lower_text strip collapse
normalize_metric_text uni t = strip uni (collapse (lower_text uni (strip uni t)))

unfoldable pub normalize_unit : Unicode → List ℕ → List ℕ
unfolding lower_text strip text_eq
normalize_unit uni t =
    let u = lower_text uni (strip uni t) in
    if one_of ("%" ∷ "pct" ∷ "percent" ∷ "per cent" ∷ "percentage" ∷ []) u
    then codes "%"
    else if one_of ("day" ∷ "days" ∷ []) u
    then codes "days"
    else if one_of ("hour" ∷ "hours" ∷ "hr" ∷ "hrs" ∷ []) u
    then codes "hours"
    else if one_of ("month" ∷ "months" ∷ []) u
    then codes "months"
    else if one_of ("week" ∷ "weeks" ∷ []) u
    then codes "weeks"
    else if one_of ("inr" ∷ "rs" ∷ "rs." ∷ "₹" ∷ "rupees" ∷ []) u
    then codes "inr"
    else if one_of ("inr crore" ∷ "crore" ∷ "crores" ∷ "cr" ∷ []) u
    then codes "inr crore"
    else if one_of ("inr lakh" ∷ "lakh" ∷ "lakhs" ∷ []) u
    then codes "inr lakh"
    else u

module _ {Number : Type 0} where
  abbrev pub has_identifier : List ℕ → CanonicalFact Number → Bool
  has_identifier t f = text_eq (codes f.identifier) t

  abbrev pub is_named : List ℕ → CanonicalFact Number → Bool
  is_named clean f =
      any_of (λ s. text_eq s clean) f.synonyms || any_of (λ matches. matches clean) f.regex_patterns

  abbrev pub or_later :
      Option (CanonicalFact Number) → Option (CanonicalFact Number) → Option (CanonicalFact Number)
  or_later none later = later
  or_later (some f) later = some f

module _ {Number : Type 0} (uni : Unicode) where
  -- an identifier as it stands, then the cleaned one, then the synonyms and the patterns
  unfoldable pub match_fact : List (CanonicalFact Number) → String → Option (CanonicalFact Number)
  unfolding normalize_metric_text strip text_eq
  match_fact catalogue metric =
      let t = strip uni (codes metric) in
      let clean = normalize_metric_text uni (codes metric) in
      if is_empty t
      then none
      else or_later (find_row (has_identifier t) catalogue) (
          or_later (find_row (has_identifier clean) catalogue)
            (find_row (is_named clean) catalogue))

  unfoldable pub allows_unit : CanonicalFact Number → String → Bool
  unfolding normalize_unit lower_text strip text_eq
  allows_unit f unit =
      let t = strip uni (codes unit) in
      is_empty t
      || any_of (text_eq (normalize_unit uni (codes unit))) f.allowed_units
      || any_of (text_eq (lower_text uni t)) f.allowed_units

  module _ (num : Numbers Number) where
    abbrev below : Option Number → Number → Bool
    below none v = false
    below (some bound) v = num.num_lt v bound

    abbrev above : Option Number → Number → Bool
    above none v = false
    above (some bound) v = num.num_lt bound v

    abbrev out_of_bounds : CanonicalFact Number → Option Number → Bool
    out_of_bounds f none = false
    out_of_bounds f (some v) = below f.min_value v || above f.max_value v

    abbrev pub checked :
        Option (CanonicalFact Number) → String → Option Number → Option Number → FactResolution
    checked none unit value upper = missing_mapping
    checked (some f) unit value upper =
        if not (allows_unit f unit)
        then wrong_unit f.identifier
        else if out_of_bounds f value || out_of_bounds f upper
        then wrong_threshold f.identifier
        else valid f.identifier

    unfoldable pub resolve_canonical_fact :
        List (CanonicalFact Number)
        → String
        → String
        → Option Number
        → Option Number
        → FactResolution
    unfolding match_fact allows_unit
    resolve_canonical_fact catalogue metric unit value upper =
        checked (match_fact catalogue metric) unit value upper

    abbrev pub field_of : FactResolution → Option String
    field_of (valid name) = if str_eq name "" then none else some name
    field_of _ = none

    -- none where it raises UndefinedFactError
    unfoldable pub metric_field_name : List (CanonicalFact Number) → String → String → Option String
    unfolding resolve_canonical_fact
    metric_field_name catalogue metric unit =
        field_of (resolve_canonical_fact catalogue metric unit none none)
