-- ===== src/Base/Redis.antt =====
-- The keys, hashes and sets of the Redis stores, as association lists and lists of members.
use Prim.Native.String.{String}
use mathlib.Core.Path.{◌≡◌, refl}
use mathlib.Core.Bool.{Bool, false, ◌||◌}
use mathlib.Core.Option.{Option, none, some}
use mathlib.Core.List.{List, [], ◌∷◌, ◌++◌}
use native.Mathlib.Omega.{arith}
use text.Mathlib.Text.{◌==◌}
use text.Mathlib.TextEquality.{eq_iff}
use reg_engine_ai.Base.Tests.{if◌then◌else◌}

abbrev pub Dict {ℓ} : Type ℓ → Type ℓ
Dict V = List (String × V)

module _ {ℓ} {V : Type ℓ} where
  -- GET
  unfoldable pub lookup : String → Dict V → Option V
  lookup k [] = none
  lookup k ((j, v) ∷ d) = if j == k then some v else lookup k d

  -- SET
  unfoldable pub insert : String → V → Dict V → Dict V
  insert k v [] = (k, v) ∷ []
  insert k v ((j, w) ∷ d) = if j == k then (k, v) ∷ d else (j, w) ∷ insert k v d

  -- DEL
  unfoldable pub erase : String → Dict V → Dict V
  erase k [] = []
  erase k ((j, v) ∷ d) = let rest = erase k d in if j == k then rest else (j, v) ∷ rest

  pub lookup-insert :
      (k j : String) (v : V) (d : Dict V)
      → lookup j (insert k v d) ≡ (if k == j then some v else lookup j d)
  unfolding lookup insert
  lookup-insert k j v [] = refl
  lookup-insert k j v ((i, w) ∷ d) =
      ground (arith, lookup-insert k j v d, eq_iff i k, eq_iff i j, eq_iff k j)

  pub lookup-erase :
      (k j : String) (d : Dict V) → lookup j (erase k d) ≡ (if k == j then none else lookup j d)
  unfolding lookup erase
  lookup-erase k j [] = ground arith
  lookup-erase k j ((i, w) ∷ d) =
      ground (arith, lookup-erase k j d, eq_iff i k, eq_iff i j, eq_iff k j)

-- SISMEMBER
unfoldable pub is_member : String → List String → Bool
is_member k [] = false
is_member k (j ∷ s) = j == k || is_member k s

-- SADD
unfoldable pub sadd : String → List String → List String
unfolding is_member
sadd k s = if is_member k s then s else s ++ k ∷ []

-- SREM
unfoldable pub srem : String → List String → List String
srem k [] = []
srem k (j ∷ s) = let rest = srem k s in if j == k then rest else j ∷ rest

is_member-append :
    (k j : String) (s : List String) → is_member j (s ++ k ∷ []) ≡ (is_member j s || k == j)
unfolding is_member
is_member-append k j [] = ground arith
is_member-append k j (i ∷ s) = ground (arith, is_member-append k j s)

pub is_member-sadd :
    (k j : String) (s : List String) → is_member j (sadd k s) ≡ (k == j || is_member j s)
unfolding sadd
is_member-sadd k j s = ground (arith, is_member-append k j s, eq_iff k j)

pub is_member-srem :
    (k j : String) (s : List String)
    → is_member j (srem k s) ≡ (if k == j then false else is_member j s)
unfolding is_member srem
is_member-srem k j [] = ground arith
is_member-srem k j (i ∷ s) =
    ground (arith, is_member-srem k j s, eq_iff i k, eq_iff i j, eq_iff k j)
