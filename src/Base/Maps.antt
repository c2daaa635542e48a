-- ===== src/Base/Maps.antt =====
-- A Go map with text keys, as an association list. A copy loop over a map, whose order Go leaves
-- open, takes the entries from the last to the first.
use Prim.Native.String.{String}
use mathlib.Core.Path.{◌≡◌, refl}
use mathlib.Core.Option.{Option, none, some}
use mathlib.Core.List.{List, [], ◌∷◌}
use native.Mathlib.Omega.{arith}
use text.Mathlib.Text.{◌==◌}
use text.Mathlib.TextEquality.{eq_iff}
use starrocks_kubernetes_ope.Base.Tests.{if◌then◌else◌}

abbrev pub Dict : Type 0 → Type 0
Dict V = List (String × V)

abbrev pub or_else {ℓ} : {A : Type ℓ} → Option A → A → A
or_else none d = d
or_else (some a) d = a

module _ {V : Type 0} where
  -- m[key], with the test of the second result
  unfoldable pub lookup : (key : String) → Dict V → Option V
  lookup key [] = none
  lookup key (entry ∷ entries) =
      let rest = lookup key entries in if entry.0 == key then some entry.1 else rest

  -- m[key] = value
  unfoldable pub insert : (key : String) (value : V) → Dict V → Dict V
  insert key value [] = (key, value) ∷ []
  insert key value (entry ∷ entries) =
      let rest = insert key value entries in
      if entry.0 == key then (key, value) ∷ entries else entry ∷ rest

  -- for k, v := range from { to[k] = v }
  unfoldable pub insert_all : List (String × V) → List (String × V) → List (String × V)
  unfolding insert
  insert_all [] to = to
  insert_all ((k, v) ∷ from) to = insert k v (insert_all from to)

  -- What stands under any key after an assignment.
  pub lookup-insert :
      (written key : String) (value : V) (entries : Dict V)
      → lookup key (insert written value entries)
        ≡ (if written == key then some value else lookup key entries)
  unfolding insert lookup
  lookup-insert written key value [] = refl
  lookup-insert written key value ((other, old) ∷ entries) = ground (
    arith,
    lookup-insert written key value entries,
    eq_iff other written,
    eq_iff other key,
    eq_iff written key,
  )

  abbrev pub first_of_two : Option V → Option V → Option V
  first_of_two none y = y
  first_of_two (some v) y = some v

  pub first_of_two-none : (o : Option V) → first_of_two o none ≡ o
  first_of_two-none none = refl
  first_of_two-none (some v) = refl

  -- The copied entries win.
  pub lookup-insert_all :
      (j : String) (from to : List (String × V))
      → lookup j (insert_all from to) ≡ first_of_two (lookup j from) (lookup j to)
  unfolding insert_all lookup
  lookup-insert_all j [] to = refl
  lookup-insert_all j ((k, v) ∷ from) to =
      ground (arith, lookup-insert k j v (insert_all from to), lookup-insert_all j from to)

-- `m[k]` of a map of texts, which is "" where the key is missing
unfoldable pub get_text : String → Dict String → String
unfolding lookup
get_text k m = or_else (lookup k m) ""
