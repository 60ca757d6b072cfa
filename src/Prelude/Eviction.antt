-- ===== src/Prelude/Eviction.antt =====
-- The eviction of entries from a `dict`: the keys are collected first, and deleted then.
use paybond_kit_python.Prelude.Tests.{if◌then◌else◌}
use paybond_kit_python.Prelude.Lists.{contains}
use paybond_kit_python.Prelude.Dict.{Dict, lookup, remove, Unique, lookup-remove, remove-Unique}
use Prim.Native.String.{String}
use text.Mathlib.TextEquality.{eq_iff}
use mathlib.Core.Path.{◌≡◌, refl, ◌∙◌}
use mathlib.Core.Bool.{Bool, false}
use mathlib.Core.Option.{Option, none, some}
use mathlib.Core.List.{List, [], ◌∷◌}
use native.Mathlib.Omega.{arith}

module _ {V : Type 0} where
  -- `[key for key, value in d.items() if test(value)]`
  unfoldable pub keys_where : (V → Bool) → Dict V → List String
  keys_where test [] = []
  keys_where test ((key, value) ∷ d) =
      let rest = keys_where test d in if test value then key ∷ rest else rest

  -- `for key in keys: del d[key]`
  unfoldable pub remove_all : List String → Dict V → Dict V
  remove_all [] d = d
  remove_all (key ∷ keys) d = remove_all keys (remove key d)

  -- the value, unless it passes the test
  abbrev pub unless : (V → Bool) → Option V → Option V
  unless test none = none
  unless test (some v) = if test v then none else some v

  lookup-remove_all :
      (keys : List String) (k : String) (d : Dict V)
      → lookup k (remove_all keys d) ≡ (if contains k keys then none else lookup k d)
  unfolding remove_all
  lookup-remove_all [] k d = refl
  lookup-remove_all (key ∷ keys) k d =
      ground (arith, lookup-remove_all keys k (remove key d), lookup-remove key k d)

  pub remove_all-Unique : (keys : List String) (d : Dict V) → Unique d → Unique (remove_all keys d)
  unfolding remove_all
  remove_all-Unique [] d u = u
  remove_all-Unique (key ∷ keys) d u = remove_all-Unique keys (remove key d) (remove-Unique key d u)

  keys_where-absent :
      (test : V → Bool) (k : String) (d : Dict V)
      → lookup k d ≡ none
      → contains k (keys_where test d) ≡ false
  unfolding keys_where lookup
  keys_where-absent test k [] h = refl
  keys_where-absent test k ((j, v) ∷ d) h = ground (arith, keys_where-absent test k d)

  keys_where_lem :
      (test : V → Bool) (k : String) (d : Dict V)
      → Unique d
      → (if contains k (keys_where test d) then none else lookup k d) ≡ unless test (lookup k d)
  unfolding keys_where lookup
  keys_where_lem test k [] u = refl
  keys_where_lem test k ((j, v) ∷ d) u = ground (
    arith,
    eq_iff j k,
    keys_where_lem test k d u.1,
    keys_where-absent test j d,
    keys_where-absent test k d,
    u.0,
  )

  -- Deleting the keys that pass the test leaves exactly the entries that do not.
  pub lookup-remove_where :
      (test : V → Bool) (k : String) (d : Dict V)
      → Unique d
      → lookup k (remove_all (keys_where test d) d) ≡ unless test (lookup k d)
  lookup-remove_where test k d u =
      lookup-remove_all (keys_where test d) k d ∙ keys_where_lem test k d u
