-- ===== src/Prelude/Assoc.antt =====
-- A Python dict keyed by strings, in insertion order.
use Prim.Native.String.{String}
use text.Mathlib.Text.{◌==◌}
use text.Mathlib.TextEquality.{eq_iff}
use mathlib.Core.Path.{◌≡◌, refl}
use mathlib.Core.Option.{Option, none, some}
use mathlib.Core.List.{List, [], ◌∷◌}
use native.Mathlib.Omega.{arith}
use trading_crew.Prelude.Tests.{if◌then◌else◌}

abbrev pub Dict {ℓ} : Type ℓ → Type ℓ
Dict V = List (String × V)

module _ {ℓ} {V : Type ℓ} where
  -- `d.get(k)`
  abbrev pub lookup : String → Dict V → Option V
  lookup k [] = none
  lookup k ((j, v) ∷ d) = if j == k then some v else lookup k d

  -- `d[k] = v`: an old key keeps its place, a new one goes to the end.
  abbrev pub insert : String → V → Dict V → Dict V
  insert k v [] = (k, v) ∷ []
  insert k v ((j, w) ∷ d) = if j == k then (j, v) ∷ d else (j, w) ∷ insert k v d

  -- `del d[k]`, at a key that is there.
  abbrev pub erase : String → Dict V → Dict V
  erase k [] = []
  erase k ((j, w) ∷ d) = if j == k then d else (j, w) ∷ erase k d

  -- No key is listed twice, which a dict gives.
  abbrev pub HasUniqueKeys : Dict V → Type ℓ
  HasUniqueKeys [] = Unit
  HasUniqueKeys ((k, v) ∷ d) = (lookup k d ≡ none) × HasUniqueKeys d

  pub lookup-insert :
      (k j : String) (v : V) (d : Dict V)
      → lookup j (insert k v d) ≡ (if k == j then some v else lookup j d)
  lookup-insert k j v [] = refl
  lookup-insert k j v ((i, w) ∷ d) =
      ground (arith, eq_iff k j, eq_iff i k, eq_iff i j, lookup-insert k j v d)

  pub lookup-insert_self : (k : String) (v : V) (d : Dict V) → lookup k (insert k v d) ≡ some v
  lookup-insert_self k v d = ground (arith, lookup-insert k k v d, eq_iff k k)

  pub lookup-erase_self : (k : String) (d : Dict V) → HasUniqueKeys d → lookup k (erase k d) ≡ none
  lookup-erase_self k [] h = refl
  lookup-erase_self k ((j, w) ∷ d) h = ground (arith, eq_iff j k, lookup-erase_self k d h.1)

  pub erase-insert_new :
      (k : String) (v : V) (d : Dict V) → lookup k d ≡ none → erase k (insert k v d) ≡ d
  erase-insert_new k v [] h = ground (arith, eq_iff k k)
  erase-insert_new k v ((j, w) ∷ d) h = ground (arith, eq_iff j k, erase-insert_new k v d)

  pub insert-insert : (k : String) (v w : V) (d : Dict V) → insert k v (insert k w d) ≡ insert k v d
  insert-insert k v w [] = ground (arith, eq_iff k k)
  insert-insert k v w ((j, u) ∷ d) = ground (arith, eq_iff j k, insert-insert k v w d)

  pub insert_self : (k : String) (v : V) (d : Dict V) → lookup k d ≡ some v → insert k v d ≡ d
  insert_self k v [] h = cc
  insert_self k v ((j, w) ∷ d) h = ground (arith, eq_iff j k, insert_self k v d)
