-- ===== src/Prelude/Dict.antt =====
-- Python's `dict` with string keys: an association list in the order of insertion. Writing a key
-- that is there keeps its place.
use Prim.Native.Nat.{suc}
use Prim.Native.String.{String}
use mathlib.Core.Path.{◌≡◌, refl}
use mathlib.Core.Bool.{Bool, true, false}
use mathlib.Core.Option.{Option, none, some}
use mathlib.Core.List.{List, [], ◌∷◌, map}
use native.Mathlib.Omega.{arith}
use text.Mathlib.Text.{◌==◌}
use text.Mathlib.TextEquality.{eq_iff}
use davinci_agent.Prelude.Tests.{if◌then◌else◌}
use davinci_agent.Prelude.Lists.{length}

abbrev pub Dict {ℓ} : Type ℓ → Type ℓ
Dict V = List (String × V)

module _ {ℓ} {V : Type ℓ} where
  -- d.get(k)
  unfoldable pub lookup : String → Dict V → Option V
  lookup k [] = none
  lookup k ((j, v) ∷ d) = if j == k then some v else lookup k d

  -- k in d
  unfoldable pub has : String → Dict V → Bool
  has k [] = false
  has k ((j, v) ∷ d) = if j == k then true else has k d

  -- d[k] = v
  unfoldable pub insert : String → V → Dict V → Dict V
  insert k v [] = (k, v) ∷ []
  insert k v ((j, w) ∷ d) = if j == k then (k, v) ∷ d else (j, w) ∷ insert k v d

  -- d.pop(k, None)
  unfoldable pub remove : String → Dict V → Dict V
  remove k [] = []
  remove k ((j, w) ∷ d) = if j == k then d else (j, w) ∷ remove k d

  abbrev pub keys : Dict V → List String
  keys d = map (λ e. e.0) d

  abbrev pub values : Dict V → List V
  values d = map (λ e. e.1) d

  -- no key twice
  unfoldable pub IsDistinct : Dict V → Type 0
  IsDistinct [] = Unit
  IsDistinct ((k, v) ∷ d) = (has k d ≡ false) × IsDistinct d

module _ {ℓ} {V : Type ℓ} where
  pub lookup-insert :
      (k j : String) (v : V) (d : Dict V)
      → lookup j (insert k v d) ≡ (if k == j then some v else lookup j d)
  unfolding lookup insert
  lookup-insert k j v [] = refl
  lookup-insert k j v ((i, w) ∷ d) =
      ground (arith, eq_iff k j, eq_iff i k, eq_iff i j, lookup-insert k j v d)

  pub has-insert :
      (k j : String) (v : V) (d : Dict V)
      → has j (insert k v d) ≡ (if k == j then true else has j d)
  unfolding has insert
  has-insert k j v [] = refl
  has-insert k j v ((i, w) ∷ d) =
      ground (arith, eq_iff k j, eq_iff i k, eq_iff i j, has-insert k j v d)

  pub insert-IsDistinct :
      (k : String) (v : V) (d : Dict V) → IsDistinct d → IsDistinct (insert k v d)
  unfolding IsDistinct insert has
  insert-IsDistinct k v [] h = (refl, tt)
  insert-IsDistinct k v ((i, w) ∷ d) h =
      ground (arith, eq_iff i k, eq_iff k i, has-insert k i v d, insert-IsDistinct k v d)

  pub length-insert :
      (k : String) (v : V) (d : Dict V)
      → length (insert k v d) ≡ (if has k d then length d else suc (length d))
  unfolding insert has
  length-insert k v [] = refl
  length-insert k v ((i, w) ∷ d) = ground (arith, length-insert k v d)
