-- ===== src/Prelude/Names.antt =====
-- Hash tables keyed by strings (g_str_hash) as association lists.
use mathlib.Core.Path.{◌≡◌}
use mathlib.Core.Option.{Option, none, some}
use mathlib.Core.List.{List, [], ◌∷◌}
use Prim.Native.String.{String}
use native.Mathlib.Omega.{arith}
use text.Mathlib.TextEquality.{eq_iff}
unfoldable use text.Mathlib.Text.{◌==◌ as str_eq}
use telepathy_haze.Prelude.Tests.{if◌then◌else◌}

module _ {V : Type 0} where
  unfoldable pub find : String → List (String × V) → Option V
  find k [] = none
  find k ((j, v) ∷ t) = if str_eq j k then some v else find k t

  -- Removes what the key has, every binding of it.
  unfoldable pub drop : String → List (String × V) → List (String × V)
  drop k [] = []
  drop k ((j, v) ∷ t) = if str_eq j k then drop k t else (j, v) ∷ drop k t

  -- g_hash_table_insert replaces the value of a key that is there already.
  unfoldable pub put : String → V → List (String × V) → List (String × V)
  unfolding drop
  put k v t = (k, v) ∷ drop k t

  pub find-drop :
      (k j : String) (t : List (String × V))
      → find j (drop k t) ≡ (if str_eq k j then none else find j t)
  unfolding find drop
  find-drop k j [] = ground arith
  find-drop k j ((i, v) ∷ t) = ground (arith, find-drop k j t, eq_iff i k, eq_iff i j, eq_iff k j)

  pub find-put :
      (k j : String) (v : V) (t : List (String × V))
      → find j (put k v t) ≡ (if str_eq k j then some v else find j t)
  unfolding find put
  find-put k j v t = ground (arith, find-drop k j t)
