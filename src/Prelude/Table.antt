-- ===== src/Prelude/Table.antt =====
-- Hash tables keyed by handles (GHashTable) as association lists.
use mathlib.Core.Path.{◌≡◌}
use mathlib.Core.Option.{Option, none, some}
use mathlib.Core.List.{List, [], ◌∷◌, map}
use Prim.Native.Nat.{ℕ}
use native.Mathlib.Omega.{arith}
use telepathy_haze.Prelude.Tests.{if◌then◌else◌, ◌==◌}

module _ {V : Type 0} where
  unfoldable pub lookup : ℕ → List (ℕ × V) → Option V
  lookup k [] = none
  lookup k ((j, v) ∷ t) = if j == k then some v else lookup k t

  -- Removes what the key has, every binding of it.
  unfoldable pub delete : ℕ → List (ℕ × V) → List (ℕ × V)
  delete k [] = []
  delete k ((j, v) ∷ t) = if j == k then delete k t else (j, v) ∷ delete k t

  -- g_hash_table_insert replaces the value of a key that is there already.
  unfoldable pub insert : ℕ → V → List (ℕ × V) → List (ℕ × V)
  unfolding delete
  insert k v t = (k, v) ∷ delete k t

  abbrev pub keys : List (ℕ × V) → List ℕ
  keys = map (λ p. p.0)

  pub lookup-delete :
      (k j : ℕ) (t : List (ℕ × V)) → lookup j (delete k t) ≡ (if k == j then none else lookup j t)
  unfolding lookup delete
  lookup-delete k j [] = ground arith
  lookup-delete k j ((i, v) ∷ t) = ground (arith, lookup-delete k j t)

  pub lookup-insert :
      (k j : ℕ) (v : V) (t : List (ℕ × V))
      → lookup j (insert k v t) ≡ (if k == j then some v else lookup j t)
  unfolding lookup insert
  lookup-insert k j v t = ground (arith, lookup-delete k j t)
