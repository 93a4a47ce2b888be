-- ===== src/Prelude/Lists.antt =====
-- Lists: membership as a type that computes, lengths by native numbers, and loops over a list.
use Prim.Native.Nat.{ℕ, suc}
use mathlib.Core.Path.{◌≡◌, refl, sym, subst}
use mathlib.Core.Logic.{◌⊎◌, inl, inr}
use mathlib.Core.List.{List, [], ◌∷◌}
use mathlib.Core.Option.{Option, some}
use telepathy_haze.Prelude.Tests.{◌>>=◌, some_inj, Option-cases}

module _ {ℓ} {A : Type ℓ} where
  abbrev pub length : List A → ℕ
  length [] = 0
  length (x ∷ xs) = suc (length xs)

module _ {A : Type 0} where
  -- `a` is an item of the list.
  abbrev pub In : A → List A → Type 0
  In a [] = ⊥
  In a (x ∷ xs) = (a ≡ x) ⊎ In a xs

  abbrev pub All {ℓ} : (A → Type ℓ) → List A → Type ℓ
  All P [] = Unit
  All P (x ∷ xs) = P x × All P xs

  pub List-cases : (xs : List A) → (xs ≡ []) ⊎ ((y : A) × (ys : List A) × (xs ≡ y ∷ ys))
  List-cases [] = inl refl
  List-cases (y ∷ ys) = inr (y, ys, refl)

  pub nil_of_empty : (xs : List A) → ((a : A) → ¬ In a xs) → xs ≡ []
  nil_of_empty [] f = refl
  nil_of_empty (x ∷ xs) f = absurd (f x (inl refl))

  pub All-at {ℓ} : (P : A → Type ℓ) {a : A} (xs : List A) → All P xs → In a xs → P a
  All-at P [] h i = absurd i
  All-at P {a} (x ∷ xs) h (inl e) = subst P (sym e) h.0
  All-at P (x ∷ xs) h (inr i) = All-at P xs h.1 i

  pub All-map {ℓ κ} :
      {P : A → Type ℓ} {Q : A → Type κ} (xs : List A) → ((a : A) → P a → Q a) → All P xs → All Q xs
  All-map [] f h = tt
  All-map (x ∷ xs) f h = (f x h.0, All-map xs f h.1)

-- A step for each item of a list, from left to right; the loop stops at a failed assertion.
module _ {A S : Type 0} where
  unfoldable pub for_each : (S → A → Option S) → S → List A → Option S
  for_each step s [] = some s
  for_each step s (x ∷ xs) = step s x >>= λ s'. for_each step s' xs

  unfoldable pub fold : (S → A → S) → S → List A → S
  fold step s [] = s
  fold step s (x ∷ xs) = fold step (step s x) xs

  -- The invariant rules of the loops.
  pub for_each_inv {ℓ} :
      (P : S → Type ℓ) (step : S → A → Option S)
      → ((s t : S) (x : A) → P s → step s x ≡ some t → P t)
      → (s t : S) (xs : List A) → P s
      → for_each step s xs ≡ some t
      → P t
  unfolding for_each
  for_each_inv P step keep s t [] h e = subst P (some_inj e) h
  for_each_inv P step keep s t (x ∷ xs) h e = elim (Option-cases (step s x)) [
    | inl f ↦ absurd (cc (rw (f, ◌>>=◌) at e))
    | inr (u, f) ↦ for_each_inv P step keep u t xs (keep s u x h f) (rw (f, ◌>>=◌) at e)
  ]

  pub fold_inv {ℓ} :
      (P : S → Type ℓ) (step : S → A → S)
      → ((s : S) (x : A) → P s → P (step s x))
      → (s : S) (xs : List A) → P s
      → P (fold step s xs)
  unfolding fold
  fold_inv P step keep s [] h = h
  fold_inv P step keep s (x ∷ xs) h = fold_inv P step keep (step s x) xs (keep s x h)
