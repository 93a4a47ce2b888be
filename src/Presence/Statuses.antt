-- ===== src/Presence/Statuses.antt =====
-- src/connection-presence.c: the indices of statuses and the primitives of libpurple.
use telepathy_haze.Prelude.{
  zero, Option-cases, ◌==◌, refl, sym, inl, if◌then◌else◌, inr, some_inj, ℕ, ◌∷◌, List, length, suc,
  some, [], ◌↔◌, ◌≡◌, none, ◌<◌, arith, ◌≢◌, String,
}
use telepathy_haze.Presence.{
  status_available, statuses, TpStatus, num_statuses, is_status_available, set_own_status,
  get_purple_status_id, Account, OwnStatus, get_tp_status, status_indices, primitives, nth,
}

nth-some : (xs : List ℕ) (i : ℕ) → (nth xs i ≢ none) ↔ (i < length xs)
unfolding nth
nth-some [] i = ground arith
nth-some (x ∷ xs) zero = ground arith
nth-some (x ∷ xs) (suc i) = ground (arith, nth-some xs i)

-- Asking for the status that has an index reads within the array of primitives exactly if the index is
-- one of the first six: the index of "unknown", the last of the seven statuses that are named, passes
-- the assertion and is read after the end of the array.
pub is_status_available-bounds :
    (A : Account) (index : ℕ)
    → ((is_status_available A index ≢ none) ↔ (index < 6))
      × ((index < length statuses) ↔ (index < num_statuses))
unfolding is_status_available get_purple_status_id statuses
is_status_available-bounds A index = elim (Option-cases (nth primitives index)) [
  | inl n ↦ ground (arith, n, nth-some primitives index, six)
  | inr (p, n) ↦ ground (arith, n, nth-some primitives index, six)
]
  where
    six : length primitives ≡ 6
    six = unfold primitives in refl

primitive-index :
    (i prim : ℕ)
    → i < 5
    → nth primitives i ≡ some prim
    → (if prim == 0
        then status_available
        else elim (nth status_indices prim) [ none ↦ status_available | some i ↦ i ])
      ≡ i
unfolding nth primitives status_indices
primitive-index zero prim b e = rw (sym (some_inj e)) refl
primitive-index (suc zero) prim b e = rw (sym (some_inj e)) refl
primitive-index (suc (suc zero)) prim b e = rw (sym (some_inj e)) refl
primitive-index (suc (suc (suc zero))) prim b e = rw (sym (some_inj e)) refl
primitive-index (suc (suc (suc (suc zero)))) prim b e = rw (sym (some_inj e)) refl
primitive-index (suc (suc (suc (suc (suc i))))) prim b e = absurd (ground (arith, b))

-- One of the first five statuses, where the account has a type for its primitive, is set by the id of
-- that type, and a status with the primitive is reported by the index of the status that was set.
pub set_own_status-get :
    (A : Account) (s : TpStatus) (id : String) (prim : ℕ) (o : OwnStatus)
    → s.index < 5
    → nth primitives s.index ≡ some prim
    → A.type_with_primitive prim ≡ some id
    → set_own_status A (some s) ≡ some o
    → (o.status_id ≡ id)
      × ((get_tp_status A (some (record { primitive = prim; message = o.own_message }))).index
          ≡ s.index)
unfolding set_own_status get_purple_status_id get_tp_status
set_own_status-get A s id prim o b p t e =
    (ground (arith, e, p, t, b), primitive-index s.index prim b p)
