-- ===== src/Presence/Contacts.antt =====
-- src/connection-presence.c: the statuses of contacts.
use telepathy_haze.Prelude.{
  ap, ==_iff, ◌==◌, arith, [], ◌∷◌, inr, refl, for_each, inl, Bool-cases, All, true, ℕ, some, ◌⊎◌,
  In, ◌≡◌, if◌then◌else◌, none, false, List,
}
use telepathy_haze.Prelude.Sets.{member}
use telepathy_haze.Prelude.Table.{lookup-insert, insert, lookup}
use telepathy_haze.Presence.{contact_step, Account, get_contact_statuses, TpStatus, status_of}
use telepathy_haze.Telepathy.{Handles}

module _ (A : Account) (H : Handles) (self_handle : ℕ) where
  -- The table after the rest of the contacts, from a table that was begun.
  contacts_lem :
      (table : List (ℕ × TpStatus)) (contacts : List ℕ)
      → ((out : List (ℕ × TpStatus)) × (for_each (contact_step A H self_handle) table contacts
            ≡ some out)
          × All (λ h. H.is_valid h ≡ true) contacts
          × ((h : ℕ)
              → lookup h out ≡ (
                  if member contacts h
                  then some (status_of A H self_handle h)
                  else lookup h table)))
        ⊎ ((for_each (contact_step A H self_handle) table contacts ≡ none)
            × ((h : ℕ) × In h contacts × (H.is_valid h ≡ false)))
  unfolding for_each contact_step member
  contacts_lem table [] = inl (table, refl, tt, λ h. refl)
  contacts_lem table (x ∷ xs) = elim (Bool-cases (H.is_valid x)) [
    | inr v ↦ inr (ground (arith, v), (x, inl refl, v))
    | inl v ↦ elim (contacts_lem (insert x (status_of A H self_handle x) table) xs) [
      | inl (out, e, a, l) ↦ inl (
        out,
        ground (arith, v, e),
        (v, a),
        λ h. elim (Bool-cases (x == h)) [
          | inl q ↦ ground (
            arith,
            q,
            l h,
            lookup-insert x h (status_of A H self_handle x) table,
            ap (status_of A H self_handle) ((==_iff x h).0 q),
          )
          | inr q ↦ ground (arith, q, l h, lookup-insert x h (status_of A H self_handle x) table)
        ],
      )
      | inr (e, (h, i, n)) ↦ inr (ground (arith, v, e), (h, inr i, n))
    ]
  ]

-- The statuses of contacts are a table with the status of each of them and of no one else if they are
-- all valid, and the call aborts if one of them is not.
pub get_contact_statuses_lem :
    (A : Account) (H : Handles) (self_handle : ℕ) (contacts : List ℕ)
    → ((table : List (ℕ × TpStatus)) × (get_contact_statuses A H self_handle contacts ≡ some table)
        × All (λ h. H.is_valid h ≡ true) contacts
        × ((h : ℕ)
            → lookup h table
              ≡ (if member contacts h then some (status_of A H self_handle h) else none)))
      ⊎ ((get_contact_statuses A H self_handle contacts ≡ none)
          × ((h : ℕ) × In h contacts × (H.is_valid h ≡ false)))
unfolding get_contact_statuses
get_contact_statuses_lem A H self_handle contacts =
    unfold lookup in contacts_lem A H self_handle [] contacts
