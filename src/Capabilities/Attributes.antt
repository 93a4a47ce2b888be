-- ===== src/Capabilities/Attributes.antt =====
-- src/connection-capabilities.c: the capabilities among the attributes of contacts.
use telepathy_haze.Telepathy.{Handles}
use telepathy_haze.Capabilities.{Capability, Caps}
use telepathy_haze.Capabilities.Flags.{purple_caps_to_tp_flags}
use telepathy_haze.Capabilities.Reports.{caps_of, get_handle_capabilities, fill_contact_attributes}
use telepathy_haze.Prelude.{
  ap, refl, none, List, ◌==◌, [], inl, ◌&&◌, some, Option, arith, ℕ, Bool-cases, String, ◌⊎◌, ◌≡◌,
  inr, not, ◌≢◌, ◌∷◌, if◌then◌else◌,
}
use telepathy_haze.Prelude.Sets.{member}
use telepathy_haze.Prelude.Table.{insert, lookup-insert, lookup}

module _ (R : Handles) (media_caps : String → ℕ) (self_handle : ℕ) where
  -- A contact has capabilities.
  some_capabilities :
      (C : Caps) (h : ℕ) → h ≢ 0 → get_handle_capabilities R media_caps self_handle C h [] ≢ []
  unfolding get_handle_capabilities
  some_capabilities C h z e =
      elim (Bool-cases (purple_caps_to_tp_flags (caps_of R media_caps self_handle C h) == 0)) [
        | inl f ↦ ground (arith, e, f)
        | inr f ↦ ground (arith, e, f)
      ]

  -- One contact: 0 has an empty array kept, the others have theirs put among the attributes.
  step_attributes :
      (C : Caps) (arr : Option (List Capability)) (attributes : List (ℕ × List Capability)) (k : ℕ)
      (contacts : List ℕ)
      → (arr ≡ none) ⊎ (arr ≡ some [])
      → fill_contact_attributes R media_caps self_handle C arr attributes (k ∷ contacts) ≡ (
          if k == 0
          then fill_contact_attributes R media_caps self_handle C (some []) attributes contacts
          else fill_contact_attributes R media_caps self_handle C none
              (insert k (get_handle_capabilities R media_caps self_handle C k []) attributes)
              contacts)
  unfolding fill_contact_attributes
  step_attributes C arr attributes k contacts a =
      let flags = purple_caps_to_tp_flags (caps_of R media_caps self_handle C k) in
      elim (Bool-cases (flags == 0)) [
        | inl f ↦ elim a [ inl e ↦ ground (arith, e, f) | inr e ↦ ground (arith, e, f) ]
        | inr f ↦ elim a [ inl e ↦ ground (arith, e, f) | inr e ↦ ground (arith, e, f) ]
      ]

  -- The attributes that are filled give each of the contacts the capabilities
  -- that GetCapabilities reports of it; 0 and the handles that are not among the contacts are left as they were.
  pub fill_contact_attributes_lem :
      (C : Caps) (arr : Option (List Capability)) (attributes : List (ℕ × List Capability))
      (contacts : List ℕ) (h : ℕ)
      → (arr ≡ none) ⊎ (arr ≡ some [])
      → lookup h (fill_contact_attributes R media_caps self_handle C arr attributes contacts) ≡ (
          if member contacts h && not (h == 0)
          then some (get_handle_capabilities R media_caps self_handle C h [])
          else lookup h attributes)
  unfolding member
  fill_contact_attributes_lem C arr attributes [] h a =
      unfold fill_contact_attributes in ground arith
  fill_contact_attributes_lem C arr attributes (k ∷ contacts) h a =
      let step = step_attributes C arr attributes k contacts a in
      let kept = fill_contact_attributes_lem C (some []) attributes contacts h (inr refl) in
      let next = insert k (get_handle_capabilities R media_caps self_handle C k []) attributes in
      let rest = fill_contact_attributes_lem C none next contacts h (inl refl) in
      let found =
        lookup-insert k h (get_handle_capabilities R media_caps self_handle C k []) attributes in
      elim (Bool-cases (k == 0)) [
        | inl e ↦ ground (arith, e, step, kept)
        | inr e ↦ ground (
          arith,
          e,
          step,
          rest,
          found,
          ap (λ j. get_handle_capabilities R media_caps self_handle C j []) {x = k} {y = h},
        )
      ]
