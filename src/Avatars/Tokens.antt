-- ===== src/Avatars/Tokens.antt =====
-- src/connection-avatars.c: the avatars of contacts, and their tokens.
use telepathy_haze.Telepathy.{Handles}
use telepathy_haze.Avatars.{
  Icons, Bytes, not_available, Error, invalid_handle, avatar_retrieved, avatar_updated, Signal,
  not_connected,
}
use telepathy_haze.Prelude.{
  ap, ==_iff, Option-cases, map, not, inl, ◌&&◌, if◌then◌else◌, [], true, arith, List, ◌≡◌, Option,
  ◌==◌, is_some, Bool, false, ◌⊎◌, ℕ, String, inr, Bool-cases, ◌∷◌, some, none,
}
use telepathy_haze.Prelude.Sets.{member}
use telepathy_haze.Prelude.Table.{lookup-insert, insert, lookup}

module _ (I : Icons) (R : Handles) (self_handle : ℕ) where
  unfoldable pub get_avatar : I.State → ℕ → Option Bytes
  get_avatar s handle =
      if handle == self_handle then I.account_icon s else I.buddy_icon s (R.inspect handle)

  unfoldable pub get_handle_token : I.State → ℕ → String
  unfolding get_avatar
  get_handle_token s handle = elim (get_avatar s handle) [ none ↦ "" | some b ↦ I.sha1 b ]

  unfoldable pub get_avatar_tokens : Bool → I.State → List ℕ → List String ⊎ Error
  unfolding get_handle_token
  get_avatar_tokens is_connected s contacts =
      if is_connected then inl (map (get_handle_token s) contacts) else inr not_connected

  -- The loop of get_known_avatar_tokens: no token of the user is inserted if there is no avatar.
  unfoldable pub insert_tokens : I.State → List (ℕ × String) → List ℕ → List (ℕ × String)
  unfolding get_avatar get_handle_token
  insert_tokens s tokens [] = tokens
  insert_tokens s tokens (handle ∷ contacts) =
      let own : Option String = elim (get_avatar s handle) [
        | none ↦ none
        | some b ↦ some (I.sha1 b)
      ] in
      let token = if handle == self_handle then own else some (get_handle_token s handle) in
      let kept = insert_tokens s tokens contacts in
      elim token [ none ↦ kept | some t ↦ insert_tokens s (insert handle t tokens) contacts ]

  unfoldable pub are_valid : List ℕ → Bool
  are_valid [] = true
  are_valid (h ∷ hs) = if R.is_valid h then are_valid hs else false

  unfoldable pub get_known_avatar_tokens : I.State → List ℕ → List (ℕ × String) ⊎ Error
  unfolding insert_tokens are_valid
  get_known_avatar_tokens s contacts =
      if are_valid contacts then inl (insert_tokens s [] contacts) else inr invalid_handle

  -- The type of the image is always given as "".
  unfoldable pub request_avatar : Bool → I.State → ℕ → (Bytes × String) ⊎ Error
  unfolding get_avatar
  request_avatar is_connected s contact =
      let avatar : (Bytes × String) ⊎ Error = elim (get_avatar s contact) [
        | none ↦ inr not_available
        | some b ↦ inl (b, "")
      ] in
      if is_connected then avatar else inr not_connected

  unfoldable pub retrieve : I.State → List ℕ → List Signal
  unfolding get_avatar
  retrieve s [] = []
  retrieve s (handle ∷ contacts) =
      let rest = retrieve s contacts in
      elim (get_avatar s handle) [
        | none ↦ rest
        | some b ↦ avatar_retrieved handle (I.sha1 b) b ∷ rest
      ]

  unfoldable pub request_avatars : Bool → I.State → List ℕ → List Signal ⊎ Error
  unfolding retrieve
  request_avatars is_connected s contacts =
      if is_connected then inl (retrieve s contacts) else inr not_connected

  unfoldable pub buddy_icon_changed_cb : I.State → String → Signal
  unfolding get_handle_token
  buddy_icon_changed_cb s bname =
      let contact = R.ensure bname in avatar_updated contact (get_handle_token s contact)

  -- The attributes of contacts.
  unfoldable pub fill_contact_attributes : I.State → List (ℕ × String) → List ℕ → List (ℕ × String)
  unfolding get_handle_token
  fill_contact_attributes s attributes [] = attributes
  fill_contact_attributes s attributes (handle ∷ contacts) =
      fill_contact_attributes s (insert handle (get_handle_token s handle) attributes) contacts

  -- One contact: the user without avatar is passed over.
  insert_tokens_step :
      (s : I.State) (tokens : List (ℕ × String)) (k : ℕ) (contacts : List ℕ)
      → insert_tokens s tokens (k ∷ contacts) ≡ (
          if (k == self_handle) && not (is_some (get_avatar s k))
          then insert_tokens s tokens contacts
          else insert_tokens s (insert k (get_handle_token s k) tokens) contacts)
  unfolding insert_tokens
  insert_tokens_step s tokens k contacts = elim (Bool-cases (k == self_handle)) [
    | inr n ↦ ground (arith, n)
    | inl i ↦ elim (Option-cases (I.account_icon s)) [
      | inl e ↦ ground (arith, i, e)
      | inr (b, e) ↦ ground (arith, i, e)
    ]
  ]

  lookup-insert_tokens :
      (s : I.State) (tokens : List (ℕ × String)) (contacts : List ℕ) (h : ℕ)
      → lookup h (insert_tokens s tokens contacts) ≡ (
          if not (member contacts h)
          then lookup h tokens
          else if (h == self_handle) && not (is_some (get_avatar s h))
          then lookup h tokens
          else some (get_handle_token s h))
  unfolding member
  lookup-insert_tokens s tokens [] h = unfold insert_tokens in ground arith
  lookup-insert_tokens s tokens (k ∷ contacts) h =
      let kept = lookup-insert_tokens s tokens contacts h in
      let next = insert k (get_handle_token s k) tokens in
      let rest = lookup-insert_tokens s next contacts h in
      let found = lookup-insert k h (get_handle_token s k) tokens in
      let here = insert_tokens_step s tokens k contacts in
      elim (Bool-cases (k == h)) [
        | inl i ↦ ground (
          arith,
          i,
          here,
          kept,
          rest,
          found,
          ap (get_handle_token s) ((==_iff k h).0 i),
          ap (get_avatar s) ((==_iff k h).0 i),
        )
        | inr n ↦ ground (arith, n, here, kept, rest, found)
      ]

  -- GetKnownAvatarTokens gives each contact of the call the token that RequestAvatars would send its
  -- avatar with, or "" if it has none; the user without avatar is left out, and so is who was not asked
  -- for. It refuses a handle that is not valid.
  pub get_known_avatar_tokens_lem :
      (s : I.State) (contacts : List ℕ)
      → (get_known_avatar_tokens s contacts ≡ inr invalid_handle)
        ⊎ ((tokens : List (ℕ × String)) × (get_known_avatar_tokens s contacts ≡ inl tokens)
            × ((h : ℕ)
                → lookup h tokens ≡ (
                    if not (member contacts h)
                    then none
                    else if (h == self_handle) && not (is_some (get_avatar s h))
                    then none
                    else some (get_handle_token s h))))
  unfolding get_known_avatar_tokens lookup
  get_known_avatar_tokens_lem s contacts = elim (Bool-cases (are_valid contacts)) [
    | inl v ↦ inr (
      insert_tokens s [] contacts,
      ground (arith, v),
      λ h. ground (arith, lookup-insert_tokens s [] contacts h),
    )
    | inr v ↦ inl (ground (arith, v))
  ]
