-- ===== src/Capabilities/Reports.antt =====
-- src/connection-capabilities.c: what is reported of the capabilities of contacts.
use telepathy_haze.Telepathy.{Handles}
use telepathy_haze.Capabilities.{
  not_connected, ChannelClass, invalid_handle, tp_video, target_handle, initial_audio, Error,
  text_channel, create_invite, Capability, Caps, initial_video, streamed_media,
}
use telepathy_haze.Capabilities.Flags.{purple_caps_to_tp_flags}
use telepathy_haze.Prelude.{
  List, not, map, ◌&&◌, Option, ◌∷◌, ◌==◌, ◌++◌, false, ◌⊎◌, [], ℕ, Bool, inl, String, none, some,
  true, inr, ◌||◌, if◌then◌else◌,
}
use telepathy_haze.Prelude.Bits.{has}
use telepathy_haze.Prelude.Table.{insert}

abbrev assumed_caps : List String
assumed_caps = text_channel ∷ []

-- purple_prpl_get_media_caps of the account.
module _ (R : Handles) (media_caps : String → ℕ) (self_handle : ℕ) where
  unfoldable pub caps_of : Caps → ℕ → ℕ
  caps_of C handle = if handle == self_handle then C.ui_caps else media_caps (R.inspect handle)

  unfoldable pub get_handle_capabilities : Caps → ℕ → List Capability → List Capability
  unfolding caps_of
  get_handle_capabilities C handle arr =
      let typeflags = purple_caps_to_tp_flags (caps_of C handle) in
      let media : Capability = record {
        handle = handle;
        channel_type = streamed_media;
        generic = create_invite;
        specific = typeflags;
      } in
      let assumed =
        map
          (λ t. record { handle = handle; channel_type = t; generic = create_invite; specific = 0 })
          assumed_caps in
      if handle == 0 then arr else (if typeflags == 0 then arr else arr ++ (media ∷ [])) ++ assumed

  unfoldable pub get_handle_contact_capabilities : Caps → ℕ → List ChannelClass
  unfolding caps_of
  get_handle_contact_capabilities C handle =
      let typeflags = purple_caps_to_tp_flags (caps_of C handle) in
      let media : ChannelClass = record {
        fixed_type = streamed_media;
        allowed =
            if has typeflags tp_video
            then initial_audio ∷ initial_video ∷ []
            else initial_audio ∷ [];
      } in
      let text : ChannelClass = record {
        fixed_type = text_channel;
        allowed = target_handle ∷ [];
      } in
      if handle == 0 then [] else (if typeflags == 0 then [] else media ∷ []) ++ (text ∷ [])

  -- tp_handles_are_valid; the flag lets 0 pass.
  unfoldable pub handles_are_valid : Bool → List ℕ → Bool
  handles_are_valid allow_zero [] = true
  handles_are_valid allow_zero (h ∷ hs) =
      (R.is_valid h || (allow_zero && (h == 0))) && handles_are_valid allow_zero hs

  -- The loop of get_capabilities.
  unfoldable pub add_capabilities : Caps → List Capability → List ℕ → List Capability
  unfolding get_handle_capabilities
  add_capabilities C ret [] = ret
  add_capabilities C ret (h ∷ hs) = add_capabilities C (get_handle_capabilities C h ret) hs

  unfoldable pub get_capabilities : Bool → Caps → List ℕ → List Capability ⊎ Error
  unfolding handles_are_valid add_capabilities
  get_capabilities is_connected C handles =
      if not is_connected
      then inr not_connected
      else if not (handles_are_valid true handles)
      then inr invalid_handle
      else inl (add_capabilities C [] handles)

  unfoldable pub insert_contact_capabilities :
      Caps → List (ℕ × List ChannelClass) → List ℕ → List (ℕ × List ChannelClass)
  unfolding get_handle_contact_capabilities
  insert_contact_capabilities C ret [] = ret
  insert_contact_capabilities C ret (h ∷ hs) =
      insert_contact_capabilities C (insert h (get_handle_contact_capabilities C h) ret) hs

  unfoldable pub get_contact_capabilities :
      Bool → Caps → List ℕ → List (ℕ × List ChannelClass) ⊎ Error
  unfolding handles_are_valid insert_contact_capabilities
  get_contact_capabilities is_connected C handles =
      if not is_connected
      then inr not_connected
      else if not (handles_are_valid false handles)
      then inr invalid_handle
      else inl (insert_contact_capabilities C [] handles)

  -- The attributes of contacts (conn_capabilities_fill_contact_attributes): an array that a contact
  -- has put nothing in is used for the next one.
  unfoldable pub fill_contact_attributes :
      Caps
      → Option (List Capability)
      → List (ℕ × List Capability)
      → List ℕ
      → List (ℕ × List Capability)
  unfolding get_handle_capabilities
  fill_contact_attributes C arr attributes [] = attributes
  fill_contact_attributes C arr attributes (h ∷ hs) =
      let old : List Capability = elim arr [ none ↦ [] | some a ↦ a ] in
      let new = get_handle_capabilities C h old in
      let empty_rest = fill_contact_attributes C (some []) attributes hs in
      let rest = fill_contact_attributes C none (insert h new attributes) hs in
      elim new [ [] ↦ empty_rest | _ ∷ _ ↦ rest ]

  unfoldable pub fill_contact_caps :
      Caps → List (ℕ × List ChannelClass) → List ℕ → List (ℕ × List ChannelClass)
  unfolding get_handle_contact_capabilities
  fill_contact_caps C attributes [] = attributes
  fill_contact_caps C attributes (h ∷ hs) =
      let new = get_handle_contact_capabilities C h in
      let kept = fill_contact_caps C attributes hs in
      let rest = fill_contact_caps C (insert h new attributes) hs in
      elim new [ [] ↦ kept | _ ∷ _ ↦ rest ]
