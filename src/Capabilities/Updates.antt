-- ===== src/Capabilities/Updates.antt =====
-- src/connection-capabilities.c: how capabilities change, and the signals that tell of it.
use telepathy_haze.Telepathy.{Handles}
use telepathy_haze.Capabilities.{
  create_invite, not_connected, ClientClass, purple_video, purple_audio,
  contact_capabilities_changed, Error, Signal, Caps, capabilities_changed, streamed_media,
}
use telepathy_haze.Capabilities.Flags.{purple_caps_to_tp_flags, tp_flags_to_purple_caps}
use telepathy_haze.Capabilities.Reports.{get_handle_contact_capabilities}
use telepathy_haze.Prelude.{
  Option, String, Bool, true, str_eq, inl, zero, fold, List, [], ◌⊎◌, ◌>>=◌, suc, ℕ, some, ◌∷◌,
  false, ◌==◌, none, inr, if◌then◌else◌, length, not,
}
use telepathy_haze.Prelude.Bits.{has, bit_or}
use telepathy_haze.Prelude.Names.{put, drop}

-- Flags of the classes that a client handles (CAPS_FLAGS_AUDIO and CAPS_FLAGS_VIDEO are 1 and 2).
unfoldable pub class_flags : ℕ → ClientClass → ℕ
class_flags flags class = elim class.client_type [
  | none ↦ flags
  | some t ↦
      let with_audio = if class.handles_audio then bit_or flags 1 else flags in
      if not (str_eq t streamed_media)
      then flags
      else if class.handles_video
      then bit_or with_audio 2
      else with_audio
]

-- The item at an index; `none` is an access out of bounds.
unfoldable pub get_elem? : {A : Type 0} → List A → ℕ → Option A
get_elem? [] i = none
get_elem? (x ∷ xs) zero = some x
get_elem? (x ∷ xs) (suc i) = get_elem? xs i

-- The loop over the classes of the client at index i: it reads the class at i each time.
unfoldable pub client_flags : ℕ → List ClientClass → ℕ → ℕ → Option ℕ
unfolding class_flags get_elem?
client_flags i rccs zero flags = some flags
client_flags i rccs (suc left) flags =
    get_elem? rccs i >>= λ class. client_flags i rccs left (class_flags flags class)

unfoldable pub update_clients :
    ℕ → List (String × ℕ) → List (String × List ClientClass) → Option (List (String × ℕ))
unfolding client_flags
update_clients i client_caps [] = some client_caps
update_clients i client_caps ((client_name, rccs) ∷ clients) =
    client_flags i rccs (length rccs) 0 >>= λ flags.
    let removed = drop client_name client_caps in
    update_clients (suc i) (if flags == 0 then removed else put client_name flags removed) clients

-- The loop over the table of the clients.
unfoldable pub add_client_caps : ℕ → (String × ℕ) → ℕ
add_client_caps caps (_, flags) =
    let with_audio = if has flags 1 then bit_or caps purple_audio else caps in
    if has flags 2 then bit_or with_audio purple_video else with_audio

-- The pairs to add, of a channel type and flags, and the channel types to remove.
unfoldable pub add_caps : ℕ → (String × ℕ) → ℕ
add_caps caps (channel_type, flags) =
    if str_eq channel_type streamed_media then bit_or caps (tp_flags_to_purple_caps flags) else caps

unfoldable pub deletes_media : List String → Bool
deletes_media [] = false
deletes_media (t ∷ ts) = if str_eq t streamed_media then true else deletes_media ts

module _ (R : Handles) (media_caps : String → ℕ) (self_handle : ℕ) where
  unfoldable pub emit_capabilities_changed : Caps → ℕ → ℕ → ℕ → List Signal
  emit_capabilities_changed C handle old_specific new_specific =
      let old_generic = if old_specific == 0 then 0 else create_invite in
      let new_generic = if new_specific == 0 then 0 else create_invite in
      if old_specific == new_specific
      then []
      else (capabilities_changed handle old_generic new_generic old_specific new_specific
          ∷ contact_capabilities_changed handle
              (get_handle_contact_capabilities R media_caps self_handle C handle)
          ∷ [])

  unfoldable pub advertise_capabilities :
      Bool → Caps → List (String × ℕ) → List String → (Caps × List Signal) ⊎ Error
  unfolding emit_capabilities_changed add_caps deletes_media
  advertise_capabilities is_connected C pairs del =
      let added = fold add_caps C.ui_caps pairs in
      let caps = if deletes_media del then 0 else added in
      let D : Caps = record C { ui_caps = caps } in
      if not is_connected
      then inr not_connected
      else inl (D, emit_capabilities_changed D self_handle C.ui_caps caps)

  -- `none` is an access out of bounds.
  unfoldable pub update_capabilities :
      Bool → Caps → List (String × List ClientClass) → Option ((Caps × List Signal) ⊎ Error)
  unfolding emit_capabilities_changed update_clients add_client_caps
  update_capabilities is_connected C clients =
      let updated = update_clients 0 C.client_caps clients >>= λ client_caps.
      let caps = fold add_client_caps 0 client_caps in
      let D : Caps = record { ui_caps = caps; client_caps = client_caps } in
      some (inl (D, emit_capabilities_changed D self_handle C.ui_caps caps)) in
      if is_connected then updated else some (inr not_connected)

  -- libpurple tells of a buddy's capabilities, those before and those after.
  unfoldable pub caps_changed_cb : Caps → String → ℕ → ℕ → List Signal
  unfolding emit_capabilities_changed
  caps_changed_cb C bname caps oldcaps =
      emit_capabilities_changed C (R.ensure bname) (purple_caps_to_tp_flags oldcaps)
        (purple_caps_to_tp_flags caps)
