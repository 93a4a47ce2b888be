-- ===== src/Capabilities/Tests.antt =====
-- The theorems on capabilities at a concrete connection: the user is 9, alice can do audio and video.
use telepathy_haze.Telepathy.Sample.{two_contacts}
use telepathy_haze.Capabilities.{
  contact_capabilities_changed, Signal, initial_audio, capabilities_changed, text_channel,
  target_handle, Caps, initial_video, ClientClass, streamed_media,
}
use telepathy_haze.Capabilities.Advertised.{report_of_user, advertise-reported, asks_for}
use telepathy_haze.Capabilities.Agreement.{
  media_class, reported, capabilities_agree, starts_with_video,
}
use telepathy_haze.Capabilities.Announced.{advertise-announced, announced}
use telepathy_haze.Capabilities.Clients.{update_capabilities_lem, IsUpdateOf, in_bounds}
use telepathy_haze.Capabilities.Flags.{tp_flags_to_purple_caps, purple_caps_to_tp_flags}
use telepathy_haze.Capabilities.Reports.{
  get_handle_capabilities, caps_of, get_handle_contact_capabilities,
}
use telepathy_haze.Capabilities.Updates.{advertise_capabilities, deletes_media, update_capabilities}
use telepathy_haze.Prelude.{
  fold, refl, ◌∷◌, ℕ, ◌==◌, ◌≡◌, not, if◌then◌else◌, String, List, false, is_some, [], str_eq, true,
  some, arith, ◌≢◌, inl,
}
use telepathy_haze.Prelude.Bits.{has}

abbrev media_caps : String → ℕ
media_caps n = if str_eq n "alice" then 5 else 0

abbrev audio_only : Caps
audio_only = record { ui_caps = 1; client_caps = ("phone", 1) ∷ [] }

abbrev video_class : ClientClass
video_class = record {
  client_type = some streamed_media;
  handles_audio = false;
  handles_video = true;
}

nine_ne_zero : ◌≢◌ {A = ℕ} 9 0
nine_ne_zero e = omega arith

capabilities_agree_example :
    (is_some (media_class (get_handle_contact_capabilities two_contacts media_caps 9 audio_only 1))
      ≡ not (reported (get_handle_capabilities two_contacts media_caps 9 audio_only 1 []) 1 == 0))
    × (starts_with_video
          (media_class (get_handle_contact_capabilities two_contacts media_caps 9 audio_only 1))
        ≡ has (reported (get_handle_capabilities two_contacts media_caps 9 audio_only 1 []) 1) 2)
capabilities_agree_example = capabilities_agree two_contacts media_caps 9 audio_only 1

advertise-reported_example :
    (D : Caps) × (out : List Signal) × (advertise_capabilities two_contacts media_caps 9 true
        audio_only
        ((streamed_media, 2) ∷ [])
        []
      ≡ inl (D, out))
    × (has (report_of_user two_contacts media_caps 9 D) 1 ≡ true)
    × (has (report_of_user two_contacts media_caps 9 D) 2 ≡ true)
unfolding deletes_media get_handle_capabilities reported asks_for caps_of purple_caps_to_tp_flags
advertise-reported_example =
    advertise-reported two_contacts media_caps 9 audio_only ((streamed_media, 2) ∷ []) []
      nine_ne_zero

update_capabilities_lem_example :
    (is_some (
        update_capabilities two_contacts media_caps 9 true audio_only
          (("cam", video_class ∷ []) ∷ []))
      ≡ true)
    × ((r : Caps × List Signal)
        → update_capabilities two_contacts media_caps 9 true audio_only
            (("cam", video_class ∷ []) ∷ [])
          ≡ some (inl r)
        → IsUpdateOf two_contacts media_caps 9 audio_only (("cam", video_class ∷ []) ∷ []) r)
unfolding in_bounds
update_capabilities_lem_example =
    update_capabilities_lem two_contacts media_caps 9 audio_only (("cam", video_class ∷ []) ∷ [])

abbrev with_video : Caps × List Signal
with_video = (
  record { ui_caps = 5; client_caps = ("phone", 1) ∷ [] },
  capabilities_changed 9 3 3 1 5
      ∷ contact_capabilities_changed 9 (
          record { fixed_type = streamed_media; allowed = initial_audio ∷ initial_video ∷ [] }
          ∷ record { fixed_type = text_channel; allowed = target_handle ∷ [] }
          ∷ [])
      ∷ [],
)

advertise-announced_example :
    (announced with_video.1 ≡ some 5)
    × (◌≢◌ {A = ℕ} 5 (report_of_user two_contacts media_caps 9 with_video.0))
unfolding advertise_capabilities deletes_media fold tp_flags_to_purple_caps
    get_handle_contact_capabilities purple_caps_to_tp_flags
advertise-announced_example =
    advertise-announced two_contacts media_caps 9 audio_only ((streamed_media, 2) ∷ []) []
      with_video nine_ne_zero refl refl (λ e. omega arith)
