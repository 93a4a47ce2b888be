-- ===== src/Capabilities/Agreement.antt =====
-- src/connection-capabilities.c: what the two interfaces report agrees, and it is what was advertised.
use telepathy_haze.Telepathy.{Handles}
use telepathy_haze.Prelude.Bits.{has}
use telepathy_haze.Capabilities.{
  Capability, Caps, streamed_media, Property, ChannelClass, initial_video,
}
use telepathy_haze.Capabilities.Reports.{
  caps_of, get_handle_contact_capabilities, get_handle_capabilities,
}
use telepathy_haze.Prelude.{
  ◌≢◌, arith, inl, inr, Bool-cases, if◌then◌else◌, some, str_eq, ◌≡◌, true, not, ◌==◌, Bool,
  is_some, List, ℕ, false, String, none, Option, [], ◌∷◌, ◌&&◌,
}
use telepathy_haze.Capabilities.Flags.{purple_caps_to_tp_flags}

-- The flags that GetCapabilities reports of a contact for streamed media.
unfoldable pub reported : List Capability → ℕ → ℕ
reported [] h = 0
reported (c ∷ cs) h =
    if (c.handle == h) && str_eq c.channel_type streamed_media then c.specific else reported cs h

-- The class of streamed media channels, of those that GetContactCapabilities reports.
unfoldable pub media_class : List ChannelClass → Option ChannelClass
media_class [] = none
media_class (c ∷ cs) = if str_eq c.fixed_type streamed_media then some c else media_class cs

unfoldable pub allows_video : List Property → Bool
allows_video [] = false
allows_video (initial_video ∷ _) = true
allows_video (_ ∷ ps) = allows_video ps

abbrev pub starts_with_video : Option ChannelClass → Bool
starts_with_video none = false
starts_with_video (some c) = allows_video c.allowed

module _ (R : Handles) (media_caps : String → ℕ) (self_handle : ℕ) where
  pub media_flags :
      (C : Caps) (h : ℕ)
      → h ≢ 0
      → reported (get_handle_capabilities R media_caps self_handle C h []) h
        ≡ purple_caps_to_tp_flags (caps_of R media_caps self_handle C h)
  unfolding get_handle_capabilities reported
  media_flags C h z =
      elim (Bool-cases (purple_caps_to_tp_flags (caps_of R media_caps self_handle C h) == 0)) [
        | inl e ↦ ground (arith, e)
        | inr e ↦ ground (arith, e)
      ]

  -- What the two D-Bus methods report of a contact agrees: the class of streamed media channels is there
  -- exactly if there are flags of streamed media, and with it a call may start with video exactly if
  -- video is among the flags.
  pub capabilities_agree :
      (C : Caps) (h : ℕ)
      → (is_some (media_class (get_handle_contact_capabilities R media_caps self_handle C h))
          ≡ not (reported (get_handle_capabilities R media_caps self_handle C h []) h == 0))
        × (starts_with_video
              (media_class (get_handle_contact_capabilities R media_caps self_handle C h))
            ≡ has (reported (get_handle_capabilities R media_caps self_handle C h []) h) 2)
  unfolding get_handle_contact_capabilities get_handle_capabilities reported media_class
      allows_video
  capabilities_agree C h =
      let flags = purple_caps_to_tp_flags (caps_of R media_caps self_handle C h) in
      elim (Bool-cases (h == 0)) [
        | inl e ↦ (ground (arith, e), ground (arith, e))
        | inr e ↦
            let f = media_flags C h (ground (arith, e)) in
            elim (Bool-cases (flags == 0)) [
              | inl g ↦ (ground (arith, e, f, g), ground (arith, e, f, g))
              | inr g ↦ elim (Bool-cases (has flags 2)) [
                | inl v ↦ (ground (arith, e, f, g, v), ground (arith, e, f, g, v))
                | inr v ↦ (ground (arith, e, f, g, v), ground (arith, e, f, g, v))
              ]
            ]
      ]
