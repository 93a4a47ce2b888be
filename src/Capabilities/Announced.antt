-- ===== src/Capabilities/Announced.antt =====
-- src/connection-capabilities.c: the signals of changed capabilities, against what is reported then.
use telepathy_haze.Telepathy.{Handles}
use telepathy_haze.Prelude.Bits.{has, flag_four}
use telepathy_haze.Capabilities.{capabilities_changed, contact_capabilities_changed, Signal, Caps}
use telepathy_haze.Capabilities.Advertised.{report_of_user}
use telepathy_haze.Capabilities.Agreement.{media_flags, reported}
use telepathy_haze.Capabilities.Flags.{purple_caps_to_tp_flags}
use telepathy_haze.Capabilities.Reports.{get_handle_capabilities, caps_of}
use telepathy_haze.Capabilities.Updates.{
  add_caps, deletes_media, advertise_capabilities, emit_capabilities_changed, caps_changed_cb,
}
use telepathy_haze.Prelude.{
  ◌∙◌, ap, if◌then◌else◌, fold, none, ◌≡◌, ℕ, arith, true, inl, ◌∷◌, some, List, [], String, ◌≢◌,
  Option, ◌≤◌,
}

-- The new flags that CapabilitiesChanged carries.
unfoldable pub announced : List Signal → Option ℕ
announced [] = none
announced (capabilities_changed _ _ _ _ new_specific ∷ _) = some new_specific
announced (contact_capabilities_changed _ _ ∷ out) = announced out

purple_caps_to_tp_flags-bound : (caps : ℕ) → purple_caps_to_tp_flags caps ≤ 3
unfolding purple_caps_to_tp_flags
purple_caps_to_tp_flags-bound caps = ground arith

video_large : (caps : ℕ) → has caps 4 ≡ true → 4 ≤ caps
video_large caps v = ground (arith, v, flag_four caps)

module _ (R : Handles) (media_caps : String → ℕ) (self_handle : ℕ) where
  -- Where the user's video is on after AdvertiseCapabilities, and something has changed, the signal
  -- carries libpurple's flags, which are not those that GetCapabilities reports of the user then.
  pub advertise-announced :
      (C : Caps) (pairs : List (String × ℕ)) (del : List String) (r : Caps × List Signal)
      → self_handle ≢ 0
      → advertise_capabilities R media_caps self_handle true C pairs del ≡ inl r
      → has r.0.ui_caps 4 ≡ true
      → r.0.ui_caps ≢ C.ui_caps
      → (announced r.1 ≡ some r.0.ui_caps)
        × (r.0.ui_caps ≢ report_of_user R media_caps self_handle r.0)
  unfolding advertise_capabilities emit_capabilities_changed announced caps_of
  advertise-announced C pairs del r z e v c =
      let D : Caps = record C {
        ui_caps = if deletes_media del then 0 else fold add_caps C.ui_caps pairs;
      } in
      let small = purple_caps_to_tp_flags-bound r.0.ui_caps in
      let large = video_large r.0.ui_caps v in
      let m = media_flags R media_caps self_handle r.0 self_handle z in
      let same : r ≡ (
        D,
        emit_capabilities_changed R media_caps self_handle D self_handle C.ui_caps D.ui_caps,
      ) =
        cc in
      (
        ap (λ q. announced q.1) same ∙ ground (arith, ap (λ q. q.0.ui_caps) same, c),
        λ q. ground (arith, small, large, m, q),
      )

  -- When libpurple tells of a buddy's new capabilities, and the flags of Telepathy have changed, the
  -- signal carries those that GetCapabilities reports of the buddy. The buddy has a handle that is not
  -- the user's, whose name libpurple takes for the same buddy.
  pub caps_changed-announced :
      (C : Caps) (bname : String) (caps oldcaps : ℕ)
      → R.ensure bname ≢ 0
      → R.ensure bname ≢ self_handle
      → media_caps (R.inspect (R.ensure bname)) ≡ caps
      → purple_caps_to_tp_flags caps ≢ purple_caps_to_tp_flags oldcaps
      → announced (caps_changed_cb R media_caps self_handle C bname caps oldcaps)
        ≡ some (
            reported
              (get_handle_capabilities R media_caps self_handle C (R.ensure bname) [])
              (R.ensure bname))
  unfolding caps_changed_cb emit_capabilities_changed announced caps_of
  caps_changed-announced C bname caps oldcaps z s m c =
      ground (arith, media_flags R media_caps self_handle C (R.ensure bname) z)
