-- ===== src/Capabilities/Advertised.antt =====
-- src/connection-capabilities.c: what the user advertises is what is reported of the user.
use telepathy_haze.Telepathy.{Handles}
use telepathy_haze.Prelude.Bits.{has, has-one_or, has_four_or}
use telepathy_haze.Capabilities.{Caps, streamed_media, Signal}
use telepathy_haze.Capabilities.Agreement.{reported, media_flags}
use telepathy_haze.Capabilities.Flags.{
  tp_flags_to_purple_caps, has-purple_caps_to_tp_flags, has-tp_flags_to_purple_caps,
}
use telepathy_haze.Capabilities.Reports.{caps_of, get_handle_capabilities}
use telepathy_haze.Capabilities.Updates.{advertise_capabilities, deletes_media, add_caps}
use telepathy_haze.Prelude.{
  refl, if◌then◌else◌, arith, ℕ, ◌≡◌, inl, ◌&&◌, List, str_eq, [], not, ◌∷◌, true, fold, ◌||◌, Bool,
  false, String, inr, Bool-cases, ◌≢◌,
}

-- A client asks for media with the flag.
unfoldable pub asks_for : ℕ → List (String × ℕ) → Bool
asks_for flag [] = false
asks_for flag ((channel_type, flags) ∷ pairs) =
    (str_eq channel_type streamed_media && has flags flag) || asks_for flag pairs

module _ (R : Handles) (media_caps : String → ℕ) (self_handle : ℕ) where
  abbrev pub report_of_user : Caps → ℕ
  report_of_user D =
      reported (get_handle_capabilities R media_caps self_handle D self_handle []) self_handle

  has-add_caps :
      (caps : ℕ) (p : String × ℕ)
      → (has (add_caps caps p) 1 ≡ (has caps 1 || (str_eq p.0 streamed_media && has p.1 1)))
        × (has (add_caps caps p) 4 ≡ (has caps 4 || (str_eq p.0 streamed_media && has p.1 2)))
  unfolding add_caps
  has-add_caps caps p =
      let f = has-tp_flags_to_purple_caps p.1 in
      let o = has-one_or caps (tp_flags_to_purple_caps p.1) in
      let v = has_four_or caps (tp_flags_to_purple_caps p.1) in
      elim (Bool-cases (str_eq p.0 streamed_media)) [
        | inl e ↦ (ground (arith, e, f.0, o), ground (arith, e, f.1, v))
        | inr e ↦ (ground (arith, e), ground (arith, e))
      ]

  has-fold_caps :
      (caps : ℕ) (pairs : List (String × ℕ))
      → (has (fold (add_caps) caps pairs) 1 ≡ (has caps 1 || asks_for 1 pairs))
        × (has (fold (add_caps) caps pairs) 4 ≡ (has caps 4 || asks_for 2 pairs))
  unfolding fold asks_for
  has-fold_caps caps [] = (ground arith, ground arith)
  has-fold_caps caps (p ∷ pairs) =
      let rest = has-fold_caps (add_caps caps p) pairs in
      let here = has-add_caps caps p in
      (ground (arith, rest.0, here.0), ground (arith, rest.1, here.1))

  report_flags :
      (D : Caps)
      → self_handle ≢ 0
      → (has (report_of_user D) 1 ≡ has D.ui_caps 1) × (has (report_of_user D) 2 ≡ has D.ui_caps 4)
  unfolding caps_of
  report_flags D z =
      let m = media_flags R media_caps self_handle D self_handle z in
      let f = has-purple_caps_to_tp_flags D.ui_caps in
      (ground (arith, m, f.0), ground (arith, m, f.1))

  -- After AdvertiseCapabilities on a connection that is connected, GetCapabilities reports audio of the
  -- user exactly if it did before or a client asked for audio with streamed media, and likewise video;
  -- and neither, if streamed media is among the channel types to remove.
  pub advertise-reported :
      (C : Caps) (pairs : List (String × ℕ)) (del : List String)
      → self_handle ≢ 0
      → (D : Caps) × (out : List Signal) × (advertise_capabilities R media_caps self_handle true C
            pairs del
          ≡ inl (D, out))
        × (has (report_of_user D) 1
            ≡ (not (deletes_media del) && (has (report_of_user C) 1 || asks_for 1 pairs)))
        × (has (report_of_user D) 2
            ≡ (not (deletes_media del) && (has (report_of_user C) 2 || asks_for 2 pairs)))
  unfolding advertise_capabilities
  advertise-reported C pairs del z =
      let D : Caps = record C {
        ui_caps = if deletes_media del then 0 else fold add_caps C.ui_caps pairs;
      } in
      let f = has-fold_caps C.ui_caps pairs in
      let new = report_flags D z in
      let old = report_flags C z in
      elim (Bool-cases (deletes_media del)) [
        | inl e ↦ (D, _, refl, ground (arith, e, new.0), ground (arith, e, new.1))
        | inr e ↦
            (D, _, refl, ground (arith, e, new.0, old.0, f.0), ground (arith, e, new.1, old.1, f.1))
      ]
