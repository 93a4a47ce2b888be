-- ===== src/Avatars/Tests.antt =====
-- The theorems on avatars at a concrete connection: the user is 2, and alice has the image [7].
use telepathy_haze.Telepathy.Sample.{two_contacts}
use telepathy_haze.Avatars.{
  Bytes, IsIcons, invalid_argument, avatar_updated, Icons, Error, IconSpec, Signal,
}
use telepathy_haze.Avatars.Limits.{set_avatar_lem}
use telepathy_haze.Avatars.Setting.{get_acceptable_mime_types, is_among, set_avatar, Avatars}
use telepathy_haze.Avatars.Tokens.{get_handle_token}
use telepathy_haze.Prelude.{
  ◌==◌, length, ◌≢◌, List, ◌∷◌, [], if◌then◌else◌, inr, false, refl, Option, inl, ◌≡◌, ◌⊎◌, none, ℕ,
  true, str_eq, String, some,
}

-- The state is the account's icon.
abbrev icons : Icons
icons = record {
  State = Option Bytes;
  account_icon = λ s. s;
  buddy_icon = λ s n. if str_eq n "alice" then some (7 ∷ []) else none;
  set_account_icon = λ s o. o;
  sha1 = λ b. if length b == 1 then "one" else "other";
  split = λ t. t ∷ [];
}

icons-IsIcons : IsIcons icons
icons-IsIcons = record { set_same = λ s b n. refl; set_none = λ s. refl; set_other = λ s o n. refl }

abbrev png : IconSpec
png = record {
  format = some "png";
  min_width = 1;
  min_height = 1;
  max_width = 96;
  max_height = 96;
  max_filesize = 2;
}

abbrev fresh : Avatars icons two_contacts 2 png
fresh = record { icons = none; acceptable_mime_types = none }

set_avatar_lem_example :
    (B : Avatars icons two_contacts 2 png) × (answer : String ⊎ Error) × (out : List Signal)
    × (set_avatar icons two_contacts 2 png fresh (5 ∷ []) "image/png" ≡ some (B, answer, out))
    × (((true ≡ true)
          × (answer ≡ inl "one")
          × (out ≡ avatar_updated 2 "one" ∷ [])
          × (◌≢◌ {A = Bytes} (5 ∷ []) [] → get_handle_token icons two_contacts 2 B.icons 2 ≡ "one")
          × ((h : ℕ)
              → h ≢ 2
              → get_handle_token icons two_contacts 2 B.icons h
                ≡ get_handle_token icons two_contacts 2 none h))
        ⊎ ((true ≡ false) × (answer ≡ inr invalid_argument) × (out ≡ []) × (B.icons ≡ none)))
unfolding is_among get_acceptable_mime_types
set_avatar_lem_example =
    set_avatar_lem icons icons-IsIcons two_contacts 2 png fresh ("image/png" ∷ []) (5 ∷ [])
      "image/png" refl
