-- ===== src/Protocol/Tests.antt =====
-- The theorems on parameters at a concrete account: IRC's encoding has the name charset in Telepathy.
use telepathy_haze.Account.{lookup_param, text, remove_param, Value, boolean}
use telepathy_haze.Prelude.{true, false, [], none, some, fold, List, ◌∷◌, refl, ◌≡◌, inl, String}
use telepathy_haze.Protocol.{insert_param, Spec, translate_parameters}
use telepathy_haze.Protocol.Translation.{translate-get, sets}

abbrev charset : Spec
charset = record { name = "charset"; setter_data = some "encoding"; default = none }

abbrev asked_for : List (String × Value)
asked_for = ("charset", text "UTF-8") ∷ []

translated :
    translate_parameters false (charset ∷ []) asked_for ≡ some (("encoding", text "UTF-8") ∷ [])
unfolding translate_parameters lookup_param insert_param remove_param fold
translated = refl

translate-get_example :
    lookup_param "encoding" (("encoding", text "UTF-8") ∷ []) ≡ some (text "UTF-8")
unfolding lookup_param sets
translate-get_example =
    translate-get false (charset ∷ []) asked_for (("encoding", text "UTF-8") ∷ []) "encoding"
      "charset" (text "UTF-8") translated refl refl ((λ _. refl), tt) (inl refl)

-- A client of an XMPP account that leaves the defaults for require_tls.
abbrev defaults : List (String × Value)
defaults = ("old-ssl", boolean false) ∷ ("require-encryption", boolean true) ∷ []
