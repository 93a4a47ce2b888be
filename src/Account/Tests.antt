-- ===== src/Account/Tests.antt =====
-- The theorem on options at the parameters of a concrete account.
use telepathy_haze.Account.{pref_int, AccountOption, int, text, Value}
use telepathy_haze.Prelude.{[], String, List, ◌∷◌}

abbrev port : AccountOption
port = record { pref_name = "port"; type = pref_int }

abbrev given : List (String × Value)
given = ("port", int 5222) ∷ ("colour", text "blue") ∷ []
