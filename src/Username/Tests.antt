-- ===== src/Username/Tests.antt =====
-- The theorem on the names of accounts at an IRC account, whose user split is its server.
use Prim.Native.Char.{code}
use Prim.Native.String.{◌++◌ as str_append}
use telepathy_haze.Account.{Value, remove_param, lookup_param, text}
use telepathy_haze.Prelude.{
  ap, List, some, String, none, ◌≡◌, zero, ◌∷◌, fold, suc, [], arith, false, refl, ℕ,
}
use telepathy_haze.Protocol.{insert_param, translate_parameters, Spec}
use telepathy_haze.Username.{get_username, new_connection, Made, Split, Format, identify_account}
use telepathy_haze.Username.Identity.{new_connection-identify}

-- The names of splits, the first of them as it is printed.
split_name : ℕ → String
split_name zero = ""
split_name (suc zero) = "usersplit1"
split_name (suc (suc n)) = String.◌∷◌ "x" (split_name (suc n))

abbrev first : String → ℕ
first String.[] = 0
first (String.◌∷◌ c s) = code c

split_name-inj : (i j : ℕ) → split_name i ≡ split_name j → i ≡ j
unfolding split_name
split_name-inj zero zero e = refl
split_name-inj zero (suc zero) e = absurd cc
split_name-inj zero (suc (suc j)) e = absurd cc
split_name-inj (suc zero) zero e = absurd cc
split_name-inj (suc zero) (suc zero) e = refl
split_name-inj (suc zero) (suc (suc j)) e = absurd (ground (arith, ap first e))
split_name-inj (suc (suc i)) zero e = absurd cc
split_name-inj (suc (suc i)) (suc zero) e = absurd (ground (arith, ap first e))
split_name-inj (suc (suc i)) (suc (suc j)) e = ap suc (split_name-inj (suc i) (suc j) cc)

abbrev printed : Format
printed = record { usersplit = split_name; append = λ s t. str_append s t }

abbrev irc : List Spec
irc =
    record { name = "account"; setter_data = some "account"; default = none }
    ∷ record { name = "server"; setter_data = some "usersplit1"; default = none }
    ∷ []

abbrev asked_for : List (String × Value)
asked_for = ("account", text "nick") ∷ ("server", text "example.org") ∷ []

abbrev at_server : List Split
at_server = record { separator = "@"; default_value = "localhost" } ∷ []

abbrev made : Made
made = record { username = "nick@example.org"; password = none; parameters = [] }

new_made : new_connection printed at_server false irc asked_for ≡ some (some made)
unfolding new_connection translate_parameters fold lookup_param remove_param insert_param
    get_username split_name
new_made = refl

new_connection-identify_example :
    (identify_account printed at_server false irc asked_for ≡ some (some "nick@example.org"))
    × (lookup_param "account" [] ≡ none)
new_connection-identify_example =
    new_connection-identify printed at_server false irc asked_for made split_name-inj new_made
