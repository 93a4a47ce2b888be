-- ===== src/Parameters.antt =====
-- The parameters that a protocol offers to clients (src/protocol.c: haze_protocol_get_parameters).
pub mod Offered
mod Tests
use telepathy_haze.Account.{
  text, boolean, OptionType, pref_string, int, pref_string_list, pref_boolean, pref_int, pref_other,
  Value,
}
use telepathy_haze.Prelude.{
  Bool, ◌++◌, suc, ◌∷◌, true, List, map, ◌||◌, if◌then◌else◌, zero, is_some, str_eq, String, false,
  not, none, ℕ, ◌&&◌, [], some, Option,
}
use telepathy_haze.Protocol.{Mapping, jabber_fixup, lookup_mapping, Spec}

-- PurpleAccountOption with its default, of which the one of its type counts
pub record ProtocolOption : Type 0 where
  pub pref_name : String
  pub pref_type : OptionType
  pub default_bool : Bool
  pub default_int : ℕ
  pub default_string : Option String
  pub default_list_value : Option String

-- HazeProtocolPrivate: the protocol's id, the mapping of its names, whether it has jabber_fixup, how many
-- user splits it has, whether it takes no password, and its options.
pub record Protocol : Type 0 where
  pub prpl_id : String
  pub parameter_map : Mapping
  pub has_fixup : Bool
  pub user_splits : ℕ
  pub no_password : Bool
  pub protocol_options : List ProtocolOption

-- The names of splits, and a name without "facebook_" in front and with "-" for "_", as GLib's string
-- functions give them.
pub record Texts : Type 0 where
  pub usersplit : ℕ → String
  pub tidy : String → String

abbrev pub unless_empty : Option String → Option Value
unless_empty none = none
unless_empty (some t) = if str_eq t "" then none else some (text t)

-- Bonjour's names have no default.
abbrev pub is_bonjour_name : Protocol → String → Bool
is_bonjour_name P name =
    str_eq P.prpl_id "prpl-bonjour" && (str_eq name "first-name" || str_eq name "last-name")

abbrev pub default_of : Protocol → String → ProtocolOption → Option Value
default_of P name o = elim o.pref_type [
  | pref_boolean ↦ some (boolean o.default_bool)
  | pref_int ↦ some (int o.default_int)
  | pref_string ↦ if is_bonjour_name P name then none else unless_empty o.default_string
  | pref_string_list ↦ unless_empty o.default_list_value
  | pref_other ↦ none
]

abbrev pub is_handled : OptionType → Bool
is_handled pref_other = false
is_handled _ = true

abbrev pub is_ignored : Option String → Bool
is_ignored none = false
is_ignored (some t) = str_eq t "IGNORE"

-- The spec of an option, if it has one.
unfoldable pub translate_protocol_option : Texts → Protocol → ProtocolOption → Option Spec
unfolding lookup_mapping
translate_protocol_option T P o =
    let m = lookup_mapping P.parameter_map o.pref_name in
    let name = T.tidy (elim m [ none ↦ o.pref_name | some t ↦ t ]) in
    if is_ignored m || not (is_handled o.pref_type)
    then none
    else some
        (record { name = name; setter_data = some o.pref_name; default = default_of P name o })

unfoldable pub option_specs : Texts → Protocol → List ProtocolOption → List Spec
unfolding translate_protocol_option
option_specs T P [] = []
option_specs T P (o ∷ os) = elim (translate_protocol_option T P o) [
  | none ↦ option_specs T P os
  | some s ↦ s ∷ option_specs T P os
]

-- The specs of `count` splits from the i-th one; their default is no string.
unfoldable pub usersplit_specs : Texts → Mapping → ℕ → ℕ → List Spec
unfolding lookup_mapping
usersplit_specs T m i zero = []
usersplit_specs T m i (suc count) =
    let usersplit = T.usersplit i in
    record {
      name = elim (lookup_mapping m usersplit) [ none ↦ usersplit | some t ↦ t ];
      setter_data = some usersplit;
      default = none;
    }
    ∷ usersplit_specs T m (suc i) count

abbrev pub own_spec : String → Spec
own_spec name = record { name = name; setter_data = some name; default = none }

abbrev pub setting_of_option : ProtocolOption → String × Option String
setting_of_option o = (o.pref_name, o.default_list_value)

-- The specs before the fixup.
unfoldable pub base_specs : Texts → Protocol → List Spec
unfolding option_specs usersplit_specs
base_specs T P =
    let m = P.parameter_map in
    let splits =
      if is_some (lookup_mapping m "usersplit1") then usersplit_specs T m 1 P.user_splits else [] in
    let password = if P.no_password then [] else own_spec "password" ∷ [] in
    own_spec "account" ∷ (splits ++ (password ++ option_specs T P P.protocol_options))

-- The flag for connection_security, and the specs.
unfoldable pub get_parameters : Texts → Protocol → Bool × List Spec
unfolding base_specs jabber_fixup
get_parameters T P =
    if P.has_fixup
    then jabber_fixup (map setting_of_option P.protocol_options) (base_specs T P)
    else (false, base_specs T P)
