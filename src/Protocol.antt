-- ===== src/Protocol.antt =====
-- The parameters of a protocol's connections (src/protocol.c): from the names that Telepathy gives to
-- the ones of libpurple. `none` of an operation is a failed assertion.
pub mod Translation
pub mod Security
mod Tests
use telepathy_haze.Account.{lookup_param, get_boolean, remove_param, boolean, text, Value}
use telepathy_haze.Prelude.{
  str_eq, fold, false, some, Option, true, none, Bool, ◌++◌, [], List, String, if◌then◌else◌, ◌∷◌,
}

-- HazeParameterMapping, as the name in libpurple and the one in Telepathy
abbrev pub Mapping : Type 0
Mapping = List (String × String)

unfoldable pub irc_mappings : Mapping
irc_mappings = ("encoding", "charset") ∷ ("usersplit1", "server") ∷ []

unfoldable pub jabber_mappings : Mapping
jabber_mappings =
    ("connect_server", "server")
    ∷ ("require_tls", "require-encryption")
    ∷ ("connection_security", "IGNORE")
    ∷ []

-- haze_protocol_lookup_param, of a protocol that may have no mapping
unfoldable pub lookup_mapping : Mapping → String → Option String
lookup_mapping [] purple_name = none
lookup_mapping ((p, t) ∷ m) purple_name =
    if str_eq p purple_name then some t else lookup_mapping m purple_name

-- What a parameter has of a TpCMParamSpec here: its name, its setter_data, and its default.
pub record Spec : Type 0 where
  pub name : String
  pub setter_data : Option String
  pub default : Option Value

unfoldable pub insert_param : String → Value → List (String × Value) → List (String × Value)
unfolding remove_param
insert_param n v ps = (n, v) ∷ remove_param n ps

-- tp_asv_get_boolean
unfoldable pub asv_boolean : List (String × Value) → String → Bool
unfolding lookup_param
asv_boolean asv n = elim (lookup_param n asv) [ none ↦ false | some v ↦ get_boolean v ]

-- The parameters for libpurple, and those of the client that none was made of.
pub record Translated : Type 0 where
  pub purple_params : List (String × Value)
  pub unused : List (String × Value)

unfoldable pub translate_spec : List (String × Value) → Translated → Spec → Translated
unfolding lookup_param insert_param remove_param
translate_spec asv d spec = elim spec.setter_data [
  | none ↦ d
  | some prpl_param_name ↦ elim (lookup_param spec.name asv) [
    | none ↦ d
    | some v ↦ record {
      purple_params = insert_param prpl_param_name v d.purple_params;
      unused = remove_param spec.name d.unused;
    }
  ]
]

-- The value of connection_security for the two parameters that stand for it.
unfoldable pub connection_security : List (String × Value) → String
unfolding asv_boolean
connection_security asv =
    if asv_boolean asv "old-ssl"
    then "old_ssl"
    else if asv_boolean asv "require-encryption"
    then "require_tls"
    else "opportunistic_tls"

unfoldable pub special_cases : List (String × Value) → Translated → Translated
unfolding connection_security insert_param remove_param
special_cases asv d = record {
  purple_params =
      insert_param "connection_security" (text (connection_security asv)) d.purple_params;
  unused = remove_param "require-encryption" (remove_param "old-ssl" d.unused);
}

-- `jabber` is HAZE_PROTOCOL_FLAG_JABBER_CONNECTION_SECURITY.
unfoldable pub translate : Bool → List Spec → List (String × Value) → Translated
unfolding translate_spec special_cases
translate jabber specs asv =
    let d = fold (translate_spec asv) (record { purple_params = []; unused = asv }) specs in
    if jabber then special_cases asv d else d

-- Parameters that are not understood fail the assertion.
unfoldable pub translate_parameters :
    Bool → List Spec → List (String × Value) → Option (List (String × Value))
unfolding translate
translate_parameters jabber specs asv =
    let d = translate jabber specs asv in elim d.unused [ [] ↦ some d.purple_params | _ ∷ _ ↦ none ]

-- The default of the option connection_security, if the protocol has the option: the first of them.
unfoldable pub find_security : List (String × Option String) → Option (Option String)
find_security [] = none
find_security ((setting, default_list_value) ∷ opts) =
    if str_eq setting "connection_security" then some default_list_value else find_security opts

abbrev pub bool_spec : String → Option Bool → Spec
bool_spec name default = record {
  name = name;
  setter_data = none;
  default = elim default [ none ↦ none | some b ↦ some (boolean b) ];
}

-- The defaults of old-ssl and require-encryption for that of connection_security.
unfoldable pub security_defaults : Option String → Option Bool × Option Bool
security_defaults none = (none, none)
security_defaults (some cs) =
    if str_eq cs "old_ssl"
    then (some true, some true)
    else if str_eq cs "require_tls"
    then (some false, some true)
    else if str_eq cs "opportunistic_tls"
    then (some false, some false)
    else (none, none)

-- Whether the flag is set, and the specs.
unfoldable pub jabber_fixup : List (String × Option String) → List Spec → Bool × List Spec
unfolding find_security security_defaults
jabber_fixup opts specs = elim (find_security opts) [
  | none ↦ (false, specs)
  | some default_cs ↦
      let defaults = security_defaults default_cs in
      (
        true,
        specs ++ (bool_spec "old-ssl" defaults.0 ∷ bool_spec "require-encryption" defaults.1 ∷ []),
      )
]
