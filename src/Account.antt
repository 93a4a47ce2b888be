-- ===== src/Account.antt =====
-- The account that a connection makes (src/connection.c: haze_connection_create_account).
pub mod Options
mod Tests
use telepathy_haze.Prelude.{
  ◌∷◌, Bool, Option, [], ℕ, none, fold, if◌then◌else◌, str_eq, some, List, String, false,
}

-- A parameter of a connection; an int32 is written as the number of its bits.
pub data Value : Type 0 where
  boolean : Bool → Value
  int : ℕ → Value
  text : String → Value

-- The types of options (PurplePrefType), and those that the code does not handle.
pub data OptionType : Type 0 where
  pref_boolean pref_int pref_string pref_string_list pref_other : OptionType

-- PurpleAccountOption
pub record AccountOption : Type 0 where
  pub pref_name : String
  pub type : OptionType

-- What an option of the account is set to; a string can be none.
pub data Setting : Type 0 where
  set_bool : Bool → Setting
  set_int : ℕ → Setting
  set_string : Option String → Setting

unfoldable pub lookup_param : String → List (String × Value) → Option Value
lookup_param n [] = none
lookup_param n ((k, v) ∷ ps) = if str_eq k n then some v else lookup_param n ps

unfoldable pub remove_param : String → List (String × Value) → List (String × Value)
remove_param n [] = []
remove_param n ((k, v) ∷ ps) = if str_eq k n then remove_param n ps else (k, v) ∷ remove_param n ps

-- tp_asv_get_boolean, _get_int32 and _get_string, for a value of another type too
abbrev pub get_boolean : Value → Bool
get_boolean (boolean b) = b
get_boolean _ = false

abbrev pub get_int : Value → ℕ
get_int (int i) = i
get_int _ = 0

abbrev pub get_string : Value → Option String
get_string (text t) = some t
get_string _ = none

abbrev pub setting_of : OptionType → Value → Option Setting
setting_of pref_boolean v = some (set_bool (get_boolean v))
setting_of pref_int v = some (set_int (get_int v))
setting_of pref_string v = some (set_string (get_string v))
setting_of pref_string_list v = some (set_string (get_string v))
setting_of pref_other v = none

-- The settings of the account, the newest first, and the parameters that are left.
pub record Params : Type 0 where
  pub settings : List (String × Setting)
  pub params : List (String × Value)

unfoldable pub set_option : Params → AccountOption → Params
unfolding lookup_param remove_param
set_option P o = elim (lookup_param o.pref_name P.params) [
  | none ↦ P
  | some v ↦ record {
    settings = elim (setting_of o.type v) [
      | none ↦ P.settings
      | some s ↦ (o.pref_name, s) ∷ P.settings
    ];
    params = remove_param o.pref_name P.params;
  }
]

-- The settings, and the parameters that are warned of; `none` if there is such an account already.
unfoldable pub create_account : Bool → List AccountOption → List (String × Value) → Option Params
unfolding set_option
create_account exists options params =
    if exists
    then none
    else some (fold set_option (record { settings = []; params = params }) options)
