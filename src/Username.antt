-- ===== src/Username.antt =====
-- The name and the password of the account that a client asks for (src/protocol.c). `none` as a result
-- is a failed assertion.
pub mod Identity
mod Tests
use telepathy_haze.Account.{int, boolean, text, lookup_param, remove_param, get_string, Value}
use telepathy_haze.Prelude.{
  ℕ, [], if◌then◌else◌, Bool, suc, some, is_some, true, Option, String, ◌>>=◌, ◌∷◌, List, none,
  false,
}
use telepathy_haze.Protocol.{Spec, translate_parameters}

-- g_strdup_printf ("usersplit%d", i) and the concatenation of strings
pub record Format : Type 0 where
  pub usersplit : ℕ → String
  pub append : String → String → String

-- PurpleAccountUserSplit
pub record Split : Type 0 where
  pub separator : String
  pub default_value : String

abbrev pub removed : Bool → String → List (String × Value) → List (String × Value)
removed remove_params n ps = if remove_params then remove_param n ps else ps

-- A value of another type than a string fails an assertion.
abbrev pub value_or : String → Option Value → Option String
value_or default none = some default
value_or default (some (text t)) = some t
value_or default (some (boolean _)) = none
value_or default (some (int _)) = none

-- The loop over the user splits, from the i-th one.
unfoldable pub add_splits :
    Format
    → Bool
    → List Split
    → ℕ
    → String
    → List (String × Value)
    → Option (String × List (String × Value))
add_splits M remove_params [] i string params = some (string, params)
add_splits M remove_params (s ∷ splits) i string params =
    let param_name = M.usersplit i in
    value_or s.default_value (lookup_param param_name params) >>= λ v.
    add_splits M remove_params splits (suc i) (M.append (M.append string s.separator) v)
      (removed remove_params param_name params)

abbrev pub has_splits : List Split → List (String × Value) → Bool
has_splits [] params = false
has_splits (_ ∷ _) params = is_some (lookup_param "usersplit1" params)

-- The user name, if there is one, and the parameters that are left.
unfoldable pub get_username :
    Format
    → List Split
    → Bool
    → List (String × Value)
    → Option (Option String × List (String × Value))
unfolding add_splits
get_username M splits remove_params params =
    elim (lookup_param "account" params >>= λ v. get_string v) [
      | none ↦ some (none, params)
      | some account ↦
          (if has_splits splits params
            then add_splits M remove_params splits 1 account params
            else some (account, params))
          >>= λ r. some (some r.0, removed remove_params "account" r.1)
    ]

-- What a HazeConnection is made with.
pub record Made : Type 0 where
  pub username : String
  pub password : Option String
  pub parameters : List (String × Value)

-- The password is a string or not there.
abbrev pub without_password : Option String → List (String × Value) → List (String × Value)
without_password none ps = ps
without_password (some _) ps = remove_param "password" ps

-- haze_protocol_new_connection, up to the construction; no user name is a failed check, which is as
-- bad as an assertion, and the result has none.
unfoldable pub new_connection :
    Format → List Split → Bool → List Spec → List (String × Value) → Option (Option Made)
unfolding translate_parameters get_username
new_connection M splits jabber specs asv =
    translate_parameters jabber specs asv >>= λ purple_params.
    get_username M splits true purple_params >>= λ r. some (elim r.0 [
      | none ↦ none
      | some username ↦
          let password = lookup_param "password" r.1 >>= λ v. get_string v in
          some (record {
            username = username;
            password = password;
            parameters = without_password password r.1;
          })
    ])

unfoldable pub identify_account :
    Format → List Split → Bool → List Spec → List (String × Value) → Option (Option String)
unfolding translate_parameters get_username
identify_account M splits jabber specs asv =
    translate_parameters jabber specs asv >>= λ purple_params.
    get_username M splits false purple_params >>= λ r. some r.0
