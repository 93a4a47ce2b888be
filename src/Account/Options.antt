-- ===== src/Account/Options.antt =====
-- src/connection.c: set_option, for all options of a protocol.
use telepathy_haze.Account.{
  Params, create_account, set_option, remove_param, Value, AccountOption, lookup_param,
}
use telepathy_haze.Prelude.{
  false, Bool, inl, str_eq, arith, ◌⊎◌, List, none, true, eq_iff, fold, String, inr, ◌≡◌, ◌∷◌, some,
  refl, if◌then◌else◌, Option-cases, [],
}

unfoldable pub is_option : String → List AccountOption → Bool
is_option n [] = false
is_option n (o ∷ os) = if str_eq o.pref_name n then true else is_option n os

pub lookup-remove :
    (n m : String) (ps : List (String × Value))
    → lookup_param m (remove_param n ps) ≡ (if str_eq n m then none else lookup_param m ps)
unfolding lookup_param remove_param
lookup-remove n m [] = ground arith
lookup-remove n m ((k, v) ∷ ps) =
    ground (arith, lookup-remove n m ps, eq_iff k n, eq_iff k m, eq_iff n m)

set_option-left :
    (P : Params) (o : AccountOption) (n : String)
    → lookup_param n (set_option P o).params
      ≡ (if str_eq o.pref_name n then none else lookup_param n P.params)
unfolding set_option
set_option-left P o n = elim (Option-cases (lookup_param o.pref_name P.params)) [
  | inl e ↦ ground (arith, e, eq_iff o.pref_name n)
  | inr (v, e) ↦ ground (arith, e, lookup-remove o.pref_name n P.params)
]

left_lem :
    (P : Params) (options : List AccountOption) (n : String)
    → lookup_param n (fold set_option P options).params
      ≡ (if is_option n options then none else lookup_param n P.params)
unfolding fold is_option
left_lem P [] n = refl
left_lem P (o ∷ os) n = ground (arith, left_lem (set_option P o) os n, set_option-left P o n)

-- If there is no such account yet, the parameters that are left, and warned of, are those whose names
-- are of no option of the protocol, with their values; if there is one, the account is not made.
pub create_account-left :
    (exists : Bool) (options : List AccountOption) (params : List (String × Value))
    → ((exists ≡ true) × (create_account exists options params ≡ none))
      ⊎ ((P : Params) × (create_account exists options params ≡ some P)
          × ((n : String)
              → lookup_param n P.params
                ≡ (if is_option n options then none else lookup_param n params)))
unfolding create_account
create_account-left true options params = inl (refl, refl)
create_account-left false options params = inr (
  fold set_option (record { settings = []; params = params }) options,
  refl,
  left_lem (record { settings = []; params = params }) options,
)
