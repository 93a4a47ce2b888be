-- ===== src/Parameters/Tests.antt =====
-- The theorem on the parameters that are offered, for an XMPP account of a client.
use telepathy_haze.Account.{pref_string_list, boolean, Value, text, lookup_param}
use telepathy_haze.Parameters.{
  base_specs, translate_protocol_option, option_specs, get_parameters, Protocol, Texts, own_spec,
}
use telepathy_haze.Parameters.Offered.{has_name, offered-translated}
use telepathy_haze.Prelude.{
  List, [], false, ◌∷◌, true, ◌≢◌, ◌≡◌, str_eq, refl, none, inl, some, String, arith, Bool-cases,
  inr,
}
use telepathy_haze.Protocol.{
  translate_parameters, jabber_fixup, lookup_mapping, find_security, Spec, security_defaults,
  bool_spec, jabber_mappings,
}

abbrev texts : Texts
texts = record { usersplit = λ _. "usersplit1"; tidy = λ n. n }

abbrev xmpp : Protocol
xmpp = record {
  prpl_id = "prpl-jabber";
  parameter_map = jabber_mappings;
  has_fixup = true;
  user_splits = 2;
  no_password = false;
  protocol_options =
      record {
        pref_name = "connection_security";
        pref_type = pref_string_list;
        default_bool = false;
        default_int = 0;
        default_string = none;
        default_list_value = some "require_tls";
      }
      ∷ [];
}

abbrev asked_for : List (String × Value)
asked_for = ("account", text "alice@example.org") ∷ ("old-ssl", boolean true) ∷ []

abbrev offered_specs : List Spec
offered_specs =
    own_spec "account"
    ∷ own_spec "password"
    ∷ bool_spec "old-ssl" (some false)
    ∷ bool_spec "require-encryption" (some true)
    ∷ []

xmpp_offers : get_parameters texts xmpp ≡ (true, offered_specs)
unfolding get_parameters base_specs option_specs translate_protocol_option lookup_mapping
    jabber_mappings jabber_fixup find_security security_defaults
xmpp_offers = refl

named : (n : String) → lookup_param n asked_for ≢ none → has_name offered_specs n ≡ true
unfolding lookup_param has_name
named n f = elim (Bool-cases (str_eq "account" n)) [
  | inl e ↦ ground (arith, e)
  | inr e ↦ elim (Bool-cases (str_eq "old-ssl" n)) [
    | inl g ↦ ground (arith, e, g)
    | inr g ↦ absurd (f (ground (arith, e, g)))
  ]
]

offered-translated_example : translate_parameters true offered_specs asked_for ≢ none
unfolding get_parameters base_specs option_specs translate_protocol_option lookup_mapping
    jabber_mappings jabber_fixup find_security security_defaults
offered-translated_example = offered-translated texts xmpp asked_for named
