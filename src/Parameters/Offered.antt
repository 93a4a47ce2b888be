-- ===== src/Parameters/Offered.antt =====
-- src/protocol.c: a client that keeps to the parameters that are offered is understood.
use telepathy_haze.Parameters.{
  setting_of_option, own_spec, get_parameters, base_specs, usersplit_specs,
  translate_protocol_option, Texts, Protocol, option_specs, ProtocolOption,
}
use telepathy_haze.Prelude.{
  map, ◌≢◌, none, Option, Option-cases, some, Bool, subst, if◌then◌else◌, All, List, true, [],
  arith, zero, ℕ, inr, str_eq, ◌∷◌, Bool-cases, ◌⊎◌, false, is_some, inl, suc, String, ◌≡◌, refl,
  ◌++◌,
}
use telepathy_haze.Protocol.{
  bool_spec, security_defaults, translate_parameters, jabber_fixup, find_security, Spec,
  lookup_mapping, Mapping,
}
use telepathy_haze.Protocol.Translation.{translate-total, is_known, is_spec}
use telepathy_haze.Account.{lookup_param, Value}

unfoldable pub has_name : List Spec → String → Bool
has_name [] n = false
has_name (s ∷ specs) n = if str_eq s.name n then true else has_name specs n

-- A spec that the translation takes.
abbrev pub IsTaken : Bool → Spec → Type 0
IsTaken jabber s =
    (is_some s.setter_data ≡ true)
    ⊎ ((jabber ≡ true) × ((s.name ≡ "old-ssl") ⊎ (s.name ≡ "require-encryption")))

known_of_taken :
    (jabber : Bool) (specs : List Spec) (n : String)
    → All (IsTaken jabber) specs
    → has_name specs n ≡ true
    → is_known jabber specs n ≡ true
unfolding is_known is_spec has_name
known_of_taken jabber [] n a e = absurd (ground (arith, e))
known_of_taken jabber (s ∷ specs) n a e = elim (Bool-cases (str_eq s.name n)) [
  | inr m ↦ ground (arith, e, m, known_of_taken jabber specs n a.1)
  | inl m ↦ elim a.0 [
    | inl i ↦ ground (arith, m, i)
    | inr (j, inl i) ↦ ground (arith, j, subst (λ k. str_eq k n ≡ true) i m)
    | inr (j, inr i) ↦ ground (arith, j, subst (λ k. str_eq k n ≡ true) i m)
  ]
]

All-append : (P : Spec → Type 0) (xs ys : List Spec) → All P xs → All P ys → All P (xs ++ ys)
All-append P [] ys a b = b
All-append P (x ∷ xs) ys a b = (a.0, All-append P xs ys a.1 b)

module _ (T : Texts) (P : Protocol) (jabber : Bool) where
  option_cases :
      (o : ProtocolOption)
      → (translate_protocol_option T P o ≡ none)
        ⊎ ((s : Spec) × (translate_protocol_option T P o ≡ some s) × (is_some s.setter_data ≡ true))
  unfolding translate_protocol_option
  option_cases o = elim (Option-cases (translate_protocol_option T P o)) [
    | inl e ↦ inl e
    | inr (s, e) ↦ inr (s, e, ground (arith, e))
  ]

  options-IsTaken : (os : List ProtocolOption) → All (IsTaken jabber) (option_specs T P os)
  unfolding option_specs
  options-IsTaken [] = tt
  options-IsTaken (o ∷ os) = elim (option_cases o) [
    | inl e ↦
        subst (All (IsTaken jabber)) {x = option_specs T P os} {y = option_specs T P (o ∷ os)}
          (ground (arith, e)) (options-IsTaken os)
    | inr (s, e, i) ↦
        subst (All (IsTaken jabber)) {x = s ∷ option_specs T P os} {y = option_specs T P (o ∷ os)}
          (ground (arith, e)) (inl i, options-IsTaken os)
  ]

  splits-IsTaken : (m : Mapping) (i count : ℕ) → All (IsTaken jabber) (usersplit_specs T m i count)
  unfolding usersplit_specs
  splits-IsTaken m i zero = tt
  splits-IsTaken m i (suc count) = (inl refl, splits-IsTaken m (suc i) count)

  splits_or_none-IsTaken :
      (b : Bool)
      → All (IsTaken jabber) (if b then usersplit_specs T P.parameter_map 1 P.user_splits else [])
  splits_or_none-IsTaken true = splits-IsTaken P.parameter_map 1 P.user_splits
  splits_or_none-IsTaken false = tt

  password-IsTaken : (b : Bool) → All (IsTaken jabber) (if b then [] else own_spec "password" ∷ [])
  password-IsTaken true = tt
  password-IsTaken false = (inl refl, tt)

  base-IsTaken : All (IsTaken jabber) (base_specs T P)
  unfolding base_specs
  base-IsTaken = (
    inl refl,
    All-append (IsTaken jabber) _ _
        (splits_or_none-IsTaken (is_some (lookup_mapping P.parameter_map "usersplit1")))
        (All-append (IsTaken jabber) _ _ (password-IsTaken P.no_password)
          (options-IsTaken P.protocol_options)),
  )

abbrev AreTaken : Bool × List Spec → Type 0
AreTaken r = All (IsTaken r.0) r.1

abbrev fixed : Texts → Protocol → Option String → Bool × List Spec
fixed T P default_cs =
    let d = security_defaults default_cs in
    (true, base_specs T P ++ (bool_spec "old-ssl" d.0 ∷ bool_spec "require-encryption" d.1 ∷ []))

fixed-AreTaken :
    (T : Texts) (P : Protocol) (default_cs : Option String) → AreTaken (fixed T P default_cs)
fixed-AreTaken T P default_cs =
    All-append (IsTaken true) (base_specs T P) _ (base-IsTaken T P true)
      (inr (refl, inl refl), (inr (refl, inr refl), tt))

fixup-AreTaken :
    (T : Texts) (P : Protocol) (opts : List (String × Option String))
    → AreTaken (jabber_fixup opts (base_specs T P))
unfolding jabber_fixup
fixup-AreTaken T P opts = elim (Option-cases (find_security opts)) [
  | inl e ↦
      subst AreTaken {x = (false, base_specs T P)} {y = jabber_fixup opts (base_specs T P)}
        (ground (arith, e)) (base-IsTaken T P false)
  | inr (d, e) ↦
      subst AreTaken {x = fixed T P d} {y = jabber_fixup opts (base_specs T P)} (ground (arith, e))
        (fixed-AreTaken T P d)
]

parameters-AreTaken : (T : Texts) (P : Protocol) → AreTaken (get_parameters T P)
unfolding get_parameters
parameters-AreTaken T P = elim (Bool-cases P.has_fixup) [
  | inl e ↦
      subst AreTaken {x = jabber_fixup (map setting_of_option P.protocol_options) (base_specs T P)}
        {y = get_parameters T P} (ground (arith, e))
        (fixup-AreTaken T P (map setting_of_option P.protocol_options))
  | inr e ↦
      subst AreTaken {x = (false, base_specs T P)} {y = get_parameters T P} (ground (arith, e))
        (base-IsTaken T P false)
]

-- A client that gives only parameters that the protocol offers has them translated: the assertion that
-- none is left unused does not fail.
pub offered-translated :
    (T : Texts) (P : Protocol) (asv : List (String × Value))
    → ((n : String) → lookup_param n asv ≢ none → has_name (get_parameters T P).1 n ≡ true)
    → translate_parameters (get_parameters T P).0 (get_parameters T P).1 asv ≢ none
offered-translated T P asv offered =
    (translate-total (get_parameters T P).0 (get_parameters T P).1 asv).1 (λ n f.
      known_of_taken (get_parameters T P).0 (get_parameters T P).1 n (parameters-AreTaken T P)
        (offered n f))
