-- ===== src/Protocol/Translation.antt =====
-- src/protocol.c: haze_protocol_translate_parameters, for any parameters of a client.
use telepathy_haze.Account.{text, remove_param, lookup_param, Value}
use telepathy_haze.Account.Options.{lookup-remove}
use telepathy_haze.Prelude.{
  List-cases, ◌∙◌, Bool-cases, ◌↔◌, All, Bool, some, none, ◌||◌, ◌∷◌, fold, eq_iff, refl, ◌&&◌, inl,
  is_some, ◌≡◌, ◌≢◌, String, arith, Option-cases, false, [], ap, inr, str_eq, if◌then◌else◌, true,
  List, ◌⊎◌,
}
use telepathy_haze.Protocol.{
  translate, special_cases, translate_parameters, connection_security, Translated, Spec,
  translate_spec, insert_param,
}

abbrev pub is_setter : Spec → String → Bool
is_setter s q = elim s.setter_data [ none ↦ false | some p ↦ str_eq p q ]

unfoldable pub sets : List Spec → String → Bool
sets [] q = false
sets (s ∷ specs) q = if is_setter s q then true else sets specs q

-- A name that a spec with a setter has.
unfoldable pub is_spec : List Spec → String → Bool
is_spec [] n = false
is_spec (s ∷ specs) n = if is_some s.setter_data && str_eq s.name n then true else is_spec specs n

-- A name that the translation takes.
unfoldable pub is_known : Bool → List Spec → String → Bool
unfolding is_spec
is_known jabber specs n =
    is_spec specs n || (jabber && (str_eq "old-ssl" n || str_eq "require-encryption" n))

lookup-insert_param :
    (k q : String) (v : Value) (ps : List (String × Value))
    → lookup_param q (insert_param k v ps) ≡ (if str_eq k q then some v else lookup_param q ps)
unfolding lookup_param insert_param
lookup-insert_param k q v ps = ground (arith, lookup-remove k q ps)

empty_cases :
    (ps : List (String × Value))
    → (ps ≡ []) ⊎ ((n : String) × (lookup_param n ps ≢ none) × (ps ≢ []))
unfolding lookup_param
empty_cases [] = inl refl
empty_cases ((k, v) ∷ ps) = inr (k, ground (arith, eq_iff k k), λ e. absurd cc)

module _ (asv : List (String × Value)) where
  step-unused :
      (d : Translated) (s : Spec) (n : String)
      → lookup_param n (translate_spec asv d s).unused ≡ (
          if is_some s.setter_data && (str_eq s.name n && is_some (lookup_param n asv))
          then none
          else lookup_param n d.unused)
  unfolding translate_spec
  step-unused d s n = elim (Option-cases s.setter_data) [
    | inl e ↦ ground (arith, e)
    | inr (p, e) ↦ elim (Bool-cases (str_eq s.name n)) [
      | inl m ↦
          let same : lookup_param s.name asv ≡ lookup_param n asv =
            ap (λ k. lookup_param k asv) ((eq_iff s.name n).0 m) in
          elim (Option-cases (lookup_param s.name asv)) [
            | inl f ↦ ground (arith, e, m, f, same)
            | inr (v, f) ↦ ground (arith, e, m, f, same, lookup-remove s.name n d.unused)
          ]
      | inr m ↦ elim (Option-cases (lookup_param s.name asv)) [
        | inl f ↦ ground (arith, e, m, f)
        | inr (v, f) ↦ ground (arith, e, m, f, lookup-remove s.name n d.unused)
      ]
    ]
  ]

  walk-unused :
      (d : Translated) (specs : List Spec) (n : String)
      → lookup_param n (fold (translate_spec asv) d specs).unused ≡ (
          if is_spec specs n && is_some (lookup_param n asv) then none else lookup_param n d.unused)
  unfolding fold is_spec
  walk-unused d [] n = refl
  walk-unused d (s ∷ specs) n =
      ground (arith, walk-unused (translate_spec asv d s) specs n, step-unused d s n)

  step-get :
      (d : Translated) (s : Spec) (q : String) (v : Value)
      → lookup_param s.name asv ≡ some v
      → lookup_param q (translate_spec asv d s).purple_params
        ≡ (if is_setter s q then some v else lookup_param q d.purple_params)
  unfolding translate_spec
  step-get d s q v f = elim (Option-cases s.setter_data) [
    | inl e ↦ ground (arith, e)
    | inr (p, e) ↦ ground (arith, e, f, lookup-insert_param p q v d.purple_params)
  ]

  step-other :
      (d : Translated) (s : Spec) (q : String)
      → is_setter s q ≡ false
      → lookup_param q (translate_spec asv d s).purple_params ≡ lookup_param q d.purple_params
  unfolding translate_spec
  step-other d s q n = elim (Option-cases s.setter_data) [
    | inl e ↦ ground (arith, e)
    | inr (p, e) ↦ elim (Option-cases (lookup_param s.name asv)) [
      | inl f ↦ ground (arith, e, f)
      | inr (v, f) ↦ ground (arith, e, f, n, lookup-insert_param p q v d.purple_params)
    ]
  ]

  -- The specs that set a parameter all have one name.
  walk-get :
      (d : Translated) (specs : List Spec) (q n : String) (v : Value)
      → lookup_param n asv ≡ some v
      → All (λ s. is_setter s q ≡ true → s.name ≡ n) specs
      → lookup_param q (fold (translate_spec asv) d specs).purple_params
        ≡ (if sets specs q then some v else lookup_param q d.purple_params)
  unfolding fold sets
  walk-get d [] q n v f a = refl
  walk-get d (s ∷ specs) q n v f a =
      let rest = walk-get (translate_spec asv d s) specs q n v f a.1 in
      elim (Bool-cases (is_setter s q)) [
        | inl i ↦
            ground (arith, rest, i, step-get d s q v (ap (λ k. lookup_param k asv) (a.0 i) ∙ f))
        | inr i ↦ ground (arith, rest, i, step-other d s q i)
      ]

  left_lem :
      (jabber : Bool) (specs : List Spec) (n : String)
      → lookup_param n (translate jabber specs asv).unused
        ≡ (if is_known jabber specs n then none else lookup_param n asv)
  unfolding translate is_known special_cases
  left_lem true specs n =
      let d = fold (translate_spec asv) (record { purple_params = []; unused = asv }) specs in
      ground (
        arith,
        walk-unused (record { purple_params = []; unused = asv }) specs n,
        lookup-remove "require-encryption" n (remove_param "old-ssl" d.unused),
        lookup-remove "old-ssl" n d.unused,
      )
  left_lem false specs n =
      ground (arith, walk-unused (record { purple_params = []; unused = asv }) specs n)

  translated-get :
      (jabber : Bool) (specs : List Spec) (q n : String) (v : Value)
      → lookup_param n asv ≡ some v
      → sets specs q ≡ true
      → All (λ s. is_setter s q ≡ true → s.name ≡ n) specs
      → (jabber ≡ false) ⊎ (str_eq "connection_security" q ≡ false)
      → lookup_param q (translate jabber specs asv).purple_params ≡ some v
  unfolding translate special_cases
  translated-get false specs q n v f i a j =
      ground (arith, i, walk-get (record { purple_params = []; unused = asv }) specs q n v f a)
  translated-get true specs q n v f i a (inl j) = absurd (ground (arith, j))
  translated-get true specs q n v f i a (inr j) =
      let d = fold (translate_spec asv) (record { purple_params = []; unused = asv }) specs in
      ground (
        arith,
        i,
        j,
        walk-get (record { purple_params = []; unused = asv }) specs q n v f a,
        lookup-insert_param "connection_security" q (text (connection_security asv))
            d.purple_params,
      )

translate_cases :
    (jabber : Bool) (specs : List Spec) (asv : List (String × Value))
    → (((translate jabber specs asv).unused ≡ [])
        × ((ps : List (String × Value)) × (translate_parameters jabber specs asv ≡ some ps)))
      ⊎ ((n : String) × (lookup_param n (translate jabber specs asv).unused ≢ none)
          × (translate_parameters jabber specs asv ≡ none))
unfolding translate_parameters
translate_cases jabber specs asv = elim (empty_cases (translate jabber specs asv).unused) [
  | inl u ↦ inl (u, ((translate jabber specs asv).purple_params, ground (arith, u)))
  | inr (n, m, z) ↦ inr (
    n,
    m,
    elim (List-cases (translate jabber specs asv).unused) [
      | inl u ↦ absurd (z u)
      | inr (x, xs, u) ↦ ground (arith, u)
    ],
  )
]

-- The translation succeeds exactly if each parameter of the client has the name of a spec with a
-- setter or, on a protocol with connection_security, is old-ssl or require-encryption; otherwise it
-- aborts.
pub translate-total :
    (jabber : Bool) (specs : List Spec) (asv : List (String × Value))
    → (translate_parameters jabber specs asv ≢ none)
      ↔ ((n : String) → lookup_param n asv ≢ none → is_known jabber specs n ≡ true)
translate-total jabber specs asv = elim (translate_cases jabber specs asv) [
  | inl (l, (ps, e)) ↦ (
    λ _ n m. ground (arith, m, left_lem asv jabber specs n, ap (lookup_param n) l, nothing n),
    λ _ f. absurd (ground (arith, e, f)),
  )
  | inr (n, m, e) ↦ (λ f. absurd (f e), λ f _. m (left_lem asv jabber specs n ∙ unknown n (f n)))
]
  where
    nothing : (n : String) → lookup_param n [] ≡ none
    nothing n = unfold lookup_param in refl

    unknown :
        (n : String)
        → (lookup_param n asv ≢ none → is_known jabber specs n ≡ true)
        → (if is_known jabber specs n then none else lookup_param n asv) ≡ none
    unknown n f = elim (Option-cases (lookup_param n asv)) [
      | inl e ↦ ground (arith, e)
      | inr (v, e) ↦ ground (arith, f (λ z. absurd (ground (arith, e, z))))
    ]

-- A parameter of the client that a spec has a setter for, where the specs with that setter all have
-- its name, is given to libpurple under the name of the setter, with its value; connection_security
-- is not asked for on a protocol where two parameters stand for it.
pub translate-get :
    (jabber : Bool) (specs : List Spec) (asv ps : List (String × Value)) (q n : String) (v : Value)
    → translate_parameters jabber specs asv ≡ some ps
    → lookup_param n asv ≡ some v
    → sets specs q ≡ true
    → All (λ s. is_setter s q ≡ true → s.name ≡ n) specs
    → (jabber ≡ false) ⊎ (str_eq "connection_security" q ≡ false)
    → lookup_param q ps ≡ some v
unfolding translate_parameters
translate-get jabber specs asv ps q n v e f i a j =
    elim (List-cases (translate jabber specs asv).unused) [
      | inl u ↦ ground (arith, e, u, translated-get asv jabber specs q n v f i a j)
      | inr (x, xs, u) ↦ absurd (ground (arith, e, u))
    ]
