-- ===== src/Username/Identity.antt =====
-- src/protocol.c: the name that identifies an account is the one that its connection has.
use telepathy_haze.Account.{get_string, remove_param, lookup_param, Value}
use telepathy_haze.Account.Options.{lookup-remove}
use telepathy_haze.Prelude.{
  refl, Bool, none, ap, inl, Bool-cases, ◌>>=◌, inr, Option-cases, ℕ, true, some, eq_iff, List,
  arith, [], ◌≡◌, String, str_eq, ◌≤◌, ◌∷◌, false, suc,
}
use telepathy_haze.Username.{
  Made, new_connection, identify_account, value_or, has_splits, get_username, add_splits, Split,
  Format,
}
use telepathy_haze.Protocol.{Spec, translate_parameters}

-- The parameters have the same user splits from the i-th one on.
abbrev AreAlike : Format → ℕ → List (String × Value) → List (String × Value) → Type 0
AreAlike M i p q = (j : ℕ) → i ≤ j → lookup_param (M.usersplit j) p ≡ lookup_param (M.usersplit j) q

module _ (M : Format) (inj : (i j : ℕ) → M.usersplit i ≡ M.usersplit j → i ≡ j) where
  removed-AreAlike :
      (i : ℕ) (p q : List (String × Value))
      → AreAlike M i p q
      → AreAlike M (suc i) (remove_param (M.usersplit i) p) q
  removed-AreAlike i p q a j b =
      let apart : str_eq (M.usersplit i) (M.usersplit j) ≡ false =
        ground (arith, b, eq_iff (M.usersplit i) (M.usersplit j), inj i j) in
      ground
        (arith, b, lookup-remove (M.usersplit i) (M.usersplit j) p, apart, a j (ground (arith, b)))

  -- The loop gives the same string whether or not it removes the parameters.
  splits-same :
      (splits : List Split) (i : ℕ) (string name : String) (p q r : List (String × Value))
      → AreAlike M i p q
      → add_splits M true splits i string p ≡ some (name, r)
      → (t : List (String × Value)) × (add_splits M false splits i string q ≡ some (name, t))
  unfolding add_splits
  splits-same [] i string name p q r a e = (q, ground (arith, e))
  splits-same (s ∷ splits) i string name p q r a e =
      elim (Option-cases (value_or s.default_value (lookup_param (M.usersplit i) p))) [
        | inl n ↦ absurd (ground (arith, e, n))
        | inr (v, n) ↦
            let (t, f) =
              splits-same splits (suc i) (M.append (M.append string s.separator) v) name
                (remove_param (M.usersplit i) p) q r (removed-AreAlike i p q a)
                (ground (arith, e, n)) in
            (t, ground (arith, f, n, ap (value_or s.default_value) (a i (ground arith))))
      ]

  username-same :
      (splits : List Split) (params r : List (String × Value)) (name : String)
      → get_username M splits true params ≡ some (some name, r)
      → ((t : List (String × Value)) × (get_username M splits false params ≡ some (some name, t)))
        × (lookup_param "account" r ≡ none)
  unfolding get_username
  username-same splits params r name e =
      elim (Option-cases (lookup_param "account" params >>= λ v. get_string v)) [
        | inl n ↦ absurd (ground (arith, e, n))
        | inr (account, n) ↦ elim (Bool-cases (has_splits splits params)) [
          | inr h ↦ (
            (params, ground (arith, e, n, h)),
            ground (arith, e, n, h, lookup-remove "account" "account" params),
          )
          | inl h ↦ elim (Option-cases (add_splits M true splits 1 account params)) [
            | inl z ↦ absurd (ground (arith, e, n, h, z))
            | inr ((full, w), z) ↦
                let (t, f) = splits-same splits 1 account full params params w (λ j _. refl) z in
                (
                  (t, ground (arith, e, n, h, f, z)),
                  ground (arith, e, n, h, z, lookup-remove "account" "account" w),
                )
          ]
        ]
      ]

-- The account that a connection is made for is the one that the same parameters identify, and the
-- parameters of the connection have no account. The names of the user splits are different.
pub new_connection-identify :
    (M : Format) (splits : List Split) (jabber : Bool) (specs : List Spec)
    (asv : List (String × Value)) (m : Made)
    → ((i j : ℕ) → M.usersplit i ≡ M.usersplit j → i ≡ j)
    → new_connection M splits jabber specs asv ≡ some (some m)
    → (identify_account M splits jabber specs asv ≡ some (some m.username))
      × (lookup_param "account" m.parameters ≡ none)
unfolding new_connection identify_account
new_connection-identify M splits jabber specs asv m inj e =
    elim (Option-cases (translate_parameters jabber specs asv)) [
      | inl n ↦ absurd (ground (arith, e, n))
      | inr (ps, n) ↦ elim (Option-cases (get_username M splits true ps)) [
        | inl u ↦ absurd (ground (arith, e, n, u))
        | inr ((none, r), u) ↦ absurd (ground (arith, e, n, u))
        | inr ((some name, r), u) ↦
            let ((t, f), a) = username-same M inj splits ps r name u in
            elim (Option-cases (lookup_param "password" r >>= λ v. get_string v)) [
              | inl z ↦ (ground (arith, e, n, u, f, z), ground (arith, e, n, u, a, z))
              | inr (word, z) ↦ (
                ground (arith, e, n, u, f, z),
                ground (arith, e, n, u, a, z, lookup-remove "password" "account" r),
              )
            ]
      ]
    ]
