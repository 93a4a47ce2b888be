-- ===== src/Aliasing/Aliases.antt =====
-- src/connection-aliasing.c: the aliases that are set are those that are read.
use telepathy_haze.Aliasing.{
  get_alias, set_aliases, can_alias, set_aliases_foreach, Setting, Names, IsNames,
}
use telepathy_haze.Prelude.{
  ◌↔◌, All-map, subst, ==_iff, Bool-cases, fold, if◌then◌else◌, All, refl, some, false, none, true,
  ◌==◌, arith, ◌≢◌, ℕ, ap, [], ◌∙◌, String, ◌∷◌, inr, ◌&&◌, List, Option-cases, inl, ◌≡◌, ◌⊎◌, sym,
}
use telepathy_haze.Prelude.Table.{lookup}
use telepathy_haze.Telepathy.{Handles}
use telepathy_haze.Aliasing.Buddies.{
  names_apart, get-other, settable-valid, settable-other, settable-same, get-same, is_settable,
  is_accepted,
}

-- The keys of a hash table are different.
abbrev pub IsTable : List (ℕ × String) → Type 0
IsTable [] = Unit
IsTable ((k, a) ∷ t) = (lookup k t ≡ none) × IsTable t

module _ (N : Names) (L : IsNames N) (R : Handles) (self_handle : ℕ) where
  abbrev after : Setting N R self_handle → (ℕ × String) → N.State
  after d p = (set_aliases_foreach N R self_handle d p).names

  -- The names after one alias: those of the state before, or the buddy's with its alias.
  after_cases :
      (d : Setting N R self_handle) (h : ℕ) (a : String)
      → ((is_settable N L R self_handle d.names h ≡ true)
          × (after d (h, a) ≡ N.alias_buddy d.names (R.inspect h) a))
        ⊎ ((is_settable N L R self_handle d.names h ≡ false) × (after d (h, a) ≡ d.names))
  unfolding is_settable set_aliases_foreach
  after_cases d h a = elim (Option-cases (N.buddy_alias d.names (R.inspect h))) [
    | inl e ↦ ground (arith, e)
    | inr (b, e) ↦ ground (arith, e)
  ]

  step-settable :
      (d : Setting N R self_handle) (h k : ℕ) (a : String)
      → a ≢ ""
      → R.is_valid k ≡ true
      → is_settable N L R self_handle (after d (h, a)) k ≡ is_settable N L R self_handle d.names k
  step-settable d h k a z v = elim (after_cases d h a) [
    | inr (q, e) ↦ ap (λ s. is_settable N L R self_handle s k) e
    | inl (q, e) ↦ elim (Bool-cases (h == k)) [
      | inl i ↦
          ap (λ s. is_settable N L R self_handle s k) e
          ∙ settable-same N L R self_handle d.names h k a z q ((==_iff h k).0 i)
      | inr n ↦
          ap (λ s. is_settable N L R self_handle s k) e
          ∙ settable-other N L R self_handle d.names h k a
              (names_apart N L R self_handle h k (settable-valid N L R self_handle d.names h q) v n)
    ]
  ]

  step-get :
      (d : Setting N R self_handle) (h k : ℕ) (a : String)
      → a ≢ ""
      → R.is_valid k ≡ true
      → get_alias N R self_handle (after d (h, a)) k ≡ (
          if h == k && is_settable N L R self_handle d.names k
          then a
          else get_alias N R self_handle d.names k)
  step-get d h k a z v = elim (after_cases d h a) [
    | inr (q, e) ↦ elim (Bool-cases (h == k)) [
      | inl i ↦
          ap (λ s. get_alias N R self_handle s k) e
          ∙ ground (arith, i, q, ap (is_settable N L R self_handle d.names) ((==_iff h k).0 i))
      | inr n ↦ ap (λ s. get_alias N R self_handle s k) e ∙ ground (arith, n)
    ]
    | inl (q, e) ↦ elim (Bool-cases (h == k)) [
      | inl i ↦
          ap (λ s. get_alias N R self_handle s k) e
          ∙ get-same N L R self_handle d.names h k a z q ((==_iff h k).0 i)
          ∙ ground (arith, i, q, ap (is_settable N L R self_handle d.names) ((==_iff h k).0 i))
      | inr n ↦
          ap (λ s. get_alias N R self_handle s k) e
          ∙ get-other N L R self_handle d.names h k a
              (names_apart N L R self_handle h k (settable-valid N L R self_handle d.names h q) v n)
          ∙ ground (arith, n)
    ]
  ]

  walk-get :
      (d : Setting N R self_handle) (aliases : List (ℕ × String)) (k : ℕ)
      → IsTable aliases
      → All (λ p. p.1 ≢ "") aliases
      → R.is_valid k ≡ true
      → get_alias N R self_handle (fold (set_aliases_foreach N R self_handle) d aliases).names k
        ≡ elim (lookup k aliases) [
          | none ↦ get_alias N R self_handle d.names k
          | some a ↦
              if is_settable N L R self_handle d.names k
              then a
              else get_alias N R self_handle d.names k
        ]
  unfolding fold lookup
  walk-get d [] k t z v = refl
  walk-get d ((h, a) ∷ ps) k t z v =
      let next = set_aliases_foreach N R self_handle d (h, a) in
      let rest = walk-get next ps k t.1 z.1 v in
      elim (Bool-cases (h == k)) [
        | inl i ↦ ground (
          arith,
          i,
          rest,
          step-get d h k a z.0 v,
          subst (λ j. lookup j ps ≡ none) ((==_iff h k).0 i) t.0,
        )
        | inr n ↦ ground (arith, n, rest, step-get d h k a z.0 v, step-settable d h k a z.0 v)
      ]

  -- After aliases are set on a protocol that has them, the alias that is read of a valid contact is the
  -- one that was set for it, if it is on the buddy list and not the user; the user's alias, and those
  -- of other contacts and of contacts that none was set for, are what they were. The table has
  -- different keys, and no alias in it is empty.
  pub set_aliases-get :
      (s : N.State) (aliases : List (ℕ × String)) (k : ℕ)
      → IsTable aliases
      → All (λ p. p.1 ≢ "") aliases
      → R.is_valid k ≡ true
      → (d : Setting N R self_handle) × (set_aliases N R self_handle false true s aliases ≡ some d)
        × (get_alias N R self_handle d.names k ≡ elim (lookup k aliases) [
          | none ↦ get_alias N R self_handle s k
          | some a ↦ if is_settable N L R self_handle s k then a else get_alias N R self_handle s k
        ])
  unfolding set_aliases can_alias
  set_aliases-get s aliases k t z v = (
    fold (set_aliases_foreach N R self_handle) (record { names = s; error = none; out = [] })
        aliases,
    refl,
    walk-get (record { names = s; error = none; out = [] }) aliases k t z v,
  )

  step-accepted :
      (d : Setting N R self_handle) (h k : ℕ) (a : String)
      → a ≢ ""
      → is_accepted N L R self_handle (after d (h, a)) k ≡ is_accepted N L R self_handle d.names k
  unfolding is_accepted
  step-accepted d h k a z = elim (Bool-cases (R.is_valid k)) [
    | inl v ↦ ground (arith, step-settable d h k a z v)
    | inr v ↦ unfold is_settable in ground (arith, v)
  ]

  step-error :
      (d : Setting N R self_handle) (h : ℕ) (a : String)
      → ((set_aliases_foreach N R self_handle d (h, a)).error ≡ none)
        ↔ ((d.error ≡ none) × (is_accepted N L R self_handle d.names h ≡ true))
  unfolding is_accepted is_settable set_aliases_foreach
  step-error d h a = elim (Option-cases (N.buddy_alias d.names (R.inspect h))) [
    | inl e ↦ ground (arith, e)
    | inr (b, e) ↦ ground (arith, e)
  ]

  walk-error :
      (d : Setting N R self_handle) (aliases : List (ℕ × String))
      → All (λ p. p.1 ≢ "") aliases
      → ((fold (set_aliases_foreach N R self_handle) d aliases).error ≡ none)
        ↔ ((d.error ≡ none) × All (λ p. is_accepted N L R self_handle d.names p.0 ≡ true) aliases)
  unfolding fold
  walk-error d [] z = (λ e. (e, tt), λ p. p.0)
  walk-error d ((h, a) ∷ ps) z =
      let next = set_aliases_foreach N R self_handle d (h, a) in
      let rest = walk-error next ps z.1 in
      let here = step-error d h a in
      let same : (k : ℕ)
          → is_accepted N L R self_handle next.names k ≡ is_accepted N L R self_handle d.names k =
        λ k. step-accepted d h k a z.0 in
      (
        λ e.
            let (f, t) = rest.0 e in
            let (g, y) = here.0 f in (g, (y, All-map ps (λ p x. sym (same p.0) ∙ x) t)),
        λ (g, (y, t)). rest.1 (here.1 (g, y), All-map ps (λ p x. same p.0 ∙ x) t),
      )

  -- Setting aliases on a protocol that has them is refused, exactly if one of
  -- the contacts is neither the user nor a valid contact on the buddy list; no alias is empty.
  pub set_aliases-error :
      (s : N.State) (aliases : List (ℕ × String))
      → All (λ p. p.1 ≢ "") aliases
      → (d : Setting N R self_handle) × (set_aliases N R self_handle false true s aliases ≡ some d)
        × ((d.error ≡ none) ↔ All (λ p. is_accepted N L R self_handle s p.0 ≡ true) aliases)
  unfolding set_aliases can_alias
  set_aliases-error s aliases z =
      let walked = walk-error (record { names = s; error = none; out = [] }) aliases z in
      (
        fold (set_aliases_foreach N R self_handle) (record { names = s; error = none; out = [] })
            aliases,
        refl,
        (λ e. (walked.0 e).1, λ t. walked.1 (refl, t)),
      )
