-- ===== src/Aliasing/Buddies.antt =====
-- src/connection-aliasing.c: the aliases of a buddy list after one of them is set.
use telepathy_haze.Aliasing.{get_alias, Names, IsNames}
use telepathy_haze.Prelude.{
  ◌∙◌, sym, refl, true, ap, ◌≡◌, ◌≢◌, subst, false, String, Bool, ◌&&◌, arith, none, is_some, not,
  ◌||◌, ℕ, ◌==◌,
}
use telepathy_haze.Telepathy.{Handles}

module _ (N : Names) (L : IsNames N) (R : Handles) (self_handle : ℕ) where
  open L use {alias-same, alias-other, alias-display}

  -- A contact on the buddy list, other than the user.
  unfoldable pub is_settable : N.State → ℕ → Bool
  is_settable s k =
      R.is_valid k && (not (k == self_handle) && is_some (N.buddy_alias s (R.inspect k)))

  -- A contact on the buddy list, or the user.
  unfoldable pub is_accepted : N.State → ℕ → Bool
  unfolding is_settable
  is_accepted s k = is_settable s k || (R.is_valid k && k == self_handle)

  pub names_apart :
      (h k : ℕ)
      → R.is_valid h ≡ true
      → R.is_valid k ≡ true
      → (h == k) ≡ false
      → R.inspect h ≢ R.inspect k
  names_apart h k v w n e =
      absurd (ground (arith, n, sym (R.ensure-inspect h v) ∙ ap R.ensure e ∙ R.ensure-inspect k w))

  pub settable-valid : (s : N.State) (h : ℕ) → is_settable s h ≡ true → R.is_valid h ≡ true
  unfolding is_settable
  settable-valid s h q = ground (arith, q)

  pub settable-listed :
      (s : N.State) (h : ℕ)
      → is_settable s h ≡ true
      → ((h == self_handle) ≡ false) × (N.buddy_alias s (R.inspect h) ≢ none)
  unfolding is_settable
  settable-listed s h q = (ground (arith, q), λ e. absurd (ground (arith, q, e)))

  pub settable-same :
      (s : N.State) (h k : ℕ) (a : String)
      → a ≢ ""
      → is_settable s h ≡ true
      → h ≡ k
      → is_settable (N.alias_buddy s (R.inspect h) a) k ≡ is_settable s k
  unfolding is_settable
  settable-same s h k a z q e =
      subst (λ k. is_settable (N.alias_buddy s (R.inspect h) a) k ≡ is_settable s k) e
        (ground (arith, q, alias-same s (R.inspect h) a z (settable-listed s h q).1))

  pub settable-other :
      (s : N.State) (h k : ℕ) (a : String)
      → R.inspect h ≢ R.inspect k
      → is_settable (N.alias_buddy s (R.inspect h) a) k ≡ is_settable s k
  unfolding is_settable
  settable-other s h k a n = rw (alias-other s (R.inspect h) (R.inspect k) a n) refl

  pub get-same :
      (s : N.State) (h k : ℕ) (a : String)
      → a ≢ ""
      → is_settable s h ≡ true
      → h ≡ k
      → get_alias N R self_handle (N.alias_buddy s (R.inspect h) a) k ≡ a
  unfolding get_alias
  get-same s h k a z q e =
      subst (λ k. get_alias N R self_handle (N.alias_buddy s (R.inspect h) a) k ≡ a) e
        (ground (
          arith,
          (settable-listed s h q).0,
          alias-same s (R.inspect h) a z (settable-listed s h q).1,
        ))

  pub get-other :
      (s : N.State) (h k : ℕ) (a : String)
      → R.inspect h ≢ R.inspect k
      → get_alias N R self_handle (N.alias_buddy s (R.inspect h) a) k
        ≡ get_alias N R self_handle s k
  unfolding get_alias
  get-other s h k a n =
      rw (alias-other s (R.inspect h) (R.inspect k) a n, alias-display s (R.inspect h) a) refl
