-- ===== src/Aliasing.antt =====
-- The aliases of contacts and of the user (src/connection-aliasing.c). `none` of an operation is a
-- failed assertion.
pub mod Buddies
pub mod Aliases
mod Tests
use telepathy_haze.Prelude.{
  ◌⊎◌, inr, not, ◌==◌, true, String, ◌>>=◌, map, if◌then◌else◌, ◌∷◌, ◌≡◌, some, fold, [], ◌≢◌, ℕ,
  Option, Bool, none, inl, false, List,
}
use telepathy_haze.Prelude.Table.{insert}
use telepathy_haze.Telepathy.{Handles}

-- What the code uses of libpurple: the display name of the account's connection, and the aliases of the
-- buddies that are on the buddy list, by their names.
pub record Names : Type 1 where
  pub State : Type 0
  pub display_name : State → Option String
  pub buddy_alias : State → String → Option String
  pub alias_buddy : State → String → String → State

-- A buddy has the alias that it is given, unless that is empty; the others keep theirs, and so does the
-- account its name.
pub record IsNames (N : Names) : Type 0 where
  pub alias-same :
      (s : N.State) (n a : String)
      → a ≢ ""
      → N.buddy_alias s n ≢ none
      → N.buddy_alias (N.alias_buddy s n a) n ≡ some a
  pub alias-other :
      (s : N.State) (n m a : String)
      → n ≢ m
      → N.buddy_alias (N.alias_buddy s n a) m ≡ N.buddy_alias s m
  pub alias-display :
      (s : N.State) (n a : String) → N.display_name (N.alias_buddy s n a) ≡ N.display_name s

pub data Error : Type 0 where
  not_available not_connected invalid_handle not_on_contact_list : Error

-- Calls of libpurple, and the signal AliasesChanged.
pub data Effect : Type 0 where
  set_public_alias : String → Effect
  serv_alias_buddy : String → Effect
  aliases_changed : ℕ → String → Effect

-- The protocol's alias_buddy is there or not; the account must not be disconnected.
unfoldable pub can_alias : Bool → Bool → Option Bool
can_alias is_disconnected has_alias_buddy = if is_disconnected then none else some has_alias_buddy

-- TP_CONNECTION_ALIAS_FLAG_USER_SET is 1.
unfoldable pub get_alias_flags : Bool → Bool → Bool → Option (ℕ ⊎ Error)
unfolding can_alias
get_alias_flags is_connected is_disconnected has_alias_buddy =
    let flags =
      can_alias is_disconnected has_alias_buddy >>= λ b. some (inl (if b then 1 else 0)) in
    if is_connected then flags else some (inr not_connected)

module _ (N : Names) (R : Handles) (self_handle : ℕ) where
  unfoldable pub get_alias : N.State → ℕ → String
  get_alias s handle =
      let bname = R.inspect handle in
      if handle == self_handle
      then elim (N.display_name s) [ none ↦ bname | some alias ↦ alias ]
      else elim (N.buddy_alias s bname) [ none ↦ bname | some alias ↦ alias ]

  unfoldable pub are_valid : List ℕ → Bool
  are_valid [] = true
  are_valid (h ∷ hs) = if R.is_valid h then are_valid hs else false

  unfoldable pub insert_aliases : N.State → List (ℕ × String) → List ℕ → List (ℕ × String)
  unfolding get_alias
  insert_aliases s t [] = t
  insert_aliases s t (h ∷ hs) = insert_aliases s (insert h (get_alias s h) t) hs

  unfoldable pub get_aliases : N.State → List ℕ → List (ℕ × String) ⊎ Error
  unfolding are_valid insert_aliases
  get_aliases s contacts =
      if are_valid contacts then inl (insert_aliases s [] contacts) else inr invalid_handle

  unfoldable pub request_aliases : N.State → List ℕ → List String ⊎ Error
  unfolding are_valid get_alias
  request_aliases s contacts =
      if are_valid contacts then inl (map (get_alias s) contacts) else inr invalid_handle

  -- What set_aliases works on: the first error is kept.
  pub record Setting : Type 0 where
    pub names : N.State
    pub error : Option Error
    pub out : List Effect

  abbrev pub keep_first : Option Error → Error → Option Error
  keep_first none e = some e
  keep_first (some f) e = some f

  unfoldable pub set_aliases_foreach : Setting → (ℕ × String) → Setting
  set_aliases_foreach d (handle, new_alias) =
      let bname = R.inspect handle in
      if not (R.is_valid handle)
      then record d { error = keep_first d.error invalid_handle }
      else if handle == self_handle
      then record d { out = set_public_alias new_alias ∷ d.out }
      else elim (N.buddy_alias d.names bname) [
        | none ↦ record d { error = keep_first d.error not_on_contact_list }
        | some _ ↦ record d {
          names = N.alias_buddy d.names bname new_alias;
          out = serv_alias_buddy bname ∷ d.out;
        }
      ]

  -- `aliases` in the order in which the hash table is walked.
  unfoldable pub set_aliases : Bool → Bool → N.State → List (ℕ × String) → Option Setting
  unfolding set_aliases_foreach can_alias
  set_aliases is_disconnected has_alias_buddy s aliases =
      can_alias is_disconnected has_alias_buddy >>= λ b. some (
        if b
        then fold set_aliases_foreach (record { names = s; error = none; out = [] }) aliases
        else record { names = s; error = some not_available; out = [] })

-- set_alias_success_cb and blist_node_aliased_cb
unfoldable pub set_alias_success_cb : ℕ → String → Effect
set_alias_success_cb self_handle new_alias = aliases_changed self_handle new_alias

-- For a node that is a buddy of the name, with its alias.
unfoldable pub blist_node_aliased_cb : Handles → Option (String × String) → List Effect
blist_node_aliased_cb R none = []
blist_node_aliased_cb R (some (name, alias)) = aliases_changed (R.ensure name) alias ∷ []
