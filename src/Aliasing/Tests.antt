-- ===== src/Aliasing/Tests.antt =====
-- The theorems on aliases at a concrete buddy list: alice is on it, and has the alias that is its state.
use telepathy_haze.Aliasing.{Names, IsNames}
use telepathy_haze.Prelude.{
  List, [], String, refl, ◌∷◌, str_eq, eq_iff, some, ℕ, ◌≢◌, none, if◌then◌else◌, arith,
}

abbrev names : Names
names = record {
  State = String;
  display_name = λ _. none;
  buddy_alias = λ s n. if str_eq n "alice" then some s else none;
  alias_buddy = λ s n a. if str_eq n "alice" then (if str_eq a "" then s else a) else s;
}

names-IsNames : IsNames names
names-IsNames = record {
  alias-same = λ s n a z l. ground (arith, z, l, eq_iff a "");
  alias-other = λ s n m a z. ground (arith, z, eq_iff n "alice", eq_iff m "alice");
  alias-display = λ s n a. refl;
}

abbrev aliases : List (ℕ × String)
aliases = (1, "Al") ∷ []

al-ne-empty : ◌≢◌ {A = String} "Al" ""
al-ne-empty e = absurd cc
