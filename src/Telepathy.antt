-- ===== src/Telepathy.antt =====
-- What the code takes from telepathy-glib: the handle repository of a connection.
pub mod Sample
use telepathy_haze.Prelude.{false, ℕ, String, Bool, true, ◌≡◌}

-- A repository gives each contact identifier one handle for as long as the connection lives, so the
-- handles are functions of the identifiers. `ensure` gives 0 for an identifier that it refuses.
pub record Handles : Type 0 where
  pub ensure : String → ℕ
  pub inspect : ℕ → String
  pub is_valid : ℕ → Bool
  pub zero_invalid : is_valid 0 ≡ false
  pub ensure-inspect : (h : ℕ) → is_valid h ≡ true → ensure (inspect h) ≡ h
