-- ===== src/Telepathy/Sample.antt =====
-- A handle repository with two contacts.
use telepathy_haze.Prelude.{
  false, inl, inr, ==_iff, Bool-cases, arith, ℕ, str_eq, ◌≡◌, String, ◌==◌, Bool, true, eq_iff,
  refl, ◌||◌, if◌then◌else◌,
}
use telepathy_haze.Telepathy.{Handles}

unfoldable pub ensure : String → ℕ
ensure n = if str_eq n "alice" then 1 else if str_eq n "bob" then 2 else 0

unfoldable pub inspect : ℕ → String
inspect h = if h == 1 then "alice" else if h == 2 then "bob" else ""

unfoldable pub is_valid : ℕ → Bool
is_valid h = h == 1 || h == 2

pub ensure-inspect_lem : (h : ℕ) → is_valid h ≡ true → ensure (inspect h) ≡ h
unfolding ensure inspect is_valid
ensure-inspect_lem h v = elim (Bool-cases (h == 1)) [
  | inl t ↦ rw ((==_iff _ _).0 t)
  | inr f ↦ elim (Bool-cases (h == 2)) [
    | inl t ↦ rw ((==_iff _ _).0 t)
    | inr g ↦ ground (arith, f, g)
  ]
]

pub zero_invalid_lem : is_valid 0 ≡ false
unfolding is_valid
zero_invalid_lem = refl

abbrev pub two_contacts : Handles
two_contacts = record {
  ensure = ensure;
  inspect = inspect;
  is_valid = is_valid;
  zero_invalid = zero_invalid_lem;
  ensure-inspect = ensure-inspect_lem;
}

pub inspect-ensure : (n : String) (h : ℕ) → is_valid h ≡ true → ensure n ≡ h → n ≡ inspect h
unfolding ensure inspect is_valid
inspect-ensure n h v e = ground (arith, eq_iff n "alice", eq_iff n "bob")
