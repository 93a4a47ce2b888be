-- ===== src/Presence/Tests.antt =====
-- The theorems on presence at concrete statuses.
use telepathy_haze.Prelude.{
  String, ◌↔◌, length, none, if◌then◌else◌, some, ◌≢◌, str_eq, ◌≡◌, arith, ◌<◌, ◌==◌, refl,
}
use telepathy_haze.Presence.{
  nth, get_tp_status, get_purple_status_id, set_own_status, is_status_available, statuses, Account,
  primitives, num_statuses,
}
use telepathy_haze.Presence.Statuses.{is_status_available-bounds, set_own_status-get}

-- An account with the status types of libpurple, and alice on its buddy list.
abbrev account : Account
account = record {
  type_with_primitive = λ p. if p == 5 then some "away" else none;
  active_status = none;
  buddy_status =
      λ n. if str_eq n "alice" then some (record { primitive = 5; message = none }) else none;
  markup_strip_html = λ t. t;
}

is_status_available-bounds_example :
    ((is_status_available account 6 ≢ none) ↔ (6 < 6))
    × ((6 < length statuses) ↔ (6 < num_statuses))
is_status_available-bounds_example = is_status_available-bounds account 6

set_own_status-get_example :
    (◌≡◌ {A = String} "away" "away")
    × ((get_tp_status account (some (record { primitive = 5; message = some "lunch" }))).index ≡ 2)
unfolding set_own_status get_purple_status_id nth primitives
set_own_status-get_example =
    set_own_status-get account (record { index = 2; text = some "lunch" }) "away" 5
      (record { status_id = "away"; own_message = some "lunch" }) (ground arith) refl refl refl
