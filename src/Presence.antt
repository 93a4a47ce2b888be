-- ===== src/Presence.antt =====
-- The presence of the user and of contacts (src/connection-presence.c). `none` of an operation is a
-- failed assertion or a read outside of an array.
pub mod Statuses
pub mod Contacts
mod Tests
use telepathy_haze.Prelude.{
  zero, none, ◌∷◌, suc, ◌==◌, [], if◌then◌else◌, ℕ, ltb, Option, some, List, ◌>>=◌, for_each,
  is_some, Bool, String,
}
use telepathy_haze.Prelude.Table.{insert}
use telepathy_haze.Telepathy.{Handles}
use telepathy_haze.ContactList.State.{unknown}

-- HazeStatusIndex: available, busy, away, ext_away, invisible, offline, unknown
abbrev pub status_available : ℕ
status_available = 0

abbrev pub status_unknown : ℕ
status_unknown = 6

abbrev pub num_statuses : ℕ
num_statuses = 7

-- The names of `statuses`.
unfoldable pub statuses : List String
statuses = "available" ∷ "busy" ∷ "away" ∷ "xa" ∷ "hidden" ∷ "offline" ∷ "unknown" ∷ []

unfoldable pub nth : List ℕ → ℕ → Option ℕ
nth [] i = none
nth (x ∷ xs) zero = some x
nth (x ∷ xs) (suc i) = nth xs i

-- PurpleStatusPrimitive: unset 0, offline 1, available 2, unavailable 3, invisible 4, away 5, extended
-- away 6, and then mobile, tune and mood. `primitives` is indexed by HazeStatusIndex.
unfoldable pub primitives : List ℕ
primitives = 2 ∷ 3 ∷ 5 ∷ 6 ∷ 4 ∷ 0 ∷ []

-- Indexed by PurpleStatusPrimitive.
unfoldable pub status_indices : List ℕ
status_indices = 7 ∷ 5 ∷ 0 ∷ 1 ∷ 4 ∷ 2 ∷ 3 ∷ []

-- A PurpleStatus: the primitive of its type, and its message in HTML.
pub record Status : Type 0 where
  pub primitive : ℕ
  pub message : Option String

-- TpPresenceStatus
pub record TpStatus : Type 0 where
  pub index : ℕ
  pub text : Option String

-- The account of libpurple and its markup: the id of the status type with a primitive, if it has one,
-- the active status of the account, and those of the buddies of the buddy list by their names.
pub record Account : Type 0 where
  pub type_with_primitive : ℕ → Option String
  pub active_status : Option Status
  pub buddy_status : String → Option Status
  pub markup_strip_html : String → String

unfoldable pub get_tp_status : Account → Option Status → TpStatus
unfolding nth status_indices
get_tp_status A none = record { index = status_unknown; text = none }
get_tp_status A (some s) = record {
  index =
      if s.primitive == 0
      then status_available
      else elim (nth status_indices s.primitive) [ none ↦ status_available | some i ↦ i ];
  text = elim s.message [ none ↦ none | some m ↦ some (A.markup_strip_html m) ];
}

unfoldable pub get_purple_status_id : Account → ℕ → Option (Option String)
unfolding nth primitives
get_purple_status_id A index =
    let id = nth primitives index >>= λ prim. some (A.type_with_primitive prim) in
    if ltb index num_statuses then id else none

-- _status_available
unfoldable pub is_status_available : Account → ℕ → Option Bool
unfolding get_purple_status_id
is_status_available A index = get_purple_status_id A index >>= λ id. some (is_some id)

-- What set_status_list is given: the id of the status, and its message.
pub record OwnStatus : Type 0 where
  pub status_id : String
  pub own_message : Option String

unfoldable pub set_own_status : Account → Option TpStatus → Option OwnStatus
unfolding get_purple_status_id
set_own_status A none = some (record { status_id = "available"; own_message = none })
set_own_status A (some s) = get_purple_status_id A s.index >>= λ id.
    some (record { status_id = elim id [ none ↦ "available" | some i ↦ i ]; own_message = s.text })

-- The status that _get_contact_statuses finds for a contact.
abbrev pub status_of : Account → Handles → ℕ → ℕ → TpStatus
status_of A H self_handle h =
    get_tp_status A (if h == self_handle then A.active_status else A.buddy_status (H.inspect h))

unfoldable pub contact_step :
    Account → Handles → ℕ → List (ℕ × TpStatus) → ℕ → Option (List (ℕ × TpStatus))
unfolding get_tp_status
contact_step A H self_handle table h =
    if H.is_valid h then some (insert h (status_of A H self_handle h) table) else none

unfoldable pub get_contact_statuses : Account → Handles → ℕ → List ℕ → Option (List (ℕ × TpStatus))
unfolding contact_step
get_contact_statuses A H self_handle contacts = for_each (contact_step A H self_handle) [] contacts

-- What a status of the account or of a buddy makes the mixin emit: a handle and its status. An account
-- without ui_data has no connection yet.
unfoldable pub account_status_changed : Account → ℕ → Bool → Option Status → Option (ℕ × TpStatus)
unfolding get_tp_status
account_status_changed A self_handle has_ui_data status =
    if has_ui_data then some (self_handle, get_tp_status A status) else none

unfoldable pub update_status : Account → Handles → String → Option Status → ℕ × TpStatus
unfolding get_tp_status
update_status A H bname status = (H.ensure bname, get_tp_status A status)

-- signed_on_off_cb: the status that the buddy has by now
unfoldable pub signed_on_off_cb : Account → Handles → String → ℕ × TpStatus
unfolding update_status
signed_on_off_cb A H bname = update_status A H bname (A.buddy_status bname)
