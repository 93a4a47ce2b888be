-- ===== src/Connection.antt =====
-- A connection's life (src/connection.c): the account of libpurple, passwords and the status.
pub mod Disconnects
pub mod Passwords
mod Tests
use telepathy_haze.ConnectionError.{Reason, authentication, PurpleError, map_purple_error_to_tp}
use telepathy_haze.Prelude.{
  none, true, List, some, is_some, Bool, if◌then◌else◌, ◌∷◌, ◌==◌, ◌&&◌, false, Option, ℕ, String,
  not,
}

-- TpConnectionStatus
abbrev pub status_connected : ℕ
status_connected = 0

abbrev pub status_connecting : ℕ
status_connecting = 1

abbrev pub status_disconnected : ℕ
status_disconnected = 2

-- What a connection asks of libpurple and of telepathy-glib, the newest first.
pub data Effect : Type 0 where
  account_connect account_disconnect set_enabled set_check_mail : Effect
  set_password : String → Effect
  prompt : Effect
  -- haze_request_password_cb, with the data of the request
  answer_password : ℕ → Option String → Effect
  list_received : Effect
  add_avatars add_blocking : Effect
  changed_to : ℕ → Effect
  disconnected_with : String → Reason → Effect
  finish_shutdown : Effect

-- HazeConnectionPrivate, the account's password, and the status of the base class.
pub record Connection : Type 0 where
  pub has_account : Bool
  pub password : Option String
  pub account_password : Option String
  pub password_request : Option ℕ
  pub disconnecting : Bool
  pub connect_called : Bool
  pub status : ℕ
  pub self_handle : ℕ
  pub log : List Effect

-- What the prpl says: the avatars it can show, whether it can block, and its options on passwords.
pub record PrplInfo : Type 0 where
  pub has_icon_spec : Bool
  pub has_add_deny : Bool
  pub no_password : Bool
  pub password_optional : Bool

-- The base connection: `changed old new` is the status it has after it is given a new one. It calls
-- `shut_down`, which is a call of its own here.
pub record Base : Type 0 where
  pub changed : ℕ → ℕ → ℕ

abbrev pub does : Connection → Effect → Connection
does C e = record C { log = e ∷ C.log }

abbrev pub change_status : Base → Connection → ℕ → Connection
change_status B C s = record C { status = B.changed C.status s; log = changed_to s ∷ C.log }

abbrev pub disconnect_with : Base → Connection → String → Reason → Connection
disconnect_with B C error reason = record C {
  status = B.changed C.status status_disconnected;
  log = disconnected_with error reason ∷ C.log;
}

-- The end of start_connecting and of the callback of a prompt.
unfoldable pub connect_account : Connection → Connection
connect_account C = record C { connect_called = true; log = account_connect ∷ set_enabled ∷ C.log }

unfoldable pub connected_cb : Base → PrplInfo → Connection → Connection
connected_cb B P C =
    let D = if P.has_icon_spec then does C add_avatars else C in
    let E = if P.has_add_deny then does D add_blocking else D in
    change_status B (does E list_received) status_connected

unfoldable pub disconnected_cb : Base → Connection → Connection
disconnected_cb B C =
    let D = record C { disconnecting = true } in
    let E = if C.status == status_disconnected then D else change_status B D status_disconnected in
    does E finish_shutdown

-- The answer of the password manager: a password, or the name of an error.
pub data Answer : Type 0 where
  given : String → Answer
  failed : String → Answer

unfoldable pub prompt_cb : Base → Connection → Answer → Connection
unfolding connect_account
prompt_cb B C (failed error) = elim C.password_request [
  | some asker ↦ does C (answer_password asker none)
  | none ↦ if C.status == status_disconnected then C else disconnect_with B C error authentication
]
prompt_cb B C (given secret) =
    let D = record C { password = some secret } in
    elim C.password_request [
      | some asker ↦ does D (answer_password asker (some secret))
      | none ↦
          connect_account
            (record D { account_password = some secret; log = set_password secret ∷ D.log })
    ]

-- `handle` is the one that the repository gives the account's name, 0 if it refuses the name.
unfoldable pub start_connecting : Base → PrplInfo → ℕ → Connection → Connection × Bool
unfolding connect_account
start_connecting B P handle C =
    let D = record C {
      self_handle = handle;
      status = B.changed C.status status_connecting;
      log = set_check_mail ∷ changed_to status_connecting ∷ C.log;
    } in
    if not C.has_account
    then (C, false)
    else if handle == 0
    then (record C { self_handle = 0 }, false)
    else (
      if not (is_some C.account_password) && not P.no_password && not P.password_optional
          then does D prompt
          else connect_account D,
      true,
    )

unfoldable pub request_password : Connection → ℕ → Connection
request_password C asker = record C { password_request = some asker; log = prompt ∷ C.log }

unfoldable pub cancel_password_request : Connection → Connection
cancel_password_request C = record C { password_request = none }

unfoldable pub shut_down : Connection → Connection
shut_down C =
    if not C.disconnecting && C.connect_called
    then record C { disconnecting = true; log = account_disconnect ∷ C.log }
    else if not C.connect_called
    then does C finish_shutdown
    else C

-- haze_report_disconnect_reason
unfoldable pub report_disconnect_reason : Base → Connection → PurpleError → Connection
unfolding map_purple_error_to_tp
report_disconnect_reason B C reason =
    let r = map_purple_error_to_tp reason (C.status == status_connecting) in
    disconnect_with B (record C { disconnecting = true }) r.1 r.0
