-- ===== src/Connection/Disconnects.antt =====
-- src/connection.c: libpurple is asked to disconnect an account once at most.
use telepathy_haze.Connection.{
  Base, account_connect, connected_cb, disconnected_cb, Connection, Answer, account_disconnect,
  report_disconnect_reason, failed, request_password, start_connecting, Effect, PrplInfo,
  cancel_password_request, prompt_cb, connect_account, shut_down, given,
}
use telepathy_haze.ConnectionError.{PurpleError}
use telepathy_haze.ContactList.Publish.States.{answer}
use telepathy_haze.Prelude.{
  Bool, none, true, suc, List, String, fold, fold_inv, Option, false, ◌∷◌, ◌≡◌, [], ℕ, ◌<◌, arith,
  ◌≤◌,
}

unfoldable pub disconnects : List Effect → ℕ
disconnects [] = 0
disconnects (account_disconnect ∷ es) = suc (disconnects es)
disconnects (_ ∷ es) = disconnects es

unfoldable pub connects : List Effect → ℕ
connects [] = 0
connects (account_connect ∷ es) = suc (connects es)
connects (_ ∷ es) = connects es

unfoldable pub new_connection : Bool → Option String → Connection
new_connection has_account password = record {
  has_account = has_account;
  password = password;
  account_password = password;
  password_request = none;
  disconnecting = false;
  connect_called = false;
  status = 3;
  self_handle = 0;
  log = [];
}

-- The calls of libpurple and of telepathy-glib on a connection.
pub data Call : Type 0 where
  starts : PrplInfo → ℕ → Call
  connected : PrplInfo → Call
  disconnected : Call
  reports : PurpleError → Call
  prompted : Answer → Call
  requests : ℕ → Call
  cancels shuts_down : Call

abbrev pub step : Base → Connection → Call → Connection
step B C (starts P handle) = (start_connecting B P handle C).0
step B C (connected P) = connected_cb B P C
step B C disconnected = disconnected_cb B C
step B C (reports reason) = report_disconnect_reason B C reason
step B C (prompted answer) = prompt_cb B C answer
step B C (requests asker) = request_password C asker
step B C cancels = cancel_password_request C
step B C shuts_down = shut_down C

-- Libpurple is asked to disconnect once at most, not before it was asked to connect, and while the
-- connection is not known to be ending it was not asked yet.
abbrev pub IsDisconnectedOnce : Connection → Type 0
IsDisconnectedOnce C =
    (disconnects C.log ≤ 1)
    × (C.disconnecting ≡ false → disconnects C.log ≡ 0)
    × (0 < disconnects C.log → 0 < connects C.log)
    × (C.connect_called ≡ true → 0 < connects C.log)

step-IsDisconnectedOnce :
    (B : Base) (C : Connection) (call : Call)
    → IsDisconnectedOnce C
    → IsDisconnectedOnce (step B C call)
unfolding start_connecting connected_cb disconnected_cb report_disconnect_reason prompt_cb
    request_password cancel_password_request shut_down disconnects connects connect_account
step-IsDisconnectedOnce B C (starts P handle) v = ground (arith, v)
step-IsDisconnectedOnce B C (connected P) v = ground (arith, v)
step-IsDisconnectedOnce B C disconnected v = ground (arith, v)
step-IsDisconnectedOnce B C (reports reason) v = ground (arith, v)
step-IsDisconnectedOnce B C (prompted (given secret)) v = ground (arith, v)
step-IsDisconnectedOnce B C (prompted (failed error)) v = ground (arith, v)
step-IsDisconnectedOnce B C (requests asker) v = ground (arith, v)
step-IsDisconnectedOnce B C cancels v = ground (arith, v)
step-IsDisconnectedOnce B C shuts_down v = ground (arith, v)

-- Whatever calls of libpurple and telepathy-glib a new connection gets, in any order, libpurple is
-- asked to disconnect the account once at most, only after it was asked to connect it, and not yet
-- while the connection does not know that it is ending.
pub disconnected_once :
    (B : Base) (has_account : Bool) (password : Option String) (calls : List Call)
    → IsDisconnectedOnce (fold (step B) (new_connection has_account password) calls)
unfolding new_connection disconnects connects
disconnected_once B has_account password calls =
    fold_inv IsDisconnectedOnce (step B) (step-IsDisconnectedOnce B)
      (new_connection has_account password) calls (ground arith)
