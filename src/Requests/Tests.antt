-- ===== src/Requests/Tests.antt =====
-- The theorems on requests at concrete calls.
use telepathy_haze.Prelude.{
  ◌≡◌, ◌≤◌, List, true, for_each, ◌>>=◌, ◌+◌, arith, some, [], suc, ◌<◌, refl, none, false, ◌∷◌,
}
use telepathy_haze.Connection.{
  cancel_password_request, given, request_password, prompt, Base, answer_password, Connection,
  prompt_cb,
}
use telepathy_haze.Connection.Disconnects.{new_connection, connects}
use telepathy_haze.Requests.{
  request_password_cb, Requests, prompted, password_answer, request_fields, secret_of, hand_over,
  run_idle, find_request, close_request, ok_cb, new_requests, remove_request, purple_request_close,
  fields_destroyed, close_found,
}
use telepathy_haze.Requests.Closed.{
  RequestCall, requests_fields, destroyed, answered, request_run, open_times, request_ends_once,
  is_prompted,
}
use telepathy_haze.Requests.Lost.{ignored_lost}

abbrev takes_all : Base
takes_all = record { changed = λ _ s. s }

abbrev idle_connection : Connection
idle_connection = new_connection true none

abbrev calls : List RequestCall
calls = requests_fields true true true true ∷ is_prompted (given "secret") ∷ []

abbrev answered_one : Requests
answered_one = record {
  opened = [];
  idle = [];
  next = 1;
  connection = record {
    has_account = true;
    password = some "secret";
    account_password = none;
    password_request = none;
    disconnecting = false;
    connect_called = false;
    status = 3;
    self_handle = 0;
    log = answer_password 0 (some "secret") ∷ prompt ∷ [];
  };
  log = fields_destroyed 0 ∷ ok_cb 0 "secret" ∷ [];
}

request_ends_once_example :
    (0 < 1 → open_times 0 answered_one.opened + destroyed 0 answered_one.log ≡ 1)
    × (1 ≤ 0 → open_times 0 answered_one.opened + destroyed 0 answered_one.log ≡ 0)
    × (answered 0 answered_one.log ≤ destroyed 0 answered_one.log)
unfolding request_run for_each new_requests request_fields prompted hand_over request_password_cb
    find_request purple_request_close close_found close_request password_answer remove_request
    prompt_cb request_password cancel_password_request new_connection secret_of
request_ends_once_example = request_ends_once 0 takes_all idle_connection answered_one calls refl

-- A request waits for its password.
abbrev waiting : Requests
waiting = request_fields (new_requests idle_connection) true true true true

ignored_lost_example :
    ((T : Requests) × (prompted takes_all waiting (given "secret") ≡ some T)
      × (answered 0 T.log ≡ suc (answered 0 waiting.log)))
    × ((T : Requests) × ((run_idle (request_fields waiting false false false true) >>= λ S.
            prompted takes_all S (given "secret"))
          ≡ some T)
        × (answered 0 T.log ≡ answered 0 waiting.log)
        × (open_times 0 T.opened ≡ open_times 0 waiting.opened)
        × (connects T.connection.log ≡ suc (connects waiting.connection.log)))
unfolding request_fields request_password find_request new_requests
ignored_lost_example =
    ignored_lost takes_all waiting 0 (record { number = 0; has_ok = true; has_cancel = true }) false
      false true "secret" refl refl refl refl (omega arith)
