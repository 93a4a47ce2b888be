-- ===== src/Requests.antt =====
-- The requests of libpurple (src/request.c), with the prompts of the connection. `none` of an operation
-- is a use of memory that is freed.
pub mod Closed
pub mod Lost
mod Tests
use telepathy_haze.Prelude.{
  List, if◌then◌else◌, ◌&&◌, Bool, String, none, suc, [], ◌==◌, Option, ◌>>=◌, some, ◌∷◌, ◌++◌,
  false, ℕ,
}
use telepathy_haze.Connection.{
  Connection, failed, given, request_password, Answer, prompt_cb, Base, cancel_password_request,
}

-- struct fields_data, by a number that stands for its address; `has_ok` and `has_cancel` say that the
-- callbacks are not NULL.
pub record FieldsData : Type 0 where
  pub number : ℕ
  pub has_ok : Bool
  pub has_cancel : Bool

-- The callbacks of libpurple, and the end of a request's fields.
pub data RequestEffect : Type 0 where
  ok_cb : ℕ → String → RequestEffect
  cancel_cb : ℕ → RequestEffect
  fields_destroyed : ℕ → RequestEffect

-- The requests that libpurple has open, all of one account, and its connection; `next` numbers them.
pub record Requests : Type 0 where
  pub opened : List FieldsData
  pub idle : List ℕ
  pub next : ℕ
  pub connection : Connection
  pub log : List RequestEffect

unfoldable pub new_requests : Connection → Requests
new_requests C = record { opened = []; idle = []; next = 0; connection = C; log = [] }

unfoldable pub find_request : List FieldsData → ℕ → Option FieldsData
find_request [] n = none
find_request (fd ∷ fds) n =
    let rest = find_request fds n in if fd.number == n then some fd else rest

unfoldable pub remove_request : List FieldsData → ℕ → List FieldsData
remove_request [] n = []
remove_request (fd ∷ fds) n =
    let rest = remove_request fds n in if fd.number == n then fds else fd ∷ rest

-- haze_close_request, which libpurple calls for a request that it takes off its list.
unfoldable pub close_request : Requests → FieldsData → Requests
unfolding remove_request cancel_password_request
close_request R fd = record R {
  opened = remove_request R.opened fd.number;
  connection = cancel_password_request R.connection;
  log = fields_destroyed fd.number ∷ R.log;
}

-- purple_request_close does nothing for a request that is not on the list.
unfoldable pub close_found : Requests → Option FieldsData → Requests
unfolding close_request
close_found R (some fd) = close_request R fd
close_found R none = R

unfoldable pub purple_request_close : Requests → ℕ → Requests
unfolding close_found find_request
purple_request_close R n = close_found R (find_request R.opened n)

-- haze_request_fields; libpurple puts the request on its list then.
unfoldable pub request_fields : Requests → Bool → Bool → Bool → Bool → Requests
unfolding request_password
request_fields R has_password has_remember has_ok has_cancel =
    let asked : FieldsData = record { number = R.next; has_ok = has_ok; has_cancel = has_cancel } in
    let ignored : FieldsData = record {
      number = R.next;
      has_ok = false;
      has_cancel = has_cancel;
    } in
    if has_password && has_remember
    then record R {
      opened = asked ∷ R.opened;
      next = suc R.next;
      connection = request_password R.connection R.next;
    }
    else record R { opened = ignored ∷ R.opened; next = suc R.next; idle = R.idle ++ (R.next ∷ []) }

-- The callbacks that are called before a request is closed.
unfoldable pub password_answer :
    FieldsData → Option String → List RequestEffect → List RequestEffect
password_answer fd (some password) log = if fd.has_ok then ok_cb fd.number password ∷ log else log
password_answer fd none log = if fd.has_cancel then cancel_cb fd.number ∷ log else log

-- haze_request_password_cb
unfoldable pub request_password_cb : Requests → ℕ → Option String → Option Requests
unfolding password_answer purple_request_close find_request
request_password_cb R n password = find_request R.opened n >>= λ fd.
    some (purple_request_close (record R { log = password_answer fd password R.log }) n)

-- haze_request_fields_destroy, the first of the idle callbacks.
unfoldable pub request_fields_destroy : Requests → ℕ → Option Requests
unfolding password_answer purple_request_close find_request
request_fields_destroy R n = find_request R.opened n >>= λ fd.
    some (purple_request_close (record R { log = password_answer fd none R.log }) n)

unfoldable pub first_idle : Requests → List ℕ → Option Requests
unfolding request_fields_destroy
first_idle R [] = some R
first_idle R (n ∷ ns) = request_fields_destroy (record R { idle = ns }) n

unfoldable pub run_idle : Requests → Option Requests
unfolding first_idle
run_idle R = first_idle R R.idle

unfoldable pub secret_of : Answer → Option String
secret_of (given secret) = some secret
secret_of (failed error) = none

-- The callback of a prompt, which hands the answer to the request that the connection knows.
unfoldable pub hand_over : Requests → Option ℕ → Answer → Option Requests
unfolding request_password_cb secret_of
hand_over R (some asker) answer = request_password_cb R asker (secret_of answer)
hand_over R none answer = some R

unfoldable pub prompted : Base → Requests → Answer → Option Requests
unfolding prompt_cb hand_over
prompted B R answer =
    hand_over (record R { connection = prompt_cb B R.connection answer })
      R.connection.password_request answer
