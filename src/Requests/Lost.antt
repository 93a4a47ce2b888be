-- ===== src/Requests/Lost.antt =====
-- src/request.c: a request that is ignored, while another one waits for its password.
use telepathy_haze.Prelude.{
  arith, if_true, List, if_intro, ◌<◌, String, ◌++◌, false, Bool, ◌≡◌, refl, none, ap, ◌∷◌, true,
  ==_iff, ◌∙◌, suc, [], some, ◌>>=◌, ◌==◌, ℕ,
}
use telepathy_haze.Connection.{connect_account, Base, prompt_cb, given, cancel_password_request}
use telepathy_haze.Requests.{
  ok_cb, secret_of, request_password_cb, hand_over, prompted, remove_request, RequestEffect,
  close_request, first_idle, request_fields, fields_destroyed, request_fields_destroy, run_idle,
  FieldsData, Requests, find_request, purple_request_close, password_answer,
}
use telepathy_haze.Requests.Closed.{find_request-number, open_times, answered, close-at}
use telepathy_haze.Connection.Disconnects.{connects}

ignored : Requests → Bool → FieldsData
ignored R has_cancel = record { number = R.next; has_ok = false; has_cancel = has_cancel }

-- What is left when the idle callback of an ignored request has run.
after_idle : Requests → Bool → Requests
unfolding password_answer cancel_password_request
after_idle R has_cancel = record R {
  next = suc R.next;
  idle = [];
  connection = cancel_password_request R.connection;
  log = fields_destroyed R.next ∷ password_answer (ignored R has_cancel) none R.log;
}

same_number : (n : ℕ) → (n == n) ≡ true
same_number n = (==_iff n n).1 refl

run_idle-after :
    (R : Requests) (has_remember has_ok has_cancel : Bool)
    → R.idle ≡ []
    → run_idle (request_fields R false has_remember has_ok has_cancel)
      ≡ some (after_idle R has_cancel)
unfolding run_idle first_idle request_fields request_fields_destroy after_idle ignored find_request
    close_request remove_request
run_idle-after R has_remember has_ok has_cancel e =
    let fd = ignored R has_cancel in
    let U : Requests = record R { opened = fd ∷ R.opened; next = suc R.next; idle = [] } in
    let V : Requests = record U { log = password_answer fd none R.log } in
    let found : find_request (fd ∷ R.opened) R.next ≡ some fd =
      if_true (R.next == R.next) (some fd) (find_request R.opened R.next) (same_number R.next) in
    ap (λ l. first_idle (record U { idle = l ++ (R.next ∷ []) }) (l ++ (R.next ∷ []))) e
    ∙ ap
        (λ o. o >>= λ gd.
          some (purple_request_close (record U { log = password_answer gd none R.log }) R.next))
        found
    ∙ ap (λ S. some S) (close-at V R.next fd found)
    ∙ ap (λ fds. some (record (after_idle R has_cancel) { opened = fds }))
        (if_true (R.next == R.next) R.opened (fd ∷ remove_request R.opened R.next)
          (same_number R.next))

-- The password answers the request that the connection knows.
would_answer :
    (B : Base) (R : Requests) (asker : ℕ) (fd : FieldsData) (secret : String)
    → R.connection.password_request ≡ some asker
    → find_request R.opened asker ≡ some fd
    → fd.has_ok ≡ true
    → (T : Requests) × (prompted B R (given secret) ≡ some T)
      × (answered asker T.log ≡ suc (answered asker R.log))
unfolding prompted hand_over request_password_cb secret_of close_request answered password_answer
would_answer B R asker fd secret waits found has_ok =
    let U : Requests = record R { connection = prompt_cb B R.connection (given secret) } in
    let V : Requests = record U { log = password_answer fd (some secret) R.log } in
    let same = (find_request-number R.opened asker fd found).0 in
    (
      close_request V fd,
      ap (λ o. hand_over U o (given secret)) waits
          ∙ ap
              (λ o. o >>= λ gd. some (
                purple_request_close (record U { log = password_answer gd (some secret) R.log })
                  asker))
              found
          ∙ ap (λ S. some S) (close-at V asker fd found),
      ap (answered asker) (if_true fd.has_ok (ok_cb fd.number secret ∷ R.log) R.log has_ok)
          ∙ if_true (fd.number == asker) (suc (answered asker R.log)) (answered asker R.log)
              ((==_iff fd.number asker).1 same),
    )

-- A password that is given answers the open request that waits for it. But where libpurple makes a
-- request that is ignored before that, and no other callback is due, its idle callback takes the
-- earlier request from the connection: the password connects the account instead, whether or not it
-- is, and the request is not answered, and stays open.
pub ignored_lost :
    (B : Base) (R : Requests) (asker : ℕ) (fd : FieldsData) (has_remember has_ok has_cancel : Bool)
    (secret : String)
    → R.idle ≡ []
    → R.connection.password_request ≡ some asker
    → find_request R.opened asker ≡ some fd
    → fd.has_ok ≡ true
    → asker < R.next
    → ((T : Requests) × (prompted B R (given secret) ≡ some T)
        × (answered asker T.log ≡ suc (answered asker R.log)))
      × ((T : Requests) × ((run_idle (request_fields R false has_remember has_ok has_cancel)
              >>= λ S. prompted B S (given secret))
            ≡ some T)
          × (answered asker T.log ≡ answered asker R.log)
          × (open_times asker T.opened ≡ open_times asker R.opened)
          × (connects T.connection.log ≡ suc (connects R.connection.log)))
unfolding prompted prompt_cb hand_over connect_account connects after_idle cancel_password_request
    password_answer answered ignored
ignored_lost B R asker fd has_remember has_ok has_cancel secret e waits found answers older =
    let S = after_idle R has_cancel in
    (
      would_answer B R asker fd secret waits found answers,
      (
        record S { connection = prompt_cb B S.connection (given secret) },
        ap (λ o. o >>= λ S. prompted B S (given secret))
            (run_idle-after R has_remember has_ok has_cancel e),
        if_intro (λ (l : List RequestEffect). answered asker l ≡ answered asker R.log) has_cancel
            (ground (arith, older)) refl,
        refl,
        refl,
      ),
    )
