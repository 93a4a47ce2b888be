-- ===== src/Requests/Closed.antt =====
-- src/request.c: each request is answered once at most, and ends once.
use telepathy_haze.Prelude.{
  for_each_inv, refl, subst, Option-cases, String, ◌&&◌, ◌>>=◌, List-cases, bind_inv, if_intro,
  none, if_false, ◌∷◌, [], ◌==◌, ==_iff, List, Option, inl, Bool-cases, ◌<◌, for_each, arith, sym,
  ◌+◌, some_inj, some, if_true, if◌then◌else◌, ap, ◌∙◌, ◌≡◌, ◌≤◌, suc, Bool, inr, ℕ,
}
use telepathy_haze.Connection.{prompt_cb, Connection, Base, Answer}
use telepathy_haze.Requests.{
  hand_over, first_idle, secret_of, new_requests, close_found, password_answer,
  request_fields_destroy, request_password_cb, ok_cb, fields_destroyed, remove_request,
  request_fields, prompted, find_request, run_idle, purple_request_close, close_request, Requests,
  cancel_cb, RequestEffect, FieldsData,
}

-- The calls of libpurple, of the main loop and of the password manager.
pub data RequestCall : Type 0 where
  requests_fields : Bool → Bool → Bool → Bool → RequestCall
  closes_request : ℕ → RequestCall
  is_idle : RequestCall
  is_prompted : Answer → RequestCall

-- How often a request was answered, how often its fields were destroyed, and whether it is open.
unfoldable pub answered : ℕ → List RequestEffect → ℕ
answered i [] = 0
answered i (ok_cb n password ∷ es) = let rest = answered i es in if n == i then suc rest else rest
answered i (cancel_cb n ∷ es) = let rest = answered i es in if n == i then suc rest else rest
answered i (fields_destroyed _ ∷ es) = answered i es

unfoldable pub destroyed : ℕ → List RequestEffect → ℕ
destroyed i [] = 0
destroyed i (fields_destroyed n ∷ es) =
    let rest = destroyed i es in if n == i then suc rest else rest
destroyed i (_ ∷ es) = destroyed i es

unfoldable pub open_times : ℕ → List FieldsData → ℕ
open_times i [] = 0
open_times i (fd ∷ fds) = let rest = open_times i fds in if fd.number == i then suc rest else rest

abbrev pub request_step : Base → Requests → RequestCall → Option Requests
request_step B R (requests_fields has_password has_remember has_ok has_cancel) =
    some (request_fields R has_password has_remember has_ok has_cancel)
request_step B R (closes_request n) = some (purple_request_close R n)
request_step B R is_idle = run_idle R
request_step B R (is_prompted answer) = prompted B R answer

unfoldable pub request_run : Base → Requests → List RequestCall → Option Requests
request_run B = for_each (request_step B)

-- A request that was made is open, or its fields were destroyed, once; it was answered no more often
-- than they were.
abbrev IsClosedOnce : ℕ → Requests → Type 0
IsClosedOnce i R =
    (i < R.next → open_times i R.opened + destroyed i R.log ≡ 1)
    × (R.next ≤ i → open_times i R.opened + destroyed i R.log ≡ 0)
    × (answered i R.log ≤ destroyed i R.log)

pub find_request-number :
    (fds : List FieldsData) (n : ℕ) (fd : FieldsData)
    → find_request fds n ≡ some fd
    → (fd.number ≡ n)
      × ((i : ℕ) → open_times i fds ≡ open_times i (remove_request fds n) + open_times i (fd ∷ []))
unfolding find_request remove_request open_times
find_request-number [] n fd f = absurd cc
find_request-number (gd ∷ fds) n fd f = elim (Bool-cases (gd.number == n)) [
  | inl e ↦
      let same : gd ≡ fd = some_inj (sym (if_true (gd.number == n) (some gd) _ e) ∙ f) in
      (
        ap (λ d. d.number) (sym same) ∙ (==_iff gd.number n).0 e,
        λ i. let same_number = ap (λ d. d.number) same in ground (arith, e, same_number),
      )
  | inr e ↦
      let (d, g) =
        find_request-number fds n fd (sym (if_false (gd.number == n) (some gd) _ e) ∙ f) in
      (d, λ i. ground (arith, g i))
]

-- A request is answered, or is not, and is closed.
closed-IsClosedOnce :
    (i : ℕ) (R : Requests) (fd : FieldsData) (log : List RequestEffect)
    → find_request R.opened fd.number ≡ some fd
    → answered i log ≤ answered i R.log + open_times i (fd ∷ [])
    → destroyed i log ≡ destroyed i R.log
    → IsClosedOnce i R
    → IsClosedOnce i (close_request (record R { log = log }) fd)
unfolding close_request answered destroyed open_times
closed-IsClosedOnce i R fd log f a d (p, q, r) =
    let g = (find_request-number R.opened fd.number fd f).1 i in ground (arith, g, a, d, p, q, r)

pub close-at :
    (R : Requests) (n : ℕ) (fd : FieldsData)
    → find_request R.opened n ≡ some fd
    → purple_request_close R n ≡ close_request R fd
unfolding purple_request_close close_found
close-at R n fd f = ap (close_found R) f

-- The request that is answered, and closed, is the one that is found.
ended-IsClosedOnce :
    (i : ℕ) (R S : Requests) (n : ℕ) (log : FieldsData → List RequestEffect)
    → ((fd : FieldsData)
        → (answered i (log fd) ≤ answered i R.log + open_times i (fd ∷ []))
          × (destroyed i (log fd) ≡ destroyed i R.log))
    → IsClosedOnce i R
    → (find_request R.opened n >>= λ fd. some (purple_request_close (record R { log = log fd }) n))
      ≡ some S
    → IsClosedOnce i S
ended-IsClosedOnce i R S n log keep h f =
    let (fd, g, k) = bind_inv (find_request R.opened n) _ f in
    let number = (find_request-number R.opened n fd g).0 in
    let (a, d) = keep fd in
    subst (IsClosedOnce i) (sym (close-at (record R { log = log fd }) n fd g) ∙ some_inj k)
      (closed-IsClosedOnce i R fd (log fd) (ap (find_request R.opened) number ∙ g) a d h)

password_answer-counts :
    (i : ℕ) (fd : FieldsData) (password : Option String) (log : List RequestEffect)
    → (answered i (password_answer fd password log) ≤ answered i log + open_times i (fd ∷ []))
      × (destroyed i (password_answer fd password log) ≡ destroyed i log)
unfolding answered destroyed open_times password_answer
password_answer-counts i fd (some password) log =
    if_intro
      (λ (l : List RequestEffect).
        (answered i l ≤ answered i log + open_times i (fd ∷ []))
        × (destroyed i l ≡ destroyed i log))
      fd.has_ok (ground arith, refl) (omega arith, refl)
password_answer-counts i fd none log =
    if_intro
      (λ (l : List RequestEffect).
        (answered i l ≤ answered i log + open_times i (fd ∷ []))
        × (destroyed i l ≡ destroyed i log))
      fd.has_cancel (ground arith, refl) (omega arith, refl)

answer-IsClosedOnce :
    (i : ℕ) (R S : Requests) (n : ℕ) (password : Option String)
    → IsClosedOnce i R
    → request_password_cb R n password ≡ some S
    → IsClosedOnce i S
unfolding request_password_cb
answer-IsClosedOnce i R S n password h f =
    ended-IsClosedOnce i R S n (λ fd. password_answer fd password R.log)
      (λ fd. password_answer-counts i fd password R.log) h f

step-IsClosedOnce :
    (i : ℕ) (B : Base) (R S : Requests) (c : RequestCall)
    → IsClosedOnce i R
    → request_step B R c ≡ some S
    → IsClosedOnce i S
unfolding request_fields run_idle first_idle request_fields_destroy prompted hand_over open_times
    purple_request_close close_found request_password_cb secret_of
step-IsClosedOnce i B R S (requests_fields has_password has_remember has_ok has_cancel) (p, q, r)
      f =
    subst (IsClosedOnce i) (some_inj f) (
      if_intro (IsClosedOnce i) (has_password && has_remember)
        (ground (arith, p, q), ground (arith, p, q), r)
        (ground (arith, p, q), ground (arith, p, q), r))
step-IsClosedOnce i B R S (closes_request n) h f = elim (Option-cases (find_request R.opened n)) [
  | inl e ↦ subst (IsClosedOnce i) (sym (ap (close_found R) e) ∙ some_inj f) h
  | inr (fd, e) ↦
      let number = (find_request-number R.opened n fd e).0 in
      subst (IsClosedOnce i) (sym (close-at R n fd e) ∙ some_inj f) (
        closed-IsClosedOnce i R fd R.log (ap (find_request R.opened) number ∙ e) (omega arith) refl
          h)
]
step-IsClosedOnce i B R S is_idle h f = elim (List-cases R.idle) [
  | inl e ↦ subst (IsClosedOnce i) (some_inj (sym (ap (first_idle R) e) ∙ f)) h
  | inr (n, ns, e) ↦
      ended-IsClosedOnce i (record R { idle = ns }) S n (λ fd. password_answer fd none R.log)
        (λ fd. password_answer-counts i fd none R.log) h (sym (ap (first_idle R) e) ∙ f)
]
step-IsClosedOnce i B R S (is_prompted answer) h f =
    let T : Requests = record R { connection = prompt_cb B R.connection answer } in
    elim (Option-cases R.connection.password_request) [
      | inl e ↦ subst (IsClosedOnce i) (some_inj (sym (ap (λ o. hand_over T o answer) e) ∙ f)) h
      | inr (asker, e) ↦
          answer-IsClosedOnce i T S asker (secret_of answer) h
            (sym (ap (λ o. hand_over T o answer) e) ∙ f)
    ]

-- Whatever calls a connection without requests gets that use no freed memory: each request that was
-- made is open, or its fields were destroyed, and they were once; it was answered once at most, and
-- not while it is open. None that was not made was answered.
pub request_ends_once :
    (i : ℕ) (B : Base) (C : Connection) (R : Requests) (calls : List RequestCall)
    → request_run B (new_requests C) calls ≡ some R
    → (i < R.next → open_times i R.opened + destroyed i R.log ≡ 1)
      × (R.next ≤ i → open_times i R.opened + destroyed i R.log ≡ 0)
      × (answered i R.log ≤ destroyed i R.log)
unfolding request_run new_requests open_times destroyed answered
request_ends_once i B C R calls f =
    for_each_inv (IsClosedOnce i) (request_step B) (λ S T c h e. step-IsClosedOnce i B S T c h e)
      (new_requests C) R calls (λ l. absurd (omega arith), λ l. refl, omega arith) f
