-- ===== src/ContactList/Publish/Answers.antt =====
-- src/contact-list.c: which calls abort, and how often a request is answered.
use telepathy_haze.ContactList.Publish.{
  Authorization, reject_publish_request, accept_publish_request, request_at, close_account_request,
  request_authorize, closes, Call, rejects, authorizes, step, accepts,
}
use telepathy_haze.ContactList.State.{ContactList, new, called, Request, Effect}
use telepathy_haze.Prelude.{
  for_each_inv, refl, List, arith, [], ℕ, none, ◌≢◌, ◌≤◌, inl, Bool-cases, ◌≡◌, ◌+◌, ◌==◌,
  Option-cases, for_each, ◌>>=◌, inr, if◌then◌else◌, ◌∷◌, All, some,
}
use telepathy_haze.Prelude.Table.{insert, lookup, delete}
use telepathy_haze.Telepathy.{Handles}
use telepathy_haze.Purple.Sample.{fresh}

-- The calls of libpurple's callbacks with `d`, and the objects that hold it.
abbrev pub answers : ℕ → List Effect → ℕ
answers d [] = 0
answers d (called cb x ∷ es) = (if x == d then 1 else 0) + answers d es
answers d (_ ∷ es) = answers d es

abbrev pub waiting : ℕ → List (ℕ × Request) → ℕ
waiting d [] = 0
waiting d ((_, r) ∷ t) = (if r.user_data == d then 1 else 0) + waiting d t

abbrev pub requested_by : ℕ → Call → ℕ
requested_by d (authorizes a) = if a.user_data == d then 1 else 0
requested_by d _ = 0

abbrev pub requested : ℕ → List Call → ℕ
requested d [] = 0
requested d (c ∷ cs) = requested_by d c + requested d cs

waiting-delete-le : (d k : ℕ) (p : List (ℕ × Request)) → waiting d (delete k p) ≤ waiting d p
unfolding delete
waiting-delete-le d k [] = omega arith
waiting-delete-le d k ((j, r) ∷ p) = ground (arith, waiting-delete-le d k p)

-- The object that is freed is no longer counted.
waiting-delete :
    (d k : ℕ) (p : List (ℕ × Request)) (r : Request)
    → lookup k p ≡ some r
    → waiting d (delete k p) + (if r.user_data == d then 1 else 0) ≤ waiting d p
unfolding delete lookup
waiting-delete d k [] r e = absurd (ground arith)
waiting-delete d k ((j, q) ∷ p) r e = elim (Bool-cases (j == k)) [
  | inl f ↦ ground (arith, f, waiting-delete-le d k p)
  | inr f ↦ ground (arith, f, waiting-delete d k p r)
]

close-answers :
    (d addr : ℕ) (s t : ContactList)
    → close_account_request s addr ≡ some t
    → answers d t.out + waiting d t.pending ≤ answers d s.out + waiting d s.pending
unfolding close_account_request
close-answers d addr s t e = elim (Option-cases (request_at addr s.pending)) [
  | inl dead ↦ absurd (ground (arith, dead))
  | inr (q, live) ↦ ground (arith, live, waiting-delete-le d q.handle s.pending)
]

step-answers :
    (R : Handles) (d : ℕ) (s t : ContactList) (c : Call)
    → step R s c ≡ some t
    → answers d t.out + waiting d t.pending
      ≤ answers d s.out + waiting d s.pending + requested_by d c
unfolding step
step-answers R d s t (authorizes a) e =
    unfold request_authorize insert in
    ground (arith, waiting-delete-le d (R.ensure a.remote_user) s.pending)
step-answers R d s t (accepts h) e = elim (Option-cases (lookup h s.pending)) [
  | inl f ↦ unfold accept_publish_request in ground (arith, f)
  | inr (r, f) ↦
      unfold accept_publish_request in ground (arith, f, waiting-delete d h s.pending r f)
]
step-answers R d s t (rejects h) e = elim (Option-cases (lookup h s.pending)) [
  | inl f ↦ unfold reject_publish_request in ground (arith, f)
  | inr (r, f) ↦
      unfold reject_publish_request in ground (arith, f, waiting-delete d h s.pending r f)
]
step-answers R d s t (closes addr) e = omega (arith, close-answers d addr s t e)

run-answers :
    (R : Handles) (d : ℕ) (s t : ContactList) (cs : List Call)
    → for_each (step R) s cs ≡ some t
    → answers d t.out + waiting d t.pending ≤ answers d s.out + waiting d s.pending + requested d cs
unfolding for_each
run-answers R d s t [] e = ground (arith)
run-answers R d s t (c ∷ cs) e = elim (Option-cases (step R s c)) [
  | inl f ↦ absurd (cc (rw (f, ◌>>=◌) at e))
  | inr (u, f) ↦
      omega (arith, step-answers R d s u c f, run-answers R d u t cs (rw (f, ◌>>=◌) at e))
]

-- libpurple's callbacks are called at most once for each request that libpurple made, and not while
-- the request still waits: over any calls on a new contact list that do not abort, the calls with
-- some data and the waiting objects with it are no more than the requests with it.
pub answered_once :
    (R : Handles) (d : ℕ) (t : ContactList) (cs : List Call)
    → for_each (step R) new cs ≡ some t
    → answers d t.out + waiting d t.pending ≤ requested d cs
unfolding new
answered_once R d t cs e = omega (arith, run-answers R d new t cs e)

-- Every object stands under its own handle.
abbrev IsKeyed : List (ℕ × Request) → Type 0
IsKeyed = All (λ p. p.1.handle ≡ p.0)

delete-IsKeyed : (k : ℕ) (p : List (ℕ × Request)) → IsKeyed p → IsKeyed (delete k p)
unfolding delete
delete-IsKeyed k [] h = tt
delete-IsKeyed k ((j, r) ∷ p) h = ground (arith, delete-IsKeyed k p h.1)

step-IsKeyed :
    (R : Handles) (s t : ContactList) (c : Call)
    → IsKeyed s.pending
    → step R s c ≡ some t
    → IsKeyed t.pending
unfolding step
step-IsKeyed R s t (authorizes a) v e =
    unfold request_authorize insert in
    ground (arith, delete-IsKeyed (R.ensure a.remote_user) s.pending v)
step-IsKeyed R s t (accepts h) v e =
    unfold accept_publish_request in ground (arith, delete-IsKeyed h s.pending v)
step-IsKeyed R s t (rejects h) v e =
    unfold reject_publish_request in ground (arith, delete-IsKeyed h s.pending v)
step-IsKeyed R s t (closes addr) v e = elim (Option-cases (request_at addr s.pending)) [
  | inl dead ↦ absurd (unfold close_account_request in ground (arith, dead))
  | inr (q, live) ↦
      unfold close_account_request in ground (arith, live, delete-IsKeyed q.handle s.pending v)
]

request_at-lookup :
    (addr : ℕ) (p : List (ℕ × Request)) (r : Request)
    → IsKeyed p
    → request_at addr p ≡ some r
    → lookup r.handle p ≢ none
unfolding request_at lookup
request_at-lookup addr [] r h e = ground arith
request_at-lookup addr ((j, q) ∷ p) r h e = ground (arith, request_at-lookup addr p r h.1)

-- libpurple cancels a request by the address of its object, which has to be live.
abbrev pub IsLive : ContactList → Call → Type 0
IsLive s (closes addr) = request_at addr s.pending ≢ none
IsLive s _ = Unit

step_live :
    (R : Handles) (s : ContactList) (c : Call) → IsKeyed s.pending → IsLive s c → step R s c ≢ none
unfolding step
step_live R s (authorizes a) v l = ground arith
step_live R s (accepts h) v l = unfold accept_publish_request in ground arith
step_live R s (rejects h) v l = unfold reject_publish_request in ground arith
step_live R s (closes addr) v l = elim (Option-cases (request_at addr s.pending)) [
  | inl dead ↦ absurd (l dead)
  | inr (q, live) ↦
      unfold close_account_request in
      ground (arith, live, request_at-lookup addr s.pending q v live)
]

-- After any calls on a new contact list that do not abort: accepting, rejecting and a new request do
-- not abort, and cancelling a request by the address of a live object does not either.
pub step_total :
    (R : Handles) (cs : List Call) (s : ContactList) (c : Call)
    → for_each (step R) new cs ≡ some s
    → IsLive s c
    → step R s c ≢ none
step_total R cs s c e l =
    step_live R s c
      (for_each_inv (λ u. IsKeyed u.pending) (step R) (λ u w d v f. step-IsKeyed R u w d v f) new s
        cs (unfold new in tt) e)
      l

request_at-delete :
    (addr k : ℕ) (p : List (ℕ × Request))
    → request_at addr p ≡ none
    → request_at addr (delete k p) ≡ none
unfolding request_at delete
request_at-delete addr k [] e = refl
request_at-delete addr k ((j, r) ∷ p) e = ground (arith, request_at-delete addr k p)

-- A second request of the same contact, at another address, frees the object of the first, which
-- libpurple still holds: cancelling the first request then reads freed memory.
pub duplicate_dangles :
    (R : Handles) (s : ContactList) (a b : Authorization)
    → R.ensure a.remote_user ≡ R.ensure b.remote_user
    → request_at a.addr s.pending ≡ none
    → a.addr ≢ b.addr
    → close_account_request (request_authorize R (request_authorize R s a) b) a.addr ≡ none
unfolding close_account_request request_authorize insert delete
duplicate_dangles R s a b same fresh other =
    let h = R.ensure a.remote_user in
    ground (
      arith,
      same,
      request_at-delete a.addr h s.pending fresh,
      request_at-delete a.addr h (delete h s.pending) (request_at-delete a.addr h s.pending fresh),
    )
