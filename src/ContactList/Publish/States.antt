-- ===== src/ContactList/Publish/States.antt =====
-- src/contact-list.c: the publish states of haze_contact_list_dup_states as an abstract machine with
-- one state for each contact.
use telepathy_haze.ContactList.Publish.{
  accepts, publish_state, step, rejects, accept_publish_request, request_authorize,
  reject_publish_request, request_of, Authorization, close_account_request, authorizes, request_at,
  Call, closes,
}
use telepathy_haze.ContactList.Publish.Invariant.{new-IsSound, run-IsSound, IsSound}
use telepathy_haze.ContactList.State.{new, SubscriptionState, Request, ContactList}
use telepathy_haze.Prelude.{
  List, for_each, none, Option-cases, subst, inl, some_inj, Option, ◌==◌, ◌≡◌, arith, inr,
  if◌then◌else◌, some, ℕ,
}
use telepathy_haze.Prelude.Sets.{member-remove, member-add}
use telepathy_haze.Prelude.Table.{lookup-delete, lookup, lookup-insert}
use telepathy_haze.Telepathy.{Handles}

-- What a call means for the contacts.
pub data Event : Type 0 where
  asked granted refused cancelled : ℕ → Event
  nothing : Event

abbrev pub target : Event → Option ℕ
target (asked h) = some h
target (granted h) = some h
target (refused h) = some h
target (cancelled h) = some h
target nothing = none

-- An answer concerns a contact that waits for one, and no other.
abbrev pub answer : SubscriptionState → SubscriptionState → SubscriptionState
answer outcome SubscriptionState.ask = outcome
answer outcome old = old

abbrev pub after : Event → SubscriptionState → SubscriptionState
after (asked h) old = SubscriptionState.ask
after (granted h) old = answer SubscriptionState.yes' old
after (refused h) old = answer SubscriptionState.no old
after (cancelled h) old = answer SubscriptionState.no old
after nothing old = old

abbrev pub spec_step : Event → (ℕ → SubscriptionState) → ℕ → SubscriptionState
spec_step e view k = elim (target e) [
  | none ↦ view k
  | some h ↦ if h == k then after e (view k) else view k
]

unfoldable pub event : Handles → ContactList → Call → Event
event R s (authorizes a) = asked (R.ensure a.remote_user)
event R s (accepts h) = granted h
event R s (rejects h) = refused h
event R s (closes addr) = elim (request_at addr s.pending) [
  | none ↦ nothing
  | some r ↦ cancelled r.handle
]

authorize-refines :
    (R : Handles) (s : ContactList) (a : Authorization) (k : ℕ)
    → publish_state (request_authorize R s a) k
      ≡ spec_step (asked (R.ensure a.remote_user)) (publish_state s) k
unfolding request_authorize publish_state
authorize-refines R s a k =
    let h = R.ensure a.remote_user in
    ground (
      arith,
      lookup-insert h k (request_of R a) s.pending,
      member-remove s.publishing_to h k,
      member-add s.not_publishing_to h k,
    )

accept-refines :
    (s t : ContactList) (h k : ℕ)
    → accept_publish_request s h ≡ some t
    → publish_state t k ≡ spec_step (granted h) (publish_state s) k
unfolding accept_publish_request publish_state
accept-refines s t h k e =
    ground (arith, lookup-delete h k s.pending, member-add s.publishing_to h k)

reject-refines :
    (s t : ContactList) (h k : ℕ)
    → IsSound s k
    → reject_publish_request s h ≡ some t
    → publish_state t k ≡ spec_step (refused h) (publish_state s) k
unfolding reject_publish_request publish_state
reject-refines s t h k v e = elim (Option-cases (lookup k s.pending)) [
  | inl f ↦ ground (arith, f, lookup-delete h k s.pending, member-add s.not_publishing_to h k)
  | inr (r, f) ↦
      ground (
        arith,
        f,
        v.unpublished r f,
        lookup-delete h k s.pending,
        member-add s.not_publishing_to h k,
      )
]

close-refines :
    (s t : ContactList) (addr k : ℕ) (q : Request)
    → IsSound s k
    → request_at addr s.pending ≡ some q
    → close_account_request s addr ≡ some t
    → publish_state t k ≡ spec_step (cancelled q.handle) (publish_state s) k
unfolding close_account_request publish_state
close-refines s t addr k q v live e = elim (Option-cases (lookup k s.pending)) [
  | inl f ↦
      ground
        (arith, f, lookup-delete q.handle k s.pending, member-add s.not_publishing_to q.handle k)
  | inr (r, f) ↦ ground (
    arith,
    f,
    v.unpublished r f,
    lookup-delete q.handle k s.pending,
    member-add s.not_publishing_to q.handle k,
  )
]

-- One call on a contact list whose requests are sound.
pub step-refines :
    (R : Handles) (s t : ContactList) (c : Call)
    → ((k : ℕ) → IsSound s k)
    → step R s c ≡ some t
    → (k : ℕ) → publish_state t k ≡ spec_step (event R s c) (publish_state s) k
unfolding step event
step-refines R s t (authorizes a) v e k =
    subst (λ u. publish_state u k ≡ spec_step (asked (R.ensure a.remote_user)) (publish_state s) k)
      (some_inj e) (authorize-refines R s a k)
step-refines R s t (accepts h) v e k = accept-refines s t h k e
step-refines R s t (rejects h) v e k = reject-refines s t h k (v k) e
step-refines R s t (closes addr) v e k = elim (Option-cases (request_at addr s.pending)) [
  | inl dead ↦ absurd (unfold close_account_request in ground (arith, dead))
  | inr (q, live) ↦ ground (arith, live, close-refines s t addr k q (v k) live e)
]

-- A call that does not abort, on a contact list that other such calls made from a new one, moves the
-- publish states of all contacts as the abstract machine does: a request makes its sender's state
-- `ask`, an answer or a cancellation resolves a state that is `ask`, and no other state changes.
pub publish-refines :
    (R : Handles) (cs : List Call) (s t : ContactList) (c : Call) (k : ℕ)
    → for_each (step R) new cs ≡ some s
    → step R s c ≡ some t
    → publish_state t k ≡ spec_step (event R s c) (publish_state s) k
publish-refines R cs s t c k e f =
    step-refines R s t c (λ j. run-IsSound R new s cs j (new-IsSound j) e) f k
