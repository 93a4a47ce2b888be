-- ===== src/ContactList/Publish.antt =====
-- Requests of others to see our presence (src/contact-list.c): they wait until they are accepted,
-- rejected, or cancelled by libpurple. `none` is a failed assertion or a read of freed memory.
pub mod Invariant
pub mod States
pub mod Answers
mod Tests
use telepathy_haze.Prelude.{
  ℕ, String, Option, none, some, List, [], ◌∷◌, if◌then◌else◌, ◌==◌, ◌>>=◌,
}
use telepathy_haze.Prelude.Sets.{add, remove, member}
use telepathy_haze.Prelude.Table.{lookup, insert, delete}
use telepathy_haze.Telepathy.{Handles}
use telepathy_haze.ContactList.State.{
  Request, SubscriptionState, ContactList, emit, called, contact_changed,
}

-- g_assert (removed) holds exactly if the table has the key.
unfoldable pub remove_pending_publish_request : ContactList → ℕ → Option ContactList
remove_pending_publish_request s h = elim (lookup h s.pending) [
  | none ↦ none
  | some _ ↦ some (record s { pending = delete h s.pending })
]

unfoldable pub accept_publish_request : ContactList → ℕ → Option ContactList
unfolding remove_pending_publish_request
accept_publish_request s h = elim (lookup h s.pending) [
  | none ↦ some s
  | some r ↦ do
    let t = emit s (called r.allow r.user_data)
    u ← remove_pending_publish_request (record t { publishing_to = add t.publishing_to h }) h
    some (emit u (contact_changed h))
]

unfoldable pub reject_publish_request : ContactList → ℕ → Option ContactList
unfolding remove_pending_publish_request
reject_publish_request s h = elim (lookup h s.pending) [
  | none ↦ some s
  | some r ↦ do
    let t = emit s (called r.deny r.user_data)
    u ←
        remove_pending_publish_request (record t { not_publishing_to = add t.not_publishing_to h })
          h
    some (emit u (contact_changed h))
]

-- The arguments of libpurple's call that the contact list uses, and the address of the new object.
pub record Authorization : Type 0 where
  pub addr : ℕ
  pub remote_user : String
  pub message : Option String
  pub authorize_cb : ℕ
  pub deny_cb : ℕ
  pub user_data : ℕ

abbrev pub request_of : Handles → Authorization → Request
request_of R a = record {
  addr = a.addr;
  handle = R.ensure a.remote_user;
  message = a.message;
  allow = a.authorize_cb;
  deny = a.deny_cb;
  user_data = a.user_data;
}

unfoldable pub request_authorize : Handles → ContactList → Authorization → ContactList
request_authorize R s a =
    let h = R.ensure a.remote_user in
    emit
      (record s {
        pending = insert h (request_of R a) s.pending;
        publishing_to = remove s.publishing_to h;
        not_publishing_to = add s.not_publishing_to h;
      })
      (contact_changed h)

-- The live object at an address.
unfoldable pub request_at : ℕ → List (ℕ × Request) → Option Request
request_at addr [] = none
request_at addr ((_, r) ∷ t) = if r.addr == addr then some r else request_at addr t

unfoldable pub close_account_request : ContactList → ℕ → Option ContactList
unfolding request_at remove_pending_publish_request
close_account_request s addr = do
  r ← request_at addr s.pending
  let h = r.handle
  t ← remove_pending_publish_request (record s { not_publishing_to = add s.not_publishing_to h }) h
  some (emit t (contact_changed h))

-- The publish state and the message of haze_contact_list_dup_states.
unfoldable pub publish_state : ContactList → ℕ → SubscriptionState
publish_state s h = elim (lookup h s.pending) [
  | some _ ↦ SubscriptionState.ask
  | none ↦
      if member s.publishing_to h
      then SubscriptionState.yes'
      else if member s.not_publishing_to h
      then SubscriptionState.no
      else SubscriptionState.unknown
]

unfoldable pub publish_request : ContactList → ℕ → Option String
publish_request s h = elim (lookup h s.pending) [ some r ↦ r.message | none ↦ none ]

-- The calls that change the requests.
pub data Call : Type 0 where
  authorizes : Authorization → Call
  accepts : ℕ → Call
  rejects : ℕ → Call
  closes : ℕ → Call

unfoldable pub step : Handles → ContactList → Call → Option ContactList
unfolding accept_publish_request reject_publish_request request_authorize close_account_request
step R s (authorizes a) = some (request_authorize R s a)
step R s (accepts h) = accept_publish_request s h
step R s (rejects h) = reject_publish_request s h
step R s (closes addr) = close_account_request s addr
