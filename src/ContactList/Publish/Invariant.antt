-- ===== src/ContactList/Publish/Invariant.antt =====
-- src/contact-list.c: what holds of the publish requests between two calls.
use telepathy_haze.ContactList.Publish.{
  Call, authorizes, step, close_account_request, accepts, request_of, reject_publish_request,
  rejects, closes, accept_publish_request, request_authorize, request_at, Authorization,
}
use telepathy_haze.ContactList.State.{Request, new, ContactList}
use telepathy_haze.Prelude.{
  ◌≢◌, none, for_each_inv, some_inj, false, true, subst, List, some, Option-cases, inr, inl, ℕ,
  for_each, arith, ◌≡◌,
}
use telepathy_haze.Prelude.Sets.{member-add, member-remove, member}
use telepathy_haze.Prelude.Table.{lookup, lookup-delete, lookup-insert}
use telepathy_haze.Telepathy.{Handles}

-- What is known of the contact `h`.
pub record IsSound (s : ContactList) (h : ℕ) : Type 0 where
  pub keyed : (r : Request) → lookup h s.pending ≡ some r → r.handle ≡ h
  pub unpublished : (r : Request) → lookup h s.pending ≡ some r → member s.publishing_to h ≡ false
  pub refused : (r : Request) → lookup h s.pending ≡ some r → member s.not_publishing_to h ≡ true

accept-IsSound :
    (s t : ContactList) (h k : ℕ) → IsSound s k → accept_publish_request s h ≡ some t → IsSound t k
unfolding accept_publish_request
accept-IsSound s t h k v e = record {
  keyed = λ r f. ground (arith, v.keyed r, lookup-delete h k s.pending);
  unpublished = λ r f.
      ground (arith, v.unpublished r, lookup-delete h k s.pending, member-add s.publishing_to h k);
  refused = λ r f. ground (arith, v.refused r, lookup-delete h k s.pending);
}

reject-IsSound :
    (s t : ContactList) (h k : ℕ) → IsSound s k → reject_publish_request s h ≡ some t → IsSound t k
unfolding reject_publish_request
reject-IsSound s t h k v e = record {
  keyed = λ r f. ground (arith, v.keyed r, lookup-delete h k s.pending);
  unpublished = λ r f. ground (arith, v.unpublished r, lookup-delete h k s.pending);
  refused = λ r f.
      ground (arith, v.refused r, lookup-delete h k s.pending, member-add s.not_publishing_to h k);
}

authorize-IsSound :
    (R : Handles) (s : ContactList) (a : Authorization) (k : ℕ)
    → IsSound s k
    → IsSound (request_authorize R s a) k
unfolding request_authorize
authorize-IsSound R s a k v = record {
  keyed = λ r f.
      ground
        (arith, v.keyed r, lookup-insert (R.ensure a.remote_user) k (request_of R a) s.pending);
  unpublished = λ r f. ground (
    arith,
    v.unpublished r,
    lookup-insert (R.ensure a.remote_user) k (request_of R a) s.pending,
    member-remove s.publishing_to (R.ensure a.remote_user) k,
  );
  refused = λ r f. ground (
    arith,
    v.refused r,
    lookup-insert (R.ensure a.remote_user) k (request_of R a) s.pending,
    member-add s.not_publishing_to (R.ensure a.remote_user) k,
  );
}

close-IsSound :
    (s t : ContactList) (addr k : ℕ)
    → IsSound s k
    → close_account_request s addr ≡ some t
    → IsSound t k
unfolding close_account_request
close-IsSound s t addr k v e = elim (Option-cases (request_at addr s.pending)) [
  | inl dead ↦ ground (arith, dead)
  | inr (q, live) ↦ record {
    keyed = λ r f. ground (arith, live, v.keyed r, lookup-delete q.handle k s.pending);
    unpublished = λ r f. ground (arith, live, v.unpublished r, lookup-delete q.handle k s.pending);
    refused = λ r f. ground (
      arith,
      live,
      v.refused r,
      lookup-delete q.handle k s.pending,
      member-add s.not_publishing_to q.handle k,
    );
  }
]

-- Every call keeps the requests sound.
pub step-IsSound :
    (R : Handles) (s t : ContactList) (c : Call) (k : ℕ)
    → IsSound s k
    → step R s c ≡ some t
    → IsSound t k
unfolding step
step-IsSound R s t (authorizes a) k v e =
    subst (λ u. IsSound u k) (some_inj e) (authorize-IsSound R s a k v)
step-IsSound R s t (accepts h) k v e = accept-IsSound s t h k v e
step-IsSound R s t (rejects h) k v e = reject-IsSound s t h k v e
step-IsSound R s t (closes addr) k v e = close-IsSound s t addr k v e

pub run-IsSound :
    (R : Handles) (s t : ContactList) (cs : List Call) (k : ℕ)
    → IsSound s k
    → for_each (step R) s cs ≡ some t
    → IsSound t k
run-IsSound R s t cs k =
    for_each_inv (λ u. IsSound u k) (step R) (λ u w c v e. step-IsSound R u w c k v e) s t cs

pub new-IsSound : (k : ℕ) → IsSound new k
unfolding new lookup
new-IsSound k = record { keyed = λ r f. cc; unpublished = λ r f. cc; refused = λ r f. cc }

-- After any calls on a new contact list that do not abort: the request that waits under a handle
-- is one of that contact, and a contact with a waiting request is among those that we do not
-- publish to, and not among those that we publish to.
pub requests_sound :
    (R : Handles) (cs : List Call) (t : ContactList) (k : ℕ) (r : Request)
    → for_each (step R) new cs ≡ some t
    → lookup k t.pending ≡ some r
    → (r.handle ≡ k) × (member t.publishing_to k ≡ false) × (member t.not_publishing_to k ≡ true)
requests_sound R cs t k r e f =
    let v = run-IsSound R new t cs k (new-IsSound k) e in
    (v.keyed r f, v.unpublished r f, v.refused r f)

-- After a rejection the contact does not wait any more, whatever its state was.
pub reject-resolves :
    (s t : ContactList) (h : ℕ) → reject_publish_request s h ≡ some t → lookup h t.pending ≡ none
unfolding reject_publish_request
reject-resolves s t h e = ground (arith, lookup-delete h h s.pending)

pub reject-ne-none : (s : ContactList) (h : ℕ) → reject_publish_request s h ≢ none
unfolding reject_publish_request
reject-ne-none s h = ground arith
