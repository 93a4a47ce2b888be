-- ===== src/ContactList/Publish/Tests.antt =====
-- The theorems on publish requests at concrete calls.
use telepathy_haze.ContactList.Publish.{
  Authorization, request_at, request_authorize, step, closes, accepts, close_account_request, Call,
  authorizes, publish_state,
}
use telepathy_haze.ContactList.Publish.Answers.{
  requested, duplicate_dangles, step_total, answered_once, answers, waiting,
}
use telepathy_haze.ContactList.Publish.States.{event, spec_step, publish-refines}
use telepathy_haze.ContactList.State.{contact_changed, new, called, ContactList}
use telepathy_haze.Prelude.{◌∷◌, none, List, ◌+◌, ◌≢◌, refl, ◌≡◌, some, ℕ, for_each, [], arith, ◌≤◌}
use telepathy_haze.Prelude.Sets.{add, remove}
use telepathy_haze.Prelude.Table.{insert, delete, lookup}
use telepathy_haze.Telepathy.Sample.{ensure, two_contacts}

abbrev from_alice : ℕ → Authorization
from_alice addr = record {
  addr = addr;
  remote_user = "alice";
  message = some "hello";
  authorize_cb = 7;
  deny_cb = 8;
  user_data = 100 + addr;
}

abbrev asked_by_alice : ContactList
asked_by_alice = request_authorize two_contacts new (from_alice 40)

abbrev calls : List Call
calls = authorizes (from_alice 40) ∷ []

ran : for_each (step two_contacts) new calls ≡ some asked_by_alice
unfolding for_each step
ran = refl

abbrev accepted : ContactList
accepted = record {
  pending = [];
  publishing_to = 1 ∷ [];
  not_publishing_to = 1 ∷ [];
  out = contact_changed 1 ∷ called 7 140 ∷ contact_changed 1 ∷ [];
}

alice_accepted : step two_contacts asked_by_alice (accepts 1) ≡ some accepted
unfolding step request_authorize new lookup insert delete ensure add remove
alice_accepted = refl

publish-refines_example :
    publish_state accepted 1
    ≡ spec_step (event two_contacts asked_by_alice (accepts 1)) (publish_state asked_by_alice) 1
publish-refines_example =
    publish-refines two_contacts calls asked_by_alice accepted (accepts 1) 1 ran alice_accepted

abbrev more_calls : List Call
more_calls = authorizes (from_alice 40) ∷ accepts 1 ∷ []

ran_more : for_each (step two_contacts) new more_calls ≡ some accepted
unfolding for_each step request_authorize new lookup insert delete ensure add remove
ran_more = refl

answered_once_example :
    answers 140 accepted.out + waiting 140 accepted.pending ≤ requested 140 more_calls
answered_once_example = answered_once two_contacts 140 accepted more_calls ran_more

step_total_example : step two_contacts asked_by_alice (closes 40) ≢ none
unfolding request_authorize request_at new lookup insert delete
step_total_example = step_total two_contacts calls asked_by_alice (closes 40) ran (λ e. cc e)

duplicate_dangles_example :
    close_account_request
      (request_authorize two_contacts
        (request_authorize two_contacts new (from_alice 40))
        (from_alice 41))
      40
    ≡ none
unfolding new request_at
duplicate_dangles_example =
    duplicate_dangles two_contacts new (from_alice 40) (from_alice 41) refl refl (omega arith)
