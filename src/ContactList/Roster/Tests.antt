-- ===== src/ContactList/Roster/Tests.antt =====
-- The theorems on the contact list and the buddy list at concrete states.
use telepathy_haze.ContactList.Roster.{remove_contact, Agrees, World, request_subscription_async}
use telepathy_haze.ContactList.Roster.Removal.{request_subscription_async-aborts}
use telepathy_haze.ContactList.State.{new}
use telepathy_haze.Prelude.{[], some, ◌≢◌, ◌∷◌, inl, inr, fold, In, false, ap, ◌≡◌, none, refl}
use telepathy_haze.Prelude.Table.{lookup}
use telepathy_haze.Purple.{Buddy}
use telepathy_haze.Purple.Sample.{sample, find, first, SampleState}
use telepathy_haze.Purple.Sample.Laws.{sample-IsBlist}
use telepathy_haze.Telepathy.Sample.{inspect, two_contacts, ensure, inspect-ensure}

agrees : Agrees sample two_contacts
agrees = record {
  ensure_same = λ n m e. ap ensure e;
  same_ensure = λ n h v e. inspect-ensure n h v e;
}

-- Alice is in the group "Friends", which has the address 5.
abbrev alice : Buddy
alice = record { addr = 0; name = "alice"; group = 5 }

abbrev friends : SampleState
friends = record {
  slots = some (record { name = "alice"; group = 5 }) ∷ [];
  groups = (5, "Friends") ∷ [];
}

abbrev online : World sample
online = record { blist = friends; list = new; disconnected = false }

alice_found : In alice (find friends.slots "alice")
unfolding find
alice_found = inl refl

alice_listed : sample.find_buddy online.blist (two_contacts.inspect 1) ≢ none
unfolding find first inspect
alice_listed e = cc e

abbrev without_bob : World sample
without_bob = online

bob_removed : remove_contact sample two_contacts online 2 ≡ some without_bob
unfolding remove_contact fold find inspect lookup new
bob_removed = refl

request_subscription_async-aborts_example :
    request_subscription_async sample two_contacts online (2 ∷ 1 ∷ []) ≡ none
request_subscription_async-aborts_example =
    request_subscription_async-aborts sample two_contacts sample-IsBlist online (2 ∷ 1 ∷ []) 1
      (inr (inl refl)) alice_listed
