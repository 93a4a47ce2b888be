-- ===== src/ContactList/Groups/Tests.antt =====
-- The theorems on groups at concrete states.
use telepathy_haze.ContactList.Groups.{
  not_available, remove_from_group_async, set_contact_groups_async, Error,
}
use telepathy_haze.ContactList.Groups.Contact.{set_contact_groups-only, set_contact_groups-all}
use telepathy_haze.ContactList.Groups.Names.{AreGroupNames, IsInGroup}
use telepathy_haze.ContactList.Groups.Removal.{remove_from_group-safe}
use telepathy_haze.ContactList.Roster.{World}
use telepathy_haze.ContactList.State.{new}
use telepathy_haze.Prelude.{
  some, inl, none, In, List, arith, Option, String, refl, [], ◌≢◌, eq_iff, false, ◌∷◌, inr, ◌≡◌,
}
use telepathy_haze.Prelude.Sets.{member}
use telepathy_haze.Purple.{Buddy, IsGroupName}
use telepathy_haze.Purple.Sample.{
  first_in, sample_new_group, find, name_of, group_of, sample_add, kill, sample, SampleState,
}
use telepathy_haze.Purple.Sample.Laws.{sample-IsBlist}
use telepathy_haze.Telepathy.Sample.{two_contacts, inspect}

-- Alice is in the group "Friends", which has the address 5.
abbrev alice : Buddy
alice = record { addr = 0; name = "alice"; group = 5 }

abbrev friends : SampleState
friends = record {
  slots = some (record { name = "alice"; group = 5 }) ∷ [];
  groups = (5, "Friends") ∷ [];
}

abbrev online : World sample
online = record { blist = friends; list = new; disconnected = false }

abbrev names : List String
names = "Work" ∷ []

alice-In : In alice (sample.find_buddies online.blist (two_contacts.inspect 1))
unfolding find inspect
alice-In = inl refl

friends_found : sample.find_group online.blist "Friends" ≡ some 5
unfolding group_of
friends_found = refl

fallback_named : IsGroupName sample "Buddies"
fallback_named = (refl, ground (arith, eq_iff "Buddies" ""))

work_named : AreGroupNames sample online.blist names
unfolding group_of
work_named = record {
  named = λ n i. elim i [ inl e ↦ (refl, ground (arith, e, eq_iff "Work" "")) | inr j ↦ absurd j ];
  distinct = λ n m i j e. e;
  canonical = λ n g i e. elim i [ inl f ↦ absurd (cc (rw f at e)) | inr j ↦ absurd j ];
}

abbrev moved : World sample
moved = set_contact_groups_async sample two_contacts "Buddies" online 1 names

moved_buddy :
    In
      (record { addr = 1; name = "alice"; group = 13 })
      (sample.find_buddies moved.blist (two_contacts.inspect 1))
unfolding set_contact_groups_async find inspect sample_new_group sample_add first_in kill name_of
    new
moved_buddy = inl refl

set_contact_groups-only_example : In (sample.group_name moved.blist 13) names
set_contact_groups-only_example =
    set_contact_groups-only sample two_contacts "Buddies" sample-IsBlist online 1 names
      (record { addr = 1; name = "alice"; group = 13 }) moved_buddy

set_contact_groups-all_example : IsInGroup sample two_contacts moved 1 "Work"
set_contact_groups-all_example =
    set_contact_groups-all sample two_contacts "Buddies" sample-IsBlist online 1 names "Work"
      work_named (inl refl)

-- Alice has no other group than "Friends", and goes to the fallback group.
abbrev left_friends : World sample × Option Error
left_friends = remove_from_group_async sample two_contacts "Buddies" online "Friends" (1 ∷ [])

left_ok : left_friends.1 ≡ none
unfolding remove_from_group_async find inspect sample_new_group sample_add new member
left_ok = refl

remove_from_group-safe_example :
    (c : Buddy) × In c (sample.find_buddies left_friends.0.blist (two_contacts.inspect 1))
    × (c.group ≢ 5)
remove_from_group-safe_example =
    remove_from_group-safe sample two_contacts "Buddies" sample-IsBlist online "Friends" 5 (1 ∷ [])
      1 alice fallback_named friends_found left_ok (inl refl) alice-In

-- The buddy that the removal made, in the group "Buddies".
abbrev alice_again : Buddy
alice_again = record { addr = 1; name = "alice"; group = 13 }

again_found : In alice_again (sample.find_buddies left_friends.0.blist (two_contacts.inspect 1))
unfolding remove_from_group_async find inspect sample_new_group sample_add new member kill group_of
again_found = inl refl

-- Alice is in "Friends" and in "Work".
abbrev twice : World sample
twice = record online {
  blist = record {
    slots = some (record { name = "alice"; group = 6 }) ∷ friends.slots;
    groups = (6, "Work") ∷ friends.groups;
  };
}

abbrev alice_at_work : Buddy
alice_at_work = record { addr = 1; name = "alice"; group = 6 }

work_found : sample.find_group twice.blist "Friends" ≡ some 5
unfolding group_of
work_found = refl

twice_ok : (remove_from_group_async sample two_contacts "Buddies" twice "Friends" (1 ∷ [])).1 ≡ none
unfolding remove_from_group_async find inspect sample_new_group sample_add new member group_of
twice_ok = refl

at_work : In alice_at_work (sample.find_buddies twice.blist "alice")
unfolding find
at_work = inl refl

-- "Friends" as the fallback group.
friends_named : IsGroupName sample "Friends"
friends_named = (refl, ground (arith, eq_iff "Friends" ""))

refused :
    (remove_from_group_async sample two_contacts "Friends" online "Friends" (1 ∷ [])).1
    ≡ some not_available
unfolding remove_from_group_async find inspect sample_new_group sample_add new member group_of
refused = refl
