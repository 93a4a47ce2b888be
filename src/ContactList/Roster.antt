-- ===== src/ContactList/Roster.antt =====
-- The contact list over libpurple's buddy list (src/contact-list.c): what libpurple's signals emit,
-- subscription, removal, and the questions that Telepathy asks. `none` is a failed assertion.
pub mod Contacts
pub mod Drops
pub mod Removal
mod Tests
use telepathy_haze.ContactList.Publish.{
  reject_publish_request, publish_request, publish_state, accept_publish_request,
}
use telepathy_haze.ContactList.State.{
  Effect, groups_changed, contact_removed, contact_changed, emit, account_remove_buddy, ContactList,
  account_add_buddy, SubscriptionState,
}
use telepathy_haze.Prelude.{
  ◌≡◌, some, ℕ, Bool, none, Option, for_each, ◌∷◌, String, true, List, if◌then◌else◌, false, fold,
  [], ◌==◌,
}
use telepathy_haze.Prelude.Sets.{add, HandleSet}
use telepathy_haze.Prelude.Table.{keys}
use telepathy_haze.Purple.{Blist, Buddy}
use telepathy_haze.Telepathy.{Handles}

pub record World (B : Blist) : Type 0 where
  pub blist : B.State
  pub list : ContactList
  -- base_conn->status == TP_CONNECTION_STATUS_DISCONNECTED
  pub disconnected : Bool

-- A connection normalises contact identifiers as libpurple does (src/connection.c), so that names
-- with one handle are names of one contact.
pub record Agrees (B : Blist) (R : Handles) : Type 0 where
  pub ensure_same : (n m : String) → B.normalize n ≡ B.normalize m → R.ensure n ≡ R.ensure m
  pub same_ensure :
      (n : String) (h : ℕ)
      → R.is_valid h ≡ true
      → R.ensure n ≡ h
      → B.normalize n ≡ B.normalize (R.inspect h)

abbrev pub emits : {B : Blist} → World B → Effect → World B
emits w e = record w { list = emit w.list e }

abbrev pub on_list : {B : Blist} → World B → Option ContactList → Option (World B)
on_list w none = none
on_list w (some l) = some (record w { list = l })

-- No buddy of the list but the given one.
unfoldable pub last_instance : Buddy → List Buddy → Bool
last_instance b [] = true
last_instance b (c ∷ cs) = if c.addr == b.addr then last_instance b cs else false

module _ (B : Blist) (R : Handles) where
  unfoldable pub buddy_added_cb : World B → Buddy → World B
  buddy_added_cb w b =
      let h = R.ensure b.name in
      let w' = emits w (contact_changed h) in
      emits w' (groups_changed h (B.group_name w.blist b.group ∷ []) [])

  unfoldable pub buddy_removed_cb : World B → Buddy → World B
  unfolding last_instance
  buddy_removed_cb w b =
      if w.disconnected
      then w
      else let h = R.ensure b.name in
        let w' = emits w (groups_changed h [] (B.group_name w.blist b.group ∷ [])) in
        if last_instance b (B.find_buddies w.blist b.name) then emits w' (contact_removed h) else w'

  -- purple_buddy_new and purple_blist_add_buddy, with the signal "buddy-added"
  unfoldable pub blist_add : World B → String → Option ℕ → World B
  unfolding buddy_added_cb
  blist_add w n g = let r = B.add_buddy w.blist n g in buddy_added_cb (record w { blist = r.0 }) r.1

  -- purple_blist_remove_buddy, with the signal "buddy-removed" once the buddy is out of the list
  unfoldable pub blist_remove : World B → Buddy → World B
  unfolding buddy_removed_cb
  blist_remove w b = buddy_removed_cb (record w { blist = B.remove_buddy w.blist b }) b

  unfoldable pub request_subscription : World B → ℕ → Option (World B)
  unfolding blist_add
  request_subscription w h =
      let bname = R.inspect h in
      elim (B.find_buddy w.blist bname) [
        | some _ ↦ none
        | none ↦ some (emits (blist_add w bname none) (account_add_buddy bname))
      ]

  unfoldable pub request_subscription_async : World B → HandleSet → Option (World B)
  unfolding request_subscription for_each
  request_subscription_async w contacts = for_each request_subscription w contacts

  -- The removal of one buddy from the server and from the list.
  unfoldable pub drop_buddy : World B → Buddy → World B
  unfolding blist_remove
  drop_buddy w b = blist_remove (emits w (account_remove_buddy b.name b.group)) b

  unfoldable pub remove_contact : World B → ℕ → Option (World B)
  unfolding drop_buddy fold reject_publish_request
  remove_contact w h =
      let w' = fold drop_buddy w (B.find_buddies w.blist (R.inspect h)) in
      on_list w' (reject_publish_request w'.list h)

  unfoldable pub remove_contacts_async : World B → HandleSet → Option (World B)
  unfolding remove_contact for_each
  remove_contacts_async w contacts = for_each remove_contact w contacts

  unfoldable pub authorize_publication_async : World B → HandleSet → Option (World B)
  unfolding accept_publish_request for_each
  authorize_publication_async w contacts =
      on_list w (for_each accept_publish_request w.list contacts)

  unfoldable pub add_named : HandleSet → Buddy → HandleSet
  unfolding add
  add_named s b = let h = R.ensure b.name in if h == 0 then s else add s h

  unfoldable pub dup_contacts : World B → HandleSet
  unfolding add_named add fold
  dup_contacts w =
      fold add (fold add_named w.list.publishing_to (B.all_buddies w.blist)) (keys w.list.pending)

  -- The subscribe state, the publish state and the message of the request.
  unfoldable pub dup_states : World B → ℕ → SubscriptionState × SubscriptionState × Option String
  unfolding publish_state publish_request
  dup_states w h =
      let sub : SubscriptionState = elim (B.find_buddy w.blist (R.inspect h)) [
        | some _ ↦ SubscriptionState.yes'
        | none ↦ SubscriptionState.no
      ] in
      (sub, publish_state w.list h, publish_request w.list h)
