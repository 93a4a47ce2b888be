-- ===== src/ContactList/State.antt =====
-- The state of a HazeContactList (src/contact-list.c, src/contact-list.h), and what it emits.
use telepathy_haze.Prelude.{ℕ, String, Option, List, [], ◌∷◌}
use telepathy_haze.Prelude.Sets.{HandleSet}

-- PublishRequestData. `addr` is its address, which libpurple holds on to; the table of pending
-- requests owns the object, so an address is live as long as a request in the table has it.
pub record Request : Type 0 where
  pub addr : ℕ
  pub handle : ℕ
  pub message : Option String
  pub allow : ℕ
  pub deny : ℕ
  pub user_data : ℕ

-- TpSubscriptionState, as far as the contact list uses it.
pub data SubscriptionState : Type 0 where
  unknown no ask yes' : SubscriptionState

-- Calls out of the contact list: libpurple's callbacks, the signals of TpBaseContactList, and the
-- messages to the server.
pub data Effect : Type 0 where
  called : ℕ → ℕ → Effect
  contact_changed : ℕ → Effect
  contact_removed : ℕ → Effect
  groups_changed : ℕ → List String → List String → Effect
  groups_created : String → Effect
  groups_removed : String → Effect
  group_renamed : String → String → Effect
  account_add_buddy : String → Effect
  account_remove_buddy : String → ℕ → Effect

-- HazeContactListPrivate, with the effects so far, newest first.
pub record ContactList : Type 0 where
  pub pending : List (ℕ × Request)
  pub publishing_to : HandleSet
  pub not_publishing_to : HandleSet
  pub out : List Effect

-- haze_contact_list_constructor
unfoldable pub new : ContactList
new = record { pending = []; publishing_to = []; not_publishing_to = []; out = [] }

abbrev pub emit : ContactList → Effect → ContactList
emit s e = record s { out = e ∷ s.out }
