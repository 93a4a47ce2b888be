-- ===== src/Purple.antt =====
-- What the code takes from libpurple: the buddy list, as seen from the account of one connection.
-- A PurpleBuddy is its address with the name and the group that libpurple gives it for life; a
-- PurpleGroup is its address.
pub mod Sample
use telepathy_haze.Prelude.{List, [], none, ◌⊎◌, Option, String, some, In, ◌≡◌, ◌≢◌, ℕ}

pub record Buddy : Type 0 where
  pub addr : ℕ
  pub name : String
  pub group : ℕ

-- The tree under a group: contacts, which hold buddies, and nodes of other types.
pub data Leaf : Type 0 where
  buddy_node : String → Leaf
  other_leaf : Leaf

pub data Node : Type 0 where
  contact_node : List Leaf → Node
  other_node : Node

-- The nodes of the whole list, in the order of purple_blist_node_next.
pub data Item : Type 0 where
  group_item : String → Item
  other_item : Item

pub record Blist : Type 1 where
  pub State : Type 0
  pub normalize : String → String
  pub collate : String → String
  pub strip_unprintables : String → String
  pub find_buddies : State → String → List Buddy
  -- purple_find_buddies with no name
  pub all_buddies : State → List Buddy
  pub find_buddy : State → String → Option Buddy
  pub find_buddy_in_group : State → String → ℕ → Option Buddy
  pub find_group : State → String → Option ℕ
  pub group_name : State → ℕ → String
  pub children : State → ℕ → List Node
  pub items : State → List Item
  -- purple_group_new, which gives the group of that name if there is one, and no group for ""
  pub new_group : State → String → State × Option ℕ
  -- purple_buddy_new and purple_blist_add_buddy; libpurple has a group of its own for `none`
  pub add_buddy : State → String → Option ℕ → State × Buddy
  pub remove_buddy : State → Buddy → State
  pub remove_group : State → ℕ → State
  pub rename_group : State → ℕ → String → State

-- A name that libpurple gives to a group as it is.
abbrev pub IsGroupName : Blist → String → Type 0
IsGroupName B n = (B.strip_unprintables n ≡ n) × (n ≢ "")

-- The documented behaviour that the contact list relies on.
module _ (B : Blist) where
  open B use {
    State, normalize, collate, find_buddies, all_buddies, find_buddy, find_buddy_in_group,
    find_group, group_name, new_group, add_buddy, remove_buddy,
  }

  pub record IsBlist : Type 0 where
    pub all_has :
        (s : State) (n : String) (b : Buddy) → In b (find_buddies s n) → In b (all_buddies s)
    pub all_only : (s : State) (b : Buddy) → In b (all_buddies s) → In b (find_buddies s b.name)
    pub find_name :
        (s : State) (n : String) (b : Buddy)
        → In b (find_buddies s n)
        → normalize b.name ≡ normalize n
    pub find_same :
        (s : State) (n m : String) → normalize n ≡ normalize m → find_buddies s n ≡ find_buddies s m
    -- the three searches agree, and an address belongs to one buddy
    pub find_buddy_none : (s : State) (n : String) → find_buddy s n ≡ none → find_buddies s n ≡ []
    pub find_buddies_nil : (s : State) (n : String) → find_buddies s n ≡ [] → find_buddy s n ≡ none
    pub in_group_sound :
        (s : State) (n : String) (g : ℕ) (b : Buddy)
        → find_buddy_in_group s n g ≡ some b
        → In b (find_buddies s n) × (b.group ≡ g)
    pub addr_inj :
        (s : State) (n m : String) (a b : Buddy)
        → In a (find_buddies s n)
        → In b (find_buddies s m)
        → a.addr ≡ b.addr
        → a ≡ b
    -- a new buddy is found under its name, with the others
    pub add_name : (s : State) (n : String) (g : Option ℕ) → (add_buddy s n g).1.name ≡ n
    pub add_group : (s : State) (n : String) (g : ℕ) → (add_buddy s n (some g)).1.group ≡ g
    pub add_keeps :
        (s : State) (n m : String) (g : Option ℕ) (b : Buddy)
        → In b (find_buddies s m)
        → In b (find_buddies (add_buddy s n g).0 m)
    pub add_adds :
        (s : State) (n m : String) (g : Option ℕ)
        → normalize m ≡ normalize n
        → In (add_buddy s n g).1 (find_buddies (add_buddy s n g).0 m)
    pub add_only :
        (s : State) (n m : String) (g : Option ℕ) (b : Buddy)
        → In b (find_buddies (add_buddy s n g).0 m)
        → ((b ≡ (add_buddy s n g).1) × (normalize m ≡ normalize n)) ⊎ In b (find_buddies s m)
    pub add_group_name :
        (s : State) (n : String) (g x : ℕ)
        → group_name (add_buddy s n (some g)).0 x ≡ group_name s x
    pub add_find_group :
        (s : State) (n m : String) (g x : ℕ)
        → find_group (add_buddy s n (some g)).0 m ≡ some x
        → (find_group s m ≡ some x) ⊎ ((x ≡ g) × (collate (group_name s g) ≡ collate m))
    pub add_keeps_group :
        (s : State) (n m : String) (g : Option ℕ) (x : ℕ)
        → find_group s m ≡ some x
        → find_group (add_buddy s n g).0 m ≡ some x
    -- a buddy that is removed is found no more
    pub remove_keeps :
        (s : State) (m : String) (c b : Buddy)
        → In b (find_buddies s m)
        → b.addr ≢ c.addr
        → In b (find_buddies (remove_buddy s c) m)
    pub remove_only :
        (s : State) (m : String) (c b : Buddy)
        → In b (find_buddies (remove_buddy s c) m)
        → In b (find_buddies s m) × (b.addr ≢ c.addr)
    pub remove_group_name :
        (s : State) (c : Buddy) (x : ℕ) → group_name (remove_buddy s c) x ≡ group_name s x
    -- a group is the one of that name, or a new one that nothing refers to
    pub new_find_buddies :
        (s : State) (n m : String) → find_buddies (new_group s n).0 m ≡ find_buddies s m
    pub new_known :
        (s : State) (n : String) (g : ℕ) → find_group s n ≡ some g → new_group s n ≡ (s, some g)
    pub new_some :
        (s : State) (n : String) → IsGroupName B n → (g : ℕ) × ((new_group s n).1 ≡ some g)
    pub new_name :
        (s : State) (n : String) (g : ℕ)
        → IsGroupName B n
        → find_group s n ≡ none
        → (new_group s n).1 ≡ some g
        → group_name (new_group s n).0 g ≡ n
    pub new_group_name :
        (s : State) (n : String) (x : ℕ)
        → (new_group s n).1 ≢ some x
        → group_name (new_group s n).0 x ≡ group_name s x
    pub new_fresh :
        (s : State) (n m : String) (b : Buddy)
        → find_group s n ≡ none
        → In b (find_buddies s m)
        → (new_group s n).1 ≢ some b.group
    pub new_unfound :
        (s : State) (n m : String) (x : ℕ)
        → find_group s n ≡ none
        → find_group s m ≡ some x
        → (new_group s n).1 ≢ some x
    pub new_keeps_group :
        (s : State) (n m : String) (x : ℕ)
        → find_group s m ≡ some x
        → find_group (new_group s n).0 m ≡ some x
    pub new_find_group :
        (s : State) (n m : String) (x : ℕ)
        → find_group (new_group s n).0 m ≡ some x
        → (find_group s m ≡ some x) ⊎ (((new_group s n).1 ≡ some x) × (collate n ≡ collate m))
