-- ===== src/Avatars.antt =====
-- The avatars of contacts and of the user (src/connection-avatars.c). `none` of an operation is a
-- failed assertion, or a use of the NULL pointer.
pub mod Tokens
pub mod Setting
pub mod Limits
mod Tests
use telepathy_haze.Prelude.{ℕ, String, List, [], ◌≡◌, ◌≢◌, Option, some, none}

-- The data of an image, byte by byte.
abbrev pub Bytes : Type 0
Bytes = List ℕ

-- What the code takes from libpurple and from GLib: the icon of the account, those of the buddies that
-- are on the buddy list and have one, and how the account's is set; the digest of the sha1 cipher, and
-- g_strsplit at the commas.
pub record Icons : Type 1 where
  pub State : Type 0
  pub account_icon : State → Option Bytes
  pub buddy_icon : State → String → Option Bytes
  pub set_account_icon : State → Option Bytes → State
  pub sha1 : Bytes → String
  pub split : String → List String

-- libpurple keeps the data that it is given for the account, and takes an empty image for none; the icons
-- of the buddies stay as they are.
pub record IsIcons (I : Icons) : Type 0 where
  pub set_same :
      (s : I.State) (b : Bytes) → b ≢ [] → I.account_icon (I.set_account_icon s (some b)) ≡ some b
  pub set_none : (s : I.State) → I.account_icon (I.set_account_icon s none) ≡ none
  pub set_other :
      (s : I.State) (o : Option Bytes) (n : String)
      → I.buddy_icon (I.set_account_icon s o) n ≡ I.buddy_icon s n

-- PurpleBuddyIconSpec
pub record IconSpec : Type 0 where
  pub format : Option String
  pub min_width : ℕ
  pub min_height : ℕ
  pub max_width : ℕ
  pub max_height : ℕ
  pub max_filesize : ℕ

pub data Error : Type 0 where
  not_connected invalid_handle not_available invalid_argument : Error

-- The signals AvatarUpdated and AvatarRetrieved.
pub data Signal : Type 0 where
  avatar_updated : ℕ → String → Signal
  avatar_retrieved : ℕ → String → Bytes → Signal
