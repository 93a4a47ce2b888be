-- ===== src/Capabilities.antt =====
-- The capabilities of contacts and of the user (src/connection-capabilities.c), with media enabled.
pub mod Flags
pub mod Reports
pub mod Updates
mod Tests
pub mod Announced
pub mod Attributes
pub mod Clients
pub mod Advertised
pub mod Agreement
use telepathy_haze.Prelude.{ℕ, String, List, [], ◌∷◌, ◌++◌, Option, some, none, Bool, true, false}

-- TP_IFACE_CHANNEL_TYPE_STREAMED_MEDIA and TP_IFACE_CHANNEL_TYPE_TEXT
abbrev pub streamed_media : String
streamed_media = "org.freedesktop.Telepathy.Channel.Type.StreamedMedia"

abbrev pub text_channel : String
text_channel = "org.freedesktop.Telepathy.Channel.Type.Text"

-- TP_CONNECTION_CAPABILITY_FLAG_CREATE | TP_CONNECTION_CAPABILITY_FLAG_INVITE
abbrev pub create_invite : ℕ
create_invite = 3

-- TP_CHANNEL_MEDIA_CAPABILITY_AUDIO and _VIDEO
abbrev pub tp_audio : ℕ
tp_audio = 1

abbrev pub tp_video : ℕ
tp_video = 2

-- PURPLE_MEDIA_CAPS_AUDIO and _VIDEO
abbrev pub purple_audio : ℕ
purple_audio = 1

abbrev pub purple_video : ℕ
purple_video = 4

-- A capability of a contact, as GetCapabilities gives it.
pub record Capability : Type 0 where
  pub handle : ℕ
  pub channel_type : String
  pub generic : ℕ
  pub specific : ℕ

pub data Property : Type 0 where
  target_handle initial_audio initial_video : Property

-- A class of channels that can be requested for a contact: its fixed channel type, and the properties
-- that a request may give.
pub record ChannelClass : Type 0 where
  pub fixed_type : String
  pub allowed : List Property

-- The signals CapabilitiesChanged, of a streamed media channel, and ContactCapabilitiesChanged.
pub data Signal : Type 0 where
  capabilities_changed : (handle old_generic new_generic old_specific new_specific : ℕ) → Signal
  contact_capabilities_changed : ℕ → List ChannelClass → Signal

-- A class of channels that a client handles.
pub record ClientClass : Type 0 where
  pub client_type : Option String
  pub handles_audio : Bool
  pub handles_video : Bool

-- The capabilities that libpurple announces for the user, and those of each client.
pub record Caps : Type 0 where
  pub ui_caps : ℕ
  pub client_caps : List (String × ℕ)

pub data Error : Type 0 where
  not_connected invalid_handle : Error
