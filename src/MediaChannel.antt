-- ===== src/MediaChannel.antt =====
-- The channels of audio and video calls (src/media-channel.c). `none` of an operation is a failed
-- assertion, a use of the NULL pointer, or a read outside of an array.
pub mod Pending
mod Tests
pub mod Session
pub mod Requests
pub mod Members
pub mod Removal
pub mod Satisfied
pub mod Calls
pub mod Fit
pub mod Fitting
pub mod Answers
pub mod Ended
pub mod Refusals
pub mod Told
pub mod Attempts
pub mod Initiation
use telepathy_haze.Prelude.{ℕ, Bool, Option, ◌∷◌, List}

-- TP_MEDIA_STREAM_TYPE_AUDIO and _VIDEO
abbrev pub audio : ℕ
audio = 0

abbrev pub video : ℕ
video = 1

-- HazeMediaStream: its name is known by its address, too.
pub record Stream : Type 0 where
  pub id : ℕ
  pub media_type : ℕ
  pub name_at : ℕ
  pub connection_state : ℕ
  pub combined_direction : ℕ

-- TP_STRUCT_TYPE_MEDIA_STREAM_INFO
pub record StreamInfo : Type 0 where
  pub info_id : ℕ
  pub peer : ℕ
  pub info_type : ℕ
  pub state : ℕ
  pub direction : ℕ
  pub pending_send : ℕ

pub data Error : Type 0 where
  cancelled not_implemented not_available invalid_argument invalid_handle : Error

-- PendingStreamRequest, by its address; the context is that of the two callbacks.
pub record PendingStreamRequest : Type 0 where
  pub at : ℕ
  pub types : List ℕ
  pub streams : List (Option Stream)
  pub satisfied : ℕ
  pub context : Option ℕ

-- A change of members of the group mixin: those to add, to remove, and to make local or remote pending,
-- with the actor.
pub record Change : Type 0 where
  pub add : List ℕ
  pub del : List ℕ
  pub add_local_pending : List ℕ
  pub add_remote_pending : List ℕ
  pub actor : ℕ

-- PurpleMediaInfoType, as far as the code looks at it
pub data Info : Type 0 where
  accept reject hangup : Info

-- What a channel emits, and what it asks of telepathy-glib and libpurple, the newest first.
pub data Effect : Type 0 where
  -- succeeded_cb and failed_cb, with the context
  succeeded : ℕ → List StreamInfo → Effect
  failed : ℕ → Error → Effect
  change_members : Change → Effect
  stream_info : Info → Bool → Effect
  closed_signal : Effect
  new_session_handler : Effect
  stream_added : ℕ → ℕ → ℕ → Effect
  stream_direction_changed : ℕ → ℕ → ℕ → Effect
  stream_state_changed : ℕ → ℕ → Effect
  stream_removed : ℕ → Effect
  set_combined_direction : ℕ → ℕ → Effect
  initiate_media : ℕ → ℕ → Effect
  media_end : ℕ → Effect
  remove_can_add : Effect

-- HazeMediaChannelPrivate, with the handle of the user, and where the next request would be allocated.
pub record Channel : Type 0 where
  pub self_handle : ℕ
  pub creator : ℕ
  pub initial_peer : ℕ
  pub has_media : Bool
  pub pending_stream_requests : List PendingStreamRequest
  pub next_request : ℕ
  pub hold_state : ℕ
  pub initial_audio : Bool
  pub initial_video : Bool
  pub media_ended : Bool
  pub closed : Bool
  pub dispose_has_run : Bool
  -- init_media_cb is connected
  pub listens : Bool
  pub log : List Effect

abbrev pub does : Channel → Effect → Channel
does C e = record C { log = e ∷ C.log }
