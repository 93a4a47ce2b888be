-- ===== src/ImFactory.antt =====
-- The text channels of a connection (src/im-channel-factory.c). `none` is a failed assertion or a use
-- of the table of channels after it was destroyed.
pub mod Requests
pub mod Opened
pub mod Announced
pub mod Closing
pub mod Kept
pub mod Calls
pub mod Delivery
mod Tests
use telepathy_haze.ImChannel.{
  Channel, dispose, close, new_channel, destroy, typing, Typing, not_typing, typed,
}
use telepathy_haze.ImChannel.Receive.{receive}
use telepathy_haze.ImChannel.Send.{Markup}
use telepathy_haze.Prelude.{
  not, ◌||◌, ◌>>=◌, [], Option, none, true, ◌&&◌, List, if◌then◌else◌, ◌==◌, ◌∷◌, false, some,
  str_eq, Bool, ℕ, String,
}
use telepathy_haze.Prelude.Table.{lookup, insert, delete}

-- What the factory emits, the newest first. The requests of a new channel are the tokens with it.
pub data Event : Type 0 where
  new_channel_for : ℕ → List ℕ → Event
  channel_closed : ℕ → Event
  request_failed : ℕ → Event
  request_already_satisfied : ℕ → ℕ → Event
  chat_state_changed : ℕ → ℕ → Event

-- HazeImChannelFactoryPrivate; the table is gone after close_all. `disposed` is dispose_has_run.
pub record Factory : Type 0 where
  pub channels : Option (List (ℕ × Channel))
  pub status_changed_id : ℕ
  pub disposed : Bool
  pub events : List Event

-- haze_im_channel_factory_init and _constructed, with the id of the signal handler.
unfoldable pub new_factory : ℕ → Factory
new_factory id = record {
  channels = some [];
  status_changed_id = id;
  disposed = false;
  events = [];
}

abbrev pub emit : Factory → Event → Factory
emit F e = record F { events = e ∷ F.events }

-- The channel is in the table as it is now when its signal "closed" comes.
unfoldable pub im_channel_closed_cb : Factory → Channel → Factory
im_channel_closed_cb F c =
    let G = emit F (channel_closed c.handle) in
    elim F.channels [
      | none ↦ G
      | some t ↦
          if c.closed
          then record G { channels = some (delete c.handle t) }
          else emit G (new_channel_for c.handle [])
    ]

unfoldable pub new_im_channel : Factory → ℕ → ℕ → List ℕ → Option (Factory × Channel)
new_im_channel F handle initiator requests = elim F.channels [
  | none ↦ none
  | some t ↦ elim (lookup handle t) [
    | some _ ↦ none
    | none ↦ new_channel handle initiator >>= λ c. some (
      record F {
        channels = some (insert handle c t);
        events = new_channel_for handle requests ∷ F.events;
      },
      c,
    )
  ]
]

-- The channel, and whether it was created.
unfoldable pub get_im_channel : Factory → ℕ → ℕ → List ℕ → Option (Factory × Channel × Bool)
unfolding new_im_channel
get_im_channel F handle initiator requests = elim F.channels [
  | none ↦ none
  | some t ↦ elim (lookup handle t) [
    | some c ↦ some (F, c, false)
    | none ↦ new_im_channel F handle initiator requests >>= λ p. some (p.0, p.1, true)
  ]
]

-- The channel of a handle after a call on it.
abbrev pub put_channel : Factory → ℕ → Channel → Factory
put_channel F h c = elim F.channels [
  | none ↦ F
  | some t ↦ record F { channels = some (insert h c t) }
]

abbrev pub channel_of : Factory → ℕ → Option Channel
channel_of F h = F.channels >>= λ t. lookup h t

-- Close, called on the channel of a handle, with the callback of its signal.
unfoldable pub close_channel : Factory → ℕ → Option Factory
unfolding close im_channel_closed_cb
close_channel F h = channel_of F h >>= λ c. close c >>= λ p.
    some (if p.1 then im_channel_closed_cb (put_channel F h p.0) p.0 else put_channel F h p.0)

-- Destroy, in the same way.
unfoldable pub destroy_channel : Factory → ℕ → Option Factory
unfolding destroy im_channel_closed_cb
destroy_channel F h = channel_of F h >>= λ c. destroy c >>= λ p.
    some (if p.1 then im_channel_closed_cb (put_channel F h p.0) p.0 else put_channel F h p.0)

-- The disposal of the channels of the table, whose signals find the table gone.
unfoldable pub dispose_channels : Factory → List (ℕ × Channel) → Factory
unfolding dispose im_channel_closed_cb
dispose_channels F [] = F
dispose_channels F ((h, c) ∷ t) =
    let p = dispose c in dispose_channels (if p.1 then im_channel_closed_cb F p.0 else F) t

unfoldable pub close_all : Factory → Factory
unfolding dispose_channels
close_all F =
    record (elim F.channels [
      | none ↦ F
      | some t ↦ dispose_channels (record F { channels = none }) t
    ]) { status_changed_id = 0 }

-- TP_CONNECTION_STATUS_DISCONNECTED; the handler is connected while its id is not 0.
unfoldable pub status_changed_cb : Factory → ℕ → Factory
unfolding close_all
status_changed_cb F status =
    if status == 2 then if F.status_changed_id == 0 then F else close_all F else F

unfoldable pub factory_dispose : Factory → Factory
unfolding close_all
factory_dispose F = if F.disposed then F else close_all (record F { disposed = true })

-- haze_write_im, for a conversation of the contact `h`.
unfoldable pub write_im : Markup → Factory → ℕ → String → ℕ → ℕ → ℕ → Option Factory
unfolding get_im_channel receive
write_im M F h xhtml_message flags mtime now = get_im_channel F h h [] >>= λ p.
    some (put_channel p.0 h (receive M p.1 xhtml_message flags mtime now))

-- The TpChannelChatState of a PurpleTypingState: active, paused, composing.
abbrev pub chat_state_of : Typing → ℕ
chat_state_of not_typing = 2
chat_state_of typed = 3
chat_state_of typing = 4

-- A typing update of an IM conversation of the contact `h`.
unfoldable pub conversation_updated_cb : Factory → ℕ → Typing → Option Factory
unfolding get_im_channel
conversation_updated_cb F h typing_state = get_im_channel F h h [] >>= λ p.
    some (emit p.0 (chat_state_changed h (chat_state_of typing_state)))

-- The properties of a channel request that the code reads; `unknown_properties` is whether others than
-- the fixed and the allowed ones are there.
pub record Request : Type 0 where
  pub channel_type : Option String
  pub target_handle_type : ℕ
  pub target_handle : ℕ
  pub unknown_properties : Bool

-- TP_IFACE_CHANNEL_TYPE_TEXT
abbrev pub is_text : Option String → Bool
is_text none = false
is_text (some t) = str_eq t "org.freedesktop.Telepathy.Channel.Type.Text"

-- The channel that was there already cannot be the new one that was asked for.
unfoldable pub answer_existing : Factory → ℕ → ℕ → Bool → Factory
answer_existing F request_token h require_new =
    if require_new
    then emit F (request_failed request_token)
    else emit F (request_already_satisfied request_token h)

-- The factory and whether the request is its own: a text channel with a contact (handle type 1).
unfoldable pub request : Factory → ℕ → ℕ → Request → Bool → Option (Factory × Bool)
unfolding get_im_channel answer_existing
request F self_handle request_token r require_new =
    let h = r.target_handle in
    let found = get_im_channel F h self_handle (request_token ∷ []) >>= λ p.
    some (if p.2 then p.0 else answer_existing p.0 request_token h require_new, true) in
    if not (is_text r.channel_type) || not (r.target_handle_type == 1)
    then some (F, false)
    else if h == 0
    then none
    else if r.unknown_properties
    then some (emit F (request_failed request_token), true)
    else found

-- haze_im_channel_factory_create_channel and _ensure_channel
unfoldable pub create_channel : Factory → ℕ → ℕ → Request → Option (Factory × Bool)
unfolding request
create_channel F self_handle request_token r = request F self_handle request_token r true

unfoldable pub ensure_channel : Factory → ℕ → ℕ → Request → Option (Factory × Bool)
unfolding request
ensure_channel F self_handle request_token r = request F self_handle request_token r false
