-- ===== src/ImChannel.antt =====
-- A text channel with one contact (src/im-channel.c, src/im-channel.h). `none` is a failed assertion
-- or a use of a conversation that is gone.
pub mod Timers
pub mod Send
pub mod Receive
pub mod Life
mod Tests
use telepathy_haze.Prelude.{
  ◌/◌, ◌==◌, String, false, some, ◌∷◌, ℕ, ◌||◌, List, ◌%◌, none, Option, true, [], if◌then◌else◌,
  Bool,
}
use telepathy_haze.Prelude.Sets.{remove}

-- PurpleTypingState
pub data Typing : Type 0 where
  not_typing typing typed : Typing

-- The errors of Telepathy that the channel gives.
pub data Error : Type 0 where
  invalid_argument not_implemented : Error

-- HazeConversationUiData
pub record UiData : Type 0 where
  pub contact_handle : ℕ
  pub active_state : Typing
  pub resend_typing_timeout_id : ℕ

-- A message of the channel's queue: the header fields and the text that the code sets.
pub record Message : Type 0 where
  pub sender : ℕ
  pub message_type : ℕ
  pub message_sent : Option ℕ
  pub message_received : Option ℕ
  pub delivery_status : Option ℕ
  pub content_type : String
  pub content : String

-- HazeIMChannelPrivate, the queue of the message mixin, and the timers that run for the conversation.
pub record Channel : Type 0 where
  pub handle : ℕ
  pub initiator : ℕ
  pub conv : Option UiData
  pub closed : Bool
  pub dispose_has_run : Bool
  pub pending : List Message
  pub rescued : Bool
  pub timers : List ℕ

-- TpChannelTextMessageType
abbrev pub normal : ℕ
normal = 0

abbrev pub action : ℕ
action = 1

abbrev pub auto_reply : ℕ
auto_reply = 3

abbrev pub delivery_report : ℕ
delivery_report = 4

-- TP_DELIVERY_STATUS_TEMPORARILY_FAILED
abbrev pub temporarily_failed : ℕ
temporarily_failed = 2

-- PurpleMessageFlags
abbrev pub flag_send : ℕ
flag_send = 0x1

abbrev pub flag_recv : ℕ
flag_recv = 0x2

abbrev pub flag_auto_resp : ℕ
flag_auto_resp = 0x8

abbrev pub flag_error : ℕ
flag_error = 0x200

abbrev pub flag_delayed : ℕ
flag_delayed = 0x400

-- flags & flag, for a flag that is a power of two
abbrev pub has_flag : ℕ → ℕ → Bool
has_flag flags flag = flags / flag % 2 == 1

-- supported_message_types
unfoldable pub supported_message_types : List ℕ
supported_message_types = normal ∷ action ∷ auto_reply ∷ []

-- haze_create_conversation, for a conversation of two whose name has that handle
abbrev pub create_conversation : ℕ → UiData
create_conversation h = record {
  contact_handle = h;
  active_state = not_typing;
  resend_typing_timeout_id = 0;
}

-- haze_destroy_conversation, with the timer of the conversation
unfoldable pub destroy_conversation : Channel → Channel
destroy_conversation c = elim c.conv [
  | none ↦ c
  | some u ↦
      let t = record c { conv = none } in
      if u.resend_typing_timeout_id == 0
      then t
      else record t { timers = remove c.timers u.resend_typing_timeout_id }
]

-- The constructor and haze_im_channel_start.
unfoldable pub new_channel : ℕ → ℕ → Option Channel
new_channel handle initiator =
    if initiator == 0
    then none
    else some (record {
      handle = handle;
      initiator = initiator;
      conv = some (create_conversation handle);
      closed = false;
      dispose_has_run = false;
      pending = [];
      rescued = false;
      timers = [];
    })

-- The state after haze_im_channel_close, and whether the signal "closed" is emitted.
unfoldable pub close : Channel → Option (Channel × Bool)
unfolding destroy_conversation
close c = if c.closed then some (c, false) else elim c.pending [
  | [] ↦ elim c.conv [
    | none ↦ none
    | some _ ↦ some (record (destroy_conversation c) { closed = true }, true)
  ]
  | _ ∷ _ ↦
      if c.initiator == c.handle
      then some (record c { rescued = true }, true)
      else if c.initiator == 0 || c.handle == 0
      then none
      else some (record c { initiator = c.handle; rescued = true }, true)
]

-- tp_message_mixin_clear and then close
unfoldable pub destroy : Channel → Option (Channel × Bool)
unfolding close
destroy c = close (record c { pending = [] })

unfoldable pub dispose : Channel → Channel × Bool
unfolding destroy_conversation
dispose c =
    if c.dispose_has_run
    then (c, false)
    else let d = record c { dispose_has_run = true } in
      if c.closed then (d, false) else (record (destroy_conversation d) { closed = true }, true)

-- The typing state of a TpChannelChatState: inactive, active, paused, composing.
unfoldable pub typing_of : ℕ → Option Typing
typing_of state =
    if state == 1 || state == 2
    then some not_typing
    else if state == 3
    then some typed
    else if state == 4
    then some typing
    else none

abbrev pub is_not_typing : Typing → Bool
is_not_typing not_typing = true
is_not_typing _ = false

-- What one call leaves: the channel, the state that was sent, the error that was returned.
pub record Reply : Type 0 where
  pub channel : Channel
  pub sent : Option Typing
  pub error : Option Error

-- `send` is serv_send_typing, for a protocol that has send_typing, which the code asserts; `id` is the
-- source that g_timeout_add would make.
unfoldable pub set_chat_state : Option (Typing → ℕ) → ℕ → Channel → ℕ → Option Reply
unfolding typing_of
set_chat_state none id c state = none
set_chat_state (some send) id c state = elim c.conv [
  | none ↦ none
  | some u ↦
      let old = u.resend_typing_timeout_id in
      let u' = record u { resend_typing_timeout_id = 0 } in
      let t = if old == 0 then c else record c { conv = some u'; timers = remove c.timers old } in
      elim (typing_of state) [
        | none ↦ some (record { channel = t; sent = none; error = some invalid_argument })
        | some s ↦
            let v = record u' { active_state = s } in
            let quiet = send s == 0 || is_not_typing s in
            some (record {
              channel = if quiet then record t { conv = some v } else record t {
                conv = some (record v { resend_typing_timeout_id = id });
                timers = id ∷ t.timers;
              };
              sent = some s;
              error = none;
            })
      ]
]

-- The timer of the conversation fires; a callback that returns FALSE takes its source away.
unfoldable pub resend_typing_cb : (Typing → ℕ) → Channel → Option Reply
resend_typing_cb send c = elim c.conv [
  | none ↦ none
  | some u ↦
      let s = u.active_state in
      some (record {
        channel =
            if send s == 0
            then record c {
              conv = some (record u { resend_typing_timeout_id = 0 });
              timers = remove c.timers u.resend_typing_timeout_id;
            }
            else c;
        sent = some s;
        error = none;
      })
]
