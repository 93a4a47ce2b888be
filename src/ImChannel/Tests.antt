-- ===== src/ImChannel/Tests.antt =====
-- The theorems on text channels at concrete calls.
use telepathy_haze.ImChannel.{
  flag_error, flag_recv, has_flag, Reply, UiData, supported_message_types, Message, Error,
  invalid_argument, flag_send, Channel, Typing, set_chat_state, typing, new_channel,
  create_conversation, typing_of,
}
use telepathy_haze.ImChannel.Life.{sets, step, timers_sound}
use telepathy_haze.ImChannel.Send.{Part, send, IsSendable, failed, send-IsSendable, Markup, sent}
use telepathy_haze.ImChannel.Timers.{IsTimed}
use telepathy_haze.Prelude.{
  In, ◌⊎◌, String, List, true, refl, [], arith, for_each, false, some, ℕ, ◌≡◌, inr, none, ◌∷◌,
}
use telepathy_haze.ImChannel.Receive.{IsReport, take_received, receive, receive_lem}
use telepathy_haze.Prelude.Sets.{remove}

abbrev plain : Markup
plain = record {
  strconcat = λ a b. b;
  markup_escape_text = λ t. t;
  strreplace = λ t _ _. t;
  strdup_withhtml = λ t. t;
  markup_strip_html = λ t. t;
  meify = λ _. none;
}

-- A channel with the contact 1 that the user 9 started.
abbrev opened : Channel
opened = record {
  handle = 1;
  initiator = 9;
  conv = some (create_conversation 1);
  closed = false;
  dispose_has_run = false;
  pending = [];
  rescued = false;
  timers = [];
}

-- The same while the user types: the state is sent again by the timer 5.
abbrev composing : Channel
composing = record opened {
  conv = some (record { contact_handle = 1; active_state = typing; resend_typing_timeout_id = 5 });
  timers = 5 ∷ [];
}

abbrev each_30s : Typing → ℕ
each_30s _ = 30

opened_new : new_channel 1 9 ≡ some opened
unfolding new_channel
opened_new = refl

composed : for_each step opened (sets (some each_30s) 4 4 ∷ []) ≡ some composing
unfolding for_each set_chat_state typing_of
composed = refl

timers_sound_example : IsTimed composing
timers_sound_example =
    timers_sound 1 9 opened composing (sets (some each_30s) 4 4 ∷ []) opened_new composed

composed-IsTimed : IsTimed composing
composed-IsTimed = inr (ground arith, refl, λ e. absurd cc)

-- Gone, the state 0, may not be set; the timer of the typing state is stopped.
abbrev refused : Reply
refused = record {
  channel = record composing {
    conv =
        some (record { contact_handle = 1; active_state = typing; resend_typing_timeout_id = 0 });
    timers = [];
  };
  sent = none;
  error = some invalid_argument;
}

refused_gone : set_chat_state (some each_30s) 6 composing 0 ≡ some refused
unfolding set_chat_state typing_of remove
refused_gone = refl

abbrev typing_ui : UiData
typing_ui = record { contact_handle = 1; active_state = typing; resend_typing_timeout_id = 5 }

abbrev hello : List Part
hello =
    record { message_type = none; content_type = none; content = none }
    ∷ record { message_type = none; content_type = some "text/plain"; content = some "hello" }
    ∷ []

send-IsSendable_example :
    ((text : String) × (flags : ℕ) × (send plain opened hello ≡ some (sent text flags))
      × IsSendable hello)
    ⊎ ((e : Error) × (send plain opened hello ≡ some (failed e)) × (¬ IsSendable hello))
send-IsSendable_example = send-IsSendable plain opened (create_conversation 1) hello refl

receive_lem_example :
    ((receive plain opened "hi" 2 7 8 ≡ opened)
      × (has_flag 2 flag_recv ≡ false)
      × ((has_flag 2 flag_send ≡ true) ⊎ (has_flag 2 flag_error ≡ false)))
    ⊎ ((m : Message) × (receive plain opened "hi" 2 7 8 ≡ take_received opened m)
        × (m.sender ≡ 1)
        × (((has_flag 2 flag_recv ≡ true) × In m.message_type supported_message_types)
            ⊎ ((has_flag 2 flag_recv ≡ false)
                × (has_flag 2 flag_send ≡ false)
                × (has_flag 2 flag_error ≡ true)
                × IsReport m)))
receive_lem_example = receive_lem plain opened "hi" 2 7 8
