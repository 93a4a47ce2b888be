-- ===== src/ImFactory/Tests.antt =====
-- The theorems on the factory of text channels at concrete calls.
use telepathy_haze.ImFactory.Calls.{signals_agree, step, requests}
use telepathy_haze.ImFactory.{
  new_factory, channel_of, write_im, get_im_channel, Factory, new_channel_for, new_im_channel,
  request, Request,
}
use telepathy_haze.ImChannel.{normal, new_channel, Message, create_conversation, Channel}
use telepathy_haze.ImChannel.Receive.{receive}
use telepathy_haze.ImChannel.Send.{Markup}
use telepathy_haze.ImFactory.Announced.{IsAnnounced}
use telepathy_haze.ImFactory.Delivery.{write_im_lem, receiver}
use telepathy_haze.ImFactory.Requests.{answers, request-answers}
use telepathy_haze.Prelude.{
  for_each, ◌≢◌, refl, true, none, ◌⊎◌, [], ◌≡◌, arith, some, ℕ, ◌+◌, ◌∷◌, false,
}
use telepathy_haze.Prelude.Table.{insert, delete, lookup}

-- Without any text processing.
abbrev plain : Markup
plain = record {
  strconcat = λ a b. b;
  markup_escape_text = λ t. t;
  strreplace = λ t _ _. t;
  strdup_withhtml = λ t. t;
  markup_strip_html = λ t. t;
  meify = λ _. none;
}

-- A request of the token 50 for a text channel with the contact 1.
abbrev asked : Request
asked = record {
  channel_type = some "org.freedesktop.Telepathy.Channel.Type.Text";
  target_handle_type = 1;
  target_handle = 1;
  unknown_properties = false;
}

abbrev opened : Channel
opened = record {
  handle = 1;
  initiator = 9;
  conv = some (create_conversation 1);
  closed = false;
  dispose_has_run = false;
  pending = [];
  rescued = false;
  timers = [];
}

abbrev one_channel : Factory
one_channel = record {
  channels = some ((1, opened) ∷ []);
  status_changed_id = 3;
  disposed = false;
  events = new_channel_for 1 (50 ∷ []) ∷ [];
}

answered : request (new_factory 3) 9 50 asked true ≡ some (one_channel, true)
unfolding request get_im_channel new_im_channel new_channel new_factory lookup insert delete
answered = refl

request-answers_example :
    ((true ≡ false) × (one_channel ≡ new_factory 3))
    ⊎ ((true ≡ true) × (answers 50 one_channel.events ≡ 1 + answers 50 (new_factory 3).events))
request-answers_example =
    request-answers (new_factory 3) one_channel 9 50 50 asked true true answered

ran : for_each step (new_factory 3) (requests 9 50 asked true ∷ []) ≡ some one_channel
unfolding for_each request get_im_channel new_im_channel new_channel new_factory lookup insert
    delete
ran = refl

signals_agree_example : IsAnnounced one_channel
signals_agree_example = signals_agree 3 (requests 9 50 asked true ∷ []) one_channel ran

write_im_lem_example :
    (G : Factory) × (write_im plain one_channel 1 "hi" 2 7 8 ≡ some G)
    × ((c : Channel) × (receiver one_channel 1 ≡ some c)
        × (channel_of G 1 ≡ some (receive plain c "hi" 2 7 8)))
    × ((k : ℕ) → k ≢ 1 → channel_of G k ≡ channel_of one_channel k)
write_im_lem_example =
    write_im_lem plain one_channel ((1, opened) ∷ []) 1 "hi" 2 7 8 refl (ground arith)

abbrev unread : Message
unread = record {
  sender = 1;
  message_type = normal;
  message_sent = none;
  message_received = some 8;
  delivery_status = none;
  content_type = "text/plain";
  content = "hi";
}

abbrev with_unread : Channel
with_unread = record opened { pending = unread ∷ [] }

abbrev one_unread : Factory
one_unread = record one_channel { channels = some ((1, with_unread) ∷ []) }
