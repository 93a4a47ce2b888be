-- ===== src/MediaManager.antt =====
-- The manager of call channels (src/media-manager.c). `none` of an operation is a failed assertion, or
-- a use of memory that is freed.
pub mod Answers
pub mod Once
pub mod Lost
mod Tests
use telepathy_haze.MediaChannel.{
  failed, closed_signal, Error, not_implemented, succeeded, Channel, Effect,
}
use telepathy_haze.MediaChannel.Requests.{request_initial_streams, Event}
use telepathy_haze.MediaChannel.Session.{close, Outside, new_channel}
use telepathy_haze.Prelude.{
  ℕ, ◌%◌, List, ◌∷◌, if◌then◌else◌, Option, false, not, Bool, ◌+◌, [], ◌++◌, ◌==◌, none, zero,
  ◌>>=◌, some, true,
}

-- A channel of the array, with the index in its object path, and the token of the request that it was
-- made for, until the callbacks of that have freed it (MediaChannelRequest).
pub record Entry : Type 0 where
  pub path : ℕ
  pub channel : Channel
  pub waiting : Option ℕ

-- The signals of the channel manager, the newest first.
pub data Signal : Type 0 where
  new_channel_signal : ℕ → List ℕ → Signal
  channel_closed : ℕ → Signal
  request_failed : ℕ → Error → Signal
  request_already_satisfied : ℕ → ℕ → Signal

pub record Manager : Type 0 where
  pub self_handle : ℕ
  pub channels : List Entry
  pub channel_index : ℕ
  pub listens_for_media : Bool
  pub status_connected : Bool
  pub dispose_has_run : Bool
  pub log : List Signal

abbrev pub emits : Manager → Signal → Manager
emits M s = record M { log = s ∷ M.log }

unfoldable pub new_manager : ℕ → Manager
new_manager self_handle = record {
  self_handle = self_handle;
  channels = [];
  channel_index = 0;
  listens_for_media = false;
  status_connected = true;
  dispose_has_run = false;
  log = [];
}

-- RequestMethod
pub data RequestMethod : Type 0 where
  method_request method_create method_ensure : RequestMethod

-- What the code reads of the properties of a request.
pub record RequestProperties : Type 0 where
  pub is_streamed_media : Bool
  pub handle_type : ℕ
  pub handle : ℕ
  pub wants_audio : Bool
  pub wants_video : Bool
  pub has_unknown : Bool

-- The manager while one of its channels does something: the channel's entry, and whether it is in the
-- array still.
pub record Busy : Type 0 where
  pub manager : Manager
  pub entry : Entry
  pub is_there : Bool

-- media_channel_request_succeeded_cb, media_channel_request_failed_cb and media_channel_closed_cb. The
-- context 0 is the request that the channel was made for, others are of D-Bus calls.
unfoldable pub media_channel_request_succeeded_cb : Busy → Option Busy
media_channel_request_succeeded_cb b = b.entry.waiting >>= λ token. some (record b {
  manager = emits b.manager (new_channel_signal b.entry.path (token ∷ []));
  entry = record (b.entry) { waiting = none };
})

unfoldable pub media_channel_request_failed_cb : Busy → Error → Option Busy
media_channel_request_failed_cb b e = b.entry.waiting >>= λ token. some (record b {
  manager = emits b.manager (request_failed token e);
  entry = record (b.entry) { waiting = none };
})

unfoldable pub media_channel_closed_cb : Busy → Busy
media_channel_closed_cb b = record b {
  manager = emits b.manager (channel_closed b.entry.path);
  is_there = false;
}

unfoldable pub answer_effect : Busy → Effect → Option Busy
unfolding media_channel_request_succeeded_cb media_channel_request_failed_cb media_channel_closed_cb
answer_effect b (succeeded zero infos) = media_channel_request_succeeded_cb b
answer_effect b (failed zero e) = media_channel_request_failed_cb b e
answer_effect b closed_signal = some (media_channel_closed_cb b)
answer_effect b _ = some b

-- What a channel has done since its log had so many effects, the oldest first.
unfoldable pub answer_all : Busy → List Effect → Option Busy
unfolding answer_effect
answer_all b [] = some b
answer_all b (e ∷ log) = answer_all b log >>= λ c. answer_effect c e

-- A channel does something; its log before that has been answered.
unfoldable pub does_something : (Channel → Option Channel) → Manager → Entry → Option Busy
unfolding answer_all
does_something act M e = act (record (e.channel) { log = [] }) >>= λ C.
    answer_all (record { manager = M; entry = record e { channel = C }; is_there = true }) C.log

-- The channel at a path.
unfoldable pub at_channel :
    (Channel → Option Channel) → Manager → List Entry → ℕ → Option (Manager × List Entry)
unfolding does_something
at_channel act M [] path = some (M, [])
at_channel act M (e ∷ es) path =
    let here =
      does_something act M e >>= λ b. some (b.manager, if b.is_there then b.entry ∷ es else es) in
    let there = at_channel act M es path >>= λ r. some (r.0, e ∷ r.1) in
    if e.path == path then here else there

unfoldable pub on_channel : (Channel → Option Channel) → Manager → ℕ → Option Manager
unfolding at_channel
on_channel act M path =
    at_channel act M M.channels path >>= λ r. some (record (r.0) { channels = r.1 })

-- new_media_channel; channel_index is an unsigned integer of 32 bits.
unfoldable pub new_media_channel :
    Manager → Bool → ℕ → Bool → Bool → Option ℕ → Option (Manager × Entry)
new_media_channel M has_media peer wants_audio wants_video waiting =
    new_channel M.self_handle peer has_media wants_audio wants_video >>= λ C.
    let entry : Entry = record { path = M.channel_index; channel = C; waiting = waiting } in
    some (
      record M {
        channels = M.channels ++ (entry ∷ []);
        channel_index = (M.channel_index + 1) % 4294967296;
      },
      entry,
    )

-- The loop over a copy of the array.
unfoldable pub close_paths : Manager → List Entry → Option Manager
unfolding on_channel
close_paths M [] = some M
close_paths M (e ∷ es) = on_channel (λ C. some (close C)) M e.path >>= λ N. close_paths N es

unfoldable pub close_all : Manager → Option Manager
unfolding close_paths
close_all M = close_paths M M.channels >>= λ N. some (record N { status_connected = false })

unfoldable pub dispose : Manager → Option Manager
unfolding close_all
dispose M =
    let closed = close_all (record M { dispose_has_run = true }) >>= λ N.
    elim N.channels as (λ _. Option Manager) [ [] ↦ some N | _ ∷ _ ↦ none ] in
    if M.dispose_has_run then some M else closed

-- A new session of libpurple, of whatever account, with the handle of its contact.
unfoldable pub init_media_cb : Manager → Bool → ℕ → Option Manager
unfolding new_media_channel
init_media_cb M is_initiator contact =
    let incoming = new_media_channel M true contact false false none >>= λ r.
    some (emits r.0 (new_channel_signal r.1.path [])) in
    if is_initiator then some M else incoming

pub data Status : Type 0 where
  connecting disconnected other_status : Status

unfoldable pub connection_status_changed_cb : Manager → Status → Option Manager
unfolding close_all
connection_status_changed_cb M connecting = some (record M { listens_for_media = true })
connection_status_changed_cb M disconnected = close_all (record M { listens_for_media = false })
connection_status_changed_cb M other_status = some M

-- The loop of EnsureChannel.
unfoldable pub find_peer : List Entry → ℕ → Option ℕ
find_peer [] handle = none
find_peer (e ∷ es) handle =
    if e.channel.initial_peer == handle then some e.path else find_peer es handle

module _ (B : Outside) (media_caps : ℕ) (initiated : ℕ → List Event × Bool) where
  -- The end of a request: a new channel is asked for its initial streams.
  unfoldable pub make_channel : Manager → ℕ → RequestProperties → Option Manager
  unfolding new_media_channel on_channel
  make_channel M request_token p =
      new_media_channel M false p.handle p.wants_audio p.wants_video (some request_token) >>= λ r.
      on_channel (λ C. request_initial_streams B media_caps initiated C 0) r.0 r.1.path

  -- For a contact: EnsureChannel is satisfied with a channel that is there.
  unfoldable pub ensured : Manager → ℕ → RequestProperties → Option ℕ → Option Manager
  unfolding make_channel
  ensured M request_token p none = make_channel M request_token p
  ensured M request_token p (some path) =
      some (emits M (request_already_satisfied request_token path))

  unfoldable pub channel_for : Manager → ℕ → RequestProperties → RequestMethod → Option Manager
  unfolding ensured find_peer
  channel_for M request_token p method_ensure =
      ensured M request_token p (find_peer M.channels p.handle)
  channel_for M request_token p _ = make_channel M request_token p

  -- The answer is whether the request is taken on.
  unfoldable pub requestotron :
      Manager → ℕ → RequestProperties → RequestMethod → Option (Manager × Bool)
  unfolding channel_for
  requestotron M request_token p method =
      let failed_request = some (emits M (request_failed request_token not_implemented), true) in
      let made = channel_for M request_token p method >>= λ N. some (N, true) in
      if not p.is_streamed_media
      then some (M, false)
      else if p.handle_type == 0
      then (if p.handle == 0 then failed_request else none)
      else if not (p.handle_type == 1)
      then some (M, false)
      else if p.handle == 0
      then none
      else if p.has_unknown
      then failed_request
      else made
