-- ===== src/MediaChannel/Requests.antt =====
-- src/media-channel.c: requests for streams.
-- PURPLE_MEDIA_AUDIO and PURPLE_MEDIA_VIDEO
use telepathy_haze.MediaChannel.{
  invalid_handle, initiate_media, audio, does, Error, not_implemented, not_available, failed,
  succeeded, PendingStreamRequest, video, Channel,
}
use telepathy_haze.MediaChannel.Pending.{pending_stream_request_free, pending_stream_request_new}
use telepathy_haze.MediaChannel.Session.{Outside, stream_new, latch_to_session}
use telepathy_haze.Prelude.{
  true, String, ◌++◌, Bool, ◌>>=◌, some, List, ℕ, for_each, if◌then◌else◌, false, zero, none,
  Option, not, [], ◌==◌, ◌∷◌, suc, ◌&&◌, ◌||◌,
}
use telepathy_haze.Prelude.Bits.{has, bit_or}
use telepathy_haze.Telepathy.Sample.{is_valid}

abbrev pub purple_media_audio : ℕ
purple_media_audio = 3

abbrev pub purple_media_video : ℕ
purple_media_video = 12

-- PURPLE_MEDIA_CAPS_AUDIO, _VIDEO and _MODIFY_SESSION
abbrev pub caps_audio : ℕ
caps_audio = 1

abbrev pub caps_video : ℕ
caps_video = 4

abbrev pub caps_modify_session : ℕ
caps_modify_session = 32

-- The signal "init-media" of libpurple, if it is for the channel's account, with the handle of the
-- contact.
unfoldable pub init_media_cb : Channel → Bool → ℕ → Option Channel
unfolding latch_to_session
init_media_cb C is_account contact =
    let latched = latch_to_session (record C { has_media = true; listens = false }) in
    if not is_account || not (C.initial_peer == contact)
    then some C
    else if C.has_media
    then none
    else latched

-- What libpurple tells of while it is asked for media: that there is a session, or a stream.
pub data Event : Type 0 where
  init_media : Bool → ℕ → Event
  new_stream : String → Event

-- What the first loop finds: a type that is no type, or whether audio and video are wanted.
unfoldable pub wanted : List ℕ → Bool → Bool → Option (Bool × Bool)
wanted [] want_audio want_video = some (want_audio, want_video)
wanted (kind ∷ kinds) want_audio want_video =
    let with_audio = wanted kinds true want_video in
    let with_video = wanted kinds want_audio true in
    if kind == audio then with_audio else if kind == video then with_video else none

unfoldable pub count_type : ℕ → List ℕ → ℕ
count_type t [] = 0
count_type t (kind ∷ kinds) = if kind == t then suc (count_type t kinds) else count_type t kinds

-- The result of request_contents: streams are on their way, there is an error, or libpurple refused and
-- no error is set.
pub data Contents : Type 0 where
  requested : Contents
  refused : Error → Contents
  not_initiated : Contents

-- The media capabilities that libpurple has of the contact, and what happens while it is asked for
-- media the k-th time, with what it answers.
module _ (B : Outside) (media_caps : ℕ) (initiated : ℕ → List Event × Bool) where
  -- A signal that nobody listens for is lost.
  unfoldable pub deliver : Channel → Event → Option Channel
  unfolding init_media_cb stream_new
  deliver C (init_media is_account contact) =
      let r = init_media_cb C is_account contact in if C.listens then r else some C
  deliver C (new_stream sid) = let r = stream_new B C sid in if C.has_media then r else some C

  -- One call of purple_prpl_initiate_media, and the end of the loop if it fails.
  unfoldable pub attempt : ℕ → ℕ → Channel → ℕ → Option (Channel × Bool)
  unfolding deliver
  attempt k peer C type =
      for_each deliver (does C (initiate_media peer type)) (initiated k).0 >>= λ D.
      some (D, (initiated k).1)

  unfoldable pub initiate : ℕ → ℕ → Channel → ℕ → ℕ → Option (Channel × Bool)
  unfolding attempt
  initiate k peer C zero zero = some (C, true)
  initiate k peer C (suc audio_count) zero = attempt k peer C (bit_or 0 purple_media_audio) >>= λ r.
      let rest = initiate (suc k) peer r.0 audio_count zero in if r.1 then rest else some r
  initiate k peer C zero (suc video_count) = attempt k peer C (bit_or 0 purple_media_video) >>= λ r.
      let rest = initiate (suc k) peer r.0 zero video_count in if r.1 then rest else some r
  initiate k peer C (suc audio_count) (suc video_count) =
      attempt k peer C (bit_or (bit_or 0 purple_media_audio) purple_media_video) >>= λ r.
      let rest = initiate (suc k) peer r.0 audio_count video_count in if r.1 then rest else some r

  -- An existing call is refused if it cannot be modified; and where the contact has what is wanted.
  unfoldable pub modification : Channel → Bool → Bool → Option Error
  modification C want_audio want_video =
      let modifiable = has media_caps caps_modify_session in
      let audio_there = not want_audio || has media_caps caps_audio in
      let video_there = not want_video || has media_caps caps_video in
      if not C.has_media
      then none
      else if not modifiable
      then some not_available
      else if audio_there && video_there
      then some not_available
      else none

  unfoldable pub request_contents : Channel → ℕ → List ℕ → Option (Channel × Contents)
  unfolding wanted modification initiate count_type
  request_contents C peer kinds =
      let D : Channel = if C.has_media then C else record C { listens = true } in
      let started = initiate 0 peer D (count_type audio kinds) (count_type video kinds) >>= λ r.
      some (r.0, if r.1 then requested else not_initiated) in
      let checked : Bool × Bool → Option (Channel × Contents) =
        λ w. elim (modification C w.0 w.1) [ some e ↦ some (C, refused e) | none ↦ started ] in
      elim (wanted kinds false false) [
        | none ↦ some (C, refused not_implemented)
        | some w ↦ checked w
      ]

  -- g_list_remove of a request that is freed then; one that is in the list no more is freed twice.
  unfoldable pub drop_request : ℕ → Channel → List PendingStreamRequest → Option Channel
  unfolding pending_stream_request_free
  drop_request address C [] = none
  drop_request address C (p ∷ ps) =
      let rest = drop_request address C ps in
      let freed = pending_stream_request_free (record C { pending_stream_requests = ps }) p in
      let others : Channel → Channel =
        λ D. record D { pending_stream_requests = p ∷ D.pending_stream_requests } in
      if p.at == address then some freed else (rest >>= λ D. some (others D))

  -- The end of a request at an address: where no error is set, the NULL pointer is used.
  unfoldable pub finish : ℕ → ℕ → Channel → Contents → Option Channel
  unfolding drop_request
  finish address context C requested = some C
  finish address context C (refused e) =
      drop_request address C C.pending_stream_requests >>= λ D. some (does D (failed context e))
  finish address context C not_initiated = none

  -- The new request is put in the list, and its contents are asked for.
  unfoldable pub ask_contents : Channel → ℕ → List ℕ → ℕ → PendingStreamRequest → Option Channel
  unfolding request_contents finish
  ask_contents C contact_handle kinds context psr =
      let D : Channel = record C {
        pending_stream_requests = psr ∷ C.pending_stream_requests;
        next_request = suc C.next_request;
      } in
      request_contents D contact_handle kinds >>= λ r. finish C.next_request context r.0 r.1

  -- media_channel_request_streams, with the context of the callbacks.
  unfoldable pub media_channel_request_streams : Channel → ℕ → List ℕ → ℕ → Option Channel
  unfolding ask_contents pending_stream_request_new
  media_channel_request_streams C contact_handle [] context = some (does C (succeeded context []))
  media_channel_request_streams C contact_handle (kind ∷ kinds) context =
      let asked =
        pending_stream_request_new (B.allocated context) C.next_request (kind ∷ kinds) context
        >>= λ psr. ask_contents C contact_handle (kind ∷ kinds) context psr in
      if C.has_media && not (C.initial_peer == contact_handle)
      then some (does C (failed context not_available))
      else asked

  -- The D-Bus method RequestStreams.
  unfoldable pub request_streams : Bool → Channel → ℕ → List ℕ → ℕ → Option Channel
  unfolding media_channel_request_streams
  request_streams is_valid C contact_handle kinds context =
      let asked = media_channel_request_streams C contact_handle kinds context in
      if is_valid then asked else some (does C (failed context invalid_handle))

  -- The types of the initial streams.
  abbrev pub initial_types : Bool → Bool → List ℕ
  initial_types initial_audio initial_video =
      (if initial_audio then audio ∷ [] else []) ++ (if initial_video then video ∷ [] else [])

  unfoldable pub request_initial_streams : Channel → ℕ → Option Channel
  unfolding media_channel_request_streams
  request_initial_streams C context =
      let types = initial_types C.initial_audio C.initial_video in
      let asked = media_channel_request_streams C C.initial_peer types context in
      if C.creator == C.self_handle then asked else none
