-- ===== src/MediaChannel/Session.antt =====
-- src/media-channel.c: the life of a call, as libpurple tells of it.
use telepathy_haze.MediaChannel.{
  Effect, Channel, does, change_members, closed_signal, Info, stream_state_changed,
  stream_direction_changed, set_combined_direction, new_session_handler, hangup, Stream, accept,
  stream_removed, stream_added, stream_info,
}
use telepathy_haze.MediaChannel.Pending.{
  get_pending_send, get_direction, pending_stream_request_free, satisfy_pending,
  make_combined_direction,
}
use telepathy_haze.Prelude.{
  ◌++◌, List, String, [], Option, fold, ◌||◌, ◌==◌, ◌>>=◌, some, ℕ, true, false, Bool,
  if◌then◌else◌, not, ◌&&◌, is_some, ◌∷◌, none,
}

-- What the channel reads of others: the streams of the session's backend, by the identifiers of their
-- sessions, and the bytes that GLib has allocated for the array of the types of a request, by the
-- request's context.
pub record Outside : Type 0 where
  pub allocated : ℕ → ℕ
  pub stream_by_name : String → Option Stream

-- PurpleMediaState
pub data MediaState : Type 0 where
  state_new state_connected state_end : MediaState

unfoldable pub stream_direction_changed_cb : Channel → Stream → Channel
unfolding get_direction get_pending_send
stream_direction_changed_cb C s = does C (
    stream_direction_changed s.id (get_direction s.combined_direction)
      (get_pending_send s.combined_direction))

-- haze_media_channel_close; the manager answers the signal.
unfoldable pub close : Channel → Channel
close C =
    let ended : Channel = record C {
      closed = true;
      media_ended = true;
      log = closed_signal ∷ stream_info hangup false ∷ C.log;
    } in
    let plain : Channel = record C { closed = true; log = closed_signal ∷ C.log } in
    if C.closed then C else if C.has_media && not C.media_ended then ended else plain

-- A stream that is new: requests that waited for it are answered.
unfoldable pub stream_new : Outside → Channel → String → Option Channel
unfolding satisfy_pending stream_direction_changed_cb
stream_new B C sid = B.stream_by_name sid >>= λ stream.
    satisfy_pending C stream.media_type stream C.pending_stream_requests >>= λ r.
    let D : Channel = record (r.0) { pending_stream_requests = r.1 } in
    some (
      stream_direction_changed_cb (does D (stream_added stream.id C.initial_peer stream.media_type))
        stream)

-- TP_MEDIA_STREAM_STATE_DISCONNECTED, _CONNECTING and _CONNECTED are 0, 1 and 2.
unfoldable pub tp_state : MediaState → ℕ
tp_state state_new = 1
tp_state state_connected = 2
tp_state state_end = 0

-- The state of the streams of one session.
unfoldable pub stream_state : Outside → Channel → MediaState → String → Channel
unfolding tp_state
stream_state B C state sid =
    let removed : Stream → List Effect =
      λ stream. elim state [ state_end ↦ stream_removed stream.id ∷ [] | _ ↦ [] ] in
    elim (B.stream_by_name sid) [
      | none ↦ C
      | some stream ↦ record C {
        log = removed stream ++ (stream_state_changed stream.id (tp_state state) ∷ C.log);
      }
    ]

-- The end of the whole call.
unfoldable pub media_ends : Channel → Channel
unfolding pending_stream_request_free close
media_ends C =
    let D : Channel = record C {
      media_ended = true;
      log =
          change_members (record {
            add = [];
            del = C.self_handle ∷ C.initial_peer ∷ [];
            add_local_pending = [];
            add_remote_pending = [];
            actor = C.self_handle;
          })
          ∷ C.log;
    } in
    let E : Channel = record (fold pending_stream_request_free D C.pending_stream_requests) {
      pending_stream_requests = [];
    } in
    if C.closed then E else close E

unfoldable pub media_state_changed_cb :
    Outside → Channel → MediaState → Option String → Option String → Option Channel
unfolding stream_new stream_state media_ends
media_state_changed_cb B C state_new (some sid) (some name) = stream_new B C sid
media_state_changed_cb B C state (some sid) none = some (stream_state B C state sid)
media_state_changed_cb B C state_end none none = some (media_ends C)
media_state_changed_cb B C state sid name = some C

-- `is_initiator` is purple_media_is_initiator of the session. `none` is a stream that is NULL.
unfoldable pub media_stream_info_cb :
    Outside → Channel → Bool → Info → Option String → Option String → Bool → Option Channel
unfolding make_combined_direction
media_stream_info_cb B C is_initiator accept sid name local =
    let actor = if local then C.self_handle else C.initial_peer in
    let D = does C (
      change_members (record {
        add = actor ∷ [];
        del = [];
        add_local_pending = [];
        add_remote_pending = [];
        actor = actor;
      })) in
    let accepted : Option Channel = elim sid [
      | none ↦ some D
      | some s ↦
          if is_some name || is_initiator
          then some D
          else (B.stream_by_name s >>= λ stream.
              some (does D (set_combined_direction stream.id (make_combined_direction 3 0))))
    ] in
    accepted
media_stream_info_cb B C is_initiator info sid name local =
    let terminator = if local then C.self_handle else C.initial_peer in
    let removed = if is_some name then C.initial_peer else C.self_handle in
    some (
      if is_some sid
      then C
      else does C (
          change_members (record {
            add = [];
            del = removed ∷ [];
            add_local_pending = [];
            add_remote_pending = [];
            actor = terminator;
          })))

unfoldable pub latch_to_session : Channel → Option Channel
latch_to_session C = if C.has_media then some (does C new_session_handler) else none

-- haze_media_channel_constructor: an incoming call has its session from the start. The user who makes
-- an outgoing call is a member at once, and who is called is asked with local pending.
unfoldable pub new_channel : ℕ → ℕ → Bool → Bool → Bool → Option Channel
unfolding latch_to_session
new_channel self_handle initial_peer has_media initial_audio initial_video =
    let creator = if has_media then initial_peer else self_handle in
    let C : Channel = record {
      self_handle = self_handle;
      creator = creator;
      initial_peer = initial_peer;
      has_media = has_media;
      pending_stream_requests = [];
      next_request = 0;
      hold_state = 0;
      initial_audio = initial_audio;
      initial_video = initial_video;
      media_ended = false;
      closed = false;
      dispose_has_run = false;
      listens = false;
      log =
          change_members (record {
            add = creator ∷ [];
            del = [];
            add_local_pending = [];
            add_remote_pending = [];
            actor = 0;
          })
          ∷ [];
    } in
    let incoming = latch_to_session (
      does C (
        change_members (record {
          add = [];
          del = [];
          add_local_pending = self_handle ∷ [];
          add_remote_pending = [];
          actor = initial_peer;
        }))) in
    if creator == 0 then none else if has_media then incoming else some C

unfoldable pub dispose : Channel → Option Channel
unfolding close
dispose C =
    let D = close (record C { dispose_has_run = true }) in
    if C.dispose_has_run
    then some C
    else if not D.closed
    then none
    else some (record D { has_media = false })
