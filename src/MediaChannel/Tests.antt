-- ===== src/MediaChannel/Tests.antt =====
-- The theorems on call channels at concrete channels: the user is 9, the contact 1.
use telepathy_haze.MediaChannel.{
  new_session_handler, StreamInfo, stream_added, initiate_media, stream_info, succeeded,
  stream_direction_changed, hangup, Error, cancelled, closed_signal, failed, PendingStreamRequest,
  Channel, Stream, change_members,
}
use telepathy_haze.MediaChannel.Answers.{answers_fit}
use telepathy_haze.MediaChannel.Calls.{run, closes}
use telepathy_haze.MediaChannel.Ended.{media_ends_lem}
use telepathy_haze.MediaChannel.Fit.{AnswersFit, IsAwaited}
use telepathy_haze.MediaChannel.Pending.{make_stream_list}
use telepathy_haze.MediaChannel.Refusals.{supports, are_types, refused_twice}
use telepathy_haze.MediaChannel.Requests.{
  request_initial_streams, finish, initiate, count_type, Event, init_media, new_stream,
  media_channel_request_streams,
}
use telepathy_haze.MediaChannel.Session.{
  state_end, close, Outside, media_state_changed_cb, new_channel,
}
use telepathy_haze.Prelude.{
  inr, for_each, true, Bool, refl, List, ◌∷◌, In, some, str_eq, [], none, ◌≡◌, false, All,
  if◌then◌else◌, ℕ,
}

abbrev microphone : Stream
microphone = record {
  id = 1;
  media_type = 0;
  name_at = 100;
  connection_state = 1;
  combined_direction = 3;
}

abbrev camera : Stream
camera = record {
  id = 2;
  media_type = 1;
  name_at = 200;
  connection_state = 1;
  combined_direction = 3;
}

abbrev backend : Outside
backend = record {
  allocated = λ context. 16;
  stream_by_name = λ n. if str_eq n "mic" then some microphone else some camera;
}

-- libpurple makes the session and both streams at once.
abbrev at_once : ℕ → List Event × Bool
at_once k = (init_media true 1 ∷ new_stream "cam" ∷ new_stream "mic" ∷ [], true)

abbrev both : ℕ → List ℕ
both c = 0 ∷ 1 ∷ []

abbrev outgoing : Channel
outgoing = record {
  self_handle = 9;
  creator = 9;
  initial_peer = 1;
  has_media = false;
  pending_stream_requests = [];
  next_request = 0;
  hold_state = 0;
  initial_audio = true;
  initial_video = true;
  media_ended = false;
  closed = false;
  dispose_has_run = false;
  listens = false;
  log =
      change_members (record {
        add = 9 ∷ [];
        del = [];
        add_local_pending = [];
        add_remote_pending = [];
        actor = 0;
      })
      ∷ [];
}

-- The channel in a call.
abbrev in_call : Channel
in_call = record outgoing { has_media = true; log = [] }

abbrev infos : List StreamInfo
infos =
    record { info_id = 1; peer = 1; info_type = 0; state = 1; direction = 3; pending_send = 0 }
    ∷ record { info_id = 2; peer = 1; info_type = 1; state = 1; direction = 3; pending_send = 0 }
    ∷ []

-- The channel after its initial streams are asked for, and answered.
abbrev talking : Channel
talking = record outgoing {
  has_media = true;
  next_request = 1;
  log =
      stream_direction_changed 1 3 0
      ∷ stream_added 1 1 0
      ∷ succeeded 0 infos
      ∷ stream_direction_changed 2 3 0
      ∷ stream_added 2 1 1
      ∷ new_session_handler
      ∷ initiate_media 1 15
      ∷ outgoing.log;
}

abbrev hung_up : Channel
hung_up = record talking {
  closed = true;
  media_ended = true;
  log = closed_signal ∷ stream_info hangup false ∷ talking.log;
}

answers_fit_example : AnswersFit both hung_up.log × All (IsAwaited both) []
unfolding new_channel run close for_each request_initial_streams initiate count_type finish
    make_stream_list
answers_fit_example =
    answers_fit both backend 0 at_once 9 1 false true true outgoing talking hung_up 0 (closes ∷ [])
      refl refl (inr refl) refl

-- A contact that can do audio, on a protocol that can modify calls (33 is 1 | 32).
refused_twice_example :
    (D : Channel) × (e : Error) × (media_channel_request_streams backend 33 at_once in_call 1
        (0 ∷ [])
        5
      ≡ some D)
    × (D.log ≡ failed 5 e ∷ failed 5 cancelled ∷ [])
    × (D.pending_stream_requests ≡ [])
unfolding are_types supports
refused_twice_example = refused_twice backend 33 at_once in_call 5 0 [] refl refl

-- libpurple tells of the session with the contact each time.
abbrev session_told : ℕ → List Event × Bool
session_told k = (init_media true 1 ∷ [], true)

media_ends_lem_example :
    (D : Channel) × (media_state_changed_cb backend in_call state_end none none ≡ some D)
    × (D.pending_stream_requests ≡ [])
    × ((p : PendingStreamRequest) (context : ℕ)
        → ⊥
        → p.context ≡ some context
        → In (failed context cancelled) D.log)
    × (D.closed ≡ true)
    × (false ≡ false → In closed_signal D.log)
media_ends_lem_example = media_ends_lem backend in_call
