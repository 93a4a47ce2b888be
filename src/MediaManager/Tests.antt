-- ===== src/MediaManager/Tests.antt =====
-- The theorems on the manager of calls at concrete calls: the user is 9.
use telepathy_haze.MediaChannel.{not_implemented}
use telepathy_haze.MediaChannel.Requests.{Event}
use telepathy_haze.MediaChannel.Session.{Outside}
use telepathy_haze.MediaManager.{
  on_channel, request_failed, RequestProperties, Entry, Manager, new_manager, method_create,
}
use telepathy_haze.MediaManager.Answers.{waiting_for, answers}
use telepathy_haze.MediaManager.Lost.{find_entry, closes_channel, closed_lost}
use telepathy_haze.MediaManager.Once.{manager_run, asked_times, request_answered_once, asks}
use telepathy_haze.Prelude.{
  for_each, ◌≤◌, false, true, List, Bool, ◌+◌, none, refl, ◌∷◌, [], some, ◌≡◌, suc, ℕ,
}

abbrev backend : Outside
backend = record { allocated = λ context. 16; stream_by_name = λ n. none }

-- libpurple takes on what it is asked for, and tells of nothing yet.
abbrev quiet : ℕ → List Event × Bool
quiet k = ([], true)

abbrev audio_call : RequestProperties
audio_call = record {
  is_streamed_media = true;
  handle_type = 1;
  handle = 1;
  wants_audio = true;
  wants_video = false;
  has_unknown = false;
}

abbrev refused_call : RequestProperties
refused_call = record audio_call { has_unknown = true }

abbrev after_refusal : Manager
after_refusal = record {
  self_handle = 9;
  channels = [];
  channel_index = 0;
  listens_for_media = false;
  status_connected = true;
  dispose_has_run = false;
  log = request_failed 7 not_implemented ∷ [];
}

request_answered_once_example : 1 + 0 ≤ 1
unfolding manager_run answers waiting_for asked_times new_manager for_each
request_answered_once_example =
    request_answered_once backend 33 quiet (λ n. []) 7 9 after_refusal
      (asks 7 refused_call method_create ∷ []) refl

-- A channel that waits for its audio.
abbrev ringing : Entry
ringing = record {
  path = 0;
  channel = record {
    self_handle = 9;
    creator = 9;
    initial_peer = 1;
    has_media = false;
    pending_stream_requests = [];
    next_request = 1;
    hold_state = 0;
    initial_audio = true;
    initial_video = false;
    media_ended = false;
    closed = false;
    dispose_has_run = false;
    listens = true;
    log = [];
  };
  waiting = some 7;
}

abbrev one_channel : Manager
one_channel = record after_refusal { channels = ringing ∷ []; channel_index = 1; log = [] }

closed_lost_example :
    (N : Manager) × (on_channel closes_channel one_channel 0 ≡ some N)
    × (answers 7 N.log ≡ 0)
    × (1 ≡ suc (waiting_for 7 N.channels))
unfolding find_entry answers waiting_for
closed_lost_example = closed_lost 7 one_channel 0 ringing refl refl refl refl
