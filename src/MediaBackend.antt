-- ===== src/MediaBackend.antt =====
-- The backend of a session's streams (src/media-backend.c), which libpurple and the handlers of
-- sessions call. `none` of an operation is a failed assertion, or a use of memory that is freed.
pub mod Calls
pub mod Sound
pub mod Announced
mod Tests
use telepathy_haze.MediaStream.{
  new_stream, Candidate, set_remote_codecs, Codec, add_stun_server, codecs_ready,
  add_remote_candidates, stream_error, Stream,
}
use telepathy_haze.Prelude.{
  ◌∷◌, Option, fold, if◌then◌else◌, String, ◌==◌, [], map, for_each, ◌%◌, none, some, ◌>>=◌, true,
  ◌++◌, ◌+◌, List, false, Bool, str_eq, ℕ,
}
use telepathy_haze.Prelude.Bits.{has}
use telepathy_haze.MediaChannel.Removal.{ended}

-- The answers to D-Bus calls and the signal of the session handler; the path of a stream, its
-- identifier and its type.
pub data BackendEffect : Type 0 where
  new_stream_handler : String → ℕ → ℕ → BackendEffect
  end_media : BackendEffect
  handler_returned call_has_ended : BackendEffect

-- HazeMediaBackend; the newest effect is first in the log, and the streams have their own.
pub record MediaBackend : Type 0 where
  pub object_path : String
  pub has_media : Bool
  pub streams : List Stream
  pub next_stream_id : ℕ
  pub is_ready : Bool
  pub log : List BackendEffect

unfoldable pub new_backend : String → MediaBackend
new_backend object_path = record {
  object_path = object_path;
  has_media = true;
  streams = [];
  next_stream_id = 1;
  is_ready = false;
  log = [];
}

-- The media is a weak pointer.
unfoldable pub media_is_gone : MediaBackend → MediaBackend
media_is_gone B = record B { has_media = false }

unfoldable pub get_stream_by_name : List Stream → String → Option Stream
get_stream_by_name [] sid = none
get_stream_by_name (s ∷ ss) sid =
    let rest = get_stream_by_name ss sid in if str_eq sid s.name then some s else rest

-- g_ptr_array_remove_fast puts the last item into the gap.
unfoldable pub last_of : Stream → List Stream → Stream
last_of s [] = s
last_of s (t ∷ ts) = last_of t ts

unfoldable pub without_last : Stream → List Stream → List Stream
without_last s [] = []
without_last s (t ∷ ts) = s ∷ without_last t ts

unfoldable pub fill_gap : List Stream → List Stream
unfolding last_of without_last
fill_gap [] = []
fill_gap (s ∷ ss) = last_of s ss ∷ without_last s ss

unfoldable pub remove_fast : List Stream → String → List Stream
unfolding fill_gap
remove_fast [] sid = []
remove_fast (s ∷ ss) sid =
    let rest = remove_fast ss sid in if str_eq sid s.name then fill_gap ss else s ∷ rest

-- haze_backend_state_changed_cb; `is_end` is PURPLE_MEDIA_STATE_END.
unfoldable pub backend_state_changed_cb :
    MediaBackend → Bool → Option String → Option String → MediaBackend
unfolding remove_fast
backend_state_changed_cb B true (some sid) none = record B { streams = remove_fast B.streams sid }
backend_state_changed_cb B is_end sid name = B

-- _emit_new_stream
unfoldable pub emit_new_stream : MediaBackend → Stream → MediaBackend
emit_new_stream B s = record B { log = new_stream_handler s.object_path s.id s.media_type ∷ B.log }

-- The value of a parameter of a transmitter.
pub data Param : Type 0 where
  uint_param : ℕ → Param
  string_param : Option String → Param
  other_param : Param

pub record Transmission : Type 0 where
  pub traversal : Option String
  pub stun_server : Option String
  pub stun_port : ℕ

-- NICE_COMPATIBILITY_DRAFT19, _GOOGLE, _MSN and _WLM2009
unfoldable pub compatibility_mode : ℕ → Option String
compatibility_mode mode =
    if mode == 0
    then some "ice-udp"
    else if mode == 1
    then some "gtalk-p2p"
    else if mode == 2
    then some "wlm-8.5"
    else if mode == 3
    then some "wlm-2009"
    else none

-- The loop over the parameters.
unfoldable pub read_param : Transmission → String × Param → Option Transmission
unfolding compatibility_mode
read_param t (name, uint_param n) =
    let moded = compatibility_mode n >>= λ mode. some (record t { traversal = some mode }) in
    if str_eq name "compatibility-mode"
    then moded
    else if str_eq name "stun-port"
    then some (record t { stun_port = n })
    else some t
read_param t (name, string_param s) =
    if str_eq name "stun-ip" then some (record t { stun_server = s }) else some t
read_param t (name, other_param) = some t

unfoldable pub default_traversal : Option String → String
default_traversal none = "ice-udp"
default_traversal (some traversal) = traversal

-- The way through NATs, and the STUN server with its port.
unfoldable pub transmission : String → List (String × Param) → Option (String × Option String × ℕ)
unfolding read_param default_traversal for_each
transmission transmitter params =
    let start : Transmission = record { traversal = none; stun_server = none; stun_port = 3478 } in
    let nice = for_each read_param start params >>= λ t.
    some (default_traversal t.traversal, t.stun_server, t.stun_port) in
    if str_eq transmitter "nice"
    then nice
    else if str_eq transmitter "rawudp"
    then some ("none", none, 3478)
    else none

-- haze_media_backend_add_stream; `path_of` prints an identifier behind the backend's path, and
-- PURPLE_MEDIA_AUDIO is 3. next_stream_id is an unsigned integer of 32 bits.
module _ (path_of : String → ℕ → String) where
  unfoldable pub make_stream :
      MediaBackend
      → String
      → String
      → ℕ
      → Bool
      → String
      → List (String × Param)
      → Option MediaBackend
  unfolding transmission new_stream add_stun_server emit_new_stream
  make_stream B sid who type initiator transmitter params =
      transmission transmitter params >>= λ (traversal, stun_server, stun_port).
      let id = B.next_stream_id in
      let s =
        add_stun_server
          (new_stream (path_of B.object_path id) sid who (if has type 3 then 0 else 1) id initiator
            traversal false)
          stun_server stun_port in
      let C : MediaBackend = record B {
        next_stream_id = (id + 1) % 4294967296;
        streams = B.streams ++ (s ∷ []);
      } in
      some (if B.is_ready then emit_new_stream C s else C)

  -- haze_media_stream_new gives NULL where the media is gone.
  unfoldable pub add_stream :
      MediaBackend
      → String
      → String
      → ℕ
      → Bool
      → String
      → List (String × Param)
      → Option MediaBackend
  unfolding make_stream
  add_stream B sid who type initiator transmitter params =
      let made = make_stream B sid who type initiator transmitter params in
      if B.has_media then made else none

-- What libpurple asks of the first stream of a name.
unfoldable pub on_stream : (Stream → Option Stream) → List Stream → String → Option (List Stream)
on_stream act [] sid = some []
on_stream act (s ∷ ss) sid =
    let here = act s >>= λ t. some (t ∷ ss) in
    let rest = on_stream act ss sid >>= λ ts. some (s ∷ ts) in
    if str_eq sid s.name then here else rest

unfoldable pub backend_add_remote_candidates :
    MediaBackend → String → List Candidate → Option MediaBackend
unfolding on_stream add_remote_candidates
backend_add_remote_candidates B sid cs =
    on_stream (λ s. some (add_remote_candidates s cs)) B.streams sid >>= λ ss.
    some (record B { streams = ss })

unfoldable pub backend_set_remote_codecs : MediaBackend → String → List Codec → Option MediaBackend
unfolding on_stream set_remote_codecs
backend_set_remote_codecs B sid cs =
    on_stream (λ s. set_remote_codecs s cs) B.streams sid >>= λ ss. some (record B { streams = ss })

-- haze_media_backend_codecs_ready
unfoldable pub all_codecs_ready : List Stream → Bool
unfolding codecs_ready
all_codecs_ready [] = true
all_codecs_ready (s ∷ ss) = let rest = all_codecs_ready ss in if codecs_ready s then rest else false

unfoldable pub backend_codecs_ready : MediaBackend → Option String → Bool
unfolding get_stream_by_name all_codecs_ready codecs_ready
backend_codecs_ready B (some sid) = elim (get_stream_by_name B.streams sid) as (λ _. Bool) [
  | some s ↦ codecs_ready s
  | none ↦ false
]
backend_codecs_ready B none = all_codecs_ready B.streams

unfoldable pub backend_get_codecs : MediaBackend → String → List Codec
unfolding get_stream_by_name
backend_get_codecs B sid = elim (get_stream_by_name B.streams sid) as (λ _. List Codec) [
  | some s ↦ s.codecs
  | none ↦ []
]

unfoldable pub backend_get_local_candidates : MediaBackend → String → List Candidate
unfolding get_stream_by_name
backend_get_local_candidates B sid =
    elim (get_stream_by_name B.streams sid) as (λ _. List Candidate) [
      | some s ↦ s.local_candidates
      | none ↦ []
    ]

-- haze_media_backend_ready
unfoldable pub backend_ready : MediaBackend → MediaBackend
unfolding emit_new_stream fold
backend_ready B =
    let C = fold emit_new_stream (record B { is_ready = true }) B.streams in
    let D = if B.is_ready then B else C in record D { log = handler_returned ∷ D.log }

-- haze_media_backend_error; `ended` are the changes of states that libpurple tells of while it ends
-- the media.
unfoldable pub tell_changes :
    MediaBackend → List (Bool × Option String × Option String) → MediaBackend
unfolding backend_state_changed_cb fold
tell_changes = fold (λ B (is_end, sid, name). backend_state_changed_cb B is_end sid name)

unfoldable pub backend_error :
    MediaBackend → List (Bool × Option String × Option String) → String → MediaBackend
unfolding tell_changes stream_error
backend_error B ended message =
    let C = tell_changes (record B { log = end_media ∷ B.log }) ended in
    let D : MediaBackend = record C {
      streams = map (λ s. stream_error s message) C.streams;
      log = handler_returned ∷ C.log;
    } in
    if B.has_media then D else record B { log = call_has_ended ∷ B.log }
