-- ===== src/MediaStream.antt =====
-- The streams of calls (src/media-stream.c): the D-Bus interface of stream handlers on one side, the
-- media of libpurple on the other. `none` of an operation is a failed assertion, or a use of memory
-- that is freed, or a conversion of numbers that is undefined.
pub mod Calls
pub mod Views
pub mod Handover
pub mod Rounds
pub mod Once
mod Tests
use telepathy_haze.MediaChannel.Pending.{make_combined_direction}
use telepathy_haze.Prelude.{
  for_each, map, ◌>>=◌, str_eq, Option, String, not, List, Bool, ◌||◌, ◌&&◌, ◌++◌, ◌==◌, ltb, none,
  [], false, some, true, if◌then◌else◌, ◌∷◌, fold, ℕ,
}
use telepathy_haze.Prelude.Bits.{has}
use telepathy_haze.Prelude.Names.{put}

-- PurpleMediaCandidateType and PurpleMediaNetworkProtocol
pub data CandidateType : Type 0 where
  host srflx prflx relay multicast : CandidateType

pub data NetworkProtocol : Type 0 where
  udp tcp : NetworkProtocol

-- PurpleMediaCandidate
pub record Candidate : Type 0 where
  pub foundation : String
  pub component_id : ℕ
  pub candidate_type : CandidateType
  pub protocol : NetworkProtocol
  pub ip : String
  pub port : ℕ
  pub username : String
  pub password : String
  pub priority : ℕ

-- A finite double: its sign, its whole part, and the digits behind the point.
pub record Double : Type 0 where
  pub negative : Bool
  pub whole : ℕ
  pub fraction : ℕ

-- A transport of a candidate on D-Bus, in the order of its struct.
pub record Transport : Type 0 where
  pub component : ℕ
  pub address : String
  pub port : ℕ
  pub proto : ℕ
  pub subtype : String
  pub profile : String
  pub preference : Double
  pub transport_type : ℕ
  pub username : String
  pub password : String

pub data CodecType : Type 0 where
  audio_codec video_codec : CodecType

-- PurpleMediaCodec, a shared object: `freed` says that the strings of its parameters are freed.
pub record Codec : Type 0 where
  pub id : ℕ
  pub encoding_name : String
  pub codec_type : CodecType
  pub clock_rate : ℕ
  pub channels : ℕ
  pub optional_parameters : List (String × String)
  pub freed : Bool

-- A codec on D-Bus.
pub record WireCodec : Type 0 where
  pub id : ℕ
  pub name : String
  pub media_type : ℕ
  pub clock_rate : ℕ
  pub channels : ℕ
  pub params : List (String × String)

-- The signals of a stream handler, those of libpurple's media and its backend, and the answers to
-- D-Bus calls.
pub data Effect : Type 0 where
  add_remote_candidate : String → List Transport → Effect
  emit_remote_codecs : List WireCodec → Effect
  set_stream_held set_stream_playing set_stream_sending : Bool → Effect
  codecs_changed : String → Effect
  new_candidate : String → String → Candidate → Effect
  candidates_prepared : String → String → Effect
  active_candidate_pair : String → String → Candidate → Candidate → Effect
  media_error : String → Effect
  notify_local_hold : Effect
  returned not_available : Effect

-- What libpurple's media says: the type of a session, and who initiated it.
pub record Media : Type 0 where
  pub session_type : String → ℕ
  pub is_initiator : String → String → Bool

-- HazeMediaStream, with its private part; the newest effect is first in the log.
pub record Stream : Type 0 where
  pub object_path : String
  pub name : String
  pub peer : String
  pub media_type : ℕ
  pub id : ℕ
  pub created_locally : Bool
  pub nat_traversal : String
  pub stun_servers : List (String × ℕ)
  pub connection_state : ℕ
  pub combined_direction : ℕ
  pub awaiting_intersection : Bool
  pub local_hold : Bool
  pub ready : Bool
  pub dispose_has_run : Bool
  pub codecs : List Codec
  pub remote_codecs : List Codec
  pub local_candidates : List Candidate
  pub remote_candidates : List Candidate
  pub log : List Effect

abbrev pub emits : Stream → Effect → Stream
emits S e = record S { log = e ∷ S.log }

-- haze_media_stream_new, with the constructor; TP_MEDIA_STREAM_DIRECTION_BIDIRECTIONAL is 3, and
-- TP_MEDIA_STREAM_PENDING_LOCAL_SEND is 1.
unfoldable pub new_stream : String → String → String → ℕ → ℕ → Bool → String → Bool → Stream
unfolding make_combined_direction
new_stream object_path name peer media_type id created_locally nat_traversal local_hold = record {
  object_path = object_path;
  name = name;
  peer = peer;
  media_type = media_type;
  id = id;
  created_locally = created_locally;
  nat_traversal = nat_traversal;
  stun_servers = [];
  connection_state = 0;
  combined_direction = make_combined_direction 3 (if created_locally then 0 else 1);
  awaiting_intersection = not created_locally;
  local_hold = local_hold;
  ready = false;
  dispose_has_run = false;
  codecs = [];
  remote_codecs = [];
  local_candidates = [];
  remote_candidates = [];
  log = [];
}

-- The property codecs-ready.
unfoldable pub codecs_ready : Stream → Bool
codecs_ready S = elim S.codecs [ [] ↦ false | _ ∷ _ ↦ true ]

-- The candidates of libpurple on D-Bus.
unfoldable pub transport_type_of : CandidateType → ℕ
transport_type_of srflx = 1
transport_type_of relay = 2
transport_type_of _ = 0

unfoldable pub base_proto : NetworkProtocol → ℕ
base_proto udp = 0
base_proto tcp = 1

unfoldable pub to_transport : Candidate → Transport
unfolding transport_type_of base_proto
to_transport c = record {
  component = c.component_id;
  address = c.ip;
  port = c.port;
  proto = base_proto c.protocol;
  subtype = "RTP";
  profile = "AVP";
  preference = record { negative = false; whole = c.priority; fraction = 0 };
  transport_type = transport_type_of c.candidate_type;
  username = c.username;
  password = c.password;
}

unfoldable pub pass_candidate : Stream → Candidate → Stream
unfolding to_transport
pass_candidate S c = emits S (add_remote_candidate c.foundation (to_transport c ∷ []))

unfoldable pub pass_remote_candidates : Stream → Stream
unfolding pass_candidate fold
pass_remote_candidates S = fold pass_candidate S S.remote_candidates

unfoldable pub add_remote_candidates : Stream → List Candidate → Stream
unfolding pass_remote_candidates
add_remote_candidates S cs =
    let T : Stream = record S { remote_candidates = S.remote_candidates ++ cs } in
    if S.ready then pass_remote_candidates T else T

-- The table of a codec's parameters, which takes the strings of the codec over.
unfoldable pub params_of : List (String × String) → List (String × String) → List (String × String)
unfolding put
params_of t [] = t
params_of t ((key, value) ∷ pairs) = params_of (put key value t) pairs

unfoldable pub to_wire : ℕ → Codec → WireCodec
unfolding params_of
to_wire media_type c = record {
  id = c.id;
  name = c.encoding_name;
  media_type = media_type;
  clock_rate = c.clock_rate;
  channels = c.channels;
  params = params_of [] c.optional_parameters;
}

-- The strings of a codec are read here.
unfoldable pub is_stale : Codec → Bool
is_stale c = elim c.optional_parameters [ [] ↦ false | _ ∷ _ ↦ c.freed ]

-- The loop of pass_remote_codecs; the table of a codec's parameters is destroyed with its strings.
unfoldable pub wire_codecs : ℕ → List Codec → Option (List WireCodec)
unfolding is_stale to_wire
wire_codecs media_type [] = some []
wire_codecs media_type (c ∷ cs) =
    let rest = wire_codecs media_type cs >>= λ ws. some (to_wire media_type c ∷ ws) in
    if is_stale c then none else rest

abbrev pub frees : Codec → Codec
frees c = record c { freed = true }

unfoldable pub pass_remote_codecs : Stream → Option Stream
unfolding wire_codecs
pass_remote_codecs S = wire_codecs S.media_type S.remote_codecs >>= λ ws.
    some
      (record S { remote_codecs = map frees S.remote_codecs; log = emit_remote_codecs ws ∷ S.log })

unfoldable pub set_remote_codecs : Stream → List Codec → Option Stream
unfolding pass_remote_codecs
set_remote_codecs S cs =
    let T : Stream = record S { remote_codecs = cs } in
    let passed = pass_remote_codecs T in if S.ready then passed else some T

unfoldable pub add_stun_server : Stream → Option String → ℕ → Stream
add_stun_server S none stun_port = S
add_stun_server S (some stun_ip) stun_port =
    if str_eq stun_ip "" || ltb 65535 stun_port
    then S
    else record S { stun_servers = S.stun_servers ++ ((stun_ip, stun_port) ∷ []) }

-- The D-Bus calls of a stream handler.
unfoldable pub codec_choice : Stream → ℕ → Stream
codec_choice S codec_id = emits S returned

-- haze_media_stream_error, which always succeeds, and its D-Bus call.
unfoldable pub stream_error : Stream → String → Stream
stream_error S message = emits S (media_error message)

unfoldable pub error_async : Stream → String → Stream
unfolding stream_error
error_async S message = emits (stream_error S message) returned

unfoldable pub hold : Stream → Bool → Stream
hold S held = emits S (set_stream_held held)

unfoldable pub hold_state : Stream → Bool → Stream
hold_state S held = record S { local_hold = held; log = returned ∷ notify_local_hold ∷ S.log }

unfoldable pub unhold_failure : Stream → Stream
unhold_failure S = record S { local_hold = true; log = returned ∷ notify_local_hold ∷ S.log }

unfoldable pub native_candidates_prepared : Stream → Stream
native_candidates_prepared S = emits (emits S (candidates_prepared S.name S.peer)) returned

-- The two loops over the candidates.
unfoldable pub try_remote : String → String → Candidate → Stream → Candidate → Stream
try_remote native_candidate_id remote_candidate_id lc S rc =
    if (lc.component_id == rc.component_id)
      && (str_eq lc.foundation native_candidate_id && str_eq rc.foundation remote_candidate_id)
    then emits S (active_candidate_pair S.name S.peer lc rc)
    else S

unfoldable pub try_local : String → String → Stream → Candidate → Stream
unfolding try_remote fold
try_local native_candidate_id remote_candidate_id S lc =
    fold (try_remote native_candidate_id remote_candidate_id lc) S S.remote_candidates

unfoldable pub new_active_candidate_pair : Stream → String → String → Stream
unfolding try_local
new_active_candidate_pair S native_candidate_id remote_candidate_id =
    emits (fold (try_local native_candidate_id remote_candidate_id) S S.local_candidates) returned

unfoldable pub candidate_type_of : ℕ → CandidateType
candidate_type_of type = if type == 1 then srflx else if type == 2 then relay else host

unfoldable pub protocol_of : ℕ → NetworkProtocol
protocol_of proto = if proto == 1 then tcp else udp

-- The conversion to an unsigned integer of 32 bits, which drops what is behind the point, and is
-- undefined where the rest does not fit.
unfoldable pub to_guint : Double → Option ℕ
to_guint x =
    if x.negative && not (x.whole == 0)
    then none
    else if ltb x.whole 4294967296
    then some x.whole
    else none

unfoldable pub of_transport : String → Transport → Option Candidate
unfolding candidate_type_of protocol_of to_guint
of_transport candidate_id t = to_guint t.preference >>= λ priority. some (record {
  foundation = candidate_id;
  component_id = t.component;
  candidate_type = candidate_type_of t.transport_type;
  protocol = protocol_of t.proto;
  ip = t.address;
  port = t.port;
  username = t.username;
  password = t.password;
  priority = priority;
})

unfoldable pub add_native : String → Stream → Transport → Option Stream
unfolding of_transport
add_native candidate_id S t = of_transport candidate_id t >>= λ c. some (record S {
  local_candidates = S.local_candidates ++ (c ∷ []);
  log = new_candidate S.name S.peer c ∷ S.log;
})

unfoldable pub new_native_candidate : Stream → String → List Transport → Option Stream
unfolding add_native for_each
new_native_candidate S candidate_id transports =
    for_each (add_native candidate_id) S transports >>= λ T. some (emits T returned)

-- The codecs of a streaming client, with the type of the stream.
unfoldable pub of_wire : CodecType → WireCodec → Codec
of_wire type w = record {
  id = w.id;
  encoding_name = w.name;
  codec_type = type;
  clock_rate = w.clock_rate;
  channels = w.channels;
  optional_parameters = w.params;
  freed = false;
}

unfoldable pub add_local_codec : CodecType → Stream → WireCodec → Stream
unfolding of_wire
add_local_codec type S w = record S {
  codecs = S.codecs ++ (of_wire type w ∷ []);
  log = codecs_changed S.name ∷ S.log;
}

unfoldable pub pass_local_codecs : Stream → List WireCodec → Option Stream
unfolding add_local_codec fold
pass_local_codecs S ws =
    if S.media_type == 0
    then some (fold (add_local_codec audio_codec) S ws)
    else if S.media_type == 1
    then some (fold (add_local_codec video_codec) S ws)
    else none

-- The media is there until the stream is disposed of.
unfoldable pub set_local_codecs : Media → Stream → List WireCodec → Option Stream
unfolding pass_local_codecs
set_local_codecs M S ws =
    let passed = pass_local_codecs S ws >>= λ T. some (emits T returned) in
    if M.is_initiator S.name S.peer then passed else some (emits S returned)

-- PURPLE_MEDIA_SEND_AUDIO is 2, PURPLE_MEDIA_SEND_VIDEO is 8.
unfoldable pub start_stream : Media → Stream → Stream
unfolding hold make_combined_direction
start_stream M S =
    let playing = emits (record S { ready = true }) (set_stream_playing true) in
    let sending : Stream =
      if has (M.session_type S.name) 10
      then record playing {
        combined_direction = make_combined_direction 3 0;
        log = set_stream_sending true ∷ playing.log;
      }
      else playing in
    if S.local_hold then hold sending S.local_hold else sending

unfoldable pub ready : Media → Stream → List WireCodec → Option Stream
unfolding start_stream set_local_codecs pass_remote_codecs pass_remote_candidates
ready M S ws = set_local_codecs M (if S.ready then S else start_stream M S) ws >>= λ T.
    pass_remote_codecs T >>= λ U. some (pass_remote_candidates U)

unfoldable pub stream_state : Stream → ℕ → Stream
stream_state S state = emits (record S { connection_state = state }) returned

unfoldable pub supported_codecs : Stream → List WireCodec → Option Stream
unfolding pass_local_codecs
supported_codecs S ws =
    let passed = pass_local_codecs S ws >>= λ T.
    some (emits (record T { awaiting_intersection = false }) returned) in
    if S.awaiting_intersection then passed else some (emits S returned)

unfoldable pub codecs_updated : Stream → List WireCodec → Option Stream
unfolding codecs_ready pass_local_codecs
codecs_updated S ws =
    let passed = pass_local_codecs S ws >>= λ T. some (emits T returned) in
    if not (codecs_ready S)
    then some (emits S not_available)
    else if S.awaiting_intersection
    then some (emits S returned)
    else passed

unfoldable pub dispose : Stream → Stream
dispose S = if S.dispose_has_run then S else record S {
  dispose_has_run = true;
  codecs = [];
  remote_codecs = [];
  local_candidates = [];
  remote_candidates = [];
}
