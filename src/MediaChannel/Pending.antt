-- ===== src/MediaChannel/Pending.antt =====
-- src/media-channel.c: requests for streams that wait for them.
-- COMBINED_DIRECTION_GET_DIRECTION and COMBINED_DIRECTION_GET_PENDING_SEND of src/media-stream.h
use telepathy_haze.MediaChannel.{
  failed, PendingStreamRequest, Stream, cancelled, Channel, does, StreamInfo, succeeded,
}
use telepathy_haze.Prelude.{
  ltb, ◌*◌, not, suc, [], Bool, ℕ, List, ◌>>=◌, ◌/◌, true, is_some, if◌then◌else◌, some, ◌∷◌, none,
  ◌==◌, Option, length, false,
}
use telepathy_haze.Prelude.Bits.{bit_and, bit_or}

unfoldable pub get_direction : ℕ → ℕ
get_direction d = bit_and d 3

unfoldable pub get_pending_send : ℕ → ℕ
get_pending_send d = d / 4

unfoldable pub make_combined_direction : ℕ → ℕ → ℕ
make_combined_direction d p = bit_or d (p * 4)

unfoldable pub stream_info_of : ℕ → Stream → StreamInfo
unfolding get_direction get_pending_send
stream_info_of initial_peer s = record {
  info_id = s.id;
  peer = initial_peer;
  info_type = s.media_type;
  state = s.connection_state;
  direction = get_direction s.combined_direction;
  pending_send = get_pending_send s.combined_direction;
}

-- `none` is a stream that is NULL.
unfoldable pub make_stream_list : ℕ → List (Option Stream) → Option (List StreamInfo)
unfolding stream_info_of
make_stream_list initial_peer [] = some []
make_stream_list initial_peer (none ∷ streams) = none
make_stream_list initial_peer (some s ∷ streams) =
    make_stream_list initial_peer streams >>= λ infos. some (stream_info_of initial_peer s ∷ infos)

unfoldable pub no_streams : List ℕ → List (Option Stream)
no_streams [] = []
no_streams (_ ∷ types) = none ∷ no_streams types

-- The fields of a new request.
unfoldable pub pending_fields : ℕ → List ℕ → ℕ → PendingStreamRequest
unfolding no_streams
pending_fields address types context = record {
  at = address;
  types = types;
  streams = no_streams types;
  satisfied = 0;
  context = some context;
}

-- As many bytes are copied from the array of types as pointers would take, of 8 bytes each.
abbrev pub can_copy : ℕ → List ℕ → Bool
can_copy allocated types = not (ltb allocated (length types * 8))

unfoldable pub pending_stream_request_new : ℕ → ℕ → List ℕ → ℕ → Option PendingStreamRequest
unfolding pending_fields
pending_stream_request_new allocated address types context =
    if can_copy allocated types then some (pending_fields address types context) else none

-- The loop over the types, from one on: `before` are the streams of the types that it has seen, in
-- reverse. The result is the request, and whether it has been answered.
pub record Satisfying : Type 0 where
  pub request : PendingStreamRequest
  pub channel : Channel
  pub is_done : Bool

unfoldable pub reverse_onto : List (Option Stream) → List (Option Stream) → List (Option Stream)
reverse_onto [] streams = streams
reverse_onto (s ∷ before) streams = reverse_onto before (s ∷ streams)

unfoldable pub satisfy_from :
    PendingStreamRequest
    → Channel
    → ℕ
    → Stream
    → List (Option Stream)
    → List ℕ
    → List (Option Stream)
    → Option Satisfying
unfolding make_stream_list reverse_onto
satisfy_from p C type stream before (t ∷ types) (s ∷ streams) =
    let put = reverse_onto before (some stream ∷ streams) in
    let q : PendingStreamRequest = record p { streams = put; satisfied = suc p.satisfied } in
    let answer : ℕ → Option Satisfying = λ context. make_stream_list C.initial_peer put >>= λ ret.
    some (record {
      request = record q { context = none };
      channel = does C (succeeded context ret);
      is_done = true;
    }) in
    let skip = satisfy_from p C type stream (s ∷ before) types streams in
    let go_on = satisfy_from q C type stream (some stream ∷ before) types streams in
    if not (t == type)
    then skip
    else if is_some s
    then none
    else if suc p.satisfied == length p.types
    then elim p.context [ none ↦ go_on | some context ↦ answer context ]
    else go_on
satisfy_from p C type stream before _ _ =
    some (record { request = p; channel = C; is_done = false })

unfoldable pub maybe_satisfy : PendingStreamRequest → Channel → ℕ → Stream → Option Satisfying
unfolding satisfy_from
maybe_satisfy p C type stream = satisfy_from p C type stream [] p.types p.streams

-- A request that is freed without an answer fails.
unfoldable pub pending_stream_request_free : Channel → PendingStreamRequest → Channel
pending_stream_request_free C p = elim p.context [
  | none ↦ C
  | some context ↦ does C (failed context cancelled)
]

-- The loop over the pending requests when a stream is new; those that are answered are freed.
unfoldable pub satisfy_pending :
    Channel → ℕ → Stream → List PendingStreamRequest → Option (Channel × List PendingStreamRequest)
unfolding maybe_satisfy pending_stream_request_free
satisfy_pending C type stream [] = some (C, [])
satisfy_pending C type stream (p ∷ ps) = maybe_satisfy p C type stream >>= λ r.
    let freed = pending_stream_request_free r.channel r.request in
    satisfy_pending (if r.is_done then freed else r.channel) type stream ps >>= λ rest.
    some (rest.0, if r.is_done then rest.1 else r.request ∷ rest.1)
