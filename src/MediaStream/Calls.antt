-- ===== src/MediaStream/Calls.antt =====
-- src/media-stream.c: the calls on a stream, and what its contact gives it.
use telepathy_haze.Prelude.{◌++◌, List, Bool, Option, none, [], String, map, for_each, ◌∷◌, some, ℕ}
use telepathy_haze.MediaStream.{
  WireCodec, Transport, ready, new_native_candidate, to_wire, to_transport, Effect, Candidate,
  supported_codecs, new_active_candidate_pair, Codec, hold_state, set_remote_codecs, codec_choice,
  native_candidates_prepared, set_local_codecs, hold, unhold_failure, add_stun_server, stream_state,
  Media, add_remote_candidates, error_async, add_remote_candidate, codecs_updated,
  emit_remote_codecs, Stream,
}

-- The calls of libpurple and of streaming clients on a stream.
pub data StreamCall : Type 0 where
  adds_remote : List Candidate → StreamCall
  sets_remote : List Codec → StreamCall
  adds_stun : Option String → ℕ → StreamCall
  chooses : ℕ → StreamCall
  errs : String → StreamCall
  holds says_held : Bool → StreamCall
  fails_unhold prepares : StreamCall
  activates : String → String → StreamCall
  finds : String → List Transport → StreamCall
  readies sets_local supports updates : List WireCodec → StreamCall
  says_state : ℕ → StreamCall

abbrev pub stream_step : Media → Stream → StreamCall → Option Stream
stream_step M S (adds_remote cs) = some (add_remote_candidates S cs)
stream_step M S (sets_remote cs) = set_remote_codecs S cs
stream_step M S (adds_stun ip port) = some (add_stun_server S ip port)
stream_step M S (chooses codec_id) = some (codec_choice S codec_id)
stream_step M S (errs message) = some (error_async S message)
stream_step M S (holds held) = some (hold S held)
stream_step M S (says_held held) = some (hold_state S held)
stream_step M S fails_unhold = some (unhold_failure S)
stream_step M S prepares = some (native_candidates_prepared S)
stream_step M S (activates native remote) = some (new_active_candidate_pair S native remote)
stream_step M S (finds candidate_id ts) = new_native_candidate S candidate_id ts
stream_step M S (readies ws) = ready M S ws
stream_step M S (sets_local ws) = set_local_codecs M S ws
stream_step M S (supports ws) = supported_codecs S ws
stream_step M S (updates ws) = codecs_updated S ws
stream_step M S (says_state state) = some (stream_state S state)

unfoldable pub stream_run : Media → Stream → List StreamCall → Option Stream
stream_run M = for_each (stream_step M)

-- The candidates of a log, and the codecs of its last signal.
unfoldable pub sent_log : List Effect → List (String × List Transport)
sent_log [] = []
sent_log (add_remote_candidate candidate_id ts ∷ es) = (candidate_id, ts) ∷ sent_log es
sent_log (_ ∷ es) = sent_log es

unfoldable pub last_codecs : List Effect → Option (List WireCodec)
last_codecs [] = none
last_codecs (emit_remote_codecs ws ∷ es) = some ws
last_codecs (_ ∷ es) = last_codecs es

abbrev pub candidate_on_bus : Candidate → String × List Transport
candidate_on_bus c = (c.foundation, to_transport c ∷ [])

-- What libpurple has given in a list of calls: all the candidates, and the codecs that were set last.
unfoldable pub given_candidates : List StreamCall → List Candidate
given_candidates [] = []
given_candidates (adds_remote cs ∷ calls) = cs ++ given_candidates calls
given_candidates (_ ∷ calls) = given_candidates calls

unfoldable pub given_codecs : ℕ → List WireCodec → List StreamCall → List WireCodec
given_codecs media_type ws [] = ws
given_codecs media_type ws (sets_remote cs ∷ calls) =
    given_codecs media_type (map (to_wire media_type) cs) calls
given_codecs media_type ws (_ ∷ calls) = given_codecs media_type ws calls
