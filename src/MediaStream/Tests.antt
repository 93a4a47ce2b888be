-- ===== src/MediaStream/Tests.antt =====
-- The theorems on streams at concrete calls.
use telepathy_haze.Prelude.{
  ◌++◌, for_each, inl, false, arith, none, ◌∷◌, fold, some, true, ◌≡◌, In, List, [], All, refl,
}
use telepathy_haze.MediaChannel.Pending.{make_combined_direction}
use telepathy_haze.MediaStream.{
  new_native_candidate, pass_candidate, transport_type_of, base_proto, wire_codecs, Media, Codec,
  returned, is_stale, hold, Stream, set_stream_playing, start_stream, set_local_codecs,
  add_remote_candidate, ready, params_of, emit_remote_codecs, new_stream, to_transport, Candidate,
  pass_remote_codecs, audio_codec, set_remote_codecs, pass_local_codecs, add_local_codec, relay,
  pass_remote_candidates, to_wire, add_remote_candidates, set_stream_sending, tcp,
}
use telepathy_haze.MediaStream.Calls.{
  given_codecs, stream_run, sent_log, StreamCall, readies, sets_remote, given_candidates,
  last_codecs, adds_remote, candidate_on_bus,
}
use telepathy_haze.MediaStream.Handover.{handed_over}
use telepathy_haze.MediaStream.Once.{native-remote_round, ready_twice}
use telepathy_haze.Prelude.Names.{put}
use telepathy_haze.MediaStream.Rounds.{signals_of}

abbrev media : Media
media = record { session_type = λ sid. 3; is_initiator = λ sid who. true }

abbrev candidate : Candidate
candidate = record {
  foundation = "c1";
  component_id = 1;
  candidate_type = relay;
  protocol = tcp;
  ip = "10.0.0.1";
  port = 4000;
  username = "u";
  password = "p";
  priority = 7;
}

abbrev speex : Codec
speex = record {
  id = 97;
  encoding_name = "speex";
  codec_type = audio_codec;
  clock_rate = 8000;
  channels = 1;
  optional_parameters = ("mode", "any") ∷ [];
  freed = false;
}

abbrev calls : List StreamCall
calls = adds_remote (candidate ∷ []) ∷ sets_remote (speex ∷ []) ∷ readies [] ∷ []

abbrev started : Stream
started = record {
  object_path = "/s/1";
  name = "sid";
  peer = "juliet";
  media_type = 0;
  id = 1;
  created_locally = true;
  nat_traversal = "ice-udp";
  stun_servers = [];
  connection_state = 0;
  combined_direction = 3;
  awaiting_intersection = false;
  local_hold = false;
  ready = true;
  dispose_has_run = false;
  codecs = [];
  remote_codecs = record speex { freed = true } ∷ [];
  local_candidates = [];
  remote_candidates = candidate ∷ [];
  log =
      add_remote_candidate "c1" (to_transport candidate ∷ [])
      ∷ emit_remote_codecs (to_wire 0 speex ∷ [])
      ∷ returned
      ∷ set_stream_sending true
      ∷ set_stream_playing true
      ∷ [];
}

handed_over_example :
    (true ≡ true
      → All (λ c. In (candidate_on_bus c) (sent_log started.log)) (given_candidates calls)
        × (last_codecs started.log ≡ some (given_codecs 0 [] calls)))
    × (true ≡ false → (sent_log started.log ≡ []) × (last_codecs started.log ≡ none))
unfolding stream_run new_stream add_remote_candidates set_remote_codecs ready set_local_codecs
    pass_remote_codecs pass_remote_candidates start_stream for_each wire_codecs pass_local_codecs
    is_stale to_wire params_of put to_transport pass_candidate fold make_combined_direction
    transport_type_of base_proto hold add_local_codec
handed_over_example =
    handed_over media "/s/1" "sid" "juliet" 0 1 true "ice-udp" false calls started refl

native-remote_round_example :
    (U : Stream) × (cs : List Candidate) × (new_native_candidate started "c1"
        (to_transport candidate ∷ [])
      ≡ some U)
    × (U.local_candidates ≡ started.local_candidates ++ cs)
    × (sent_log (add_remote_candidates started cs).log
        ≡ signals_of "c1"
            (to_transport candidate ∷ [])
            (sent_log (pass_remote_candidates started).log))
unfolding to_transport transport_type_of base_proto
native-remote_round_example =
    native-remote_round started started "c1" (to_transport candidate ∷ [])
      ((omega arith, omega arith, refl, refl, refl, refl, omega arith), tt) refl

-- The stream after the codecs are set again.
abbrev told : Stream
told = record started { log = emit_remote_codecs (to_wire 0 speex ∷ []) ∷ returned ∷ [] }

ready_twice_example : ready media told [] ≡ none
unfolding set_remote_codecs pass_remote_codecs wire_codecs is_stale to_wire params_of put
ready_twice_example =
    ready_twice media (record started { log = returned ∷ [] }) told (speex ∷ []) speex [] refl
      (inl refl) refl refl
