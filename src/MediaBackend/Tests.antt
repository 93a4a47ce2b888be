-- ===== src/MediaBackend/Tests.antt =====
-- The theorems on backends at concrete calls.
use telepathy_haze.Prelude.{
  String, true, List, [], for_each, arith, false, fold, ◌≡◌, ◌∷◌, ◌≤◌, refl, ℕ,
}
use telepathy_haze.MediaBackend.{
  make_stream, transmission, emit_new_stream, backend_ready, add_stream, handler_returned,
  MediaBackend, new_stream_handler, new_backend,
}
use telepathy_haze.MediaBackend.Announced.{streams_announced_once}
use telepathy_haze.MediaBackend.Calls.{
  adds_stream, announced, BackendCall, there, backend_run, is_told_ready,
}
use telepathy_haze.MediaChannel.Pending.{make_combined_direction}
use telepathy_haze.MediaStream.{add_stun_server, new_stream}

abbrev path_of : String → ℕ → String
path_of path id = path

abbrev calls : List BackendCall
calls = adds_stream "sid" "juliet" 3 true "rawudp" [] ∷ is_told_ready ∷ []

abbrev one_stream : MediaBackend
one_stream = record {
  object_path = "/b";
  has_media = true;
  streams = new_stream "/b" "sid" "juliet" 0 1 true "none" false ∷ [];
  next_stream_id = 2;
  is_ready = true;
  log = handler_returned ∷ new_stream_handler "/b" 1 0 ∷ [];
}

streams_announced_once_example :
    (there 1 one_stream.streams ≤ 1)
    × (true ≡ false → announced 1 one_stream.log ≡ 0)
    × (true ≡ true
        → (announced 1 one_stream.log ≤ 1)
          × (there 1 one_stream.streams ≤ announced 1 one_stream.log))
unfolding backend_run for_each new_backend add_stream make_stream transmission backend_ready
    new_stream add_stun_server emit_new_stream fold make_combined_direction
streams_announced_once_example =
    streams_announced_once path_of "/b" one_stream calls 1 (omega arith) refl
