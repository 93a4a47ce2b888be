-- ===== src/MediaChannel/Removal.antt =====
-- src/media-channel.c: the streams of a call, listed and removed.
-- All streams are there, in the backend's order.
use telepathy_haze.MediaChannel.{
  does, Channel, Effect, StreamInfo, Stream, not_implemented, invalid_argument, media_end, Error,
}
use telepathy_haze.MediaChannel.Pending.{make_stream_list}
use telepathy_haze.MediaChannel.Requests.{caps_modify_session}
use telepathy_haze.Prelude.{
  ◌≡◌, Bool, [], false, some, ◌>>=◌, none, not, ℕ, suc, length, ◌∷◌, map, ◌==◌, if◌then◌else◌,
  Option, List, ◌||◌, zero,
}
use telepathy_haze.Prelude.Bits.{has}
use telepathy_haze.Prelude.Sets.{member, remove}

unfoldable pub list_streams : List Stream → Channel → Option (List StreamInfo)
unfolding make_stream_list
list_streams streams C =
    let infos = make_stream_list C.initial_peer (map some streams) in
    if C.has_media then infos else some []

-- The inner loop: the name of the stream with the identifier.
unfoldable pub name_of : ℕ → List Stream → Option ℕ
name_of id [] = none
name_of id (s ∷ streams) = if id == s.id then some s.name_at else name_of id streams

-- The names of the streams to remove; `none` if one is not found.
unfoldable pub names_of : List ℕ → List Stream → Option (List ℕ)
unfolding name_of
names_of [] streams = some []
names_of (id ∷ ids) streams =
    name_of id streams >>= λ n. names_of ids streams >>= λ ns. some (n ∷ ns)

-- The loop that removes what is there again behind each name: as many rounds as there are names are
-- enough.
unfoldable pub dedupe : ℕ → List ℕ → List ℕ
unfolding remove
dedupe zero names = names
dedupe (suc left) [] = []
dedupe (suc left) (n ∷ names) = n ∷ dedupe left (remove names n)

unfoldable pub end_all : Channel → List ℕ → Channel
end_all C [] = C
end_all C (n ∷ names) = end_all (does C (media_end n)) names

-- The end of the sessions that are found.
unfoldable pub remove_named : Channel → Option (List ℕ) → Channel × Option Error
unfolding dedupe end_all
remove_named C none = (C, some invalid_argument)
remove_named C (some names) = (end_all C (dedupe (length names) names), none)

-- RemoveStreams: an error, or the channel. `none` is a call without a session.
unfoldable pub remove_streams : ℕ → List Stream → Channel → List ℕ → Option (Channel × Option Error)
unfolding names_of remove_named
remove_streams media_caps streams C ids =
    let removed = remove_named C (names_of ids streams) in
    if not (has media_caps caps_modify_session)
    then some (C, some not_implemented)
    else if C.has_media
    then some removed
    else none

-- Not offered: libpurple cannot set the direction of a stream.
unfoldable pub request_stream_direction : ℕ → ℕ → Error
request_stream_direction stream_id stream_direction = not_implemented

-- Each item is in the list once.
abbrev pub Distinct : List ℕ → Type 0
Distinct [] = Unit
Distinct (x ∷ xs) = (member xs x ≡ false) × Distinct xs

-- The names that libpurple is asked to end, those before a channel's log excepted.
unfoldable pub ended : List Effect → List ℕ
ended [] = []
ended (media_end n ∷ log) = n ∷ ended log
ended (_ ∷ log) = ended log

-- How often a name is in a list.
unfoldable pub times : ℕ → List ℕ → ℕ
times k [] = 0
times k (n ∷ names) = let rest = times k names in if n == k then suc rest else rest

-- The name is that of the first stream with one of the identifiers.
unfoldable pub is_named : List Stream → List ℕ → ℕ → Bool
is_named streams [] k = false
is_named streams (id ∷ ids) k =
    elim (name_of id streams) [ none ↦ false | some n ↦ n == k ] || is_named streams ids k
