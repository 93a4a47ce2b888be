-- ===== src/MediaChannel/Told.antt =====
-- src/media-channel.c: what attempts to initiate a session leave, and what is told of meanwhile.
use telepathy_haze.MediaChannel.{initiate_media, Effect, Channel, new_session_handler, does}
use telepathy_haze.Prelude.{
  ◌∷◌, ◌&&◌, not, zero, [], List, if◌then◌else◌, false, Bool, ◌||◌, ◌≡◌, arith, ◌+◌, ◌∙◌, true, suc,
  ◌==◌, refl, ℕ,
}
use telepathy_haze.Prelude.Bits.{has}
use telepathy_haze.MediaChannel.Requests.{new_stream, Event, init_media}

-- The sessions that libpurple was asked for: all, and those with a flag of their type.
unfoldable pub attempts : List Effect → ℕ
attempts [] = 0
attempts (initiate_media peer type ∷ log) = suc (attempts log)
attempts (_ ∷ log) = attempts log

unfoldable pub sessions : ℕ → List Effect → ℕ
sessions flag [] = 0
sessions flag (initiate_media peer type ∷ log) =
    (if has type flag then 1 else 0) + sessions flag log
sessions flag (_ ∷ log) = sessions flag log

-- The events tell of sessions only, and one of them is that of a session with the contact.
unfoldable pub are_sessions : List Event → Bool
are_sessions [] = true
are_sessions (init_media is_account contact ∷ events) = are_sessions events
are_sessions (new_stream sid ∷ events) = false

unfoldable pub hears : ℕ → List Event → Bool
hears peer [] = false
hears peer (init_media is_account contact ∷ events) =
    (is_account && (peer == contact)) || hears peer events
hears peer (new_stream sid ∷ events) = hears peer events

-- What a channel does that is told of a session: if it listens, and is meant, it has it.
unfoldable pub tell : Channel → Event → Channel
tell C (init_media is_account contact) =
    if C.listens && (is_account && (C.initial_peer == contact))
    then record C { has_media = true; listens = false; log = new_session_handler ∷ C.log }
    else C
tell C (new_stream sid) = C

-- It listens as long as it has no session.
abbrev pub IsListening : Channel → Type 0
IsListening C = C.listens ≡ not C.has_media

-- What events that tell of sessions leave; `heard` says whether one is meant.
pub record IsTold (C D : Channel) (heard : Bool) : Type 0 where
  pub attempted : attempts D.log ≡ attempts C.log
  pub with_audio : sessions 1 D.log ≡ sessions 1 C.log
  pub with_video : sessions 4 D.log ≡ sessions 4 C.log
  pub waiting : D.pending_stream_requests ≡ C.pending_stream_requests
  pub of_peer : D.initial_peer ≡ C.initial_peer
  pub in_session : D.has_media ≡ (C.has_media || heard)
  pub listening : IsListening D

pub tell-IsTold :
    (C : Channel) (is_account : Bool) (contact : ℕ)
    → IsListening C
    → IsTold C (tell C (init_media is_account contact)) (is_account && (C.initial_peer == contact))
unfolding tell attempts sessions
tell-IsTold C is_account contact l = record {
  attempted = ground arith;
  with_audio = ground arith;
  with_video = ground arith;
  waiting = ground arith;
  of_peer = ground arith;
  in_session = ground (arith, l);
  listening = ground (arith, l);
}

pub IsTold-trans :
    (C D E : Channel) (g h : Bool) → IsTold C D g → IsTold D E h → IsTold C E (g || h)
IsTold-trans C D E g h s t = record {
  attempted = t.attempted ∙ s.attempted;
  with_audio = t.with_audio ∙ s.with_audio;
  with_video = t.with_video ∙ s.with_video;
  waiting = t.waiting ∙ s.waiting;
  of_peer = t.of_peer ∙ s.of_peer;
  in_session =
      let first = s.in_session in let second = t.in_session in ground (arith, first, second);
  listening = t.listening;
}

-- What so many attempts leave, so many with audio and so many with video.
pub record IsAsked (C D : Channel) (n a v : ℕ) (heard : Bool) : Type 0 where
  pub all_asked : attempts D.log ≡ n + attempts C.log
  pub audio_asked : sessions 1 D.log ≡ a + sessions 1 C.log
  pub video_asked : sessions 4 D.log ≡ v + sessions 4 C.log
  pub still_waiting : D.pending_stream_requests ≡ C.pending_stream_requests
  pub same_peer : D.initial_peer ≡ C.initial_peer
  pub has_session : D.has_media ≡ (C.has_media || heard)

pub not-IsAsked : (C : Channel) (b : Bool) → IsAsked C (record C { listens = b }) 0 0 0 false
not-IsAsked C b = record {
  all_asked = omega arith;
  audio_asked = omega arith;
  video_asked = omega arith;
  still_waiting = refl;
  same_peer = refl;
  has_session = ground arith;
}

-- An attempt, and others after it.
pub IsAsked-before :
    (C E D : Channel) (peer type n a v : ℕ) (h g : Bool)
    → IsTold (does C (initiate_media peer type)) E h
    → IsAsked E D n a v g
    → IsAsked C D
        (suc n)
        ((if has type 1 then 1 else 0) + a)
        ((if has type 4 then 1 else 0) + v)
        (h || g)
unfolding attempts sessions
IsAsked-before C E D peer type n a v h g t q = record {
  all_asked = omega (arith, t.attempted, q.all_asked);
  audio_asked = omega (arith, t.with_audio, q.audio_asked);
  video_asked = omega (arith, t.with_video, q.video_asked);
  still_waiting = q.still_waiting ∙ t.waiting;
  same_peer = q.same_peer ∙ t.of_peer;
  has_session =
      let first = t.in_session in let second = q.has_session in ground (arith, first, second);
}

-- The contact's session is told of in one of so many attempts, from the k-th on.
unfoldable pub heard : (ℕ → List Event × Bool) → ℕ → ℕ → ℕ → Bool
unfolding hears
heard initiated peer zero k = false
heard initiated peer (suc n) k = hears peer (initiated k).0 || heard initiated peer n (suc k)
