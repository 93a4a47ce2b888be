-- ===== src/MediaChannel/Initiation.antt =====
-- src/media-channel.c: the calls of libpurple for a request.
use telepathy_haze.Prelude.{true, if◌then◌else◌, List, Bool, ◌≡◌, ℕ}
use telepathy_haze.MediaChannel.{Channel}
use telepathy_haze.MediaChannel.Requests.{Event}
use telepathy_haze.MediaChannel.Session.{Outside}
use telepathy_haze.MediaChannel.Told.{are_sessions}

module _ (B : Outside) (media_caps : ℕ) (initiated : ℕ → List Event × Bool)
    (succeed : (k : ℕ) → (initiated k).1 ≡ true)
    (tell_of_sessions : (k : ℕ) → are_sessions (initiated k).0 ≡ true) where
  -- The channel that listens for a session, if it has none.
  abbrev listening_for : Channel → Channel
  listening_for C = if C.has_media then C else record C { listens = true }
