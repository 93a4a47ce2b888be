-- ===== src/MediaManager/Lost.antt =====
-- src/media-manager.c: a channel that is closed while its request waits, and one that is made at once.
-- The entry at a path.
use telepathy_haze.MediaChannel.{closed_signal, Channel}
use telepathy_haze.MediaChannel.Session.{close}
use telepathy_haze.MediaManager.{
  on_channel, answer_effect, at_channel, answer_all, media_channel_closed_cb, emits, Busy, Entry,
  channel_closed, does_something, Manager,
}
use telepathy_haze.MediaManager.Answers.{tally, answers, waits, waiting_for}
use telepathy_haze.Prelude.{
  arith, refl, some_inj, subst, ap, inr, true, Bool-cases, ◌∙◌, inl, ℕ, some, ◌≡◌, List, Option, [],
  ◌==◌, ◌∷◌, if◌then◌else◌, false, suc, none,
}

unfoldable pub find_entry : List Entry → ℕ → Option Entry
find_entry [] path = none
find_entry (e ∷ es) path = if e.path == path then some e else find_entry es path

unfoldable pub closes_channel : Channel → Option Channel
closes_channel C = some (close C)

-- A channel without a session that is closed tells so, and is not in the array any more.
closing :
    (M : Manager) (e : Entry)
    → e.channel.closed ≡ false
    → e.channel.has_media ≡ false
    → (b : Busy) × (does_something closes_channel M e ≡ some b)
      × (b.manager ≡ emits M (channel_closed e.path))
      × (b.is_there ≡ false)
unfolding does_something closes_channel close answer_all answer_effect media_channel_closed_cb
closing M e c m =
    let shut : Channel = record (e.channel) { closed = true; log = closed_signal ∷ [] } in
    let C = close (record (e.channel) { log = [] }) in
    let same : shut ≡ C = ground (arith, c, m) in
    let before : Channel → Busy =
      λ C. record { manager = M; entry = record e { channel = C }; is_there = true } in
    let after : Channel → Busy = λ C. record {
      manager = emits M (channel_closed e.path);
      entry = record e { channel = C };
      is_there = false;
    } in
    (
      after C,
      subst (λ C. answer_all (before C) C.log ≡ some (after C)) {x = shut} {y = C} same refl,
      refl,
      refl,
    )

module _ (token : ℕ) where
  at_lost :
      (M : Manager) (es : List Entry) (path : ℕ) (e : Entry)
      → find_entry es path ≡ some e
      → e.waiting ≡ some token
      → e.channel.closed ≡ false
      → e.channel.has_media ≡ false
      → (r : Manager × List Entry) × (at_channel closes_channel M es path ≡ some r)
        × (answers token r.0.log ≡ answers token M.log)
        × (waiting_for token es ≡ suc (waiting_for token r.1))
  unfolding find_entry at_channel waiting_for waits answers tally
  at_lost M [] path e f w c m = absurd cc
  at_lost M (d ∷ es) path e f w c m = elim (Bool-cases (d.path == path)) [
    | inl i ↦
        let same : d ≡ e = some_inj (ground (arith, f, i)) in
        let (b, q, n, h) =
          closing M d (ap (λ d. d.channel.closed) same ∙ c)
            (ap (λ d. d.channel.has_media) same ∙ m) in
        (
          (b.manager, es),
          ground (arith, i, q, h),
          ap (λ N. answers token N.log) n,
          ground (arith, ap (waits token) (ap (λ d. d.waiting) same ∙ w)),
        )
    | inr i ↦
        let (r, g, a, v) = at_lost M es path e (ground (arith, f, i)) w c m in
        ((r.0, d ∷ r.1), ground (arith, i, g), a, omega (arith, v))
  ]

  -- Where a channel is closed without a session, while the request that it was made for waits for its
  -- streams, the channel goes, and the request has got no answer and waits no more.
  pub closed_lost :
      (M : Manager) (path : ℕ) (e : Entry)
      → find_entry M.channels path ≡ some e
      → e.waiting ≡ some token
      → e.channel.closed ≡ false
      → e.channel.has_media ≡ false
      → (N : Manager) × (on_channel closes_channel M path ≡ some N)
        × (answers token N.log ≡ answers token M.log)
        × (waiting_for token M.channels ≡ suc (waiting_for token N.channels))
  unfolding on_channel
  closed_lost M path e f w c m =
      let (r, g, a, v) = at_lost M M.channels path e f w c m in
      (record (r.0) { channels = r.1 }, ground (arith, g), a, v)
