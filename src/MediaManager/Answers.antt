-- ===== src/MediaManager/Answers.antt =====
-- src/media-manager.c: every request for a call channel gets one answer at most.
use telepathy_haze.MediaChannel.{succeeded, Error, failed, closed_signal, Channel, Effect}
use telepathy_haze.MediaManager.{
  new_media_channel, on_channel, close_all, close_paths, does_something,
  media_channel_request_failed_cb, at_channel, answer_all, media_channel_closed_cb,
  media_channel_request_succeeded_cb, new_channel_signal, request_failed, Signal, Entry, Busy,
  answer_effect, Manager, request_already_satisfied, channel_closed,
}
use telepathy_haze.Prelude.{
  ◌++◌, Bool, some_inj, ◌≤◌, bind_inv, ◌∙◌, inr, Bool-cases, sym, suc, ap, arith, inl, true, zero,
  Option, ◌+◌, if◌then◌else◌, ℕ, ◌∷◌, ◌≡◌, ◌==◌, none, List, [], some,
}
use telepathy_haze.MediaChannel.Session.{new_channel, close}

unfoldable pub tally : ℕ → ℕ → ℕ
tally token t = if t == token then 1 else 0

-- How often a signal answers a request.
unfoldable pub answers_in : ℕ → List ℕ → ℕ
unfolding tally
answers_in token [] = 0
answers_in token (t ∷ tokens) = tally token t + answers_in token tokens

unfoldable pub answers : ℕ → List Signal → ℕ
unfolding answers_in tally
answers token [] = 0
answers token (new_channel_signal path tokens ∷ log) = answers_in token tokens + answers token log
answers token (request_failed t e ∷ log) = tally token t + answers token log
answers token (request_already_satisfied t path ∷ log) = tally token t + answers token log
answers token (channel_closed path ∷ log) = answers token log

-- Whether an entry waits with the answer of a request, and how many of them do.
unfoldable pub waits : ℕ → Option ℕ → ℕ
unfolding tally
waits token none = 0
waits token (some t) = tally token t

unfoldable pub waiting_for : ℕ → List Entry → ℕ
unfolding waits
waiting_for token [] = 0
waiting_for token (e ∷ es) = waits token e.waiting + waiting_for token es

module _ (token : ℕ) where
  -- The answers that a request has got, and those that it may still get.
  abbrev pub claims : Manager → ℕ
  claims M = answers token M.log + waiting_for token M.channels

  abbrev busy_claims : Busy → ℕ
  busy_claims b = answers token b.manager.log + waits token b.entry.waiting

  same_claims : (b c : Busy) → some b ≡ some c → busy_claims c ≡ busy_claims b
  same_claims b c f = ap busy_claims (sym (some_inj f))

  success-claims :
      (b c : Busy) → media_channel_request_succeeded_cb b ≡ some c → busy_claims c ≡ busy_claims b
  unfolding media_channel_request_succeeded_cb answers answers_in waits
  success-claims b c f =
      let (t, g, h) = bind_inv b.entry.waiting _ f in
      omega (arith, ap busy_claims (sym (some_inj h)), ap (waits token) g)

  failure-claims :
      (b c : Busy) (e : Error)
      → media_channel_request_failed_cb b e ≡ some c
      → busy_claims c ≡ busy_claims b
  unfolding media_channel_request_failed_cb answers answers_in waits
  failure-claims b c e f =
      let (t, g, h) = bind_inv b.entry.waiting _ f in
      omega (arith, ap busy_claims (sym (some_inj h)), ap (waits token) g)

  effect-claims :
      (b c : Busy) (e : Effect) → answer_effect b e ≡ some c → busy_claims c ≡ busy_claims b
  unfolding answer_effect media_channel_closed_cb answers
  effect-claims b c (succeeded zero infos) f = success-claims b c f
  effect-claims b c (failed zero e) f = failure-claims b c e f
  effect-claims b c (succeeded (suc n) infos) f = same_claims b c f
  effect-claims b c (failed (suc n) e) f = same_claims b c f
  effect-claims b c closed_signal f = ap busy_claims (sym (some_inj f))
  effect-claims b c _ f = same_claims b c f

  all-claims :
      (b c : Busy) (log : List Effect) → answer_all b log ≡ some c → busy_claims c ≡ busy_claims b
  unfolding answer_all
  all-claims b c [] f = same_claims b c f
  all-claims b c (e ∷ log) f =
      let (d, g, h) = bind_inv (answer_all b log) _ f in
      effect-claims d c e h ∙ all-claims b d log g

  does-claims :
      (act : Channel → Option Channel) (M : Manager) (e : Entry) (b : Busy)
      → does_something act M e ≡ some b
      → busy_claims b ≡ answers token M.log + waits token e.waiting
  unfolding does_something
  does-claims act M e b f =
      let (C, g, h) = bind_inv (act (record (e.channel) { log = [] })) _ f in
      all-claims (record { manager = M; entry = record e { channel = C }; is_there = true }) b C.log
        h

  abbrev total : Manager × List Entry → ℕ
  total r = answers token r.0.log + waiting_for token r.1

  at-claims :
      (act : Channel → Option Channel) (M : Manager) (es : List Entry) (path : ℕ)
      (r : Manager × List Entry)
      → at_channel act M es path ≡ some r
      → answers token r.0.log + waiting_for token r.1 ≤ answers token M.log + waiting_for token es
  unfolding at_channel waiting_for
  at-claims act M [] path r f = omega (arith, ap total (sym (some_inj f)))
  at-claims act M (e ∷ es) path r f = elim (Bool-cases (e.path == path)) [
    | inl i ↦
        let (b, g, h) =
          bind_inv {b = r} (does_something act M e)
            (λ b. some (b.manager, if b.is_there then b.entry ∷ es else es))
            (ground (arith, f, i)) in
        let d = does-claims act M e b g in
        let e' = ap total (sym (some_inj h)) in
        elim (Bool-cases b.is_there) [
          | inl y ↦
              omega (arith, e', d, ap (λ t. waiting_for token (if t then b.entry ∷ es else es)) y)
          | inr y ↦
              omega (arith, e', d, ap (λ t. waiting_for token (if t then b.entry ∷ es else es)) y)
        ]
    | inr n ↦
        let (q, g, h) =
          bind_inv {b = r} (at_channel act M es path) (λ q. some (q.0, e ∷ q.1))
            (ground (arith, f, n)) in
        let d = at-claims act M es path q g in omega (arith, ap total (sym (some_inj h)), d)
  ]

  pub on-claims :
      (act : Channel → Option Channel) (M N : Manager) (path : ℕ)
      → on_channel act M path ≡ some N
      → claims N ≤ claims M
  unfolding on_channel
  on-claims act M N path f =
      let (r, g, h) = bind_inv (at_channel act M M.channels path) _ f in
      omega (arith, at-claims act M M.channels path r g, ap claims (sym (some_inj h)))

  waiting-append :
      (es : List Entry) (e : Entry)
      → waiting_for token (es ++ (e ∷ [])) ≡ waiting_for token es + waits token e.waiting
  unfolding waiting_for
  waiting-append [] e = omega arith
  waiting-append (d ∷ es) e = omega (arith, waiting-append es e)

  pub new-claims :
      (M : Manager) (has_media : Bool) (peer : ℕ) (a v : Bool) (w : Option ℕ) (r : Manager × Entry)
      → new_media_channel M has_media peer a v w ≡ some r
      → claims r.0 ≡ claims M + waits token w
  unfolding new_media_channel
  new-claims M has_media peer a v w r f =
      let (C, g, h) = bind_inv (new_channel M.self_handle peer has_media a v) _ f in
      let entry : Entry = record { path = M.channel_index; channel = C; waiting = w } in
      omega (arith, ap (λ r. claims r.0) (sym (some_inj h)), waiting-append M.channels entry)

  pub paths-claims :
      (M N : Manager) (es : List Entry) → close_paths M es ≡ some N → claims N ≤ claims M
  unfolding close_paths
  paths-claims M N [] f = omega (arith, ap claims (some_inj f))
  paths-claims M N (e ∷ es) f =
      let (K, g, h) = bind_inv (on_channel (λ C. some (close C)) M e.path) _ f in
      omega (arith, on-claims (λ C. some (close C)) M K e.path g, paths-claims K N es h)

  pub close_all-claims : (M N : Manager) → close_all M ≡ some N → claims N ≤ claims M
  unfolding close_all
  close_all-claims M N f =
      let (K, g, h) = bind_inv (close_paths M M.channels) _ f in
      omega (arith, paths-claims M K M.channels g, ap claims (sym (some_inj h)))
