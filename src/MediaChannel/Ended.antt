-- ===== src/MediaChannel/Ended.antt =====
-- src/media-channel.c: the end of a call.
-- What is in the log stays there, and the requests that are freed fail.
use telepathy_haze.MediaChannel.{
  hangup, stream_info, change_members, closed_signal, failed, PendingStreamRequest, cancelled,
  Channel, Effect, does,
}
use telepathy_haze.MediaChannel.Pending.{pending_stream_request_free}
use telepathy_haze.MediaChannel.Session.{
  media_ends, close, media_state_changed_cb, Outside, state_end,
}
use telepathy_haze.Prelude.{
  not, sym, Bool-cases, ◌∙◌, refl, ◌&&◌, ap, true, In, none, some, ◌≡◌, [], List, inl, Option-cases,
  arith, fold_inv, subst, fold, ℕ, inr, ◌∷◌, false,
}

free_keeps :
    (C : Channel) (p : PendingStreamRequest) (e : Effect)
    → In e C.log
    → In e (pending_stream_request_free C p).log
unfolding pending_stream_request_free
free_keeps C p e i =
    let freed = pending_stream_request_free C p in
    elim (Option-cases p.context) [
      | inl c ↦ subst (λ D. In e D.log) {x = C} {y = freed} (ground (arith, c)) i
      | inr (k, c) ↦
          subst (λ D. In e D.log) {x = does C (failed k cancelled)} {y = freed} (ground (arith, c))
            (inr i)
    ]

fold_keeps :
    (C : Channel) (ps : List PendingStreamRequest) (e : Effect)
    → In e C.log
    → In e (fold pending_stream_request_free C ps).log
fold_keeps C ps e =
    λ i. fold_inv (λ D. In e D.log) pending_stream_request_free (λ D p. free_keeps D p e) C ps i

fold_fails :
    (C : Channel) (ps : List PendingStreamRequest) (p : PendingStreamRequest) (context : ℕ)
    → In p ps
    → p.context ≡ some context
    → In (failed context cancelled) (fold pending_stream_request_free C ps).log
unfolding fold
fold_fails C [] p context i c = absurd i
fold_fails C (q ∷ ps) p context (inl e) c =
    let there : q.context ≡ some context = ap (λ r. r.context) (sym e) ∙ c in
    fold_keeps (pending_stream_request_free C q) ps (failed context cancelled) (
      subst (λ D. In (failed context cancelled) D.log) {x = does C (failed context cancelled)}
        {y = pending_stream_request_free C q}
        (unfold pending_stream_request_free in ground (arith, there)) (inl refl))
fold_fails C (q ∷ ps) p context (inr i) c =
    fold_fails (pending_stream_request_free C q) ps p context i c

free-closed :
    (C : Channel) (p : PendingStreamRequest) → (pending_stream_request_free C p).closed ≡ C.closed
unfolding pending_stream_request_free
free-closed C p = elim (Option-cases p.context) [
  | inl c ↦ ground (arith, c)
  | inr (k, c) ↦ ground (arith, c)
]

-- A channel that is closed is closed, with the signal if it was open, and what is in the log stays there.
close_lem :
    (C : Channel)
    → ((close C).closed ≡ true)
      × ((close C).pending_stream_requests ≡ C.pending_stream_requests)
      × (C.closed ≡ false → In closed_signal (close C).log)
      × ((e : Effect) → In e C.log → In e (close C).log)
unfolding close
close_lem C =
    let P : Channel → Type 0 = λ D.
      (D.closed ≡ true)
      × (D.pending_stream_requests ≡ C.pending_stream_requests)
      × (C.closed ≡ false → In closed_signal D.log)
      × ((e : Effect) → In e C.log → In e D.log) in
    let hung_up : Channel = record C {
      closed = true;
      media_ended = true;
      log = closed_signal ∷ stream_info hangup false ∷ C.log;
    } in
    let plain : Channel = record C { closed = true; log = closed_signal ∷ C.log } in
    elim (Bool-cases C.closed) [
      | inl c ↦
          subst P {x = C} {y = close C} (ground (arith, c))
            (c, refl, λ o. absurd (ground (arith, c, o)), λ e i. i)
      | inr c ↦ elim (Bool-cases (C.has_media && not C.media_ended)) [
        | inl m ↦
            subst P {x = hung_up} {y = close C} (ground (arith, c, m))
              (refl, refl, λ o. inl refl, λ e i. inr (inr i))
        | inr m ↦
            subst P {x = plain} {y = close C} (ground (arith, c, m))
              (refl, refl, λ o. inl refl, λ e i. inr i)
      ]
    ]

-- After libpurple has told that a call has ended, no request waits, and each that waited was
-- answered that it was cancelled; the channel is closed, and the signal was emitted for a channel that
-- was open.
pub media_ends_lem :
    (B : Outside) (C : Channel)
    → (D : Channel) × (media_state_changed_cb B C state_end none none ≡ some D)
      × (D.pending_stream_requests ≡ [])
      × ((p : PendingStreamRequest) (context : ℕ)
          → In p C.pending_stream_requests
          → p.context ≡ some context
          → In (failed context cancelled) D.log)
      × (D.closed ≡ true)
      × (C.closed ≡ false → In closed_signal D.log)
unfolding media_state_changed_cb media_ends
media_ends_lem B C =
    let D : Channel = record C {
      media_ended = true;
      log =
          change_members (record {
            add = [];
            del = C.self_handle ∷ C.initial_peer ∷ [];
            add_local_pending = [];
            add_remote_pending = [];
            actor = C.self_handle;
          })
          ∷ C.log;
    } in
    let ps = C.pending_stream_requests in
    let E : Channel = record (fold pending_stream_request_free D ps) {
      pending_stream_requests = [];
    } in
    let same : E.closed ≡ C.closed =
      fold_inv (λ F. F.closed ≡ C.closed) pending_stream_request_free (λ F p h. free-closed F p ∙ h)
        D ps refl in
    let P : Channel → Type 0 = λ F.
      (F.pending_stream_requests ≡ [])
      × ((p : PendingStreamRequest) (context : ℕ)
          → In p ps
          → p.context ≡ some context
          → In (failed context cancelled) F.log)
      × (F.closed ≡ true)
      × (C.closed ≡ false → In closed_signal F.log) in
    let fails : (p : PendingStreamRequest) (context : ℕ)
        → In p ps
        → p.context ≡ some context
        → In (failed context cancelled) E.log =
      λ p context i c. fold_fails D ps p context i c in
    let (shut, kept, signal, stays) = close_lem E in
    let r : P (media_ends C) = elim (Bool-cases C.closed) [
      | inl c ↦
          subst P {x = E} {y = media_ends C} (ground (arith, c))
            (refl, fails, same ∙ c, λ o. absurd (ground (arith, c, o)))
      | inr c ↦ subst P {x = close E} {y = media_ends C} (ground (arith, c)) (
        kept,
        λ p context i q. stays (failed context cancelled) (fails p context i q),
        shut,
        λ o. signal (same ∙ o),
      )
    ] in
    (media_ends C, refl, r.0, r.1, r.2, r.3)
