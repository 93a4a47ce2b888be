-- ===== src/MediaChannel/Fit.antt =====
-- src/media-channel.c: whatever happens to a channel, the answers are of the types asked for.
use telepathy_haze.MediaChannel.{
  stream_state_changed, stream_removed, closed_signal, stream_info, cancelled, failed, hangup,
  change_members, does, Effect, succeeded, PendingStreamRequest, Stream, Channel,
}
use telepathy_haze.MediaChannel.Pending.{
  can_copy, pending_stream_request_new, pending_fields, no_streams, maybe_satisfy, satisfy_pending,
  pending_stream_request_free,
}
use telepathy_haze.MediaChannel.Satisfied.{count_some, Fits, IsWaiting, maybe_satisfy_lem, types_in}
use telepathy_haze.Prelude.{
  if_intro, Option, none, false, not, fold_inv, true, Option-cases, String, ◌&&◌, fold, Bool-cases,
  refl, ◌≡◌, ap, some, arith, All, ◌∙◌, ◌∷◌, [], subst, List, inl, bind_inv, some_inj, inr, ℕ,
  if◌then◌else◌, sym,
}
use telepathy_haze.MediaChannel.Session.{
  state_new, state_end, media_state_changed_cb, state_connected, stream_state, Outside,
  stream_direction_changed_cb, stream_new, media_ends, MediaState, close,
}

module _ (asked : ℕ → List ℕ) where
  -- A success names streams of the types that its context asked for, in their order.
  abbrev pub AnswersFit : List Effect → Type 0
  AnswersFit [] = Unit
  AnswersFit (succeeded context infos ∷ log) = (types_in infos ≡ asked context) × AnswersFit log
  AnswersFit (_ ∷ log) = AnswersFit log

  abbrev pub IsAwaited : PendingStreamRequest → Type 0
  IsAwaited p =
      IsWaiting p × ((context : ℕ) × (p.context ≡ some context) × (p.types ≡ asked context))

  pub record IsFit (C : Channel) : Type 0 where
    pub awaited : All IsAwaited C.pending_stream_requests
    pub answered : AnswersFit C.log

  satisfy_pending-fit :
      (C : Channel) (type : ℕ) (stream : Stream) (ps : List PendingStreamRequest)
      (r : Channel × List PendingStreamRequest)
      → stream.media_type ≡ type
      → All IsAwaited ps
      → AnswersFit C.log
      → satisfy_pending C type stream ps ≡ some r
      → All IsAwaited r.1 × AnswersFit r.0.log
  unfolding satisfy_pending pending_stream_request_free
  satisfy_pending-fit C type stream [] r t w a e =
      subst (λ r. All IsAwaited r.1 × AnswersFit r.0.log) {x = (C, [])} {y = r} (some_inj e) (tt, a)
  satisfy_pending-fit C type stream (p ∷ ps) r t w a e =
      let (context, c, k) = w.0.1 in
      let (q, f, g) = bind_inv (maybe_satisfy p C type stream) _ e in
      let (rest, h, i) =
        bind_inv
          (satisfy_pending
            (if q.is_done then pending_stream_request_free q.channel q.request else q.channel) type
            stream ps)
          _ g in
      elim (maybe_satisfy_lem C type context stream t p q w.0.0 c f) [
        | inl (d, same, wait, kept, ctx) ↦
            let here : AnswersFit q.channel.log = subst (λ D. AnswersFit D.log) (sym same) a in
            let next =
              satisfy_pending-fit q.channel type stream ps rest t w.1 here (ground (arith, h, d)) in
            subst (λ r. All IsAwaited r.1 × AnswersFit r.0.log) {x = (rest.0, q.request ∷ rest.1)}
              {y = r} (ground (arith, i, d))
              (((wait, (context, ctx ∙ c, kept ∙ k)), next.0), next.1)
        | inr (context', infos, d, c', n, same, types_fit) ↦
            let here : AnswersFit q.channel.log =
              subst (λ D. AnswersFit D.log) (sym same)
                (types_fit ∙ k ∙ ap asked (some_inj (sym c ∙ c')), a) in
            let next =
              satisfy_pending-fit q.channel type stream ps rest t w.1 here
                (ground (arith, h, d, n)) in
            subst (λ r. All IsAwaited r.1 × AnswersFit r.0.log) {x = rest} {y = r}
              (ground (arith, i, d)) next
      ]

  no_streams_fit : (kinds : List ℕ) → Fits kinds (no_streams kinds)
  unfolding no_streams
  no_streams_fit [] = tt
  no_streams_fit (t ∷ kinds) = no_streams_fit kinds

  no_streams_none : (kinds : List ℕ) → count_some (no_streams kinds) ≡ 0
  unfolding no_streams count_some
  no_streams_none [] = refl
  no_streams_none (t ∷ kinds) = no_streams_none kinds

  -- A new request waits.
  pub new_request :
      (address context t : ℕ) (kinds : List ℕ)
      → asked context ≡ t ∷ kinds
      → IsAwaited (pending_fields address (t ∷ kinds) context)
  unfolding pending_fields no_streams
  new_request address context t kinds e = (
    record {
      fits = no_streams_fit (t ∷ kinds);
      counted = sym (no_streams_none (t ∷ kinds));
      unfinished = omega arith;
    },
    (context, refl, sym e),
  )

  -- What is copied is the request with its fields.
  pub copied :
      (allocated address context : ℕ) (kinds : List ℕ) (p : PendingStreamRequest)
      → pending_stream_request_new allocated address kinds context ≡ some p
      → pending_fields address kinds context ≡ p
  unfolding pending_stream_request_new
  copied allocated address context kinds p e =
      if_intro
        (λ (o : Option PendingStreamRequest). o ≡ some p → pending_fields address kinds context ≡ p)
        (can_copy allocated kinds) (λ f. some_inj f) (λ f. absurd cc) e

  pub free-IsFit :
      (C : Channel) (p : PendingStreamRequest) → IsFit C → IsFit (pending_stream_request_free C p)
  unfolding pending_stream_request_free
  free-IsFit C p f =
      let freed = pending_stream_request_free C p in
      elim (Option-cases p.context) [
        | inl e ↦ subst IsFit {x = C} {y = freed} (ground (arith, e)) f
        | inr (c, e) ↦
            subst IsFit {x = does C (failed c cancelled)} {y = freed} (ground (arith, e))
              (record { awaited = f.awaited; answered = f.answered })
      ]

  pub close-IsFit : (C : Channel) → IsFit C → IsFit (close C)
  unfolding close
  close-IsFit C f =
      let ended : Channel = record C {
        closed = true;
        media_ended = true;
        log = closed_signal ∷ stream_info hangup false ∷ C.log;
      } in
      let plain : Channel = record C { closed = true; log = closed_signal ∷ C.log } in
      elim (Bool-cases C.closed) [
        | inl c ↦ subst IsFit {x = C} (ground (arith, c)) f
        | inr c ↦ elim (Bool-cases (C.has_media && not C.media_ended)) [
          | inl m ↦
              subst IsFit {x = ended} (ground (arith, c, m))
                (record { awaited = f.awaited; answered = f.answered })
          | inr m ↦
              subst IsFit {x = plain} (ground (arith, c, m))
                (record { awaited = f.awaited; answered = f.answered })
        ]
      ]

  media_ends-IsFit : (C : Channel) → IsFit C → IsFit (media_ends C)
  unfolding media_ends
  media_ends-IsFit C f =
      let D : Channel = record C {
        media_ended = true;
        log =
            change_members (record {
              add = [];
              del = C.self_handle ∷ C.initial_peer ∷ [];
              add_local_pending = [];
              add_remote_pending = [];
              actor = C.self_handle;
            })
            ∷ C.log;
      } in
      let E : Channel = record (fold pending_stream_request_free D C.pending_stream_requests) {
        pending_stream_requests = [];
      } in
      let freed : IsFit E = record {
        awaited = tt;
        answered =
            (fold_inv IsFit pending_stream_request_free (λ s x. free-IsFit s x) D
              C.pending_stream_requests
              (record { awaited = f.awaited; answered = f.answered })).answered;
      } in
      elim (Bool-cases C.closed) [
        | inl c ↦ subst IsFit {x = E} (ground (arith, c)) freed
        | inr c ↦ subst IsFit {x = close E} (ground (arith, c)) (close-IsFit E freed)
      ]

  pub stream_new-IsFit :
      (B : Outside) (C D : Channel) (sid : String) → IsFit C → stream_new B C sid ≡ some D → IsFit D
  unfolding stream_new stream_direction_changed_cb
  stream_new-IsFit B C D sid f e =
      let (stream, g, h) = bind_inv (B.stream_by_name sid) _ e in
      let (r, i, j) =
        bind_inv (satisfy_pending C stream.media_type stream C.pending_stream_requests) _ h in
      let (w, a) =
        satisfy_pending-fit C stream.media_type stream C.pending_stream_requests r refl f.awaited
          f.answered i in
      subst IsFit (some_inj j) (record { awaited = w; answered = a })

  stream_state-IsFit :
      (B : Outside) (C : Channel) (state : MediaState) (sid : String)
      → IsFit C
      → IsFit (stream_state B C state sid)
  unfolding stream_state
  stream_state-IsFit B C state_new sid f = elim (Option-cases (B.stream_by_name sid)) [
    | inl e ↦ subst IsFit {x = C} (ground (arith, e)) f
    | inr (t, e) ↦
        subst IsFit {x = does C (stream_state_changed t.id 1)} (ground (arith, e))
          (record { awaited = f.awaited; answered = f.answered })
  ]
  stream_state-IsFit B C state_connected sid f = elim (Option-cases (B.stream_by_name sid)) [
    | inl e ↦ subst IsFit {x = C} (ground (arith, e)) f
    | inr (t, e) ↦
        subst IsFit {x = does C (stream_state_changed t.id 2)} (ground (arith, e))
          (record { awaited = f.awaited; answered = f.answered })
  ]
  stream_state-IsFit B C state_end sid f = elim (Option-cases (B.stream_by_name sid)) [
    | inl e ↦ subst IsFit {x = C} (ground (arith, e)) f
    | inr (t, e) ↦
        subst IsFit {x = does (does C (stream_state_changed t.id 0)) (stream_removed t.id)}
          (ground (arith, e)) (record { awaited = f.awaited; answered = f.answered })
  ]

  pub state-IsFit :
      (B : Outside) (C D : Channel) (state : MediaState) (sid name : Option String)
      → IsFit C
      → media_state_changed_cb B C state sid name ≡ some D
      → IsFit D
  unfolding media_state_changed_cb
  state-IsFit B C D state_new (some sid) (some name) f e = stream_new-IsFit B C D sid f e
  state-IsFit B C D state_new (some sid) none f e =
      subst IsFit (some_inj e) (stream_state-IsFit B C state_new sid f)
  state-IsFit B C D state_new none name f e = subst IsFit (some_inj e) f
  state-IsFit B C D state_connected (some sid) (some name) f e = subst IsFit (some_inj e) f
  state-IsFit B C D state_connected (some sid) none f e =
      subst IsFit (some_inj e) (stream_state-IsFit B C state_connected sid f)
  state-IsFit B C D state_connected none name f e = subst IsFit (some_inj e) f
  state-IsFit B C D state_end (some sid) (some name) f e = subst IsFit (some_inj e) f
  state-IsFit B C D state_end (some sid) none f e =
      subst IsFit (some_inj e) (stream_state-IsFit B C state_end sid f)
  state-IsFit B C D state_end none none f e = subst IsFit (some_inj e) (media_ends-IsFit C f)
  state-IsFit B C D state_end none (some name) f e = subst IsFit (some_inj e) f
