-- ===== src/MediaChannel/Fitting.antt =====
-- src/media-channel.c: every call keeps the answers to the types asked for.
use telepathy_haze.MediaChannel.{
  audio, failed, not_available, video, not_implemented, PendingStreamRequest, initiate_media, does,
  Channel, new_session_handler,
}
use telepathy_haze.MediaChannel.Fit.{
  copied, new_request, free-IsFit, AnswersFit, IsAwaited, stream_new-IsFit, IsFit,
}
use telepathy_haze.MediaChannel.Requests.{
  ask_contents, finish, count_type, refused, not_initiated, wanted, modification, requested,
  request_contents, drop_request, media_channel_request_streams, Contents, init_media,
  init_media_cb, deliver, attempt, initiate, Event, new_stream,
}
use telepathy_haze.MediaChannel.Session.{latch_to_session, Outside}
use telepathy_haze.Prelude.{
  refl, sym, Option-cases, ◌&&◌, [], ◌∷◌, All, some_inj, Bool, inl, not, zero, subst, ◌==◌, some,
  true, suc, if◌then◌else◌, List, inr, ◌≡◌, ℕ, Bool-cases, for_each, for_each_inv, bind_inv, arith,
  Option, ◌>>=◌, false, ◌||◌,
}
use telepathy_haze.MediaChannel.Pending.{
  pending_fields, pending_stream_request_new, pending_stream_request_free,
}

module _ (asked : ℕ → List ℕ) (B : Outside) (media_caps : ℕ)
    (initiated : ℕ → List Event × Bool) where
  pub deliver-IsFit :
      (C D : Channel) (v : Event)
      → IsFit asked C
      → deliver B media_caps initiated C v ≡ some D
      → IsFit asked D
  unfolding deliver init_media_cb latch_to_session
  deliver-IsFit C D (new_stream sid) f e = elim (Bool-cases C.has_media) [
    | inl m ↦ stream_new-IsFit asked B C D sid f (ground (arith, e, m))
    | inr m ↦ subst (IsFit asked) {x = C} (some_inj (ground (arith, e, m))) f
  ]
  deliver-IsFit C D (init_media is_account contact) f e = elim (Bool-cases C.listens) [
    | inr l ↦ subst (IsFit asked) {x = C} (some_inj (ground (arith, e, l))) f
    | inl l ↦ elim (Bool-cases (not is_account || not (C.initial_peer == contact))) [
      | inl o ↦ subst (IsFit asked) {x = C} (some_inj (ground (arith, e, l, o))) f
      | inr o ↦ elim (Bool-cases C.has_media) [
        | inl m ↦ absurd (ground (arith, e, l, o, m))
        | inr m ↦
            subst (IsFit asked)
              {x = does (record C { has_media = true; listens = false }) new_session_handler}
              (some_inj (ground (arith, e, l, o, m)))
              (record { awaited = f.awaited; answered = f.answered })
      ]
    ]
  ]

  attempt-IsFit :
      (k peer : ℕ) (C : Channel) (type : ℕ) (r : Channel × Bool)
      → IsFit asked C
      → attempt B media_caps initiated k peer C type ≡ some r
      → IsFit asked r.0
  unfolding attempt
  attempt-IsFit k peer C type r f e =
      let (D, g, h) =
        bind_inv
          (for_each (deliver B media_caps initiated) (does C (initiate_media peer type))
            (initiated k).0)
          _ e in
      subst (λ r. IsFit asked r.0) (some_inj h)
        (for_each_inv (IsFit asked) (deliver B media_caps initiated) (λ s t v. deliver-IsFit s t v)
          (does C (initiate_media peer type)) D (initiated k).0
          (record { awaited = f.awaited; answered = f.answered }) g)

  -- One round of the loop, and the rest if it went well.
  round-IsFit :
      (k peer : ℕ) (C : Channel) (type : ℕ) (rest : Channel → Option (Channel × Bool))
      (r : Channel × Bool)
      → ((E : Channel) (q : Channel × Bool) → IsFit asked E → rest E ≡ some q → IsFit asked q.0)
      → IsFit asked C
      → (attempt B media_caps initiated k peer C type >>= λ q. if q.1 then rest q.0 else some q)
        ≡ some r
      → IsFit asked r.0
  round-IsFit k peer C type rest r keep f e =
      let (q, g, h) = bind_inv (attempt B media_caps initiated k peer C type) _ e in
      let kept = attempt-IsFit k peer C type q f g in
      elim (Bool-cases q.1) [
        | inl y ↦ keep q.0 r kept (ground (arith, h, y))
        | inr n ↦
            subst (λ r. IsFit asked r.0) {x = q} {y = r} (some_inj (ground (arith, h, n))) kept
      ]

  initiate-IsFit :
      (k peer : ℕ) (C : Channel) (a v : ℕ) (r : Channel × Bool)
      → IsFit asked C
      → initiate B media_caps initiated k peer C a v ≡ some r
      → IsFit asked r.0
  unfolding initiate
  initiate-IsFit k peer C zero zero r f e =
      subst (λ r. IsFit asked r.0) {x = (C, true)} (some_inj e) f
  initiate-IsFit k peer C (suc a) zero r f e =
      round-IsFit k peer C _ _ r (λ E q g h. initiate-IsFit (suc k) peer E a zero q g h) f e
  initiate-IsFit k peer C zero (suc v) r f e =
      round-IsFit k peer C _ _ r (λ E q g h. initiate-IsFit (suc k) peer E zero v q g h) f e
  initiate-IsFit k peer C (suc a) (suc v) r f e =
      round-IsFit k peer C _ _ r (λ E q g h. initiate-IsFit (suc k) peer E a v q g h) f e

  -- A request that is dropped fails; those that wait are awaited as before.
  drop-IsFit :
      (address : ℕ) (C D : Channel) (ps : List PendingStreamRequest)
      → All (IsAwaited asked) ps
      → AnswersFit asked C.log
      → drop_request B media_caps initiated address C ps ≡ some D
      → IsFit asked D
  unfolding drop_request
  drop-IsFit address C D [] w a e = absurd cc
  drop-IsFit address C D (p ∷ ps) w a e = elim (Bool-cases (p.at == address)) [
    | inl i ↦
        let E : Channel = record C { pending_stream_requests = ps } in
        subst (IsFit asked) {x = pending_stream_request_free E p} {y = D}
          (some_inj (ground (arith, e, i)))
          (free-IsFit asked E p (record { awaited = w.1; answered = a }))
    | inr i ↦
        let (E, g, h) =
          bind_inv (drop_request B media_caps initiated address C ps)
            (λ F. some (record F { pending_stream_requests = p ∷ F.pending_stream_requests }))
            (ground (arith, e, i)) in
        let kept = drop-IsFit address C E ps w.1 a g in
        subst (IsFit asked)
          {x = record E { pending_stream_requests = p ∷ E.pending_stream_requests }} {y = D}
          (some_inj h) (record { awaited = (w.0, kept.awaited); answered = kept.answered })
  ]

  contents-IsFit :
      (C : Channel) (peer : ℕ) (kinds : List ℕ) (r : Channel × Contents)
      → IsFit asked C
      → request_contents B media_caps initiated C peer kinds ≡ some r
      → IsFit asked r.0
  unfolding request_contents
  contents-IsFit C peer kinds r f e = elim (Option-cases (wanted kinds false false)) [
    | inl w ↦
        subst (λ r. IsFit asked r.0) {x = (C, refused not_implemented)} {y = r}
          (some_inj (ground (arith, e, w))) f
    | inr (want, w) ↦ elim (Option-cases (modification B media_caps initiated C want.0 want.1)) [
      | inr (err, m) ↦
          subst (λ r. IsFit asked r.0) {x = (C, refused err)} {y = r}
            (some_inj (ground (arith, e, w, m))) f
      | inl m ↦
          let D : Channel = if C.has_media then C else record C { listens = true } in
          let kept : IsFit asked D = elim (Bool-cases C.has_media) [
            | inl y ↦ subst (IsFit asked) {x = C} {y = D} (ground (arith, y)) f
            | inr y ↦
                subst (IsFit asked) {x = record C { listens = true }} {y = D} (ground (arith, y))
                  (record { awaited = f.awaited; answered = f.answered })
          ] in
          let (q, g, h) =
            bind_inv
              (initiate B media_caps initiated 0 peer D (count_type audio kinds)
                (count_type video kinds))
              (λ q. some (q.0, if q.1 then requested else not_initiated))
              (ground (arith, e, w, m)) in
          subst (λ r. IsFit asked r.0) {y = r} (some_inj h)
            (initiate-IsFit 0 peer D (count_type audio kinds) (count_type video kinds) q kept g)
    ]
  ]

  finish-IsFit :
      (address context : ℕ) (C D : Channel) (c : Contents)
      → IsFit asked C
      → finish B media_caps initiated address context C c ≡ some D
      → IsFit asked D
  unfolding finish
  finish-IsFit address context C D requested f e = subst (IsFit asked) (some_inj e) f
  finish-IsFit address context C D not_initiated f e = absurd cc
  finish-IsFit address context C D (refused err) f e =
      let (F, g, h) =
        bind_inv (drop_request B media_caps initiated address C C.pending_stream_requests) _ e in
      let kept = drop-IsFit address C F C.pending_stream_requests f.awaited f.answered g in
      subst (IsFit asked) (some_inj h) (record { awaited = kept.awaited; answered = kept.answered })

  asked_new :
      (C D : Channel) (contact context t : ℕ) (kinds : List ℕ) (psr : PendingStreamRequest)
      → asked context ≡ t ∷ kinds
      → IsFit asked C
      → pending_fields C.next_request (t ∷ kinds) context ≡ psr
      → ask_contents B media_caps initiated C contact (t ∷ kinds) context psr ≡ some D
      → IsFit asked D
  unfolding ask_contents
  asked_new C D contact context t kinds psr k f p e =
      let E : Channel = record C {
        pending_stream_requests = psr ∷ C.pending_stream_requests;
        next_request = suc C.next_request;
      } in
      let new : IsFit asked E = record {
        awaited = (
          subst (IsAwaited asked) p (new_request asked C.next_request context t kinds k),
          f.awaited,
        );
        answered = f.answered;
      } in
      let (r, g, h) =
        bind_inv {b = D} (request_contents B media_caps initiated E contact (t ∷ kinds))
          (λ r. finish B media_caps initiated C.next_request context r.0 r.1) e in
      finish-IsFit C.next_request context r.0 D r.1 (contents-IsFit E contact (t ∷ kinds) r new g) h

  pub asked_for :
      (C D : Channel) (contact context : ℕ) (kinds : List ℕ)
      → asked context ≡ kinds
      → IsFit asked C
      → media_channel_request_streams B media_caps initiated C contact kinds context ≡ some D
      → IsFit asked D
  unfolding media_channel_request_streams
  asked_for C D contact context [] k f e =
      subst (IsFit asked) (some_inj e)
        (record { awaited = f.awaited; answered = (sym k, f.answered) })
  asked_for C D contact context (t ∷ kinds) k f e =
      elim (Bool-cases (C.has_media && not (C.initial_peer == contact))) [
        | inl o ↦
            subst (IsFit asked) {x = does C (failed context not_available)} {y = D}
              (some_inj (ground (arith, e, o)))
              (record { awaited = f.awaited; answered = f.answered })
        | inr o ↦
            let (psr, g, h) =
              bind_inv {b = D}
                (pending_stream_request_new (B.allocated context) C.next_request (t ∷ kinds)
                  context)
                (ask_contents B media_caps initiated C contact (t ∷ kinds) context)
                (ground (arith, e, o)) in
            asked_new C D contact context t kinds psr k f
              (copied asked (B.allocated context) C.next_request context (t ∷ kinds) psr g) h
      ]

  pub request-IsFit :
      (C D : Channel) (contact context : ℕ)
      → IsFit asked C
      → media_channel_request_streams B media_caps initiated C contact (asked context) context
        ≡ some D
      → IsFit asked D
  request-IsFit C D contact context f e = asked_for C D contact context (asked context) refl f e
