-- ===== src/MediaChannel/Answers.antt =====
-- src/media-channel.c: the answers to requests over the life of a channel.
use telepathy_haze.MediaChannel.{
  reject, accept, hangup, Channel, Error, does, Info, Stream, media_end,
}
use telepathy_haze.MediaChannel.Calls.{
  run, Call, removes_member, closes, disposes, removes_streams, tells_media, tells_info,
  tells_state, step, adds_member, requests,
}
use telepathy_haze.MediaChannel.Fit.{IsAwaited, AnswersFit, IsFit, close-IsFit, state-IsFit}
use telepathy_haze.MediaChannel.Fitting.{asked_for, deliver-IsFit, request-IsFit}
use telepathy_haze.MediaChannel.Members.{
  end_call, ends_call, other_reason, add_member, remove_member, Reason,
}
use telepathy_haze.MediaChannel.Removal.{remove_named, names_of, dedupe, end_all, remove_streams}
use telepathy_haze.MediaChannel.Requests.{initial_types, request_initial_streams, init_media, Event}
use telepathy_haze.MediaChannel.Session.{
  close, new_channel, latch_to_session, media_stream_info_cb, Outside, media_state_changed_cb,
  dispose,
}
use telepathy_haze.Prelude.{
  ◌&&◌, not, for_each_inv, is_some, All, length, if_intro, none, ◌==◌, inl, sym, inr, ◌⊎◌, ◌||◌,
  false, ℕ, true, some, Option, ◌≡◌, List, if◌then◌else◌, [], bind_inv, ◌∷◌, Bool, String, subst,
  some_inj,
}
use telepathy_haze.Prelude.Bits.{has}

module _ (asked : ℕ → List ℕ) (B : Outside) (media_caps : ℕ)
    (initiated : ℕ → List Event × Bool) where
  -- A result keeps the answers to the types asked for, if there is a result.
  abbrev Keeps : Option Channel → Type 0
  Keeps o = (D : Channel) → o ≡ some D → IsFit asked D

  some-Keeps : {C : Channel} → IsFit asked C → Keeps (some C)
  some-Keeps f D e = subst (IsFit asked) (some_inj e) f

  none-Keeps : Keeps none
  none-Keeps D e = absurd cc

  -- A step that is taken or passed over.
  guarded :
      (b : Bool) (o : Option Channel) (C D : Channel)
      → IsFit asked C
      → ((E : Channel) → o ≡ some E → IsFit asked E)
      → (if b then o else some C) ≡ some D
      → IsFit asked D
  guarded true o C D f k e = k D e
  guarded false o C D f k e = subst (IsFit asked) (some_inj e) f

  accept-IsFit :
      (C : Channel) (is_initiator : Bool) (sid name : Option String) (local : Bool)
      → IsFit asked C
      → Keeps (media_stream_info_cb B C is_initiator accept sid name local)
  unfolding media_stream_info_cb
  accept-IsFit C is_initiator none name local f =
      some-Keeps (record { awaited = f.awaited; answered = f.answered })
  accept-IsFit C is_initiator (some s) name local f =
      if_intro Keeps (is_some name || is_initiator)
        (some-Keeps (record { awaited = f.awaited; answered = f.answered }))
        (λ D e.
          let (stream, g, h) = bind_inv (B.stream_by_name s) _ e in
          some-Keeps (record { awaited = f.awaited; answered = f.answered }) D h)

  info-IsFit :
      (C : Channel) (is_initiator : Bool) (info : Info) (sid name : Option String) (local : Bool)
      → IsFit asked C
      → Keeps (media_stream_info_cb B C is_initiator info sid name local)
  unfolding media_stream_info_cb
  info-IsFit C is_initiator accept sid name local f = accept-IsFit C is_initiator sid name local f
  info-IsFit C is_initiator reject sid name local f = some-Keeps (
      if_intro (IsFit asked) (is_some sid) f
        (record { awaited = f.awaited; answered = f.answered }))
  info-IsFit C is_initiator hangup sid name local f = some-Keeps (
      if_intro (IsFit asked) (is_some sid) f
        (record { awaited = f.awaited; answered = f.answered }))

  dispose-IsFit : (C : Channel) → IsFit asked C → Keeps (dispose C)
  unfolding dispose
  dispose-IsFit C f =
      let closed =
        close-IsFit asked (record C { dispose_has_run = true })
          (record { awaited = f.awaited; answered = f.answered }) in
      if_intro Keeps C.dispose_has_run (some-Keeps f) (
        if_intro Keeps (not (close (record C { dispose_has_run = true })).closed) none-Keeps
          (some-Keeps (record { awaited = closed.awaited; answered = closed.answered })))

  add-IsFit : (l : Bool) (C : Channel) (h : ℕ) → IsFit asked C → IsFit asked (add_member l C h).0
  unfolding add_member
  add-IsFit l C h f =
      let P : Channel × Option Error → Type 0 = λ r. IsFit asked r.0 in
      if_intro P (C.creator == C.self_handle)
        (if_intro P (C.has_media && not (C.initial_peer == h)) f
          (record { awaited = f.awaited; answered = f.answered }))
        (if_intro P (C.has_media && (h == C.self_handle) && l)
          (if_intro P (C.hold_state == 0) (record { awaited = f.awaited; answered = f.answered }) f)
          f)

  end-IsFit : (C : Channel) (reason : Reason) → IsFit asked C → IsFit asked (end_call C reason).0
  unfolding end_call
  end-IsFit C ends_call f = record { awaited = f.awaited; answered = f.answered }
  end-IsFit C other_reason f = f

  remove-IsFit :
      (C : Channel) (h : ℕ) (reason : Reason) (r : Channel × Bool)
      → IsFit asked C
      → remove_member C h reason ≡ some r
      → IsFit asked r.0
  unfolding remove_member
  remove-IsFit C h reason r f e =
      let P : Channel × Bool → Type 0 = λ r. IsFit asked r.0 in
      let closed = close-IsFit asked C f in
      let Q : Option (Channel × Bool) → Type 0 = λ o. (r : Channel × Bool) → o ≡ some r → P r in
      if_intro Q (not (h == C.self_handle)) (λ r e. absurd cc)
        (λ r e. subst P (some_inj e) (
          if_intro P C.has_media (end-IsFit C reason f)
            (record { awaited = closed.awaited; answered = closed.answered })))
        r e

  end_all-IsFit : (C : Channel) (names : List ℕ) → IsFit asked C → IsFit asked (end_all C names)
  unfolding end_all
  end_all-IsFit C [] f = f
  end_all-IsFit C (n ∷ names) f =
      end_all-IsFit (does C (media_end n)) names
        (record { awaited = f.awaited; answered = f.answered })

  named-IsFit :
      (C : Channel) (o : Option (List ℕ)) → IsFit asked C → IsFit asked (remove_named C o).0
  unfolding remove_named
  named-IsFit C none f = f
  named-IsFit C (some names) f = end_all-IsFit C (dedupe (length names) names) f

  streams-IsFit :
      (C : Channel) (streams : List Stream) (ids : List ℕ) (r : Channel × Option Error)
      → IsFit asked C
      → remove_streams media_caps streams C ids ≡ some r
      → IsFit asked r.0
  unfolding remove_streams
  streams-IsFit C streams ids r f e =
      let P : Channel × Option Error → Type 0 = λ r. IsFit asked r.0 in
      let Q : Option (Channel × Option Error) → Type 0 =
        λ o. (r : Channel × Option Error) → o ≡ some r → P r in
      if_intro Q (not (has media_caps 32)) (λ r e. subst P (some_inj e) f)
        (if_intro Q C.has_media
          (λ r e. subst P (some_inj e) (named-IsFit C (names_of ids streams) f)) (λ r e. absurd cc))
        r e

  step-IsFit :
      (C D : Channel) (c : Call)
      → IsFit asked C
      → step B media_caps initiated asked C c ≡ some D
      → IsFit asked D
  unfolding step
  step-IsFit C D (requests contact context) f e =
      request-IsFit asked B media_caps initiated C D contact context f e
  step-IsFit C D (tells_media is_account contact) f e =
      deliver-IsFit asked B media_caps initiated C D (init_media is_account contact) f e
  step-IsFit C D (tells_state state sid name) f e =
      guarded C.has_media (media_state_changed_cb B C state sid name) C D f
        (λ E. state-IsFit asked B C E state sid name f) e
  step-IsFit C D (tells_info is_initiator info sid name local) f e =
      guarded C.has_media (media_stream_info_cb B C is_initiator info sid name local) C D f
        (info-IsFit C is_initiator info sid name local f) e
  step-IsFit C D closes f e = subst (IsFit asked) (some_inj e) (close-IsFit asked C f)
  step-IsFit C D disposes f e = dispose-IsFit C f D e
  step-IsFit C D (adds_member l h) f e = subst (IsFit asked) (some_inj e) (add-IsFit l C h f)
  step-IsFit C D (removes_member h reason) f e =
      let (r, g, i) = bind_inv (remove_member C h reason) _ e in
      subst (IsFit asked) (some_inj i) (remove-IsFit C h reason r f g)
  step-IsFit C D (removes_streams streams ids) f e =
      let (r, g, i) = bind_inv (remove_streams media_caps streams C ids) _ e in
      subst (IsFit asked) (some_inj i) (streams-IsFit C streams ids r f g)

  -- A new channel, and one that was asked for with its initial streams.
  new-IsFit :
      (self_handle initial_peer : ℕ) (has_media a v : Bool) (C : Channel)
      → new_channel self_handle initial_peer has_media a v ≡ some C
      → IsFit asked C
  unfolding new_channel latch_to_session
  new-IsFit self_handle initial_peer true a v C e =
      if_intro Keeps (initial_peer == 0) none-Keeps
        (some-Keeps (record { awaited = tt; answered = tt })) C e
  new-IsFit self_handle initial_peer false a v C e =
      if_intro Keeps (self_handle == 0) none-Keeps
        (some-Keeps (record { awaited = tt; answered = tt })) C e

  initial-IsFit :
      (C D : Channel) (context : ℕ)
      → asked context ≡ initial_types B media_caps initiated C.initial_audio C.initial_video
      → IsFit asked C
      → request_initial_streams B media_caps initiated C context ≡ some D
      → IsFit asked D
  unfolding request_initial_streams
  initial-IsFit C D context k f e =
      if_intro Keeps (C.creator == C.self_handle)
        (λ D e. asked_for asked B media_caps initiated C D C.initial_peer context _ k f e)
        none-Keeps D e

  -- Whatever calls a new channel gets that do not abort, each success that a request is answered with
  -- names streams of the types that were asked for, in their order; the channel may have been asked for
  -- its initial streams, with a context of their types. Each request that still waits has at least
  -- one stream missing, and those that it has are of the types at their places.
  pub answers_fit :
      (self_handle initial_peer : ℕ) (has_media a v : Bool) (C D E : Channel) (context : ℕ)
      (calls : List Call)
      → new_channel self_handle initial_peer has_media a v ≡ some C
      → asked context ≡ initial_types B media_caps initiated C.initial_audio C.initial_video
      → (D ≡ C) ⊎ (request_initial_streams B media_caps initiated C context ≡ some D)
      → run B media_caps initiated asked D calls ≡ some E
      → AnswersFit asked E.log × All (IsAwaited asked) E.pending_stream_requests
  unfolding run
  answers_fit self_handle initial_peer has_media a v C D E context calls n k s r =
      let new = new-IsFit self_handle initial_peer has_media a v C n in
      let start : IsFit asked D = elim s [
        | inl e ↦ subst (IsFit asked) (sym e) new
        | inr e ↦ initial-IsFit C D context k new e
      ] in
      let f =
        for_each_inv (IsFit asked) (step B media_caps initiated asked) (λ s t c. step-IsFit s t c) D
          E calls start r in
      (f.answered, f.awaited)
