-- ===== src/MediaStream/Once.antt =====
-- src/media-stream.c: codecs that are passed on, and candidates on their way through D-Bus.
use telepathy_haze.Prelude.{
  ◌++◌, All, ◌>>=◌, if◌then◌else◌, List-cases, ◌==◌, fold, fold_inv, false, Bool, refl, if_intro,
  Option, Option-cases, ap, inr, [], some, none, sym, String, ◌≡◌, map, bind_inv, inl, arith, ◌∙◌,
  some_inj, In, true, ◌∷◌, if_true, List, ℕ,
}
use telepathy_haze.MediaStream.{
  returned, Candidate, emits, new_native_candidate, add_remote_candidates, pass_remote_candidates,
  video_codec, add_local_codec, Media, CodecType, audio_codec, set_local_codecs, ready,
  start_stream, WireCodec, set_remote_codecs, pass_local_codecs, Transport, Codec,
  pass_remote_codecs, is_stale, frees, Stream, wire_codecs,
}
use telepathy_haze.MediaStream.Calls.{sent_log}
use telepathy_haze.MediaStream.Views.{sent_after, pass-view, pass_remote_codecs-view}
use telepathy_haze.MediaStream.Rounds.{sent_after-append, added_natives, signals_of, IsRtp}

-- A native candidate that one streaming client finds, with transports of RTP of the types and protocols
-- of Telepathy and whole preferences of 32 bits, becomes candidates of its stream. Where these are
-- given, as they are, to a stream at the other end whose client is ready, this passes a candidate with
-- the same identifier and the same transport for each of them, in their order, behind those that it
-- had.
pub native-remote_round :
    (S T : Stream) (candidate_id : String) (ts : List Transport)
    → All IsRtp ts
    → T.ready ≡ true
    → (U : Stream) × (cs : List Candidate) × (new_native_candidate S candidate_id ts ≡ some U)
      × (U.local_candidates ≡ S.local_candidates ++ cs)
      × (sent_log (add_remote_candidates T cs).log
          ≡ signals_of candidate_id ts (sent_log (pass_remote_candidates T).log))
unfolding new_native_candidate add_remote_candidates pass_remote_candidates
native-remote_round S T candidate_id ts h r =
    let (U, cs, e, l, same) = added_natives S candidate_id ts h in
    let V : Stream = record T { remote_candidates = T.remote_candidates ++ cs } in
    let earlier = ap (λ v. v.sent) (pass-view T T.remote_candidates) in
    (
      emits U returned,
      cs,
      ap (λ o. o >>= λ W. some (emits W returned)) e,
      l,
      ap (λ W. sent_log W.log) (if_true T.ready (pass_remote_candidates V) V r)
          ∙ ap (λ v. v.sent) (pass-view V V.remote_candidates)
          ∙ sent_after-append T.remote_candidates cs (sent_log T.log)
          ∙ same (sent_after T.remote_candidates (sent_log T.log))
          ∙ ap (signals_of candidate_id ts) (sym earlier),
    )

-- A codec whose strings are freed.
stale-none :
    (media_type : ℕ) (cs : List Codec) (c : Codec)
    → In c cs
    → is_stale c ≡ true
    → wire_codecs media_type cs ≡ none
unfolding wire_codecs
stale-none media_type [] c i e = absurd i
stale-none media_type (d ∷ cs) c (inl q) e = if_true (is_stale d) none _ (ap is_stale (sym q) ∙ e)
stale-none media_type (d ∷ cs) c (inr i) e =
    let rest = stale-none media_type cs c i e in ground (arith, rest)

In-map : {A B : Type 0} (f : A → B) (a : A) (xs : List A) → In a xs → In (f a) (map f xs)
In-map f a [] i = i
In-map f a (x ∷ xs) (inl e) = inl (ap f e)
In-map f a (x ∷ xs) (inr i) = inr (In-map f a xs i)

pass_remote_codecs-frees :
    (S T : Stream) → pass_remote_codecs S ≡ some T → T.remote_codecs ≡ map frees S.remote_codecs
unfolding pass_remote_codecs
pass_remote_codecs-frees S T f =
    let (ws, g, h) = bind_inv (wire_codecs S.media_type S.remote_codecs) _ f in
    ap (λ U. U.remote_codecs) (sym (some_inj h))

pass_local_codecs-remote :
    (S T : Stream) (ws : List WireCodec)
    → pass_local_codecs S ws ≡ some T
    → T.remote_codecs ≡ S.remote_codecs
unfolding pass_local_codecs add_local_codec
pass_local_codecs-remote S T ws f =
    let Same =
      λ (o : Option Stream). (U : Stream) → o ≡ some U → U.remote_codecs ≡ S.remote_codecs in
    let same : (type : CodecType) → Same (some (fold (add_local_codec type) S ws)) = λ type U e.
      ap (λ V. V.remote_codecs) (sym (some_inj e))
      ∙ fold_inv (λ V. V.remote_codecs ≡ S.remote_codecs) (add_local_codec type) (λ V w h. h) S ws
          refl in
    if_intro Same (S.media_type == 0) (same audio_codec)
      (if_intro Same (S.media_type == 1) (same video_codec) (λ U e. absurd cc)) T f

set_local_codecs-remote :
    (M : Media) (S T : Stream) (ws : List WireCodec)
    → set_local_codecs M S ws ≡ some T
    → T.remote_codecs ≡ S.remote_codecs
unfolding set_local_codecs
set_local_codecs-remote M S T ws f =
    let Same =
      λ (o : Option Stream). (U : Stream) → o ≡ some U → U.remote_codecs ≡ S.remote_codecs in
    if_intro Same (M.is_initiator S.name S.peer)
      (λ U e.
        let (V, g, h) = bind_inv (pass_local_codecs S ws) _ e in
        ap (λ W. W.remote_codecs) (sym (some_inj h)) ∙ pass_local_codecs-remote S V ws g)
      (λ U e. ap (λ W. W.remote_codecs) (sym (some_inj e))) T f

pass-stuck :
    (S : Stream) → wire_codecs S.media_type S.remote_codecs ≡ none → pass_remote_codecs S ≡ none
unfolding pass_remote_codecs
pass-stuck S e = rw e refl

-- A codec with parameters.
abbrev pub has_params : Codec → Bool
has_params c = elim c.optional_parameters [ [] ↦ false | _ ∷ _ ↦ true ]

freed-stale : (c : Codec) → has_params c ≡ true → is_stale (frees c) ≡ true
unfolding is_stale
freed-stale c e = elim (List-cases c.optional_parameters) [
  | inl q ↦ absurd (cc (rw q at e))
  | inr (p, ps, q) ↦ rw q refl
]

-- Where libpurple sets codecs of which one has parameters, on a stream whose client is ready, and the
-- client calls Ready again, strings are read that the first passing of the codecs has freed.
pub ready_twice :
    (M : Media) (S T : Stream) (cs : List Codec) (c : Codec) (ws : List WireCodec)
    → S.ready ≡ true
    → In c cs
    → has_params c ≡ true
    → set_remote_codecs S cs ≡ some T
    → ready M T ws ≡ none
unfolding set_remote_codecs ready
ready_twice M S T cs c ws r i p f =
    let R : Stream = record S { remote_codecs = cs } in
    let passed = sym (if_true S.ready (pass_remote_codecs R) (some R) r) ∙ f in
    let is_ready = ap (λ v. v.is_ready) (pass_remote_codecs-view R T passed) ∙ r in
    let V = if T.ready then T else start_stream M T in
    let same : V ≡ T = if_true T.ready T (start_stream M T) is_ready in
    elim (Option-cases (set_local_codecs M V ws)) [
      | inl e ↦ rw e refl
      | inr (U, e) ↦
          let kept =
            set_local_codecs-remote M V U ws e
            ∙ ap (λ W. W.remote_codecs) same
            ∙ pass_remote_codecs-frees R T passed in
          let stuck =
            ap (wire_codecs U.media_type) kept
            ∙ stale-none U.media_type (map frees cs) (frees c) (In-map frees c cs i)
                (freed-stale c p) in
          ap (λ o. o >>= λ A. pass_remote_codecs A >>= λ B. some (pass_remote_candidates B)) e
          ∙ ap (λ o. o >>= λ B. some (pass_remote_candidates B)) (pass-stuck U stuck)
    ]
