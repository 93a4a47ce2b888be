-- ===== src/MediaStream/Handover.antt =====
-- src/media-stream.c: what the contact sends is handed over to the streaming client.
use mathlib.Core.List.{append-nil, append_assoc}
use telepathy_haze.Prelude.{
  Bool, String, All, In, false, for_each, ℕ, none, if_true, bind_inv, true, if◌then◌else◌, if_false,
  if_intro, refl, Option, some_inj, inl, inr, ◌∷◌, some, ◌++◌, sym, ap, List, [], ◌≡◌, subst, ◌∙◌,
  Bool-cases,
}
use telepathy_haze.MediaStream.{
  new_stream, hold, pass_remote_codecs, hold_state, error_async, stream_state, new_native_candidate,
  add_stun_server, set_local_codecs, stream_error, native_candidates_prepared,
  new_active_candidate_pair, codec_choice, unhold_failure, try_local, WireCodec, ready,
  start_stream, set_remote_codecs, Codec, Stream, pass_remote_candidates, Media,
  add_remote_candidates, Candidate,
}
use telepathy_haze.MediaStream.Calls.{
  candidate_on_bus, stream_run, chooses, says_state, sent_log, readies, supports, fails_unhold,
  sets_local, activates, updates, holds, stream_step, finds, says_held, adds_stun, prepares,
  last_codecs, errs, given_candidates, given_codecs, StreamCall, adds_remote, sets_remote,
}
use telepathy_haze.MediaStream.Views.{
  new_native_candidate-Keeps, pass_remote_candidates-IsHandedOver, codecs_updated-Keeps, some-Keeps,
  start_stream-view, try_local-view, fold-view, supported_codecs-Keeps, set_local_codecs-Keeps,
  view, pass-view, IsHandedOver, pass_remote_codecs-view, Keeps,
}

-- What a call leaves: all is handed over, with what the call gives.
abbrev Follows : Stream → StreamCall → Option Stream → Type 0
Follows S c o =
    (T : Stream)
    → o ≡ some T
    → IsHandedOver (view T)
      × (T.media_type ≡ S.media_type)
      × (T.remote_candidates ≡ S.remote_candidates ++ given_candidates (c ∷ []))
      × ((view T).wires ≡ given_codecs S.media_type (view S).wires (c ∷ []))

Keeps-Follows :
    (S : Stream) (c : StreamCall) (o : Option Stream)
    → given_candidates (c ∷ []) ≡ []
    → given_codecs S.media_type (view S).wires (c ∷ []) ≡ (view S).wires
    → IsHandedOver (view S)
    → Keeps S o
    → Follows S c o
Keeps-Follows S c o g w h keep T f =
    let e = keep T f in
    (
      subst IsHandedOver (sym e) h,
      ap (λ v. v.type) e,
      ap (λ v. v.candidates) e
          ∙ sym (append-nil S.remote_candidates)
          ∙ ap (λ l. S.remote_candidates ++ l) (sym g),
      ap (λ v. v.wires) e ∙ sym w,
    )

module _ (M : Media) (S : Stream) where
  set_remote-Follows :
      (cs : List Codec)
      → IsHandedOver (view S)
      → Follows S (sets_remote cs) (set_remote_codecs S cs)
  unfolding set_remote_codecs given_candidates given_codecs
  set_remote-Follows cs h T f =
      let R : Stream = record S { remote_codecs = cs } in
      elim (Bool-cases S.ready) [
        | inl r ↦
            let e = pass_remote_codecs-view R T (sym (if_true S.ready _ _ r) ∙ f) in
            (
              subst IsHandedOver (sym e) (λ _. ((h.0 r).0, refl), λ n. absurd cc),
              ap (λ v. v.type) e,
              ap (λ v. v.candidates) e ∙ sym (append-nil S.remote_candidates),
              ap (λ v. v.wires) e,
            )
        | inr r ↦
            let e = ap view (sym (some_inj (sym (if_false S.ready _ (some R) r) ∙ f))) in
            (
              subst IsHandedOver (sym e) (λ y. absurd cc, h.1),
              ap (λ v. v.type) e,
              ap (λ v. v.candidates) e ∙ sym (append-nil S.remote_candidates),
              ap (λ v. v.wires) e,
            )
      ]

  add_remote-Follows :
      (cs : List Candidate)
      → IsHandedOver (view S)
      → Follows S (adds_remote cs) (some (add_remote_candidates S cs))
  unfolding add_remote_candidates pass_remote_candidates given_candidates given_codecs
  add_remote-Follows cs h T f =
      let R : Stream = record S { remote_candidates = S.remote_candidates ++ cs } in
      let given = ap (λ l. S.remote_candidates ++ l) (sym (append-nil cs)) in
      elim (Bool-cases S.ready) [
        | inl r ↦
            let same = sym (if_true S.ready (pass_remote_candidates R) R r) ∙ some_inj f in
            let e = ap view (sym same) ∙ pass-view R R.remote_candidates in
            (
              subst (λ U. IsHandedOver (view U)) same
                  (pass_remote_candidates-IsHandedOver R r (h.0 r).1),
              ap (λ v. v.type) e,
              ap (λ v. v.candidates) e ∙ given,
              ap (λ v. v.wires) e,
            )
        | inr r ↦
            let e =
              ap view (sym (sym (if_false S.ready (pass_remote_candidates R) R r) ∙ some_inj f)) in
            (
              subst IsHandedOver (sym e) (λ y. absurd cc, h.1),
              ap (λ v. v.type) e,
              ap (λ v. v.candidates) e ∙ given,
              ap (λ v. v.wires) e,
            )
      ]

  ready-Follows :
      (ws : List WireCodec) → IsHandedOver (view S) → Follows S (readies ws) (ready M S ws)
  unfolding ready pass_remote_candidates given_candidates given_codecs
  ready-Follows ws h V f =
      let R = if S.ready then S else start_stream M S in
      let started : view R ≡ (record (view S) { is_ready = true }) = elim (Bool-cases S.ready) [
        | inl r ↦
            ap view (if_true S.ready S (start_stream M S) r)
            ∙ ap (λ b. record (view S) { is_ready = b }) r
        | inr r ↦ ap view (if_false S.ready S (start_stream M S) r) ∙ start_stream-view M S
      ] in
      let (T, g, k) = bind_inv (set_local_codecs M R ws) _ f in
      let (U, l, m) = bind_inv (pass_remote_codecs T) _ k in
      let t = set_local_codecs-Keeps M R ws T g ∙ started in
      let u = pass_remote_codecs-view T U l in
      let e = ap view (sym (some_inj m)) ∙ pass-view U U.remote_candidates in
      let is_ready = ap (λ v. v.is_ready) u ∙ ap (λ v. v.is_ready) t in
      (
        subst (λ W. IsHandedOver (view W)) (some_inj m)
            (pass_remote_candidates-IsHandedOver U is_ready
              (ap (λ v. v.last) u ∙ ap (λ v. some v.wires) (sym u))),
        ap (λ v. v.type) e ∙ ap (λ v. v.type) u ∙ ap (λ v. v.type) t,
        ap (λ v. v.candidates) e
            ∙ ap (λ v. v.candidates) u
            ∙ ap (λ v. v.candidates) t
            ∙ sym (append-nil S.remote_candidates),
        ap (λ v. v.wires) e ∙ ap (λ v. v.wires) u ∙ ap (λ v. v.wires) t,
      )

  step-Follows : (c : StreamCall) → IsHandedOver (view S) → Follows S c (stream_step M S c)
  unfolding given_candidates given_codecs sent_log last_codecs codec_choice error_async stream_error
      hold hold_state unhold_failure native_candidates_prepared new_active_candidate_pair
      new_native_candidate stream_state add_stun_server
  step-Follows (adds_remote cs) h = add_remote-Follows cs h
  step-Follows (sets_remote cs) h = set_remote-Follows cs h
  step-Follows (readies ws) h = ready-Follows ws h
  step-Follows (adds_stun none port) h =
      Keeps-Follows S (adds_stun none port) _ refl refl h (some-Keeps S _ refl)
  step-Follows (adds_stun (some ip) port) h =
      Keeps-Follows S (adds_stun (some ip) port) _ refl refl h
        (some-Keeps S _ (if_intro (λ (T : Stream). view T ≡ view S) _ refl refl))
  step-Follows (chooses codec_id) h =
      Keeps-Follows S (chooses codec_id) _ refl refl h (some-Keeps S _ refl)
  step-Follows (errs message) h = Keeps-Follows S (errs message) _ refl refl h (some-Keeps S _ refl)
  step-Follows (holds held) h = Keeps-Follows S (holds held) _ refl refl h (some-Keeps S _ refl)
  step-Follows (says_held held) h =
      Keeps-Follows S (says_held held) _ refl refl h (some-Keeps S _ refl)
  step-Follows fails_unhold h = Keeps-Follows S fails_unhold _ refl refl h (some-Keeps S _ refl)
  step-Follows prepares h = Keeps-Follows S prepares _ refl refl h (some-Keeps S _ refl)
  step-Follows (says_state state) h =
      Keeps-Follows S (says_state state) _ refl refl h (some-Keeps S _ refl)
  step-Follows (activates native remote) h =
      Keeps-Follows S (activates native remote) _ refl refl h (
        some-Keeps S _
          (fold-view (try_local native remote) (try_local-view native remote) S S.local_candidates))
  step-Follows (finds candidate_id ts) h =
      Keeps-Follows S (finds candidate_id ts) _ refl refl h
        (new_native_candidate-Keeps S candidate_id ts)
  step-Follows (sets_local ws) h =
      Keeps-Follows S (sets_local ws) _ refl refl h (set_local_codecs-Keeps M S ws)
  step-Follows (supports ws) h =
      Keeps-Follows S (supports ws) _ refl refl h (supported_codecs-Keeps S ws)
  step-Follows (updates ws) h =
      Keeps-Follows S (updates ws) _ refl refl h (codecs_updated-Keeps S ws)

-- The first of some calls, and the others.
given_candidates_cons :
    (c : StreamCall) (calls : List StreamCall)
    → given_candidates (c ∷ calls) ≡ given_candidates (c ∷ []) ++ given_candidates calls
unfolding given_candidates
given_candidates_cons (adds_remote cs) calls =
    ap (λ l. l ++ given_candidates calls) (sym (append-nil cs))
given_candidates_cons (sets_remote _) calls = refl
given_candidates_cons (adds_stun _ _) calls = refl
given_candidates_cons (chooses _) calls = refl
given_candidates_cons (errs _) calls = refl
given_candidates_cons (holds _) calls = refl
given_candidates_cons (says_held _) calls = refl
given_candidates_cons fails_unhold calls = refl
given_candidates_cons prepares calls = refl
given_candidates_cons (activates _ _) calls = refl
given_candidates_cons (finds _ _) calls = refl
given_candidates_cons (readies _) calls = refl
given_candidates_cons (sets_local _) calls = refl
given_candidates_cons (supports _) calls = refl
given_candidates_cons (updates _) calls = refl
given_candidates_cons (says_state _) calls = refl

given_codecs_cons :
    (media_type : ℕ) (ws : List WireCodec) (c : StreamCall) (calls : List StreamCall)
    → given_codecs media_type ws (c ∷ calls)
      ≡ given_codecs media_type (given_codecs media_type ws (c ∷ [])) calls
unfolding given_codecs
given_codecs_cons media_type ws (adds_remote _) calls = refl
given_codecs_cons media_type ws (sets_remote _) calls = refl
given_codecs_cons media_type ws (adds_stun _ _) calls = refl
given_codecs_cons media_type ws (chooses _) calls = refl
given_codecs_cons media_type ws (errs _) calls = refl
given_codecs_cons media_type ws (holds _) calls = refl
given_codecs_cons media_type ws (says_held _) calls = refl
given_codecs_cons media_type ws fails_unhold calls = refl
given_codecs_cons media_type ws prepares calls = refl
given_codecs_cons media_type ws (activates _ _) calls = refl
given_codecs_cons media_type ws (finds _ _) calls = refl
given_codecs_cons media_type ws (readies _) calls = refl
given_codecs_cons media_type ws (sets_local _) calls = refl
given_codecs_cons media_type ws (supports _) calls = refl
given_codecs_cons media_type ws (updates _) calls = refl
given_codecs_cons media_type ws (says_state _) calls = refl

run-IsHandedOver :
    (M : Media) (S T : Stream) (calls : List StreamCall)
    → IsHandedOver (view S)
    → stream_run M S calls ≡ some T
    → IsHandedOver (view T)
      × (T.media_type ≡ S.media_type)
      × (T.remote_candidates ≡ S.remote_candidates ++ given_candidates calls)
      × ((view T).wires ≡ given_codecs S.media_type (view S).wires calls)
unfolding stream_run for_each given_candidates given_codecs
run-IsHandedOver M S T [] h f =
    let e = some_inj f in
    (
      subst (λ U. IsHandedOver (view U)) e h,
      ap (λ U. U.media_type) (sym e),
      ap (λ U. U.remote_candidates) (sym e) ∙ sym (append-nil S.remote_candidates),
      ap (λ U. (view U).wires) (sym e),
    )
run-IsHandedOver M S T (c ∷ calls) h f =
    let (U, g, k) = bind_inv (stream_step M S c) _ f in
    let (here, m, r, w) = step-Follows M S c h U g in
    let (there, n, q, x) = run-IsHandedOver M U T calls here k in
    (
      there,
      n ∙ m,
      q
          ∙ ap (λ l. l ++ given_candidates calls) r
          ∙ append_assoc S.remote_candidates (given_candidates (c ∷ [])) (given_candidates calls)
          ∙ ap (λ l. S.remote_candidates ++ l) (sym (given_candidates_cons c calls)),
      x
          ∙ ap (λ t. given_codecs t (view U).wires calls) m
          ∙ ap (λ ws. given_codecs S.media_type ws calls) w
          ∙ sym (given_codecs_cons S.media_type (view S).wires c calls),
    )

-- Whatever calls a new stream gets that do not abort: once the streaming client is ready, it has been
-- told of every candidate of the contact that libpurple gave, and the codecs that it was told last
-- are those that libpurple set last; before that it was told of none.
pub handed_over :
    (M : Media) (object_path name peer : String) (media_type id : ℕ) (created_locally : Bool)
    (nat_traversal : String) (local_hold : Bool) (calls : List StreamCall) (S : Stream)
    → stream_run M
        (new_stream object_path name peer media_type id created_locally nat_traversal local_hold)
        calls
      ≡ some S
    → (S.ready ≡ true
        → All (λ c. In (candidate_on_bus c) (sent_log S.log)) (given_candidates calls)
          × (last_codecs S.log ≡ some (given_codecs media_type [] calls)))
      × (S.ready ≡ false → (sent_log S.log ≡ []) × (last_codecs S.log ≡ none))
unfolding new_stream sent_log last_codecs
handed_over M object_path name peer media_type id created_locally nat_traversal local_hold calls S
      f =
    let start =
      new_stream object_path name peer media_type id created_locally nat_traversal local_hold in
    let (h, m, r, w) = run-IsHandedOver M start S calls (λ y. absurd cc, λ n. (refl, refl)) f in
    (
      λ y. (
        subst (λ cs. All (λ c. In (candidate_on_bus c) (sent_log S.log)) cs) r (h.0 y).0,
        (h.0 y).1 ∙ ap (λ ws. some ws) w,
      ),
      h.1,
    )
