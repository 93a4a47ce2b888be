-- ===== src/MediaBackend/Announced.antt =====
-- src/media-backend.c: streams are announced once.
use telepathy_haze.Prelude.{
  for_each, some_inj, length, ◌>>=◌, bind_inv, if◌then◌else◌, ap, ◌%◌, ◌<◌, ◌+◌, ◌++◌, subst, some,
  Bool, List, inr, map, if_intro, ◌∷◌, ◌≡◌, Option, false, none, sym, fold_inv, true, fold, arith,
  Bool-cases, String, inl, if_true, ◌∙◌, suc, ◌≤◌, if_false, refl, [], ℕ,
}
use telepathy_haze.MediaBackend.{
  make_stream, Param, new_backend, media_is_gone, backend_add_remote_candidates, transmission,
  backend_set_remote_codecs, add_stream, on_stream, handler_returned, MediaBackend, tell_changes,
  backend_ready, remove_fast, backend_state_changed_cb, emit_new_stream, backend_error, end_media,
}
use telepathy_haze.MediaBackend.Calls.{
  gives_candidates, backend_step, add_remote_candidates-KeepsId, set_remote_codecs-KeepsId,
  loses_media, BackendCall, KeepsId, changes_state, there-on_stream, adds_stream, is_told_error,
  gives_codecs, backend_run, is_told_ready, there-append, there-remove_fast, announced,
  announced-fold, there,
}
use telepathy_haze.MediaStream.{new_stream, add_stun_server, stream_error, Stream}
use telepathy_haze.Prelude.Bits.{has}
use telepathy_haze.MediaBackend.Sound.{
  IsOne, announced-IsSound, fewer-IsSound, ready-IsSound, move-IsSound, added-IsSound, IsSound,
}
use telepathy_haze.MediaChannel.Removal.{ended}

abbrev IsAnnounced : ℕ → MediaBackend → Type 0
IsAnnounced i B = IsSound i B.next_stream_id B.is_ready (there i B.streams) (announced i B.log)

abbrev StaysSound : ℕ → MediaBackend → MediaBackend → Type 0
StaysSound i B C = IsAnnounced i C × (C.next_stream_id ≤ suc B.next_stream_id)

changed-StaysSound :
    (i : ℕ) (B : MediaBackend) (is_end : Bool) (sid name : Option String)
    → IsAnnounced i B
    → IsAnnounced i (backend_state_changed_cb B is_end sid name)
      × ((backend_state_changed_cb B is_end sid name).next_stream_id ≡ B.next_stream_id)
unfolding backend_state_changed_cb
changed-StaysSound i B true (some sid) none h = (
  fewer-IsSound i B.next_stream_id B.is_ready (there i B.streams)
      (there i (remove_fast B.streams sid)) (announced i B.log) (there-remove_fast i B.streams sid)
      h,
  refl,
)
changed-StaysSound i B true (some sid) (some name) h = (h, refl)
changed-StaysSound i B true none name h = (h, refl)
changed-StaysSound i B false sid name h = (h, refl)

told-StaysSound :
    (i : ℕ) (B : MediaBackend) (ended : List (Bool × Option String × Option String))
    → IsAnnounced i B
    → IsAnnounced i (tell_changes B ended)
      × ((tell_changes B ended).next_stream_id ≡ B.next_stream_id)
unfolding tell_changes
told-StaysSound i B ended h =
    fold_inv (λ C. IsAnnounced i C × (C.next_stream_id ≡ B.next_stream_id)) _
      (λ C (is_end, sid, name) (p, e).
        let (q, d) = changed-StaysSound i C is_end sid name p in (q, d ∙ e))
      B ended (h, refl)

there-map :
    (i : ℕ) (ss : List Stream) (message : String)
    → there i (map (λ s. stream_error s message) ss) ≡ there i ss
unfolding there stream_error
there-map i [] message = refl
there-map i (s ∷ ss) message = ground (arith, there-map i ss message)

error-StaysSound :
    (i : ℕ) (B : MediaBackend) (ended : List (Bool × Option String × Option String))
    (message : String)
    → IsAnnounced i B
    → StaysSound i B (backend_error B ended message)
unfolding backend_error announced
error-StaysSound i B ended message h =
    let (p, e) = told-StaysSound i (record B { log = end_media ∷ B.log }) ended h in
    let C = tell_changes (record B { log = end_media ∷ B.log }) ended in
    if_intro (StaysSound i B) B.has_media
      (
        fewer-IsSound i C.next_stream_id C.is_ready (there i C.streams)
            (there i (map (λ s. stream_error s message) C.streams)) (announced i C.log)
            (omega (arith, there-map i C.streams message)) p,
        omega (arith, e),
      )
      (h, omega arith)

emitted :
    (B : MediaBackend) (ss : List Stream)
    → ((fold emit_new_stream B ss).next_stream_id ≡ B.next_stream_id)
      × ((fold emit_new_stream B ss).is_ready ≡ B.is_ready)
      × ((fold emit_new_stream B ss).streams ≡ B.streams)
unfolding emit_new_stream
emitted B ss =
    fold_inv
      (λ C.
        (C.next_stream_id ≡ B.next_stream_id) × (C.is_ready ≡ B.is_ready) × (C.streams ≡ B.streams))
      emit_new_stream (λ C s h. h) B ss (refl, refl, refl)

ready-StaysSound : (i : ℕ) (B : MediaBackend) → IsAnnounced i B → StaysSound i B (backend_ready B)
unfolding backend_ready announced
ready-StaysSound i B h =
    let R : MediaBackend = record B { is_ready = true } in
    let C = fold emit_new_stream R B.streams in
    let (n, r, ss) = emitted R B.streams in
    let P = λ (D : MediaBackend). StaysSound i B (record D { log = handler_returned ∷ D.log }) in
    let all = λ (y : B.is_ready ≡ false).
      ready-IsSound i B.next_stream_id (there i B.streams) (announced i B.log) (announced i C.log)
        (announced-fold i R B.streams)
        (subst (λ q. IsSound i B.next_stream_id q (there i B.streams) (announced i B.log)) y h) in
    elim (Bool-cases B.is_ready) [
      | inl y ↦ subst P (sym (if_true B.is_ready B C y)) (h, omega arith)
      | inr y ↦ subst P (sym (if_false B.is_ready B C y)) (
        move-IsSound i _ _ _ _ _ _ _ _ (sym n) (sym r) (sym (ap (there i) ss)) refl (all y),
        omega (arith, n),
      )
    ]

-- A stream keeps its identifier while its server is added.
add_stun_server-id :
    (s : Stream) (stun_server : Option String) (stun_port : ℕ)
    → (add_stun_server s stun_server stun_port).id ≡ s.id
unfolding add_stun_server
add_stun_server-id s none stun_port = refl
add_stun_server-id s (some ip) stun_port = if_intro (λ (t : Stream). t.id ≡ s.id) _ refl refl

there-IsOne : (i : ℕ) (s : Stream) → IsOne i s.id (there i (s ∷ []))
unfolding there
there-IsOne i s = ground arith

announced-emit :
    (i : ℕ) (C : MediaBackend) (s : Stream)
    → there i (s ∷ []) + announced i C.log ≡ announced i (emit_new_stream C s).log
unfolding there announced emit_new_stream
announced-emit i C s = ground arith

-- A stream that has the next identifier is added.
joined-IsAnnounced :
    (i : ℕ) (B : MediaBackend) (s : Stream)
    → s.id ≡ B.next_stream_id
    → B.next_stream_id < 4294967295
    → IsAnnounced i B
    → (let C : MediaBackend = record B {
      next_stream_id = (B.next_stream_id + 1) % 4294967296;
      streams = B.streams ++ (s ∷ []);
    } in
        StaysSound i B (if B.is_ready then emit_new_stream C s else C))
unfolding emit_new_stream announced
joined-IsAnnounced i B s e l h =
    let C : MediaBackend = record B {
      next_stream_id = (B.next_stream_id + 1) % 4294967296;
      streams = B.streams ++ (s ∷ []);
    } in
    let k = there i (s ∷ []) in
    let n : suc B.next_stream_id ≡ (B.next_stream_id + 1) % 4294967296 = omega arith in
    let one : IsOne i B.next_stream_id k = subst (λ d. IsOne i d k) e (there-IsOne i s) in
    elim (Bool-cases B.is_ready) [
      | inl y ↦ subst (StaysSound i B) (sym (if_true B.is_ready (emit_new_stream C s) C y)) (
        move-IsSound i _ _ _ _ _ _ _ _ n (sym y) (sym (there-append i B.streams (s ∷ [])))
            (announced-emit i C s)
            (announced-IsSound i B.next_stream_id k (there i B.streams) (announced i B.log) one (
              subst (λ q. IsSound i B.next_stream_id q (there i B.streams) (announced i B.log)) y
                h)),
        omega (arith, n),
      )
      | inr y ↦ subst (StaysSound i B) (sym (if_false B.is_ready (emit_new_stream C s) C y)) (
        move-IsSound i _ _ _ _ _ _ _ _ n (sym y) (sym (there-append i B.streams (s ∷ []))) refl (
            added-IsSound i B.next_stream_id k (there i B.streams) (announced i B.log) one (
              subst (λ q. IsSound i B.next_stream_id q (there i B.streams) (announced i B.log)) y
                h)),
        omega (arith, n),
      )
    ]

module _ (path_of : String → ℕ → String) where
  make_stream-StaysSound :
      (i : ℕ) (B C : MediaBackend) (sid who : String) (type : ℕ) (initiator : Bool)
      (transmitter : String) (params : List (String × Param))
      → B.next_stream_id < 4294967295
      → IsAnnounced i B
      → make_stream path_of B sid who type initiator transmitter params ≡ some C
      → StaysSound i B C
  unfolding make_stream new_stream
  make_stream-StaysSound i B C sid who type initiator transmitter params l h f =
      let ((traversal, stun_server, stun_port), g, k) =
        bind_inv (transmission transmitter params) _ f in
      let s =
        new_stream (path_of B.object_path B.next_stream_id) sid who (if has type 3 then 0 else 1)
          B.next_stream_id initiator traversal false in
      subst (StaysSound i B) (some_inj k) (
        joined-IsAnnounced i B (add_stun_server s stun_server stun_port)
          (add_stun_server-id s stun_server stun_port) l h)

  add_stream-StaysSound :
      (i : ℕ) (B C : MediaBackend) (sid who : String) (type : ℕ) (initiator : Bool)
      (transmitter : String) (params : List (String × Param))
      → B.next_stream_id < 4294967295
      → IsAnnounced i B
      → add_stream path_of B sid who type initiator transmitter params ≡ some C
      → StaysSound i B C
  unfolding add_stream
  add_stream-StaysSound i B C sid who type initiator transmitter params l h f =
      if_intro (λ (o : Option MediaBackend). o ≡ some C → StaysSound i B C) B.has_media
        (make_stream-StaysSound i B C sid who type initiator transmitter params l h)
        (λ e. absurd cc) f

  kept-StaysSound :
      (i : ℕ) (B C : MediaBackend) (act : Stream → Option Stream) (sid : String)
      → KeepsId act
      → IsAnnounced i B
      → (on_stream act B.streams sid >>= λ ss. some (record B { streams = ss })) ≡ some C
      → StaysSound i B C
  kept-StaysSound i B C act sid keep h f =
      let (ss, g, k) = bind_inv (on_stream act B.streams sid) _ f in
      subst (StaysSound i B) (some_inj k) (
        fewer-IsSound i B.next_stream_id B.is_ready (there i B.streams) (there i ss)
            (announced i B.log) (omega (arith, there-on_stream i act B.streams ss sid keep g)) h,
        omega arith,
      )

  step-StaysSound :
      (i : ℕ) (B C : MediaBackend) (c : BackendCall)
      → B.next_stream_id < 4294967295
      → IsAnnounced i B
      → backend_step path_of B c ≡ some C
      → StaysSound i B C
  unfolding backend_add_remote_candidates backend_set_remote_codecs media_is_gone
  step-StaysSound i B C (adds_stream sid who type initiator transmitter params) l h f =
      add_stream-StaysSound i B C sid who type initiator transmitter params l h f
  step-StaysSound i B C (changes_state is_end sid name) l h f =
      let (p, e) = changed-StaysSound i B is_end sid name h in
      subst (StaysSound i B) (some_inj f) (p, omega (arith, e))
  step-StaysSound i B C (gives_candidates sid cs) l h f =
      kept-StaysSound i B C _ sid (add_remote_candidates-KeepsId cs) h f
  step-StaysSound i B C (gives_codecs sid cs) l h f =
      kept-StaysSound i B C _ sid (set_remote_codecs-KeepsId cs) h f
  step-StaysSound i B C is_told_ready l h f =
      subst (StaysSound i B) (some_inj f) (ready-StaysSound i B h)
  step-StaysSound i B C loses_media l h f = subst (StaysSound i B) (some_inj f) (h, omega arith)
  step-StaysSound i B C (is_told_error ended message) l h f =
      subst (StaysSound i B) (some_inj f) (error-StaysSound i B ended message h)

  run-IsAnnounced :
      (i : ℕ) (B C : MediaBackend) (calls : List BackendCall)
      → B.next_stream_id + length calls ≤ 4294967295
      → IsAnnounced i B
      → backend_run path_of B calls ≡ some C
      → IsAnnounced i C
  unfolding backend_run for_each
  run-IsAnnounced i B C [] l h f = subst (IsAnnounced i) (some_inj f) h
  run-IsAnnounced i B C (c ∷ calls) l h f =
      let (D, g, k) = bind_inv (backend_step path_of B c) _ f in
      let (p, e) = step-StaysSound i B D c (omega arith) h g in
      run-IsAnnounced i D C calls (omega arith) p k

  -- Whatever calls a new backend gets that do not abort, fewer than the identifiers of 32 bits: no two
  -- streams have one identifier, no stream is announced before the handler is ready, and from then on
  -- each stream that is there was announced once, and none was announced twice.
  pub streams_announced_once :
      (object_path : String) (B : MediaBackend) (calls : List BackendCall) (i : ℕ)
      → length calls < 4294967295
      → backend_run path_of (new_backend object_path) calls ≡ some B
      → (there i B.streams ≤ 1)
        × (B.is_ready ≡ false → announced i B.log ≡ 0)
        × (B.is_ready ≡ true → (announced i B.log ≤ 1) × (there i B.streams ≤ announced i B.log))
  unfolding new_backend there announced
  streams_announced_once object_path B calls i l f =
      let start : IsAnnounced i (new_backend object_path) =
        (λ h. (refl, refl), omega arith, λ h. refl, λ h. absurd cc) in
      let (p, q, n, y) =
        run-IsAnnounced i (new_backend object_path) B calls (omega arith) start f in
      (q, n, y)
