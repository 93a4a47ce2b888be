-- ===== src/MediaBackend/Calls.antt =====
-- src/media-backend.c: the calls on a backend, and how often a stream is there and is announced.
use telepathy_haze.Prelude.{
  if◌then◌else◌, refl, ◌==◌, sym, ◌∷◌, ◌∙◌, fold, ◌+◌, str_eq, if_intro, arith, String, Option,
  ◌++◌, [], bind_inv, some_inj, fold_inv, List, ◌≡◌, ◌≤◌, some, ap, for_each, suc, Bool, ℕ,
}
use telepathy_haze.MediaBackend.{
  emit_new_stream, media_is_gone, BackendEffect, backend_set_remote_codecs, last_of, without_last,
  remove_fast, Param, backend_ready, new_stream_handler, backend_error, MediaBackend, add_stream,
  fill_gap, backend_state_changed_cb, on_stream, backend_add_remote_candidates,
}
use telepathy_haze.MediaStream.{
  add_remote_candidates, pass_candidate, Codec, Stream, wire_codecs, pass_remote_codecs,
  pass_remote_candidates, Candidate, set_remote_codecs,
}
use telepathy_haze.MediaChannel.Removal.{ended}

-- How often a stream is announced, and how many streams have its identifier.
unfoldable pub announced : ℕ → List BackendEffect → ℕ
announced i [] = 0
announced i (new_stream_handler path id type ∷ es) =
    let rest = announced i es in if id == i then suc rest else rest
announced i (_ ∷ es) = announced i es

unfoldable pub there : ℕ → List Stream → ℕ
there i [] = 0
there i (s ∷ ss) = let rest = there i ss in if s.id == i then suc rest else rest

-- The calls of libpurple and of the handler of the session.
pub data BackendCall : Type 0 where
  adds_stream : String → String → ℕ → Bool → String → List (String × Param) → BackendCall
  changes_state : Bool → Option String → Option String → BackendCall
  gives_candidates : String → List Candidate → BackendCall
  gives_codecs : String → List Codec → BackendCall
  is_told_ready loses_media : BackendCall
  is_told_error : List (Bool × Option String × Option String) → String → BackendCall

module _ (path_of : String → ℕ → String) where
  abbrev pub backend_step : MediaBackend → BackendCall → Option MediaBackend
  backend_step B (adds_stream sid who type initiator transmitter params) =
      add_stream path_of B sid who type initiator transmitter params
  backend_step B (changes_state is_end sid name) = some (backend_state_changed_cb B is_end sid name)
  backend_step B (gives_candidates sid cs) = backend_add_remote_candidates B sid cs
  backend_step B (gives_codecs sid cs) = backend_set_remote_codecs B sid cs
  backend_step B is_told_ready = some (backend_ready B)
  backend_step B loses_media = some (media_is_gone B)
  backend_step B (is_told_error ended message) = some (backend_error B ended message)

  unfoldable pub backend_run : MediaBackend → List BackendCall → Option MediaBackend
  backend_run = for_each backend_step

pub there-append : (i : ℕ) (ss ts : List Stream) → there i (ss ++ ts) ≡ there i ss + there i ts
unfolding there
there-append i [] ts = omega arith
there-append i (s ∷ ss) ts = ground (arith, there-append i ss ts)

pub there-last :
    (i : ℕ) (s : Stream) (ss : List Stream)
    → there i (last_of s ss ∷ without_last s ss) ≡ there i (s ∷ ss)
unfolding there last_of without_last
there-last i s [] = refl
there-last i s (t ∷ ts) = ground (arith, there-last i t ts)

pub there-fill_gap : (i : ℕ) (ss : List Stream) → there i (fill_gap ss) ≡ there i ss
unfolding fill_gap
there-fill_gap i [] = refl
there-fill_gap i (s ∷ ss) = there-last i s ss

pub there-remove_fast :
    (i : ℕ) (ss : List Stream) (sid : String) → there i (remove_fast ss sid) ≤ there i ss
unfolding there remove_fast
there-remove_fast i [] sid = omega arith
there-remove_fast i (s ∷ ss) sid = ground (arith, there-fill_gap i ss, there-remove_fast i ss sid)

pub announced-fold :
    (i : ℕ) (B : MediaBackend) (ss : List Stream)
    → announced i (fold emit_new_stream B ss).log ≡ there i ss + announced i B.log
unfolding announced there fold emit_new_stream
announced-fold i B [] = omega arith
announced-fold i B (s ∷ ss) = ground (arith, announced-fold i (emit_new_stream B s) ss)

-- What libpurple asks of a stream keeps the identifiers.
abbrev pub KeepsId : (Stream → Option Stream) → Type 0
KeepsId act = (s t : Stream) → act s ≡ some t → t.id ≡ s.id

pub there-on_stream :
    (i : ℕ) (act : Stream → Option Stream) (ss ts : List Stream) (sid : String)
    → KeepsId act
    → on_stream act ss sid ≡ some ts
    → there i ts ≡ there i ss
unfolding there on_stream
there-on_stream i act [] ts sid keep f = ap (there i) (sym (some_inj f))
there-on_stream i act (s ∷ ss) ts sid keep f =
    let P = λ (o : Option (List Stream)).
      (us : List Stream) → o ≡ some us → there i us ≡ there i (s ∷ ss) in
    if_intro P (str_eq sid s.name)
      (λ us g.
        let (t, h, k) = bind_inv (act s) _ g in
        ap (there i) (sym (some_inj k)) ∙ ground (arith, keep s t h))
      (λ us g.
        let (vs, h, k) = bind_inv (on_stream act ss sid) _ g in
        let rest = there-on_stream i act ss vs sid keep h in
        ap (there i) (sym (some_inj k)) ∙ ground (arith, rest))
      ts f

pub add_remote_candidates-KeepsId :
    (cs : List Candidate) → KeepsId (λ s. some (add_remote_candidates s cs))
unfolding add_remote_candidates pass_remote_candidates pass_candidate
add_remote_candidates-KeepsId cs s t f =
    ap (λ u. u.id) (sym (some_inj f))
    ∙ if_intro (λ (u : Stream). u.id ≡ s.id) s.ready
        (fold_inv (λ u. u.id ≡ s.id) pass_candidate (λ u c h. h)
          (record s { remote_candidates = s.remote_candidates ++ cs }) (s.remote_candidates ++ cs)
          refl)
        refl

pub set_remote_codecs-KeepsId : (cs : List Codec) → KeepsId (λ s. set_remote_codecs s cs)
unfolding set_remote_codecs pass_remote_codecs
set_remote_codecs-KeepsId cs s t f =
    if_intro (λ (o : Option Stream). (u : Stream) → o ≡ some u → u.id ≡ s.id) s.ready
      (λ u g.
        let (ws, h, k) = bind_inv (wire_codecs s.media_type cs) _ g in
        ap (λ v. v.id) (sym (some_inj k)))
      (λ u g. ap (λ v. v.id) (sym (some_inj g))) t f
