-- ===== src/MediaStream/Views.antt =====
-- src/media-stream.c: the view of a stream that the handing over of what the contact sends depends
-- on.
use telepathy_haze.Prelude.{
  for_each, for_each_inv, Bool, inl, ◌==◌, ap, inr, if_intro, Bool-cases, sym, Option, fold_inv,
  true, bind_inv, not, In, refl, some_inj, ◌∷◌, subst, if◌then◌else◌, [], map, none, some, All,
  List, fold, false, ◌∙◌, ◌>>=◌, String, ◌≡◌, ℕ,
}
use telepathy_haze.MediaStream.{
  of_transport, new_native_candidate, codecs_updated, start_stream, supported_codecs, frees,
  pass_local_codecs, set_local_codecs, Codec, pass_candidate, codecs_ready, returned,
  add_local_codec, try_remote, WireCodec, video_codec, try_local, Transport, pass_remote_codecs,
  to_wire, is_stale, Media, add_native, Stream, Candidate, emits, CodecType, wire_codecs,
  audio_codec, pass_remote_candidates, hold,
}
use telepathy_haze.MediaStream.Calls.{sent_log, last_codecs, candidate_on_bus}
use telepathy_haze.Prelude.Bits.{has}

-- What the handing over depends on.
pub record View : Type 0 where
  pub is_ready : Bool
  pub type : ℕ
  pub candidates : List Candidate
  pub wires : List WireCodec
  pub sent : List (String × List Transport)
  pub last : Option (List WireCodec)

abbrev pub view : Stream → View
view S = record {
  is_ready = S.ready;
  type = S.media_type;
  candidates = S.remote_candidates;
  wires = map (to_wire S.media_type) S.remote_codecs;
  sent = sent_log S.log;
  last = last_codecs S.log;
}

abbrev pub IsHandedOver : View → Type 0
IsHandedOver v =
    (v.is_ready ≡ true
      → All (λ c. In (candidate_on_bus c) v.sent) v.candidates × (v.last ≡ some v.wires))
    × (v.is_ready ≡ false → (v.sent ≡ []) × (v.last ≡ none))

-- A loop of steps that keep the view keeps it.
pub fold-view :
    {A : Type 0} (f : Stream → A → Stream)
    → ((S : Stream) (x : A) → view (f S x) ≡ view S)
    → (S : Stream) (xs : List A) → view (fold f S xs) ≡ view S
fold-view f keep S xs = fold_inv (λ T. view T ≡ view S) f (λ T x e. keep T x ∙ e) S xs refl

pub try_local-view :
    (native remote : String) (S : Stream) (lc : Candidate)
    → view (try_local native remote S lc) ≡ view S
unfolding try_local try_remote sent_log last_codecs
try_local-view native remote S lc =
    fold-view (try_remote native remote lc) (λ T rc. if_intro (λ U. view U ≡ view T) _ refl refl) S
      S.remote_candidates

pub add_local_codec-view :
    (type : CodecType) (S : Stream) (w : WireCodec) → view (add_local_codec type S w) ≡ view S
unfolding add_local_codec sent_log last_codecs
add_local_codec-view type S w = refl

-- A step that keeps the view if it does not abort.
abbrev pub Keeps : Stream → Option Stream → Type 0
Keeps S o = (T : Stream) → o ≡ some T → view T ≡ view S

pub some-Keeps : (S T : Stream) → view T ≡ view S → Keeps S (some T)
some-Keeps S T e U f = ap view (sym (some_inj f)) ∙ e

pub none-Keeps : (S : Stream) → Keeps S none
none-Keeps S T f = absurd cc

pub pass_local_codecs-Keeps : (S : Stream) (ws : List WireCodec) → Keeps S (pass_local_codecs S ws)
unfolding pass_local_codecs
pass_local_codecs-Keeps S ws =
    if_intro (Keeps S) (S.media_type == 0)
      (some-Keeps S _
        (fold-view (add_local_codec audio_codec) (add_local_codec-view audio_codec) S ws))
      (if_intro (Keeps S) (S.media_type == 1)
        (some-Keeps S _
          (fold-view (add_local_codec video_codec) (add_local_codec-view video_codec) S ws))
        (none-Keeps S))

pub bind-Keeps :
    (S : Stream) (o : Option Stream) (f : Stream → Stream)
    → Keeps S o
    → ((T : Stream) → view (f T) ≡ view T)
    → Keeps S (o >>= λ T. some (f T))
bind-Keeps S o f keep e U g =
    let (T, h, k) = bind_inv o (λ T. some (f T)) g in ap view (sym (some_inj k)) ∙ e T ∙ keep T h

pub new_native_candidate-Keeps :
    (S : Stream) (candidate_id : String) (ts : List Transport)
    → Keeps S (new_native_candidate S candidate_id ts)
unfolding new_native_candidate add_native sent_log last_codecs
new_native_candidate-Keeps S candidate_id ts =
    bind-Keeps S (for_each (add_native candidate_id) S ts) (λ T. emits T returned)
      (λ T e.
        for_each_inv (λ U. view U ≡ view S) (add_native candidate_id)
          (λ U V t h f.
            let (c, g, k) = bind_inv (of_transport candidate_id t) _ f in
            ap view (sym (some_inj k)) ∙ h)
          S T ts refl e)
      (λ T. refl)

pub set_local_codecs-Keeps :
    (M : Media) (S : Stream) (ws : List WireCodec) → Keeps S (set_local_codecs M S ws)
unfolding set_local_codecs sent_log last_codecs
set_local_codecs-Keeps M S ws =
    if_intro (Keeps S) (M.is_initiator S.name S.peer)
      (bind-Keeps S _ (λ T. emits T returned) (pass_local_codecs-Keeps S ws) (λ T. refl))
      (some-Keeps S _ refl)

pub supported_codecs-Keeps : (S : Stream) (ws : List WireCodec) → Keeps S (supported_codecs S ws)
unfolding supported_codecs sent_log last_codecs
supported_codecs-Keeps S ws =
    if_intro (Keeps S) S.awaiting_intersection
      (bind-Keeps S _ (λ T. emits (record T { awaiting_intersection = false }) returned)
        (pass_local_codecs-Keeps S ws) (λ T. refl))
      (some-Keeps S _ refl)

pub codecs_updated-Keeps : (S : Stream) (ws : List WireCodec) → Keeps S (codecs_updated S ws)
unfolding codecs_updated sent_log last_codecs
codecs_updated-Keeps S ws = if_intro (Keeps S) (not (codecs_ready S)) (some-Keeps S _ refl) (
    if_intro (Keeps S) S.awaiting_intersection (some-Keeps S _ refl)
      (bind-Keeps S _ (λ T. emits T returned) (pass_local_codecs-Keeps S ws) (λ T. refl)))

-- The candidates that a loop sends, before what was sent.
unfoldable pub sent_after :
    List Candidate → List (String × List Transport) → List (String × List Transport)
sent_after [] p = p
sent_after (c ∷ cs) p = sent_after cs (candidate_on_bus c ∷ p)

pub sent_after-In :
    (cs : List Candidate) (p : List (String × List Transport)) (e : String × List Transport)
    → In e p
    → In e (sent_after cs p)
unfolding sent_after
sent_after-In [] p e i = i
sent_after-In (c ∷ cs) p e i = sent_after-In cs (candidate_on_bus c ∷ p) e (inr i)

pub sent_after-All :
    (cs : List Candidate) (p : List (String × List Transport))
    → All (λ c. In (candidate_on_bus c) (sent_after cs p)) cs
unfolding sent_after
sent_after-All [] p = tt
sent_after-All (c ∷ cs) p = (
  sent_after-In cs (candidate_on_bus c ∷ p) (candidate_on_bus c) (inl refl),
  sent_after-All cs (candidate_on_bus c ∷ p),
)

pub pass-view :
    (S : Stream) (cs : List Candidate)
    → view (fold pass_candidate S cs) ≡ (record (view S) { sent = sent_after cs (sent_log S.log) })
unfolding fold pass_candidate sent_after sent_log last_codecs
pass-view S [] = refl
pass-view S (c ∷ cs) = pass-view (pass_candidate S c) cs

-- After the candidates are passed on, all is handed over if the codecs are.
pub pass_remote_candidates-IsHandedOver :
    (S : Stream)
    → S.ready ≡ true
    → last_codecs S.log ≡ some (view S).wires
    → IsHandedOver (view (pass_remote_candidates S))
unfolding pass_remote_candidates
pass_remote_candidates-IsHandedOver S r l =
    subst IsHandedOver (sym (pass-view S S.remote_candidates))
      (λ _. (sent_after-All S.remote_candidates (sent_log S.log), l), λ f. absurd cc)

-- The codecs that are passed on are all those of the stream; freeing their strings does not show.
pub wire_codecs-map :
    (media_type : ℕ) (cs : List Codec) (ws : List WireCodec)
    → wire_codecs media_type cs ≡ some ws
    → ws ≡ map (to_wire media_type) cs
unfolding wire_codecs
wire_codecs-map media_type [] ws f = sym (some_inj f)
wire_codecs-map media_type (c ∷ cs) ws f = elim (Bool-cases (is_stale c)) [
  | inl e ↦ absurd (cc (rw e at f))
  | inr e ↦
      let (vs, g, h) = bind_inv (wire_codecs media_type cs) _ (rw e at f) in
      sym (some_inj h) ∙ ap (λ l. to_wire media_type c ∷ l) (wire_codecs-map media_type cs vs g)
]

pub map-frees :
    (media_type : ℕ) (cs : List Codec)
    → map (to_wire media_type) (map frees cs) ≡ map (to_wire media_type) cs
unfolding to_wire
map-frees media_type [] = refl
map-frees media_type (c ∷ cs) = ap (λ l. to_wire media_type c ∷ l) (map-frees media_type cs)

pub pass_remote_codecs-view :
    (S T : Stream)
    → pass_remote_codecs S ≡ some T
    → view T ≡ (record (view S) { last = some (view S).wires })
unfolding pass_remote_codecs sent_log last_codecs
pass_remote_codecs-view S T f =
    let (ws, g, h) = bind_inv (wire_codecs S.media_type S.remote_codecs) _ f in
    ap view (sym (some_inj h))
    ∙ ap (λ l. record (view S) { wires = l; last = some ws })
        (map-frees S.media_type S.remote_codecs)
    ∙ ap (λ l. record (view S) { last = some l })
        (wire_codecs-map S.media_type S.remote_codecs ws g)

pub start_stream-view :
    (M : Media) (S : Stream) → view (start_stream M S) ≡ (record (view S) { is_ready = true })
unfolding start_stream hold sent_log last_codecs
start_stream-view M S =
    if_intro
      (λ (T : Stream).
        view (if S.local_hold then hold T S.local_hold else T)
        ≡ (record (view S) { is_ready = true }))
      (has (M.session_type S.name) 10)
      (if_intro (λ (T : Stream). view T ≡ (record (view S) { is_ready = true })) S.local_hold refl
        refl)
      (if_intro (λ (T : Stream). view T ≡ (record (view S) { is_ready = true })) S.local_hold refl
        refl)
