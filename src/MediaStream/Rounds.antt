-- ===== src/MediaStream/Rounds.antt =====
-- src/media-stream.c: native candidates, and the signals for them at the other end.
use mathlib.Core.List.{append-nil, append_assoc}
use telepathy_haze.Prelude.{
  ap, some, List, false, sym, refl, arith, ◌≡◌, ◌≤◌, String, ◌∙◌, ◌<◌, All, ◌++◌, ◌∷◌, [], for_each,
  ◌>>=◌, ℕ,
}
use telepathy_haze.MediaStream.{
  protocol_of, to_guint, Stream, transport_type_of, base_proto, add_native, Transport, Candidate,
  new_candidate, to_transport, candidate_type_of, of_transport,
}
use telepathy_haze.MediaStream.Calls.{candidate_on_bus}
use telepathy_haze.MediaStream.Views.{sent_after}

-- A transport of RTP with one of the types and protocols of Telepathy, whose preference is a whole
-- number of 32 bits.
abbrev pub IsRtp : Transport → Type 0
IsRtp t =
    (t.transport_type ≤ 2)
    × (t.proto ≤ 1)
    × (t.subtype ≡ "RTP")
    × (t.profile ≡ "AVP")
    × (t.preference.negative ≡ false)
    × (t.preference.fraction ≡ 0)
    × (t.preference.whole < 4294967296)

candidate_type-round : (type : ℕ) → type ≤ 2 → transport_type_of (candidate_type_of type) ≡ type
unfolding candidate_type_of transport_type_of
candidate_type-round type h = ground arith

protocol-round : (proto : ℕ) → proto ≤ 1 → base_proto (protocol_of proto) ≡ proto
unfolding protocol_of base_proto
protocol-round proto h = ground arith

of_transport-round :
    (candidate_id : String) (t : Transport)
    → IsRtp t
    → (c : Candidate) × (of_transport candidate_id t ≡ some c)
      × (candidate_on_bus c ≡ (candidate_id, t ∷ []))
unfolding of_transport to_transport to_guint
of_transport-round candidate_id t (type, proto, subtype, profile, positive, fraction, word) = (
  record {
    foundation = candidate_id;
    component_id = t.component;
    candidate_type = candidate_type_of t.transport_type;
    protocol = protocol_of t.proto;
    ip = t.address;
    port = t.port;
    username = t.username;
    password = t.password;
    priority = t.preference.whole;
  },
  ground (arith, positive, word),
  λ i. (
    candidate_id,
    record t {
      proto = protocol-round t.proto proto i;
      subtype = sym subtype i;
      profile = sym profile i;
      preference = record {
        negative = sym positive i;
        whole = t.preference.whole;
        fraction = sym fraction i;
      };
      transport_type = candidate_type-round t.transport_type type i;
    }
        ∷ [],
  ),
)

-- The signals for the transports of one candidate, the newest first, behind others.
unfoldable pub signals_of :
    String → List Transport → List (String × List Transport) → List (String × List Transport)
signals_of candidate_id [] sent = sent
signals_of candidate_id (t ∷ ts) sent = signals_of candidate_id ts ((candidate_id, t ∷ []) ∷ sent)

pub added_natives :
    (S : Stream) (candidate_id : String) (ts : List Transport)
    → All IsRtp ts
    → (U : Stream) × (cs : List Candidate) × (for_each (add_native candidate_id) S ts ≡ some U)
      × (U.local_candidates ≡ S.local_candidates ++ cs)
      × ((sent : List (String × List Transport))
          → sent_after cs sent ≡ signals_of candidate_id ts sent)
unfolding for_each add_native sent_after signals_of
added_natives S candidate_id [] h = (S, [], refl, sym (append-nil S.local_candidates), λ sent. refl)
added_natives S candidate_id (t ∷ ts) (here, others) =
    let (c, e, q) = of_transport-round candidate_id t here in
    let T : Stream = record S {
      local_candidates = S.local_candidates ++ (c ∷ []);
      log = new_candidate S.name S.peer c ∷ S.log;
    } in
    let (U, cs, f, l, same) = added_natives T candidate_id ts others in
    (
      U,
      c ∷ cs,
      ap
            (λ o.
              (o >>= λ d. some (record S {
                local_candidates = S.local_candidates ++ (d ∷ []);
                log = new_candidate S.name S.peer d ∷ S.log;
              }))
              >>= λ V. for_each (add_native candidate_id) V ts)
            e
          ∙ f,
      l ∙ append_assoc S.local_candidates (c ∷ []) cs,
      λ sent. same (candidate_on_bus c ∷ sent) ∙ ap (λ d. signals_of candidate_id ts (d ∷ sent)) q,
    )

pub sent_after-append :
    (cs ds : List Candidate) (sent : List (String × List Transport))
    → sent_after (cs ++ ds) sent ≡ sent_after ds (sent_after cs sent)
unfolding sent_after
sent_after-append [] ds sent = refl
sent_after-append (c ∷ cs) ds sent = sent_after-append cs ds (candidate_on_bus c ∷ sent)
