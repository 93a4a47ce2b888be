-- ===== src/MediaChannel/Satisfied.antt =====
-- src/media-channel.c: a request for streams is answered with streams of the types it asks for.
-- The streams that are there are of the types asked for, place by place.
use telepathy_haze.MediaChannel.{StreamInfo, Channel, does, Stream, PendingStreamRequest, succeeded}
use telepathy_haze.MediaChannel.Pending.{
  maybe_satisfy, satisfy_from, make_stream_list, Satisfying, reverse_onto, stream_info_of,
}
use telepathy_haze.Prelude.{
  ap, some_inj, sym, subst, inl, ◌==◌, Bool-cases, inr, true, arith, ◌<◌, ◌≡◌, ℕ, refl, ◌≤◌, Option,
  some, ◌+◌, length, map, none, ◌⊎◌, suc, ◌∷◌, [], List, false,
}

abbrev pub Fits : List ℕ → List (Option Stream) → Type 0
Fits [] [] = Unit
Fits [] (s ∷ streams) = ⊥
Fits (t ∷ kinds) [] = ⊥
Fits (t ∷ kinds) (none ∷ streams) = Fits kinds streams
Fits (t ∷ kinds) (some s ∷ streams) = (s.media_type ≡ t) × Fits kinds streams

unfoldable pub count_some : List (Option Stream) → ℕ
count_some [] = 0
count_some (none ∷ streams) = count_some streams
count_some (some s ∷ streams) = suc (count_some streams)

unfoldable pub reverse_types : List ℕ → List ℕ → List ℕ
reverse_types [] kinds = kinds
reverse_types (t ∷ seen) kinds = reverse_types seen (t ∷ kinds)

abbrev pub types_in : List StreamInfo → List ℕ
types_in = map (λ i. i.info_type)

-- A request that waits: for as many streams as it has no stream for, one at least.
pub record IsWaiting (p : PendingStreamRequest) : Type 0 where
  pub fits : Fits p.types p.streams
  pub counted : p.satisfied ≡ count_some p.streams
  pub unfinished : p.satisfied < length p.types

count_bound :
    (kinds : List ℕ) (streams : List (Option Stream))
    → Fits kinds streams
    → count_some streams ≤ length kinds
unfolding count_some
count_bound [] [] f = omega arith
count_bound [] (s ∷ streams) f = absurd f
count_bound (t ∷ kinds) [] f = absurd f
count_bound (t ∷ kinds) (none ∷ streams) f = ground (arith, count_bound kinds streams f)
count_bound (t ∷ kinds) (some s ∷ streams) f = ground (arith, count_bound kinds streams f.1)

-- If no stream is missing, the list can be made, and has the types.
full_list :
    (peer : ℕ) (kinds : List ℕ) (streams : List (Option Stream))
    → Fits kinds streams
    → count_some streams ≡ length kinds
    → (infos : List StreamInfo) × (make_stream_list peer streams ≡ some infos)
      × (types_in infos ≡ kinds)
unfolding count_some make_stream_list
full_list peer [] [] f c = ([], refl, refl)
full_list peer [] (s ∷ streams) f c = absurd f
full_list peer (t ∷ kinds) [] f c = absurd f
full_list peer (t ∷ kinds) (none ∷ streams) f c =
    absurd (omega (arith, c, count_bound kinds streams f))
full_list peer (t ∷ kinds) (some s ∷ streams) f c =
    let (infos, e, q) = full_list peer kinds streams f.1 (omega (arith, c)) in
    (stream_info_of peer s ∷ infos, ground (arith, e), ground (arith, f.0, q))

Fits-reverse :
    (seen kinds : List ℕ) (before streams : List (Option Stream))
    → Fits seen before
    → Fits kinds streams
    → Fits (reverse_types seen kinds) (reverse_onto before streams)
unfolding reverse_types reverse_onto
Fits-reverse [] kinds [] streams f g = g
Fits-reverse [] kinds (s ∷ before) streams f g = absurd f
Fits-reverse (t ∷ seen) kinds [] streams f g = absurd f
Fits-reverse (t ∷ seen) kinds (none ∷ before) streams f g =
    Fits-reverse seen (t ∷ kinds) before (none ∷ streams) f g
Fits-reverse (t ∷ seen) kinds (some s ∷ before) streams f g =
    Fits-reverse seen (t ∷ kinds) before (some s ∷ streams) f.1 (f.0, g)

count-reverse :
    (before streams : List (Option Stream))
    → count_some (reverse_onto before streams) ≡ count_some before + count_some streams
unfolding count_some reverse_onto
count-reverse [] streams = omega arith
count-reverse (none ∷ before) streams = omega (arith, count-reverse before (none ∷ streams))
count-reverse (some s ∷ before) streams = omega (arith, count-reverse before (some s ∷ streams))

-- What comes of a request when a stream is new.
abbrev pub IsSatisfied : PendingStreamRequest → Channel → Satisfying → Type 0
IsSatisfied p C r =
    ((r.is_done ≡ false)
      × (r.channel ≡ C)
      × IsWaiting r.request
      × (r.request.types ≡ p.types)
      × (r.request.context ≡ p.context))
    ⊎ ((context : ℕ) × (infos : List StreamInfo) × (r.is_done ≡ true)
        × (p.context ≡ some context)
        × (r.request.context ≡ none)
        × (r.channel ≡ does C (succeeded context infos))
        × (types_in infos ≡ p.types))

module _ (C : Channel) (type context : ℕ) (stream : Stream)
    (of_type : stream.media_type ≡ type) where
  -- The loop, behind the types `seen` that it has gone past.
  record IsLoop (p : PendingStreamRequest) (seen kinds : List ℕ)
      (before streams : List (Option Stream)) : Type 0 where
    types_are : p.types ≡ reverse_types seen kinds
    streams_are : p.streams ≡ reverse_onto before streams
    fits_before : Fits seen before
    fits_behind : Fits kinds streams
    satisfied_is : p.satisfied ≡ count_some before + count_some streams
    unfinished : p.satisfied < length p.types
    has_context : p.context ≡ some context

  loop_ends :
      (p : PendingStreamRequest) (seen kinds : List ℕ) (before streams : List (Option Stream))
      → IsLoop p seen kinds before streams
      → IsWaiting p
  loop_ends p seen kinds before streams h = record {
    fits =
        subst (λ k. Fits k p.streams) (sym h.types_are)
          (subst (Fits (reverse_types seen kinds)) (sym h.streams_are)
            (Fits-reverse seen kinds before streams h.fits_before h.fits_behind));
    counted =
        ground (arith, h.satisfied_is, ap count_some h.streams_are, count-reverse before streams);
    unfinished = h.unfinished;
  }

  satisfy_loop :
      (p : PendingStreamRequest) (seen kinds : List ℕ) (before streams : List (Option Stream))
      (r : Satisfying)
      → IsLoop p seen kinds before streams
      → satisfy_from p C type stream before kinds streams ≡ some r
      → IsSatisfied p C r
  unfolding satisfy_from reverse_types reverse_onto count_some
  satisfy_loop p seen [] before streams r h e =
      subst (IsSatisfied p C) {x = record { request = p; channel = C; is_done = false }} {y = r}
        (some_inj e) (inl (refl, refl, loop_ends p seen [] before streams h, refl, refl))
  satisfy_loop p seen (t ∷ kinds) before [] r h e = absurd h.fits_behind
  satisfy_loop p seen (t ∷ kinds) before (some s ∷ streams) r h e = elim (Bool-cases (t == type)) [
    | inl i ↦ absurd (ground (arith, e, i))
    | inr n ↦
        satisfy_loop p (t ∷ seen) kinds (some s ∷ before) streams r
          (record {
            types_are = h.types_are;
            streams_are = h.streams_are;
            fits_before = (h.fits_behind.0, h.fits_before);
            fits_behind = h.fits_behind.1;
            satisfied_is = omega (arith, h.satisfied_is);
            unfinished = h.unfinished;
            has_context = h.has_context;
          })
          (ground (arith, e, n))
  ]
  satisfy_loop p seen (t ∷ kinds) before (none ∷ streams) r h e = elim (Bool-cases (t == type)) [
    | inl i ↦
        let put = reverse_onto before (some stream ∷ streams) in
        let q : PendingStreamRequest = record p { streams = put; satisfied = suc p.satisfied } in
        let right : stream.media_type ≡ t = ground (arith, of_type, i) in
        let fits : Fits p.types put =
          subst (λ k. Fits k put) (sym h.types_are)
            (Fits-reverse seen (t ∷ kinds) before (some stream ∷ streams) h.fits_before
              (right, h.fits_behind)) in
        let counted = count-reverse before (some stream ∷ streams) in
        elim (Bool-cases (suc p.satisfied == length p.types)) [
          | inl l ↦
              let (infos, made, kept) =
                full_list C.initial_peer p.types put fits
                  (ground (arith, l, counted, h.satisfied_is)) in
              let answer : Satisfying = record {
                request = record q { context = none };
                channel = does C (succeeded context infos);
                is_done = true;
              } in
              let same : some answer ≡ some r = ground (arith, e, i, l, made, h.has_context) in
              subst (IsSatisfied p C) {x = answer} {y = r} (some_inj same)
                (inr (context, infos, refl, h.has_context, refl, refl, kept))
          | inr l ↦
              satisfy_loop q (t ∷ seen) kinds (some stream ∷ before) streams r
                (record {
                  types_are = h.types_are;
                  streams_are = refl;
                  fits_before = (right, h.fits_before);
                  fits_behind = h.fits_behind;
                  satisfied_is = omega (arith, h.satisfied_is);
                  unfinished = ground (arith, l, h.unfinished);
                  has_context = h.has_context;
                })
                (ground (arith, e, i, l))
        ]
    | inr n ↦
        satisfy_loop p (t ∷ seen) kinds (none ∷ before) streams r
          (record {
            types_are = h.types_are;
            streams_are = h.streams_are;
            fits_before = h.fits_before;
            fits_behind = h.fits_behind;
            satisfied_is = omega (arith, h.satisfied_is);
            unfinished = h.unfinished;
            has_context = h.has_context;
          })
          (ground (arith, e, n))
  ]

  -- When a stream is new, a request that waits is either answered with streams of the types it asks
  -- for, in their order, or waits on, and was not answered; unless it has a stream of the type already,
  -- which aborts. The request waits for its context.
  pub maybe_satisfy_lem :
      (p : PendingStreamRequest) (r : Satisfying)
      → IsWaiting p
      → p.context ≡ some context
      → maybe_satisfy p C type stream ≡ some r
      → IsSatisfied p C r
  unfolding maybe_satisfy reverse_types reverse_onto count_some
  maybe_satisfy_lem p r w c e =
      satisfy_loop p [] p.types [] p.streams r
        (record {
          types_are = refl;
          streams_are = refl;
          fits_before = tt;
          fits_behind = w.fits;
          satisfied_is = omega (arith, w.counted);
          unfinished = w.unfinished;
          has_context = c;
        })
        e
