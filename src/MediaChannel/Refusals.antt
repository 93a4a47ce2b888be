-- ===== src/MediaChannel/Refusals.antt =====
-- src/media-channel.c: which requests for streams are refused, and what libpurple is asked for else.
-- All types are types.
use telepathy_haze.MediaChannel.{
  Error, not_implemented, Channel, video, audio, failed, cancelled, not_available,
}
use telepathy_haze.MediaChannel.Pending.{
  pending_fields, can_copy, pending_stream_request_new, pending_stream_request_free,
}
use telepathy_haze.MediaChannel.Requests.{
  ask_contents, request_contents, refused, caps_video, media_channel_request_streams, drop_request,
  Event, caps_audio, wanted, finish, caps_modify_session,
}
use telepathy_haze.MediaChannel.Session.{Outside}
use telepathy_haze.Prelude.{
  refl, if◌then◌else◌, ◌==◌, none, Bool, ◌≡◌, [], inl, false, not, inr, some, List, suc, arith,
  Bool-cases, ◌||◌, ℕ, ◌&&◌, ◌∷◌, true,
}
use telepathy_haze.Prelude.Bits.{has}
use telepathy_haze.Prelude.Sets.{member}

unfoldable pub are_types : List ℕ → Bool
are_types [] = true
are_types (t ∷ kinds) = ((t == audio) || (t == video)) && are_types kinds

-- The contact has the capability for each of the types.
unfoldable pub supports : ℕ → List ℕ → Bool
supports media_caps [] = true
supports media_caps (t ∷ kinds) =
    (if t == audio then has media_caps caps_audio else has media_caps caps_video)
    && supports media_caps kinds

-- What an existing call refuses: a type that is none, a call that cannot be modified, and types that the
-- contact has the capabilities for.
abbrev pub refuses : ℕ → List ℕ → Bool
refuses media_caps kinds =
    not (are_types kinds) || (not (has media_caps caps_modify_session) || supports media_caps kinds)

pub wanted_types :
    (kinds : List ℕ) (a v : Bool)
    → wanted kinds a v
      ≡ (if are_types kinds then some (a || member kinds audio, v || member kinds video) else none)
unfolding wanted are_types member
wanted_types [] a v = ground arith
wanted_types (t ∷ kinds) a v = ground (arith, wanted_types kinds true v, wanted_types kinds a true)

pub supports_wanted :
    (media_caps : ℕ) (kinds : List ℕ)
    → are_types kinds ≡ true
    → supports media_caps kinds ≡ (
        (not (member kinds audio) || has media_caps caps_audio)
        && (not (member kinds video) || has media_caps caps_video))
unfolding supports are_types member
supports_wanted media_caps [] e = refl
supports_wanted media_caps (t ∷ kinds) e = elim (Bool-cases (t == audio)) [
  | inl a ↦ ground (arith, e, a, supports_wanted media_caps kinds)
  | inr a ↦ ground (arith, e, a, supports_wanted media_caps kinds)
]

module _ (B : Outside) (media_caps : ℕ) (initiated : ℕ → List Event × Bool) where
  contents_refused :
      (C : Channel) (peer : ℕ) (kinds : List ℕ)
      → C.has_media ≡ true
      → refuses media_caps kinds ≡ true
      → (e : Error) × (request_contents B media_caps initiated C peer kinds ≡ some (C, refused e))
  unfolding request_contents
  contents_refused C peer kinds m f = elim (Bool-cases (are_types kinds)) [
    | inr n ↦ (not_implemented, ground (arith, n, wanted_types kinds false false))
    | inl y ↦ (
      not_available,
      ground (arith, y, m, f, wanted_types kinds false false, supports_wanted media_caps kinds y),
    )
  ]

  -- In an existing call with the contact, a request is refused if one of its types is none, if the
  -- protocol cannot modify calls, or if the contact has the capabilities for all the types; it gets two
  -- answers then: that it was cancelled, and the error. Where the copy of its types reads outside of
  -- their array, it is undefined what happens.
  pub refused_twice :
      (C : Channel) (context t : ℕ) (kinds : List ℕ)
      → C.has_media ≡ true
      → refuses media_caps (t ∷ kinds) ≡ true
      → (D : Channel) × (e : Error) × (media_channel_request_streams B media_caps initiated C
            C.initial_peer
            (t ∷ kinds)
            context
          ≡ (if can_copy (B.allocated context) (t ∷ kinds) then some D else none))
        × (D.log ≡ failed context e ∷ failed context cancelled ∷ C.log)
        × (D.pending_stream_requests ≡ C.pending_stream_requests)
  unfolding media_channel_request_streams ask_contents pending_fields finish drop_request
      pending_stream_request_free pending_stream_request_new
  refused_twice C context t kinds m f =
      let E : Channel = record C {
        pending_stream_requests =
            pending_fields C.next_request (t ∷ kinds) context ∷ C.pending_stream_requests;
        next_request = suc C.next_request;
      } in
      let (e, q) = contents_refused E C.initial_peer (t ∷ kinds) m f in
      let asked : ask_contents B media_caps initiated C C.initial_peer (t ∷ kinds) context
            (pending_fields C.next_request (t ∷ kinds) context)
          ≡ some (record C {
            next_request = suc C.next_request;
            log = failed context e ∷ failed context cancelled ∷ C.log;
          }) =
        ground (arith, q) in
      (
        record C {
          next_request = suc C.next_request;
          log = failed context e ∷ failed context cancelled ∷ C.log;
        },
        e,
        ground (arith, asked, m),
        refl,
        refl,
      )
