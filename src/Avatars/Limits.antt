-- ===== src/Avatars/Limits.antt =====
-- src/connection-avatars.c: which avatars are taken for the user's, and what is reported then.
use telepathy_haze.Telepathy.{Handles}
use telepathy_haze.Avatars.{
  invalid_argument, avatar_updated, Bytes, Error, IconSpec, IsIcons, Icons, Signal,
}
use telepathy_haze.Avatars.Setting.{
  is_acceptable, is_among, clear_avatar, set_avatar, get_acceptable_mime_types, Avatars,
}
use telepathy_haze.Avatars.Tokens.{
  get_avatar, get_known_avatar_tokens_lem, get_handle_token, get_known_avatar_tokens,
}
use telepathy_haze.ContactList.Publish.States.{answer}
use telepathy_haze.Prelude.{
  ◌∙◌, List-cases, Option, Bool-cases, true, refl, arith, Option-cases, false, ap, ltb, not, ◌&&◌,
  ℕ, ◌≢◌, inr, List, ◌⊎◌, some, length, String, ◌||◌, ◌≡◌, [], Bool, none, ◌==◌, inl, ◌∷◌, str_eq,
  if◌then◌else◌,
}
use telepathy_haze.Prelude.Table.{lookup}
use telepathy_haze.Prelude.Sets.{member}

module _ (I : Icons) (L : IsIcons I) (R : Handles) (self_handle : ℕ) (spec : IconSpec) where
  -- The image is within the limit, if there is one, and of a type of the protocol or of none.
  abbrev pub is_allowed : List String → Bytes → String → Bool
  is_allowed kinds avatar mime_type =
      ((spec.max_filesize == 0) || not (ltb spec.max_filesize (length avatar)))
      && (str_eq mime_type "" || is_among I R self_handle spec mime_type kinds)

  -- The types are kept with the connection, and nothing else changes.
  types_icons :
      (A : Avatars I R self_handle spec)
      → (get_acceptable_mime_types I R self_handle spec A).0.icons ≡ A.icons
  unfolding get_acceptable_mime_types
  types_icons A = elim (Option-cases spec.format) [
    | inl e ↦ ground (arith, e)
    | inr (f, e) ↦ elim (Option-cases A.acceptable_mime_types) [
      | inl d ↦ ground (arith, e, d)
      | inr (k, d) ↦ ground (arith, e, d)
    ]
  ]

  -- The icons after an image is set for the account: an empty image is none.
  abbrev icons_with : I.State → Bytes → I.State
  icons_with s avatar = I.set_account_icon s (if length avatar == 0 then none else some avatar)

  acceptable_known :
      (o : Option (List String)) (kinds : List String) (mime_type : String)
      → o ≡ some kinds
      → is_acceptable I R self_handle spec o mime_type
        ≡ some (str_eq mime_type "" || is_among I R self_handle spec mime_type kinds)
  unfolding is_acceptable
  acceptable_known o kinds mime_type e = ground (arith, e)

  set_token :
      (B : I.State) (s : I.State) (avatar : Bytes)
      → B ≡ icons_with s avatar
      → avatar ≢ []
      → get_handle_token I R self_handle B self_handle ≡ I.sha1 avatar
  unfolding get_handle_token
  set_token B s avatar e n = elim (List-cases avatar) [
    | inl z ↦ absurd (n z)
    | inr (b, bs, c) ↦ ground (arith, c, e, L.set_same s avatar n)
  ]

  other_token :
      (B : I.State) (s : I.State) (o : Option Bytes) (h : ℕ)
      → B ≡ I.set_account_icon s o
      → h ≢ self_handle
      → get_handle_token I R self_handle B h ≡ get_handle_token I R self_handle s h
  unfolding get_handle_token
  other_token B s o h e n = ground (arith, e, L.set_other s o (R.inspect h))

  set_avatar_cases :
      (A : Avatars I R self_handle spec) (kinds : List String) (avatar : Bytes) (mime_type : String)
      → (get_acceptable_mime_types I R self_handle spec A).1 ≡ some kinds
      → (B : Avatars I R self_handle spec) × (answer : String ⊎ Error) × (out : List Signal)
        × (set_avatar I R self_handle spec A avatar mime_type ≡ some (B, answer, out))
        × (((is_allowed kinds avatar mime_type ≡ true)
              × (answer ≡ inl (I.sha1 avatar))
              × (out ≡ avatar_updated self_handle (I.sha1 avatar) ∷ [])
              × (B.icons ≡ icons_with A.icons avatar))
            ⊎ ((is_allowed kinds avatar mime_type ≡ false)
                × (answer ≡ inr invalid_argument)
                × (out ≡ [])
                × (B.icons ≡ A.icons)))
  unfolding set_avatar
  set_avatar_cases A kinds avatar mime_type t =
      let C = (get_acceptable_mime_types I R self_handle spec A).0 in
      let same = types_icons A in
      let known =
        acceptable_known (get_acceptable_mime_types I R self_handle spec A).1 kinds mime_type t in
      let set : Avatars I R self_handle spec = record C { icons = icons_with C.icons avatar } in
      elim (Bool-cases (is_allowed kinds avatar mime_type)) [
        | inl y ↦ (
          set,
          inl (I.sha1 avatar),
          avatar_updated self_handle (I.sha1 avatar) ∷ [],
          ground (arith, t, y, known),
          inl (y, refl, refl, ap (λ s. icons_with s avatar) same),
        )
        | inr n ↦
            (C, inr invalid_argument, [], ground (arith, t, n, known), inr (n, refl, refl, same))
      ]

  -- An avatar is set exactly if it is within the limit of the protocol, if there is one, and its type
  -- is empty or one of the protocol's. Then the answer and the signal carry a token that, if the image is
  -- not empty, is the user's from then on, and those of the other contacts are what they were; if it is
  -- refused, nothing changes and no signal is sent. The types are known: the protocol has formats.
  pub set_avatar_lem :
      (A : Avatars I R self_handle spec) (kinds : List String) (avatar : Bytes) (mime_type : String)
      → (get_acceptable_mime_types I R self_handle spec A).1 ≡ some kinds
      → (B : Avatars I R self_handle spec) × (answer : String ⊎ Error) × (out : List Signal)
        × (set_avatar I R self_handle spec A avatar mime_type ≡ some (B, answer, out))
        × (((is_allowed kinds avatar mime_type ≡ true)
              × (answer ≡ inl (I.sha1 avatar))
              × (out ≡ avatar_updated self_handle (I.sha1 avatar) ∷ [])
              × (avatar ≢ [] → get_handle_token I R self_handle B.icons self_handle ≡ I.sha1 avatar)
              × ((h : ℕ)
                  → h ≢ self_handle
                  → get_handle_token I R self_handle B.icons h
                    ≡ get_handle_token I R self_handle A.icons h))
            ⊎ ((is_allowed kinds avatar mime_type ≡ false)
                × (answer ≡ inr invalid_argument)
                × (out ≡ [])
                × (B.icons ≡ A.icons)))
  set_avatar_lem A kinds avatar mime_type t =
      let (B, answer, out, e, c) = set_avatar_cases A kinds avatar mime_type t in
      (
        B,
        answer,
        out,
        e,
        elim c [
          | inl (y, f, g, i) ↦ inl (
            y,
            f,
            g,
            set_token B.icons A.icons avatar i,
            λ h n. other_token B.icons A.icons _ h i n,
          )
          | inr x ↦ inr x
        ],
      )

  -- After ClearAvatar the user has no token, and is not among the known ones, and the signal says so; the
  -- tokens of other contacts are what they were.
  pub clear_avatar_lem :
      (A : Avatars I R self_handle spec) (tokens : List (ℕ × String)) (h : ℕ)
      → get_known_avatar_tokens I R self_handle
          (clear_avatar I R self_handle spec A).0.icons
          (self_handle ∷ h ∷ [])
        ≡ inl tokens
      → (lookup self_handle tokens ≡ none)
        × (h ≢ self_handle → lookup h tokens ≡ some (get_handle_token I R self_handle A.icons h))
        × ((clear_avatar I R self_handle spec A).1 ≡ avatar_updated self_handle "" ∷ [])
  unfolding clear_avatar member get_avatar
  clear_avatar_lem A tokens h e =
      elim (get_known_avatar_tokens_lem I R self_handle (I.set_account_icon A.icons none)
        (self_handle ∷ h ∷ [])) [
          | inl f ↦ absurd cc
          | inr (t, f, found) ↦
              let same : tokens ≡ t = cc in
              (
                ap (lookup self_handle) same
                    ∙ ground (arith, found self_handle, L.set_none A.icons),
                λ n.
                    ap (lookup h) same
                    ∙ ground (
                      arith,
                      n,
                      found h,
                      other_token (I.set_account_icon A.icons none) A.icons none h refl n,
                    ),
                refl,
              )
        ]
