-- ===== src/Avatars/Setting.antt =====
-- src/connection-avatars.c: what an avatar must be, and how the user's is set.
use telepathy_haze.Telepathy.{Handles}
use Prim.Native.String.{◌++◌ as str_append}
use telepathy_haze.Avatars.{
  Error, Bytes, Signal, Icons, not_connected, invalid_argument, avatar_updated, IconSpec,
}
use telepathy_haze.Prelude.{
  true, if◌then◌else◌, ◌∷◌, ◌==◌, ◌&&◌, ltb, List, length, Bool, inl, ◌⊎◌, false, not, is_some, inr,
  [], str_eq, none, map, ℕ, ◌>>=◌, Option, String, some,
}

module _ (I : Icons) (R : Handles) (self_handle : ℕ) (spec : IconSpec) where
  -- The account's icons, and acceptable_avatar_mime_types of the connection.
  pub record Avatars : Type 0 where
    pub icons : I.State
    pub acceptable_mime_types : Option (List String)

  -- The types, or NULL, with the connection that keeps them.
  unfoldable pub get_acceptable_mime_types : Avatars → Avatars × Option (List String)
  get_acceptable_mime_types A = elim spec.format [
    | none ↦ (A, none)
    | some format ↦ elim A.acceptable_mime_types [
      | some types ↦ (A, some types)
      | none ↦
          let types = map (λ t. str_append "image/" t) (I.split format) in
          (record A { acceptable_mime_types = some types }, some types)
    ]
  ]

  -- The loop over the types; `none` is the NULL pointer.
  unfoldable pub is_among : String → List String → Bool
  is_among mime_type [] = false
  is_among mime_type (t ∷ types) = if str_eq t mime_type then true else is_among mime_type types

  unfoldable pub is_acceptable : Option (List String) → String → Option Bool
  unfolding is_among
  is_acceptable types mime_type =
      let among : Option Bool = elim types [
        | none ↦ none
        | some ts ↦ some (is_among mime_type ts)
      ] in
      if str_eq mime_type "" then some true else among

  -- The answer is the token, or an error.
  unfoldable pub set_avatar :
      Avatars → Bytes → String → Option (Avatars × (String ⊎ Error) × List Signal)
  unfolding get_acceptable_mime_types is_acceptable
  set_avatar A avatar mime_type =
      let (B, types) = get_acceptable_mime_types A in
      let icon_len = length avatar in
      let icon_data : Option Bytes = if icon_len == 0 then none else some avatar in
      let token = I.sha1 avatar in
      if ltb 0 spec.max_filesize && ltb spec.max_filesize icon_len
      then some (B, inr invalid_argument, [])
      else (is_acceptable types mime_type >>= λ acceptable. some (
          if acceptable
          then (
            record B { icons = I.set_account_icon B.icons icon_data },
            inl token,
            avatar_updated self_handle token ∷ [],
          )
          else (B, inr invalid_argument, [])))

  unfoldable pub clear_avatar : Avatars → Avatars × List Signal
  clear_avatar A =
      (record A { icons = I.set_account_icon A.icons none }, avatar_updated self_handle "" ∷ [])

  -- The properties of the interface, and the answer of GetAvatarRequirements: sizes and types.
  pub data AvatarDbusProperty : Type 0 where
    dp_min_w dp_min_h dp_max_w dp_max_h dp_rec_w dp_rec_h dp_max_bytes dp_types : AvatarDbusProperty

  abbrev types_of : Avatars → Avatars × (ℕ ⊎ Option (List String))
  types_of A = let (B, types) = get_acceptable_mime_types A in (B, inr types)

  unfoldable pub properties_getter :
      Bool → Avatars → AvatarDbusProperty → Option (Avatars × (ℕ ⊎ Option (List String)))
  unfolding get_acceptable_mime_types
  properties_getter is_connected A which =
      let dummy : ℕ ⊎ Option (List String) = elim which [ dp_types ↦ inr none | _ ↦ inl 0 ] in
      let value : Avatars × (ℕ ⊎ Option (List String)) = elim which [
        | dp_min_w ↦ (A, inl spec.min_width)
        | dp_max_w ↦ (A, inl spec.max_width)
        | dp_min_h ↦ (A, inl spec.min_height)
        | dp_max_h ↦ (A, inl spec.max_height)
        | dp_rec_w ↦ (A, inl 0)
        | dp_rec_h ↦ (A, inl 0)
        | dp_max_bytes ↦ (A, inl spec.max_filesize)
        | dp_types ↦ types_of A
      ] in
      if not is_connected
      then some (A, dummy)
      else if not (is_some spec.format)
      then none
      else some value

  pub record Requirements : Type 0 where
    pub types : Option (List String)
    pub sizes : ℕ × ℕ × ℕ × ℕ
    pub max_bytes : ℕ

  unfoldable pub get_avatar_requirements :
      Bool → Avatars → Option (Avatars × (Requirements ⊎ Error))
  unfolding get_acceptable_mime_types
  get_avatar_requirements is_connected A =
      let (B, types) = get_acceptable_mime_types A in
      let answer : Requirements = record {
        types = types;
        sizes = (spec.min_width, spec.min_height, spec.max_width, spec.max_height);
        max_bytes = spec.max_filesize;
      } in
      if not is_connected
      then some (A, inr not_connected)
      else if not (is_some spec.format)
      then none
      else some (B, inl answer)
