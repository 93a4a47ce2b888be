-- ===== src/ImChannel/Send.antt =====
-- src/im-channel.c: haze_im_channel_send.
use telepathy_haze.ImChannel.{
  UiData, supported_message_types, not_implemented, action, normal, auto_reply, Channel,
  invalid_argument, flag_auto_resp, Error,
}
use telepathy_haze.Prelude.{
  Option-cases, Bool-cases, ◌⊎◌, inr, true, inl, eq_iff, refl, arith, [], ◌∷◌, ◌≢◌, List, some,
  if◌then◌else◌, String, In, Bool, Option, false, ◌==◌, ◌↔◌, none, ℕ, str_eq, ◌≡◌,
}

-- The text functions of GLib and libpurple.
pub record Markup : Type 0 where
  pub strconcat : String → String → String
  pub markup_escape_text : String → String
  pub strreplace : String → String → String → String
  pub strdup_withhtml : String → String
  pub markup_strip_html : String → String
  -- the rest of a text that begins with "/me "
  pub meify : String → Option String

-- A part of a TpMessage, with the keys that the code reads.
pub record Part : Type 0 where
  pub message_type : Option ℕ
  pub content_type : Option String
  pub content : Option String

-- What the sender is told: the text went to libpurple with some flags, or it was refused.
pub data Outcome : Type 0 where
  sent : String → ℕ → Outcome
  failed : Error → Outcome

-- tp_asv_get_uint32, which gives 0 for a key that is not there
abbrev pub type_of : Part → ℕ
type_of p = elim p.message_type [ none ↦ 0 | some t ↦ t ]

abbrev pub is_plain : Option String → Bool
is_plain none = false
is_plain (some t) = str_eq t "text/plain"

-- The text with "/me " in front of an action, and the flags; `none` for another type.
unfoldable pub prepare : Markup → ℕ → String → Option (String × ℕ)
prepare M t text =
    if t == action
    then some (M.strconcat "/me " text, 0)
    else if t == auto_reply
    then some (text, flag_auto_resp)
    else if t == normal
    then some (text, 0)
    else none

unfoldable pub to_html : Markup → String → String
to_html M text =
    let escaped = M.markup_escape_text text in
    let line_broken = M.strreplace escaped "\n" "<br>" in M.strreplace line_broken "&apos;" "'"

unfoldable pub send_parts : Markup → List Part → Outcome
unfolding prepare to_html
send_parts M (header ∷ body ∷ []) =
    if is_plain body.content_type
    then elim body.content [
      | none ↦ failed invalid_argument
      | some text ↦ elim (prepare M (type_of header) text) [
        | none ↦ failed not_implemented
        | some (text', flags) ↦ sent (to_html M text') flags
      ]
    ]
    else failed invalid_argument
send_parts M _ = failed invalid_argument

-- A text for libpurple needs the conversation.
unfoldable pub send : Markup → Channel → List Part → Option Outcome
unfolding send_parts
send M c parts = elim (send_parts M parts) [
  | failed e ↦ some (failed e)
  | sent text flags ↦ elim c.conv [ none ↦ none | some _ ↦ some (sent text flags) ]
]

-- A message of two parts, the second of them plain text, and of a type that the channel announces.
abbrev pub IsSendable : List Part → Type 0
IsSendable (header ∷ body ∷ []) =
    (body.content_type ≡ some "text/plain")
    × (body.content ≢ none)
    × In (type_of header) supported_message_types
IsSendable _ = ⊥

prepare-supported :
    (M : Markup) (t : ℕ) (text : String) → (prepare M t text ≢ none) ↔ In t supported_message_types
unfolding prepare supported_message_types
prepare-supported M t text = ground arith

plain_iff : (o : Option String) → (is_plain o ≡ true) ↔ (o ≡ some "text/plain")
plain_iff none = ground arith
plain_iff (some t) = ground (arith, eq_iff t "text/plain")

Outcome-cases :
    (o : Outcome)
    → ((text : String) × (flags : ℕ) × (o ≡ sent text flags)) ⊎ ((e : Error) × (o ≡ failed e))
Outcome-cases (sent text flags) = inl (text, flags, refl)
Outcome-cases (failed e) = inr (e, refl)

sent-IsSendable :
    (M : Markup) (parts : List Part) (text : String) (flags : ℕ)
    → send_parts M parts ≡ sent text flags
    → IsSendable parts
unfolding send_parts
sent-IsSendable M [] text flags e = ground arith
sent-IsSendable M (h ∷ []) text flags e = ground arith
sent-IsSendable M (h ∷ b ∷ []) text flags e = elim (Bool-cases (is_plain b.content_type)) [
  | inr p ↦ ground (arith, e, p)
  | inl p ↦ elim (Option-cases b.content) [
    | inl q ↦ ground (arith, e, p, q)
    | inr (t, q) ↦ elim (Option-cases (prepare M (type_of h) t)) [
      | inl z ↦ ground (arith, e, p, q, z)
      | inr (a, z) ↦ (
        (plain_iff b.content_type).0 p,
        λ n. absurd (ground (arith, q, n)),
        (prepare-supported M (type_of h) t).0 (λ n. absurd (ground (arith, z, n))),
      )
    ]
  ]
]
sent-IsSendable M (h ∷ b ∷ p ∷ ps) text flags e = ground arith

IsSendable-sent :
    (M : Markup) (parts : List Part)
    → IsSendable parts
    → (e : Error) → send_parts M parts ≢ failed e
unfolding send_parts
IsSendable-sent M [] s e f = absurd s
IsSendable-sent M (h ∷ []) s e f = absurd s
IsSendable-sent M (h ∷ b ∷ []) s e f = elim (Option-cases b.content) [
  | inl q ↦ s.1 q
  | inr (t, q) ↦ elim (Option-cases (prepare M (type_of h) t)) [
    | inl z ↦ (prepare-supported M (type_of h) t).1 s.2 z
    | inr (a, z) ↦ absurd (ground (arith, f, (plain_iff b.content_type).1 s.0, q, z))
  ]
]
IsSendable-sent M (h ∷ b ∷ p ∷ ps) s e f = absurd s

-- On a channel with its conversation, a message is accepted exactly if it has a header and one part of
-- plain text with a content, and its type is one that the channel announces; a message that is not is
-- refused with an error.
pub send-IsSendable :
    (M : Markup) (c : Channel) (u : UiData) (parts : List Part)
    → c.conv ≡ some u
    → ((text : String) × (flags : ℕ) × (send M c parts ≡ some (sent text flags)) × IsSendable parts)
      ⊎ ((e : Error) × (send M c parts ≡ some (failed e)) × (¬ IsSendable parts))
unfolding send
send-IsSendable M c u parts v = elim (Outcome-cases (send_parts M parts)) [
  | inl (text, flags, e) ↦ inl (text, flags, rw (send, e, v), sent-IsSendable M parts text flags e)
  | inr (x, e) ↦ inr (x, rw (send, e), λ s. IsSendable-sent M parts s x e)
]
