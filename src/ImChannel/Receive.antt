-- ===== src/ImChannel/Receive.antt =====
-- src/im-channel.c: haze_im_channel_receive. The header of a delivery report has the text of the error
-- as its debug message too, which is the content here.
use telepathy_haze.ImChannel.{
  flag_auto_resp, has_flag, Message, Channel, temporarily_failed, flag_send, delivery_report,
  flag_error, normal, flag_recv, auto_reply, action, flag_delayed, supported_message_types,
}
use telepathy_haze.ImChannel.Send.{Markup}
use telepathy_haze.Prelude.{
  inr, inl, Bool-cases, refl, Option-cases, false, ◌∷◌, none, ◌≡◌, not, String, true, some, ◌⊎◌,
  ◌||◌, [], ℕ, if◌then◌else◌, ◌==◌, In, ◌++◌,
}

-- _make_message; `now` is what time gives.
unfoldable pub make_message : Markup → Channel → String → ℕ → ℕ → ℕ → Message
make_message M c text_plain flags mtime now = record {
  sender = c.handle;
  message_type =
      if has_flag flags flag_auto_resp
      then auto_reply
      else elim (M.meify text_plain) [ none ↦ normal | some _ ↦ action ];
  message_sent = if has_flag flags flag_delayed || not (mtime == now) then some mtime else none;
  message_received = some now;
  delivery_status = none;
  content_type = "text/plain";
  content =
      if has_flag flags flag_auto_resp
      then text_plain
      else elim (M.meify text_plain) [ none ↦ text_plain | some rest ↦ rest ];
}

-- _make_delivery_report
unfoldable pub make_delivery_report : Channel → String → Message
make_delivery_report c text_plain = record {
  sender = c.handle;
  message_type = delivery_report;
  message_sent = none;
  message_received = none;
  delivery_status = some temporarily_failed;
  content_type = "text/plain";
  content = text_plain;
}

abbrev pub plain_text : Markup → String → String
plain_text M xhtml = M.markup_strip_html (M.strdup_withhtml xhtml)

abbrev pub take_received : Channel → Message → Channel
take_received c m = record c { pending = c.pending ++ (m ∷ []) }

unfoldable pub receive : Markup → Channel → String → ℕ → ℕ → ℕ → Channel
unfolding make_message make_delivery_report
receive M c xhtml_message flags mtime now =
    let text_plain = plain_text M xhtml_message in
    if has_flag flags flag_recv
    then take_received c (make_message M c text_plain flags mtime now)
    else if has_flag flags flag_send
    then c
    else if has_flag flags flag_error
    then take_received c (make_delivery_report c text_plain)
    else c

-- The report of a message that was not delivered; it has no time, and no other message is one.
abbrev pub IsReport : Message → Type 0
IsReport m = m.message_type ≡ delivery_report

make_message-In :
    (M : Markup) (c : Channel) (text : String) (flags mtime now : ℕ)
    → In (make_message M c text flags mtime now).message_type supported_message_types
unfolding make_message supported_message_types
make_message-In M c text flags mtime now = elim (Bool-cases (has_flag flags flag_auto_resp)) [
  | inl a ↦ rw (a) (inr (inr (inl refl)))
  | inr a ↦ elim (Option-cases (M.meify text)) [
    | inl m ↦ rw (a, m) (inl refl)
    | inr (rest, m) ↦ rw (a, m) (inr (inl refl))
  ]
]

-- A message is put in the queue exactly if its flags say that it was received, or that it is an error
-- and was not sent; only then it is a delivery report. What is put in the queue comes from the contact
-- of the channel, goes to the end, and has a type that the channel announces or is a report.
pub receive_lem :
    (M : Markup) (c : Channel) (xhtml : String) (flags mtime now : ℕ)
    → ((receive M c xhtml flags mtime now ≡ c)
        × (has_flag flags flag_recv ≡ false)
        × ((has_flag flags flag_send ≡ true) ⊎ (has_flag flags flag_error ≡ false)))
      ⊎ ((m : Message) × (receive M c xhtml flags mtime now ≡ take_received c m)
          × (m.sender ≡ c.handle)
          × (((has_flag flags flag_recv ≡ true) × In m.message_type supported_message_types)
              ⊎ ((has_flag flags flag_recv ≡ false)
                  × (has_flag flags flag_send ≡ false)
                  × (has_flag flags flag_error ≡ true)
                  × IsReport m)))
unfolding receive supported_message_types
receive_lem M c xhtml flags mtime now = elim (Bool-cases (has_flag flags flag_recv)) [
  | inl r ↦ inr (
    make_message M c (plain_text M xhtml) flags mtime now,
    rw (r),
    refl,
    inl (r, make_message-In M c (plain_text M xhtml) flags mtime now),
  )
  | inr r ↦ elim (Bool-cases (has_flag flags flag_send)) [
    | inl q ↦ inl (rw (r, q), r, inl q)
    | inr q ↦ elim (Bool-cases (has_flag flags flag_error)) [
      | inl x ↦
          inr (make_delivery_report c (plain_text M xhtml), rw (r, q, x), refl, inr (r, q, x, refl))
      | inr x ↦ inl (rw (r, q, x), r, inr x)
    ]
  ]
]
