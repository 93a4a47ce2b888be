-- ===== src/ImFactory/Calls.antt =====
-- src/im-channel-factory.c: the calls on a factory in any order.
use telepathy_haze.ImChannel.{new_channel, Typing, Channel, resend_typing_cb, set_chat_state, Reply}
use telepathy_haze.ImChannel.Receive.{receive}
use telepathy_haze.ImChannel.Send.{Markup}
use telepathy_haze.ImFactory.{
  new_factory, emit, answer_existing, chat_state_changed, chat_state_of, request, Request,
  close_channel, conversation_updated_cb, status_changed_cb, Factory, get_im_channel, channel_of,
  factory_dispose, write_im, put_channel, destroy_channel,
}
use telepathy_haze.ImFactory.Announced.{
  live, closings, opens, IsTable, All-lookup, put-IsAnnounced, new-IsAnnounced, IsAnnounced,
  IsKeyed,
}
use telepathy_haze.ImFactory.Opened.{get-inv}
use telepathy_haze.Prelude.{
  Bool-cases, true, for_each, for_each_inv, ◌==◌, bind_inv, some_inj, [], ◌∷◌, suc, arith, List,
  inr, Option, ℕ, ◌>>=◌, subst, ◌≡◌, sym, ◌∙◌, some, Bool, inl, Option-cases, String,
}
use telepathy_haze.Prelude.Table.{lookup, lookup-insert, insert}
use telepathy_haze.ImFactory.Closing.{
  close_all-IsAnnounced, close_channel-IsAnnounced, destroy_channel-IsAnnounced,
}
use telepathy_haze.ImFactory.Kept.{
  IsKept, receive-IsKept, resend_typing_cb-IsKept, set_chat_state-IsKept,
}

-- The calls that make or end channels, with what they are given, and the calls on a channel.
pub data Call : Type 0 where
  requests : ℕ → ℕ → Request → Bool → Call
  writes : Markup → ℕ → String → ℕ → ℕ → ℕ → Call
  updates : ℕ → Typing → Call
  closes destroys : ℕ → Call
  types : ℕ → Option (Typing → ℕ) → ℕ → ℕ → Call
  fires : ℕ → (Typing → ℕ) → Call
  status_changes : ℕ → Call
  disposes : Call

abbrev pub on_channel : Factory → ℕ → (Channel → Option Reply) → Option Factory
on_channel F h f = channel_of F h >>= λ c. f c >>= λ r. some (put_channel F h r.channel)

abbrev pub step : Factory → Call → Option Factory
step F (requests self_handle request_token r require_new) =
    request F self_handle request_token r require_new >>= λ p. some p.0
step F (writes M h xhtml flags mtime now) = write_im M F h xhtml flags mtime now
step F (updates h typing_state) = conversation_updated_cb F h typing_state
step F (closes h) = close_channel F h
step F (destroys h) = destroy_channel F h
step F (types h put id state) = on_channel F h (λ c. set_chat_state put (suc id) c state)
step F (fires h put) = on_channel F h (resend_typing_cb put)
step F (status_changes status) = some (status_changed_cb F status)
step F disposes = some (factory_dispose F)

kept-IsAnnounced :
    (F : Factory) (h : ℕ) (c d : Channel)
    → channel_of F h ≡ some c
    → IsKept c d
    → IsAnnounced F
    → IsAnnounced (put_channel F h d)
kept-IsAnnounced F h c d e k v = elim (Option-cases F.channels) [
  | inl n ↦ absurd (ground (arith, e, n))
  | inr (t, n) ↦
      let l : lookup h t ≡ some c = ground (arith, e, n) in
      let i = All-lookup h c t (subst IsTable n v.0) l in
      subst IsAnnounced {x = record F { channels = some (insert h d t) }} {y = put_channel F h d}
        (ground (arith, n)) (put-IsAnnounced F t h c d n l (k.0 ∙ i.0, k.1 ∙ i.1, k.2 ∙ i.2) v)
]

on_channel-IsAnnounced :
    (F G : Factory) (h : ℕ) (f : Channel → Option Reply)
    → ((c : Channel) (r : Reply) → f c ≡ some r → IsKept c r.channel)
    → on_channel F h f ≡ some G
    → IsAnnounced F
    → IsAnnounced G
on_channel-IsAnnounced F G h f kept e v = elim (Option-cases (channel_of F h)) [
  | inl l ↦ absurd (ground (arith, e, l))
  | inr (c, l) ↦ elim (Option-cases (f c)) [
    | inl m ↦ absurd (ground (arith, e, l, m))
    | inr (r, m) ↦
        subst IsAnnounced {x = put_channel F h r.channel} {y = G} (ground (arith, e, l, m))
          (kept-IsAnnounced F h c r.channel l (kept c r m) v)
  ]
]

new_channel-IsKeyed :
    (h initiator : ℕ) (c : Channel) → new_channel h initiator ≡ some c → IsKeyed (h, c)
unfolding new_channel
new_channel-IsKeyed h initiator c e = ground arith

-- A channel that was found or made is in the table.
get-IsAnnounced :
    (F G : Factory) (h initiator : ℕ) (tokens : List ℕ) (c : Channel) (created : Bool)
    → get_im_channel F h initiator tokens ≡ some (G, c, created)
    → IsAnnounced F
    → IsAnnounced G × (channel_of G h ≡ some c)
unfolding lookup insert
get-IsAnnounced F G h initiator tokens c created e v =
    let (t, f, q) = get-inv F G h initiator tokens c created e in
    elim q [
      | inl (k, g, l) ↦ (subst IsAnnounced (sym g) v, ground (arith, g, f, l))
      | inr (k, l, n, g) ↦ (
        subst IsAnnounced (sym g)
            (new-IsAnnounced F t h c tokens f l (new_channel-IsKeyed h initiator c n) v),
        ground (arith, g, lookup-insert h h c t),
      )
    ]

request-IsAnnounced :
    (F G : Factory) (self_handle token : ℕ) (r : Request) (require_new handled : Bool)
    → request F self_handle token r require_new ≡ some (G, handled)
    → IsAnnounced F
    → IsAnnounced G
unfolding request answer_existing opens closings
request-IsAnnounced F G self_handle token r require_new handled e v =
    elim (Option-cases (get_im_channel F r.target_handle self_handle (token ∷ []))) [
      | inl n ↦ ground (arith, e, n, v)
      | inr ((H, c, created), n) ↦ ground (
        arith,
        e,
        n,
        v,
        (get-IsAnnounced F H r.target_handle self_handle (token ∷ []) c created n v).0,
      )
    ]

write_im-IsAnnounced :
    (M : Markup) (F G : Factory) (h : ℕ) (xhtml : String) (flags mtime now : ℕ)
    → write_im M F h xhtml flags mtime now ≡ some G
    → IsAnnounced F
    → IsAnnounced G
unfolding write_im
write_im-IsAnnounced M F G h xhtml flags mtime now e v =
    let ((H, c, created), n, g) =
      bind_inv {B = Factory} (get_im_channel F h h [])
        (λ p. some (put_channel p.0 h (receive M p.1 xhtml flags mtime now))) e in
    let (a, l) = get-IsAnnounced F H h h [] c created n v in
    subst IsAnnounced (some_inj g) (
      kept-IsAnnounced H h c (receive M c xhtml flags mtime now) l
        (receive-IsKept M c xhtml flags mtime now) a)

updated-IsAnnounced :
    (F G : Factory) (h : ℕ) (typing_state : Typing)
    → conversation_updated_cb F h typing_state ≡ some G
    → IsAnnounced F
    → IsAnnounced G
unfolding conversation_updated_cb opens closings
updated-IsAnnounced F G h typing_state e v =
    let ((H, c, created), n, g) =
      bind_inv {B = Factory} (get_im_channel F h h [])
        (λ p. some (emit p.0 (chat_state_changed h (chat_state_of typing_state)))) e in
    subst IsAnnounced (some_inj g) (get-IsAnnounced F H h h [] c created n v).0

status_changed-IsAnnounced :
    (F : Factory) (status : ℕ) → IsAnnounced F → IsAnnounced (status_changed_cb F status)
unfolding status_changed_cb
status_changed-IsAnnounced F status v = elim (Bool-cases (status == 2)) [
  | inr e ↦ rw (e) v
  | inl e ↦ elim (Bool-cases (F.status_changed_id == 0)) [
    | inl f ↦ rw (e, f) v
    | inr f ↦ rw (e, f) (close_all-IsAnnounced F v)
  ]
]

dispose-IsAnnounced : (F : Factory) → IsAnnounced F → IsAnnounced (factory_dispose F)
unfolding factory_dispose
dispose-IsAnnounced F v = elim (Bool-cases F.disposed) [
  | inl e ↦ rw (e) v
  | inr e ↦ rw (e) (close_all-IsAnnounced (record F { disposed = true }) v)
]

step-IsAnnounced :
    (F G : Factory) (call : Call) → IsAnnounced F → step F call ≡ some G → IsAnnounced G
step-IsAnnounced F G (requests self_handle token r require_new) v e =
    let ((H, handled), n, g) =
      bind_inv {B = Factory} (request F self_handle token r require_new) (λ p. some p.0) e in
    subst IsAnnounced (some_inj g)
      (request-IsAnnounced F H self_handle token r require_new handled n v)
step-IsAnnounced F G (writes M h xhtml flags mtime now) v e =
    write_im-IsAnnounced M F G h xhtml flags mtime now e v
step-IsAnnounced F G (updates h typing_state) v e = updated-IsAnnounced F G h typing_state e v
step-IsAnnounced F G (closes h) v e = close_channel-IsAnnounced F G h e v
step-IsAnnounced F G (destroys h) v e = destroy_channel-IsAnnounced F G h e v
step-IsAnnounced F G (types h put id state) v e =
    on_channel-IsAnnounced F G h (λ c. set_chat_state put (suc id) c state)
      (λ c r. set_chat_state-IsKept put (suc id) c state r) e v
step-IsAnnounced F G (fires h put) v e =
    on_channel-IsAnnounced F G h (resend_typing_cb put) (resend_typing_cb-IsKept put) e v
step-IsAnnounced F G (status_changes status) v e =
    subst IsAnnounced (some_inj e) (status_changed-IsAnnounced F status v)
step-IsAnnounced F G disposes v e = subst IsAnnounced (some_inj e) (dispose-IsAnnounced F v)

-- After any calls on a new factory that do not abort, there is at most one channel of each handle, and
-- the channels of a handle were announced as new as often as their end was announced and once more if
-- there is one now; each channel of the table has the handle of its key and is not closed.
pub signals_agree :
    (id : ℕ) (calls : List Call) (F : Factory)
    → for_each step (new_factory id) calls ≡ some F
    → IsAnnounced F
unfolding new_factory live opens closings
signals_agree id calls F e =
    for_each_inv IsAnnounced step (λ G H call. step-IsAnnounced G H call) (new_factory id) F calls
      (tt, λ h. ground arith) e
