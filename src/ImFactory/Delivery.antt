-- ===== src/ImFactory/Delivery.antt =====
-- src/im-channel-factory.c: messages reach the channel of their contact and outlive its closing.
use telepathy_haze.ImChannel.{
  create_conversation, destroy, Channel, Message, destroy_conversation, new_channel, UiData, close,
}
use telepathy_haze.ImChannel.Receive.{receive}
use telepathy_haze.ImChannel.Send.{Markup}
use telepathy_haze.ImFactory.{
  im_channel_closed_cb, new_channel_for, write_im, get_im_channel, channel_of, close_channel,
  channel_closed, destroy_channel, Factory, put_channel, new_im_channel,
}
use telepathy_haze.ImFactory.Opened.{with_channel}
use telepathy_haze.Prelude.{
  ◌==◌, Bool-cases, Bool, ℕ, List, false, inl, true, ◌≡◌, [], ◌∷◌, some, arith, Option-cases,
  String, Option, none, inr, refl, ◌≢◌,
}
use telepathy_haze.Prelude.Table.{lookup-delete, delete, insert, lookup, lookup-insert}
use telepathy_haze.Prelude.Sets.{remove}

-- The channel that a message of a contact goes to: the one there is, or a new one of the contact.
abbrev pub receiver : Factory → ℕ → Option Channel
receiver F h = elim (channel_of F h) [ none ↦ new_channel h h | some c ↦ some c ]

get-receiver :
    (F : Factory) (t : List (ℕ × Channel)) (h : ℕ)
    → F.channels ≡ some t
    → h ≢ 0
    → (G : Factory) × (c : Channel) × (created : Bool) × (get_im_channel F h h []
        ≡ some (G, c, created))
      × (receiver F h ≡ some c)
      × ((k : ℕ) → k ≢ h → channel_of G k ≡ channel_of F k)
      × ((u : List (ℕ × Channel)) × (G.channels ≡ some u))
unfolding get_im_channel new_im_channel new_channel
get-receiver F t h f z = elim (Option-cases (lookup h t)) [
  | inr (c, l) ↦ (F, c, false, ground (arith, f, l), ground (arith, f, l), λ k _. refl, (t, f))
  | inl l ↦ (
    with_channel F t h (made h) [],
    made h,
    true,
    ground (arith, f, l, z),
    ground (arith, f, l, z),
    λ k n. ground (arith, f, n, lookup-insert h k (made h) t),
    (insert h (made h) t, refl),
  )
]
  where
    made : ℕ → Channel
    made h = record {
      handle = h;
      initiator = h;
      conv = some (create_conversation h);
      closed = false;
      dispose_has_run = false;
      pending = [];
      rescued = false;
      timers = [];
    }

-- While the factory has its table, a message of a contact never aborts: it goes to the channel of the
-- contact, which is made where there is none, and no other contact's channel changes.
pub write_im_lem :
    (M : Markup) (F : Factory) (t : List (ℕ × Channel)) (h : ℕ) (xhtml : String)
    (flags mtime now : ℕ)
    → F.channels ≡ some t
    → h ≢ 0
    → (G : Factory) × (write_im M F h xhtml flags mtime now ≡ some G)
      × ((c : Channel) × (receiver F h ≡ some c)
          × (channel_of G h ≡ some (receive M c xhtml flags mtime now)))
      × ((k : ℕ) → k ≢ h → channel_of G k ≡ channel_of F k)
unfolding write_im
write_im_lem M F t h xhtml flags mtime now f z =
    let (G, c, created, e, r, others, (u, g)) = get-receiver F t h f z in
    (
      put_channel G h (receive M c xhtml flags mtime now),
      ground (arith, e),
      (c, r, ground (arith, g, lookup-insert h h (receive M c xhtml flags mtime now) u)),
      λ k n.
          ground (arith, n, g, others k n, lookup-insert h k (receive M c xhtml flags mtime now) u),
    )

close-pending :
    (c : Channel) (h : ℕ) (m : Message) (ms : List Message)
    → c.handle ≡ h
    → c.closed ≡ false
    → c.pending ≡ m ∷ ms
    → h ≢ 0
    → c.initiator ≢ 0
    → close c ≡ some (record c { initiator = h; rescued = true }, true)
unfolding close
close-pending c h m ms i o p z y = ground (arith, i, o, p, z, y)

destroy-empty :
    (c : Channel) (u : UiData)
    → c.closed ≡ false
    → c.conv ≡ some u
    → (d : Channel) × (destroy c ≡ some (d, true)) × (d.closed ≡ true) × (d.handle ≡ c.handle)
unfolding destroy close destroy_conversation
destroy-empty c u o n = elim (Bool-cases (u.resend_typing_timeout_id == 0)) [
  | inl e ↦
      (record c { pending = []; conv = none; closed = true }, ground (arith, o, n, e), refl, refl)
  | inr e ↦ (
    record c {
      pending = [];
      conv = none;
      closed = true;
      timers = remove c.timers u.resend_typing_timeout_id;
    },
    ground (arith, o, n, e),
    refl,
    refl,
  )
]

-- Closing an open channel that has messages keeps it, with the messages, as one that its contact
-- started, and announces its end and then the channel as a new one.
pub close_channel-pending :
    (F : Factory) (t : List (ℕ × Channel)) (h : ℕ) (c : Channel) (m : Message) (ms : List Message)
    → F.channels ≡ some t
    → lookup h t ≡ some c
    → c.handle ≡ h
    → c.closed ≡ false
    → c.pending ≡ m ∷ ms
    → h ≢ 0
    → c.initiator ≢ 0
    → (G : Factory) × (close_channel F h ≡ some G)
      × (channel_of G h ≡ some (record c { initiator = h; rescued = true }))
      × (G.events ≡ new_channel_for h [] ∷ channel_closed h ∷ F.events)
unfolding close_channel im_channel_closed_cb
close_channel-pending F t h c m ms f l i o p z y = (
  record F {
    channels = some (insert h (record c { initiator = h; rescued = true }) t);
    events = new_channel_for h [] ∷ channel_closed h ∷ F.events;
  },
  ground (arith, f, l, o, close-pending c h m ms i o p z y),
  ground (arith, lookup-insert h h (record c { initiator = h; rescued = true }) t),
  refl,
)

-- Destroying an open channel that has its conversation takes it away, whatever messages it has, and
-- announces its end only.
pub destroy_channel-out :
    (F : Factory) (t : List (ℕ × Channel)) (h : ℕ) (c : Channel) (u : UiData)
    → F.channels ≡ some t
    → lookup h t ≡ some c
    → c.handle ≡ h
    → c.closed ≡ false
    → c.conv ≡ some u
    → (G : Factory) × (destroy_channel F h ≡ some G)
      × (channel_of G h ≡ none)
      × (G.events ≡ channel_closed h ∷ F.events)
unfolding destroy_channel im_channel_closed_cb
destroy_channel-out F t h c u f l i o n =
    let (d, e, k, j) = destroy-empty c u o n in
    (
      record F { channels = some (delete h (insert h d t)); events = channel_closed h ∷ F.events },
      ground (arith, f, l, e, k, j, i),
      ground (arith, lookup-delete h h (insert h d t)),
      refl,
    )
