-- ===== src/ImFactory/Closing.antt =====
-- src/im-channel-factory.c: the ends of channels keep the signals and the table in agreement.
use telepathy_haze.ImChannel.{dispose, destroy, destroy_conversation, Channel, close}
use telepathy_haze.ImFactory.{
  close_all, emit, dispose_channels, channel_closed, channel_of, new_channel_for, destroy_channel,
  close_channel, im_channel_closed_cb, Factory, put_channel,
}
use telepathy_haze.ImFactory.Announced.{
  All-lookup, occ, All-insert, occ-insert, occ-delete, occ-some, IsTable, All-delete, IsKeyed,
  closings, IsAnnounced, opens, live,
}
use telepathy_haze.Prelude.{
  ap, Option, [], if◌then◌else◌, ==_iff, ◌⊎◌, All, ◌+◌, sym, ◌>>=◌, refl, none, ◌∷◌, ◌∙◌, subst,
  inl, ℕ, List-cases, Bool-cases, true, ◌≡◌, some, Bool, inr, List, Option-cases, arith, false,
}
use telepathy_haze.Prelude.Table.{delete, insert, lookup}

-- A channel that was open is closed, or stays as the contact's with its messages.
abbrev pub IsLeft : Channel → Channel → Bool → Type 0
IsLeft c d b = (b ≡ true) × (d.handle ≡ c.handle) × (d.dispose_has_run ≡ c.dispose_has_run)

pub close-IsLeft :
    (c d : Channel) (b : Bool) → c.closed ≡ false → close c ≡ some (d, b) → IsLeft c d b
unfolding close destroy_conversation
close-IsLeft c d b o e = elim (List-cases c.pending) [
  | inl p ↦ elim (Option-cases c.conv) [
    | inl n ↦ absurd (ground (arith, e, o, p, n))
    | inr (u, n) ↦
        (ground (arith, e, o, p, n), ground (arith, e, o, p, n), ground (arith, e, o, p, n))
  ]
  | inr (m, ms, p) ↦ (ground (arith, e, o, p), ground (arith, e, o, p), ground (arith, e, o, p))
]

All-ended :
    (h : ℕ) (d : Channel) (t : List (ℕ × Channel))
    → All IsKeyed t
    → All IsKeyed (delete h (insert h d t))
unfolding delete insert
All-ended h d t a = rw ((==_iff h h).1 refl) (All-delete h (delete h t) (All-delete h t a))

abbrev ended : Factory → List (ℕ × Channel) → ℕ → Channel → Factory
ended F t h d = record F {
  channels = some (delete h (insert h d t));
  events = channel_closed h ∷ F.events;
}

abbrev rescued_as : Factory → List (ℕ × Channel) → ℕ → Channel → Factory
rescued_as F t h d = record F {
  channels = some (insert h d t);
  events = new_channel_for h [] ∷ channel_closed h ∷ F.events;
}

closed_cases :
    (F : Factory) (t : List (ℕ × Channel)) (h : ℕ) (d : Channel)
    → d.handle ≡ h
    → ((d.closed ≡ true)
        × (im_channel_closed_cb (record F { channels = some (insert h d t) }) d ≡ ended F t h d))
      ⊎ ((d.closed ≡ false)
          × (im_channel_closed_cb (record F { channels = some (insert h d t) }) d
              ≡ rescued_as F t h d))
unfolding im_channel_closed_cb
closed_cases F t h d e = elim (Bool-cases d.closed) [
  | inl k ↦ inl (k, ground (arith, k, e))
  | inr k ↦ inr (k, ground (arith, k, e))
]

pub closed-IsAnnounced :
    (F : Factory) (t : List (ℕ × Channel)) (h : ℕ) (c d : Channel)
    → F.channels ≡ some t
    → lookup h t ≡ some c
    → IsKeyed (h, c)
    → IsLeft c d true
    → IsAnnounced F
    → IsAnnounced (im_channel_closed_cb (record F { channels = some (insert h d t) }) d)
unfolding live opens closings
closed-IsAnnounced F t h c d f l i j (a, b) = elim (closed_cases F t h d (j.1 ∙ i.0)) [
  | inl (k, e) ↦ subst IsAnnounced (sym e) (
    All-ended h d t (subst IsTable f a),
    λ x.
        ground (arith, b x, f, occ-delete x h (insert h d t), occ-insert x h d t, occ-some h c t l),
  )
  | inr (k, e) ↦ subst IsAnnounced (sym e) (
    All-insert h d t (j.1 ∙ i.0, k, j.2 ∙ i.2) (subst IsTable f a),
    λ x. ground (arith, b x, f, occ-insert x h d t, occ-some h c t l),
  )
]

-- What Close and Destroy leave for the signal "closed".
after_close-IsAnnounced :
    (F : Factory) (h : ℕ) (f : Channel → Option (Channel × Bool))
    → ((c d : Channel) (b : Bool) → c.closed ≡ false → f c ≡ some (d, b) → IsLeft c d b)
    → (G : Factory)
    → (channel_of F h >>= λ c. f c >>= λ p.
        some (if p.1 then im_channel_closed_cb (put_channel F h p.0) p.0 else put_channel F h p.0))
      ≡ some G
    → IsAnnounced F
    → IsAnnounced G
after_close-IsAnnounced F h f left G e v = elim (Option-cases F.channels) [
  | inl n ↦ absurd (ground (arith, e, n))
  | inr (t, n) ↦ elim (Option-cases (lookup h t)) [
    | inl l ↦ absurd (ground (arith, e, n, l))
    | inr (c, l) ↦ elim (Option-cases (f c)) [
      | inl m ↦ absurd (ground (arith, e, n, l, m))
      | inr ((d, b), m) ↦
          let i = All-lookup h c t (subst IsTable n v.0) l in
          let j = left c d b i.1 m in
          subst IsAnnounced
            {x = im_channel_closed_cb (record F { channels = some (insert h d t) }) d} {y = G}
            (ground (arith, e, n, l, m, j.0))
            (closed-IsAnnounced F t h c d n l i (refl, j.1, j.2) v)
    ]
  ]
]

pub close_channel-IsAnnounced :
    (F G : Factory) (h : ℕ) → close_channel F h ≡ some G → IsAnnounced F → IsAnnounced G
unfolding close_channel
close_channel-IsAnnounced F G h e v = after_close-IsAnnounced F h close close-IsLeft G e v

pub destroy_channel-IsAnnounced :
    (F G : Factory) (h : ℕ) → destroy_channel F h ≡ some G → IsAnnounced F → IsAnnounced G
unfolding destroy_channel destroy
destroy_channel-IsAnnounced F G h e v =
    after_close-IsAnnounced F h destroy
      (λ c d b o f. close-IsLeft (record c { pending = [] }) d b o f) G e v

-- The end of the table.
dispose_first :
    (F : Factory) (k : ℕ) (c : Channel) (t : List (ℕ × Channel))
    → F.channels ≡ none
    → IsKeyed (k, c)
    → dispose_channels F ((k, c) ∷ t) ≡ dispose_channels (emit F (channel_closed k)) t
unfolding dispose_channels dispose im_channel_closed_cb destroy_conversation
dispose_first F k c t f (i, o, r) = elim (Option-cases c.conv) [
  | inl n ↦ ap (λ G. dispose_channels G t) (ground (arith, f, i, o, r, n))
  | inr (u, n) ↦ ap (λ G. dispose_channels G t) (ground (arith, f, i, o, r, n))
]

dispose_channels_lem :
    (F : Factory) (t : List (ℕ × Channel)) (h : ℕ)
    → F.channels ≡ none
    → All IsKeyed t
    → ((dispose_channels F t).channels ≡ none)
      × (opens h (dispose_channels F t).events ≡ opens h F.events)
      × (closings h (dispose_channels F t).events ≡ occ h t + closings h F.events)
unfolding opens closings occ
dispose_channels_lem F [] h f a = unfold dispose_channels in (f, refl, ground arith)
dispose_channels_lem F ((k, c) ∷ t) h f a =
    let (x, y, z) = dispose_channels_lem (emit F (channel_closed k)) t h f a.1 in
    rw (dispose_first F k c t f a.0) (x, y, ground (arith, z))

pub close_all-none : (F : Factory) → IsTable F.channels → (close_all F).channels ≡ none
unfolding close_all
close_all-none F v = elim (Option-cases F.channels) [
  | inl n ↦ ground (arith, n)
  | inr (t, n) ↦
      ground
        (arith, n, dispose_channels_lem (record F { channels = none }) t 0 refl (subst IsTable n v))
]

-- As many ends are announced as there were channels.
pub closings-close_all :
    (F : Factory) (h : ℕ)
    → IsTable F.channels
    → (opens h (close_all F).events ≡ opens h F.events)
      × (closings h (close_all F).events ≡ live h F.channels + closings h F.events)
unfolding close_all live
closings-close_all F h v = elim (Option-cases F.channels) [
  | inl n ↦ (ground (arith, n), ground (arith, n))
  | inr (t, n) ↦
      let q = dispose_channels_lem (record F { channels = none }) t h refl (subst IsTable n v) in
      (ground (arith, n, q.1), ground (arith, n, q.2))
]

pub close_all-IsAnnounced : (F : Factory) → IsAnnounced F → IsAnnounced (close_all F)
unfolding live
close_all-IsAnnounced F (a, b) = (
  subst IsTable (sym (close_all-none F a)) tt,
  λ h. ground (arith, b h, closings-close_all F h a, close_all-none F a),
)
