-- ===== src/ImFactory/Opened.antt =====
-- src/im-channel-factory.c: get_im_channel finds the channel of a handle or makes it.
use telepathy_haze.ImChannel.{new_channel, Channel}
use telepathy_haze.ImFactory.{Factory, get_im_channel, new_channel_for, new_im_channel}
use telepathy_haze.Prelude.{
  ◌≡◌, some, Option-cases, ◌⊎◌, ℕ, none, inl, arith, false, inr, Bool, ◌∷◌, List, true,
}
use telepathy_haze.Prelude.Table.{insert, lookup}

abbrev pub with_channel : Factory → List (ℕ × Channel) → ℕ → Channel → List ℕ → Factory
with_channel F t h c requests = record F {
  channels = some (insert h c t);
  events = new_channel_for h requests ∷ F.events;
}

new-inv :
    (F G : Factory) (h initiator : ℕ) (requests : List ℕ) (t : List (ℕ × Channel)) (c : Channel)
    → F.channels ≡ some t
    → lookup h t ≡ none
    → new_im_channel F h initiator requests ≡ some (G, c)
    → (new_channel h initiator ≡ some c) × (G ≡ with_channel F t h c requests)
unfolding new_im_channel
new-inv F G h initiator requests t c f l e = elim (Option-cases (new_channel h initiator)) [
  | inl n ↦ absurd (ground (arith, e, f, l, n))
  | inr (d, n) ↦ (ground (arith, e, f, l, n), ground (arith, e, f, l, n))
]

-- The two ways in which a channel is got.
pub get-inv :
    (F G : Factory) (h initiator : ℕ) (requests : List ℕ) (c : Channel) (created : Bool)
    → get_im_channel F h initiator requests ≡ some (G, c, created)
    → (t : List (ℕ × Channel)) × (F.channels ≡ some t)
      × (((created ≡ false) × (G ≡ F) × (lookup h t ≡ some c))
          ⊎ ((created ≡ true)
              × (lookup h t ≡ none)
              × (new_channel h initiator ≡ some c)
              × (G ≡ with_channel F t h c requests)))
unfolding get_im_channel
get-inv F G h initiator requests c created e = elim (Option-cases F.channels) [
  | inl f ↦ absurd (ground (arith, e, f))
  | inr (t, f) ↦ (
    t,
    f,
    elim (Option-cases (lookup h t)) [
      | inr (d, l) ↦ inl (ground (arith, e, f, l), ground (arith, e, f, l), ground (arith, e, f, l))
      | inl l ↦ elim (Option-cases (new_im_channel F h initiator requests)) [
        | inl m ↦ absurd (ground (arith, e, f, l, m))
        | inr ((H, d), m) ↦
            let q = new-inv F H h initiator requests t d f l m in
            inr (
              ground (arith, e, f, l, m),
              l,
              ground (arith, e, f, l, m, q.0),
              ground (arith, e, f, l, m, q.1),
            )
      ]
    ],
  )
]
