-- ===== src/ImChannel/Timers.antt =====
-- src/im-channel.c: the timer that sends the typing state again.
use telepathy_haze.ImChannel.{
  typing_of, Typing, set_chat_state, UiData, invalid_argument, resend_typing_cb, Reply, close,
  Channel, destroy_conversation, not_typing,
}
use telepathy_haze.Prelude.{
  Option, List-cases, Bool, refl, ◌≢◌, some, none, Option-cases, arith, ◌∷◌, inr, [], inl, ◌⊎◌, ◌≡◌,
  ℕ,
}
use telepathy_haze.Prelude.Sets.{remove}
use telepathy_haze.ImChannel.Send.{send}

-- A running timer is the one that the conversation knows of, and it has a state to send again; a
-- conversation that is gone has no timer.
abbrev pub IsTimed : Channel → Type 0
IsTimed c = elim c.conv [
  | none ↦ c.timers ≡ []
  | some u ↦
      ((u.resend_typing_timeout_id ≡ 0) × (c.timers ≡ []))
      ⊎ ((u.resend_typing_timeout_id ≢ 0)
          × (c.timers ≡ u.resend_typing_timeout_id ∷ [])
          × (u.active_state ≢ not_typing))
]

remove-one : (k : ℕ) → remove (k ∷ []) k ≡ []
unfolding remove
remove-one k = ground arith

pub destroy_conversation-IsTimed : (c : Channel) → IsTimed c → IsTimed (destroy_conversation c)
unfolding destroy_conversation
destroy_conversation-IsTimed c v = elim (Option-cases c.conv) [
  | inl e ↦ ground (arith, e)
  | inr (u, e) ↦ ground (arith, e, remove-one u.resend_typing_timeout_id)
]

-- Whatever the state that is asked for, the channel is left with one timer at most, which its
-- conversation knows, and only while the contact is told that the user types or has typed.
pub set_chat_state-IsTimed :
    (send : Option (Typing → ℕ)) (id : ℕ) (c : Channel) (state : ℕ) (r : Reply)
    → id ≢ 0
    → IsTimed c
    → set_chat_state send id c state ≡ some r
    → IsTimed r.channel
unfolding set_chat_state
set_chat_state-IsTimed none id c state r z v f = absurd (ground (arith, f))
set_chat_state-IsTimed (some send) id c state r z v f = elim (Option-cases c.conv) [
  | inl e ↦ absurd (ground (arith, e))
  | inr (u, e) ↦ ground (arith, e, remove-one u.resend_typing_timeout_id)
]

pub resend_typing_cb-IsTimed :
    (send : Typing → ℕ) (c : Channel) (r : Reply)
    → IsTimed c
    → resend_typing_cb send c ≡ some r
    → IsTimed r.channel
unfolding resend_typing_cb
resend_typing_cb-IsTimed send c r v f = elim (Option-cases c.conv) [
  | inl e ↦ absurd (ground (arith, e))
  | inr (u, e) ↦ ground (arith, e, remove-one u.resend_typing_timeout_id, removed u)
]
  where
    removed : (u : UiData) → remove [] u.resend_typing_timeout_id ≡ []
    removed u = unfold remove in refl

-- A timer that fires never sends that the user does not type.
pub resend-ne-not_typing :
    (send : Typing → ℕ) (c : Channel) (r : Reply)
    → IsTimed c
    → c.timers ≢ []
    → resend_typing_cb send c ≡ some r
    → r.sent ≢ some not_typing
unfolding resend_typing_cb
resend-ne-not_typing send c r v running f = elim (Option-cases c.conv) [
  | inl e ↦ absurd (ground (arith, e))
  | inr (u, e) ↦ ground (arith, e)
]

-- A chat state is refused exactly if it is none of inactive, active, paused and composing; then
-- nothing is sent and the conversation keeps its state, but the timer is stopped all the same.
pub set_chat_state-refused :
    (send : Option (Typing → ℕ)) (id : ℕ) (c : Channel) (state : ℕ) (u : UiData) (r : Reply)
    → c.conv ≡ some u
    → IsTimed c
    → set_chat_state send id c state ≡ some r
    → ((typing_of state ≡ none)
        × (r.error ≡ some invalid_argument)
        × (r.sent ≡ none)
        × (r.channel.conv ≡ some (record u { resend_typing_timeout_id = 0 }))
        × (r.channel.timers ≡ []))
      ⊎ ((typing_of state ≢ none) × (r.error ≡ none) × (r.sent ≡ typing_of state))
unfolding set_chat_state
set_chat_state-refused none id c state u r e v f = absurd (ground (arith, f))
set_chat_state-refused (some send) id c state u r e v f = elim (Option-cases (typing_of state)) [
  | inl g ↦ inl (
    g,
    ground (arith, e, g),
    ground (arith, e, g),
    ground (arith, e, g),
    ground (arith, e, g, remove-one u.resend_typing_timeout_id),
  )
  | inr (s, g) ↦ inr (ground (arith, g), ground (arith, e, g), ground (arith, e, g))
]

-- Closing keeps the conversation and its timer, or takes both away.
pub close-IsTimed : (c d : Channel) (b : Bool) → IsTimed c → close c ≡ some (d, b) → IsTimed d
unfolding close
close-IsTimed c d b v e = elim (Option-cases c.conv) [
  | inl n ↦ ground (arith, e, n)
  | inr (u, n) ↦ elim (List-cases c.pending) [
    | inl p ↦ ground (arith, e, n, p, destroy_conversation-IsTimed c v)
    | inr (m, ms, p) ↦ ground (arith, e, n, p)
  ]
]
