-- ===== src/ImFactory/Kept.antt =====
-- src/im-channel-factory.c: the calls on a channel that keep it in its place in the table.
use telepathy_haze.ImChannel.{Channel, Typing, set_chat_state, Reply, resend_typing_cb}
use telepathy_haze.ImChannel.Receive.{receive}
use telepathy_haze.ImChannel.Send.{Markup}
use telepathy_haze.Prelude.{Option, none, inr, arith, inl, some, ℕ, ◌≡◌, Option-cases, String}

-- A call on a channel that keeps it the channel of its handle, and open.
abbrev pub IsKept : Channel → Channel → Type 0
IsKept c d = (d.handle ≡ c.handle) × (d.closed ≡ c.closed) × (d.dispose_has_run ≡ c.dispose_has_run)

pub set_chat_state-IsKept :
    (put : Option (Typing → ℕ)) (id : ℕ) (c : Channel) (state : ℕ) (r : Reply)
    → set_chat_state put id c state ≡ some r
    → IsKept c r.channel
unfolding set_chat_state
set_chat_state-IsKept none id c state r f = absurd (ground (arith, f))
set_chat_state-IsKept (some put) id c state r f = elim (Option-cases c.conv) [
  | inl e ↦ absurd (ground (arith, e))
  | inr (u, e) ↦ ground (arith, e)
]

pub resend_typing_cb-IsKept :
    (put : Typing → ℕ) (c : Channel) (r : Reply)
    → resend_typing_cb put c ≡ some r
    → IsKept c r.channel
unfolding resend_typing_cb
resend_typing_cb-IsKept put c r f = elim (Option-cases c.conv) [
  | inl e ↦ absurd (ground (arith, e))
  | inr (u, e) ↦ ground (arith, e)
]

pub receive-IsKept :
    (M : Markup) (c : Channel) (xhtml : String) (flags mtime now : ℕ)
    → IsKept c (receive M c xhtml flags mtime now)
unfolding receive
receive-IsKept M c xhtml flags mtime now = ground arith
