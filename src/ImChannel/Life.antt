-- ===== src/ImChannel/Life.antt =====
-- src/im-channel.c: the calls on a channel in any order.
use telepathy_haze.ImChannel.{
  destroy, set_chat_state, close, Channel, resend_typing_cb, dispose, Typing, new_channel,
}
use telepathy_haze.ImChannel.Receive.{receive}
use telepathy_haze.ImChannel.Send.{Markup}
use telepathy_haze.ImChannel.Timers.{
  IsTimed, close-IsTimed, set_chat_state-IsTimed, destroy_conversation-IsTimed,
  resend_typing_cb-IsTimed,
}
use telepathy_haze.Prelude.{
  bind_inv, ◌>>=◌, Option, String, List, ◌≡◌, some, ℕ, arith, subst, true, [], some_inj,
  for_each_inv, Bool, for_each, suc,
}

-- The function is serv_send_typing; g_timeout_add gives a positive number, one more than the number here.
pub data Call : Type 0 where
  sets : Option (Typing → ℕ) → ℕ → ℕ → Call
  fires : (Typing → ℕ) → Call
  receives : Markup → String → ℕ → ℕ → ℕ → Call
  closes destroys disposes : Call

abbrev pub step : Channel → Call → Option Channel
step c (sets put id state) = set_chat_state put (suc id) c state >>= λ r. some r.channel
step c (fires put) = resend_typing_cb put c >>= λ r. some r.channel
step c (receives M xhtml flags mtime now) = some (receive M c xhtml flags mtime now)
step c closes = close c >>= λ p. some p.0
step c destroys = destroy c >>= λ p. some p.0
step c disposes = some (dispose c).0

dispose-IsTimed : (c : Channel) → IsTimed c → IsTimed (dispose c).0
unfolding dispose
dispose-IsTimed c v =
    ground (arith, destroy_conversation-IsTimed (record c { dispose_has_run = true }) v)

destroy-IsTimed : (c d : Channel) (b : Bool) → IsTimed c → destroy c ≡ some (d, b) → IsTimed d
unfolding destroy
destroy-IsTimed c d b v e = close-IsTimed (record c { pending = [] }) d b v e

receive-IsTimed :
    (M : Markup) (c : Channel) (xhtml : String) (flags mtime now : ℕ)
    → IsTimed c
    → IsTimed (receive M c xhtml flags mtime now)
unfolding receive
receive-IsTimed M c xhtml flags mtime now v = ground arith

step-IsTimed : (c d : Channel) (call : Call) → IsTimed c → step c call ≡ some d → IsTimed d
step-IsTimed c d (sets put id state) v e =
    let (r, f, g) = bind_inv (set_chat_state put (suc id) c state) (λ r. some r.channel) e in
    subst IsTimed (some_inj g) (set_chat_state-IsTimed put (suc id) c state r (ground arith) v f)
step-IsTimed c d (fires put) v e =
    let (r, f, g) = bind_inv (resend_typing_cb put c) (λ r. some r.channel) e in
    subst IsTimed (some_inj g) (resend_typing_cb-IsTimed put c r v f)
step-IsTimed c d (receives M xhtml flags mtime now) v e =
    subst IsTimed (some_inj e) (receive-IsTimed M c xhtml flags mtime now v)
step-IsTimed c d closes v e =
    let (p, f, g) = bind_inv (close c) (λ p. some p.0) e in
    subst IsTimed (some_inj g) (close-IsTimed c p.0 p.1 v f)
step-IsTimed c d destroys v e =
    let (p, f, g) = bind_inv (destroy c) (λ p. some p.0) e in
    subst IsTimed (some_inj g) (destroy-IsTimed c p.0 p.1 v f)
step-IsTimed c d disposes v e = subst IsTimed (some_inj e) (dispose-IsTimed c v)

-- After any calls on a new channel that do not abort, no timer runs but the one that the conversation
-- knows, which is there only while the state to put again is not that the user does not type; once
-- the conversation is gone no timer runs.
pub timers_sound :
    (handle initiator : ℕ) (c d : Channel) (calls : List Call)
    → new_channel handle initiator ≡ some c
    → for_each step c calls ≡ some d
    → IsTimed d
unfolding new_channel
timers_sound handle initiator c d calls n e =
    for_each_inv IsTimed step (λ x y call. step-IsTimed x y call) c d calls (ground (arith, n)) e
