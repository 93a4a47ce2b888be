-- ===== src/ImFactory/Announced.antt =====
-- src/im-channel-factory.c: the signals about channels agree with the table of channels.
use telepathy_haze.ImChannel.{Channel}
use telepathy_haze.ImFactory.{
  request_failed, new_channel_for, emit, chat_state_changed, Event, request_already_satisfied,
  channel_closed, Factory,
}
use telepathy_haze.ImFactory.Opened.{with_channel}
use telepathy_haze.Prelude.{
  refl, ◌+◌, ℕ, ◌<◌, inr, none, ◌==◌, Bool-cases, ◌≡◌, some, subst, ◌∷◌, ◌≤◌, All, [], List, inl,
  Option, arith, false, if◌then◌else◌,
}
use telepathy_haze.Prelude.Table.{delete, lookup, insert}

unfoldable pub opens : ℕ → List Event → ℕ
opens h [] = 0
opens h (new_channel_for k _ ∷ es) = (if k == h then 1 else 0) + opens h es
opens h (_ ∷ es) = opens h es

unfoldable pub closings : ℕ → List Event → ℕ
closings h [] = 0
closings h (channel_closed k ∷ es) = (if k == h then 1 else 0) + closings h es
closings h (_ ∷ es) = closings h es

unfoldable pub occ : ℕ → List (ℕ × Channel) → ℕ
occ h [] = 0
occ h ((k, c) ∷ t) = (if k == h then 1 else 0) + occ h t

-- How many channels of a handle the factory has.
unfoldable pub live : ℕ → Option (List (ℕ × Channel)) → ℕ
unfolding occ
live h none = 0
live h (some t) = occ h t

-- A channel of the table is the one of its key, and neither closed nor disposed.
abbrev pub IsKeyed : (ℕ × Channel) → Type 0
IsKeyed p = (p.1.handle ≡ p.0) × (p.1.closed ≡ false) × (p.1.dispose_has_run ≡ false)

abbrev pub IsTable : Option (List (ℕ × Channel)) → Type 0
IsTable none = Unit
IsTable (some t) = All IsKeyed t

-- Of each handle there is one channel at most, and there is one exactly if it was announced once more
-- often than its end was.
abbrev pub IsAnnounced : Factory → Type 0
IsAnnounced F =
    IsTable F.channels
    × ((h : ℕ)
        → (live h F.channels ≤ 1) × (opens h F.events ≡ closings h F.events + live h F.channels))

pub occ-delete :
    (h k : ℕ) (t : List (ℕ × Channel)) → occ h (delete k t) ≡ (if k == h then 0 else occ h t)
unfolding occ delete
occ-delete h k [] = ground arith
occ-delete h k ((j, c) ∷ t) = ground (arith, occ-delete h k t)

pub occ-insert :
    (h k : ℕ) (c : Channel) (t : List (ℕ × Channel))
    → occ h (insert k c t) ≡ (if k == h then 1 else occ h t)
unfolding occ insert
occ-insert h k c t = ground (arith, occ-delete h k t)

pub occ-none : (h : ℕ) (t : List (ℕ × Channel)) → lookup h t ≡ none → occ h t ≡ 0
unfolding occ lookup
occ-none h [] e = refl
occ-none h ((k, c) ∷ t) e = ground (arith, e, occ-none h t)

pub occ-some : (h : ℕ) (c : Channel) (t : List (ℕ × Channel)) → lookup h t ≡ some c → 0 < occ h t
unfolding occ lookup
occ-some h c [] e = absurd (ground arith)
occ-some h c ((k, d) ∷ t) e = ground (arith, e, occ-some h c t)

pub All-delete : (k : ℕ) (t : List (ℕ × Channel)) → All IsKeyed t → All IsKeyed (delete k t)
unfolding delete
All-delete k [] a = a
All-delete k ((j, c) ∷ t) a = elim (Bool-cases (j == k)) [
  | inl e ↦ rw (e) (All-delete k t a.1)
  | inr e ↦ rw (e) (a.0, All-delete k t a.1)
]

pub All-insert :
    (k : ℕ) (c : Channel) (t : List (ℕ × Channel))
    → IsKeyed (k, c)
    → All IsKeyed t
    → All IsKeyed (insert k c t)
unfolding insert
All-insert k c t i a = (i, All-delete k t a)

pub All-lookup :
    (h : ℕ) (c : Channel) (t : List (ℕ × Channel))
    → All IsKeyed t
    → lookup h t ≡ some c
    → IsKeyed (h, c)
unfolding lookup
All-lookup h c [] a e = absurd (ground arith)
All-lookup h c ((k, d) ∷ t) a e = elim (Bool-cases (k == h)) [
  | inl q ↦ ground (arith, e, q, a.0)
  | inr q ↦ All-lookup h c t a.1 (ground (arith, e, q))
]

-- The factories that the operations leave: a channel changed, announced, ended, or announced again.
pub put-IsAnnounced :
    (F : Factory) (t : List (ℕ × Channel)) (h : ℕ) (c d : Channel)
    → F.channels ≡ some t
    → lookup h t ≡ some c
    → IsKeyed (h, d)
    → IsAnnounced F
    → IsAnnounced (record F { channels = some (insert h d t) })
unfolding live
put-IsAnnounced F t h c d f l i (a, b) = (
  All-insert h d t i (subst IsTable f a),
  λ k. ground (arith, b k, f, occ-insert k h d t, occ-some h c t l),
)

pub new-IsAnnounced :
    (F : Factory) (t : List (ℕ × Channel)) (h : ℕ) (c : Channel) (requests : List ℕ)
    → F.channels ≡ some t
    → lookup h t ≡ none
    → IsKeyed (h, c)
    → IsAnnounced F
    → IsAnnounced (with_channel F t h c requests)
unfolding live opens closings
new-IsAnnounced F t h c requests f l i (a, b) = (
  All-insert h c t i (subst IsTable f a),
  λ k. ground (arith, b k, f, occ-insert k h c t, occ-none h t l),
)

-- An event that is about no channel's opening or end.
pub emit-IsAnnounced :
    (F : Factory) (e : Event)
    → ((h : ℕ) → (opens h (e ∷ []) ≡ 0) × (closings h (e ∷ []) ≡ 0))
    → IsAnnounced F
    → IsAnnounced (emit F e)
unfolding opens closings
emit-IsAnnounced F (new_channel_for k _) q v = absurd (ground (arith, q k))
emit-IsAnnounced F (channel_closed k) q v = absurd (ground (arith, q k))
emit-IsAnnounced F (request_failed _) q v = v
emit-IsAnnounced F (request_already_satisfied _ _) q v = v
emit-IsAnnounced F (chat_state_changed _ _) q v = v
