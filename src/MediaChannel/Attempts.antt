-- ===== src/MediaChannel/Attempts.antt =====
-- src/media-channel.c: the loop that has libpurple initiate sessions.
use Prim.Native.Nat.{max}
use telepathy_haze.MediaChannel.{initiate_media, Channel, does}
use telepathy_haze.Prelude.{
  ◌∙◌, true, ap, ◌+◌, some, List, Bool, subst, [], ◌&&◌, refl, for_each, ◌==◌, zero, if◌then◌else◌,
  Option, ◌>>=◌, ◌≡◌, suc, arith, ◌∷◌, ℕ,
}
use telepathy_haze.Prelude.Bits.{has}
use telepathy_haze.MediaChannel.Requests.{
  init_media_cb, attempt, Event, deliver, init_media, initiate, new_stream,
}
use telepathy_haze.MediaChannel.Session.{Outside, latch_to_session}
use telepathy_haze.MediaChannel.Told.{
  heard, IsAsked, IsAsked-before, tell, not-IsAsked, hears, IsListening, IsTold-trans, are_sessions,
  IsTold, tell-IsTold,
}

module _ (B : Outside) (media_caps : ℕ) (initiated : ℕ → List Event × Bool) where
  deliver-tell :
      (C : Channel) (is_account : Bool) (contact : ℕ)
      → IsListening C
      → deliver B media_caps initiated C (init_media is_account contact)
        ≡ some (tell C (init_media is_account contact))
  unfolding deliver init_media_cb latch_to_session tell
  deliver-tell C is_account contact l = ground (arith, l)

  delivered :
      (C : Channel) (events : List Event)
      → IsListening C
      → are_sessions events ≡ true
      → (D : Channel) × (for_each (deliver B media_caps initiated) C events ≡ some D)
        × IsTold C D (hears C.initial_peer events)
  unfolding for_each are_sessions hears
  delivered C [] l y = (
    C,
    refl,
    record {
      attempted = refl;
      with_audio = refl;
      with_video = refl;
      waiting = refl;
      of_peer = refl;
      in_session = ground arith;
      listening = l;
    },
  )
  delivered C (new_stream sid ∷ events) l y = absurd cc
  delivered C (init_media is_account contact ∷ events) l y =
      let here = tell-IsTold C is_account contact l in
      let E = tell C (init_media is_account contact) in
      let (D, e, t) = delivered E events here.listening y in
      (
        D,
        ap (λ o. o >>= λ F. for_each (deliver B media_caps initiated) F events)
              (deliver-tell C is_account contact l)
            ∙ e,
        IsTold-trans C E D (is_account && (C.initial_peer == contact)) (hears C.initial_peer events)
            here (subst (λ peer. IsTold E D (hears peer events)) here.of_peer t),
      )

  module _ (succeed : (k : ℕ) → (initiated k).1 ≡ true)
      (tell_of_sessions : (k : ℕ) → are_sessions (initiated k).0 ≡ true) where
    attempted_once :
        (k peer type : ℕ) (C : Channel)
        → IsListening C
        → (D : Channel) × (attempt B media_caps initiated k peer C type ≡ some (D, true))
          × IsTold (does C (initiate_media peer type)) D (hears C.initial_peer (initiated k).0)
    unfolding attempt
    attempted_once k peer type C l =
        let (D, e, t) =
          delivered (does C (initiate_media peer type)) (initiated k).0 l (tell_of_sessions k) in
        (D, ap (λ o. o >>= λ E. some (E, (initiated k).1)) e ∙ ap (λ b. some (D, b)) (succeed k), t)

    -- An attempt, after which there are others.
    once_more :
        (k peer type n a v : ℕ) (C : Channel) (rest : Channel → Option (Channel × Bool))
        → IsListening C
        → ((E : Channel)
            → IsListening E
            → (D : Channel) × (rest E ≡ some (D, true))
              × IsAsked E D n a v (heard initiated E.initial_peer n (suc k)))
        → (D : Channel) × ((attempt B media_caps initiated k peer C type >>= λ r.
              if r.1 then rest r.0 else some r)
            ≡ some (D, true))
          × IsAsked C D
              (suc n)
              ((if has type 1 then 1 else 0) + a)
              ((if has type 4 then 1 else 0) + v)
              (heard initiated C.initial_peer (suc n) k)
    unfolding heard
    once_more k peer type n a v C rest l go_on =
        let (E, e, t) = attempted_once k peer type C l in
        let (D, f, q) = go_on E t.listening in
        (
          D,
          ap (λ o. o >>= λ r. if r.1 then rest r.0 else some r) e ∙ f,
          IsAsked-before C E D peer type n a v (hears C.initial_peer (initiated k).0)
              (heard initiated C.initial_peer n (suc k)) t
              (subst (λ p. IsAsked E D n a v (heard initiated p n (suc k))) t.of_peer q),
        )

    -- The same at numbers that are equal.
    at_numbers :
        (C : Channel) (o : Option (Channel × Bool)) (k n m a b v w : ℕ)
        → n ≡ m
        → a ≡ b
        → v ≡ w
        → (D : Channel) × (o ≡ some (D, true))
          × IsAsked C D n a v (heard initiated C.initial_peer n k)
        → (D : Channel) × (o ≡ some (D, true))
          × IsAsked C D m b w (heard initiated C.initial_peer m k)
    at_numbers C o k n m a b v w e f g (D, d, q) = (
      D,
      d,
      subst (λ t. t) (λ i. IsAsked C D (e i) (f i) (g i) (heard initiated C.initial_peer (e i) k))
          q,
    )

    pub initiate-counts :
        (k peer : ℕ) (C : Channel) (a v : ℕ)
        → IsListening C
        → (D : Channel) × (initiate B media_caps initiated k peer C a v ≡ some (D, true))
          × IsAsked C D (max a v) a v (heard initiated C.initial_peer (max a v) k)
    unfolding initiate heard
    initiate-counts k peer C zero zero l = (C, refl, not-IsAsked C C.listens)
    initiate-counts k peer C (suc a) zero l =
        at_numbers C _ k _ _ _ _ _ _ (omega arith) (omega arith) refl (
          once_more k peer 3 (max a zero) a zero C
            (λ E. initiate B media_caps initiated (suc k) peer E a zero) l
            (λ E m. initiate-counts (suc k) peer E a zero m))
    initiate-counts k peer C zero (suc v) l =
        at_numbers C _ k _ _ _ _ _ _ (omega arith) refl (omega arith) (
          once_more k peer 12 (max zero v) zero v C
            (λ E. initiate B media_caps initiated (suc k) peer E zero v) l
            (λ E m. initiate-counts (suc k) peer E zero v m))
    initiate-counts k peer C (suc a) (suc v) l =
        at_numbers C _ k _ _ _ _ _ _ (omega arith) (omega arith) (omega arith) (
          once_more k peer 15 (max a v) a v C
            (λ E. initiate B media_caps initiated (suc k) peer E a v) l
            (λ E m. initiate-counts (suc k) peer E a v m))
