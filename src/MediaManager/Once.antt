-- ===== src/MediaManager/Once.antt =====
-- src/media-manager.c: any calls on a manager.
-- A D-Bus call on a channel has a context that is not the manager's.
use telepathy_haze.MediaChannel.Calls.{step, requests, Call}
use telepathy_haze.MediaChannel.Requests.{request_initial_streams, Event}
use telepathy_haze.MediaChannel.Session.{Outside}
use telepathy_haze.MediaManager.{
  close_all, other_status, Entry, disconnected, connecting, emits, new_manager, method_ensure,
  channel_for, method_create, ensured, method_request, request_already_satisfied, find_peer,
  request_failed, new_media_channel, make_channel, connection_status_changed_cb, init_media_cb,
  RequestMethod, Status, RequestProperties, on_channel, requestotron, Manager, dispose,
}
use telepathy_haze.MediaManager.Answers.{
  answers_in, close_all-claims, waiting_for, on-claims, new-claims, claims, waits, answers, tally,
}
use telepathy_haze.Prelude.{
  refl, ◌==◌, inl, Option-cases, if_intro, true, ap, inr, for_each, some_inj, sym, not, none, ◌≤◌,
  arith, Bool, [], ◌≡◌, if◌then◌else◌, false, ◌∷◌, ◌+◌, List, bind_inv, ℕ, some, suc, ◌>>=◌, Option,
}
use telepathy_haze.MediaChannel.{not_implemented}

abbrev pub on_bus : Call → Call
on_bus (requests contact context) = requests contact (suc context)
on_bus c = c

-- The calls of telepathy-glib, of libpurple and of clients.
pub data ManagerCall : Type 0 where
  asks : ℕ → RequestProperties → RequestMethod → ManagerCall
  calls_channel : ℕ → Call → ManagerCall
  brings_media : Bool → ℕ → ManagerCall
  changes_status : Status → ManagerCall
  disposes_manager : ManagerCall

module _ (B : Outside) (media_caps : ℕ) (initiated : ℕ → List Event × Bool)
    (asked : ℕ → List ℕ) where
  unfoldable pub manager_step : Manager → ManagerCall → Option Manager
  unfolding requestotron on_channel init_media_cb connection_status_changed_cb dispose
  manager_step M (asks token p method) =
      requestotron B media_caps initiated M token p method >>= λ r. some r.0
  manager_step M (calls_channel path c) =
      on_channel (λ C. step B media_caps initiated asked C (on_bus c)) M path
  manager_step M (brings_media is_initiator contact) =
      let r = init_media_cb M is_initiator contact in if M.listens_for_media then r else some M
  manager_step M (changes_status status) =
      let r = connection_status_changed_cb M status in if M.status_connected then r else some M
  manager_step M disposes_manager = dispose M

  -- How often a request is made.
  unfoldable pub asked_times : ℕ → List ManagerCall → ℕ
  unfolding tally
  asked_times token [] = 0
  asked_times token (asks t p method ∷ calls) = tally token t + asked_times token calls
  asked_times token (_ ∷ calls) = asked_times token calls

  make-claims :
      (token : ℕ) (M N : Manager) (t : ℕ) (p : RequestProperties)
      → make_channel B media_caps initiated M t p ≡ some N
      → claims token N ≤ claims token M + tally token t
  unfolding make_channel waits
  make-claims token M N t p f =
      let (r, g, h) =
        bind_inv (new_media_channel M false p.handle p.wants_audio p.wants_video (some t)) _ f in
      omega (
        arith,
        new-claims token M false p.handle p.wants_audio p.wants_video (some t) r g,
        on-claims token (λ C. request_initial_streams B media_caps initiated C 0) r.0 N r.1.path h,
      )

  channel_for-claims :
      (token : ℕ) (M N : Manager) (t : ℕ) (p : RequestProperties) (method : RequestMethod)
      → channel_for B media_caps initiated M t p method ≡ some N
      → claims token N ≤ claims token M + tally token t
  unfolding channel_for ensured answers
  channel_for-claims token M N t p method_request f = make-claims token M N t p f
  channel_for-claims token M N t p method_create f = make-claims token M N t p f
  channel_for-claims token M N t p method_ensure f =
      elim (Option-cases (find_peer M.channels p.handle)) [
        | inl e ↦ make-claims token M N t p (ground (arith, f, e))
        | inr (path, e) ↦
            let same : some (emits M (request_already_satisfied t path)) ≡ some N =
              ground (arith, f, e) in
            omega (arith, ap (claims token) (sym (some_inj same)))
      ]

  -- A request that is taken on makes one claim at most, and one that is not changes nothing.
  abbrev Limit : ℕ → ℕ → Manager → Option (Manager × Bool) → Type 0
  Limit token t M o =
      (r : Manager × Bool) → o ≡ some r → claims token r.0 ≤ claims token M + tally token t

  requestotron-claims :
      (token : ℕ) (M : Manager) (t : ℕ) (p : RequestProperties) (method : RequestMethod)
      → Limit token t M (requestotron B media_caps initiated M t p method)
  unfolding requestotron answers
  requestotron-claims token M t p method =
      let P = Limit token t M in
      let unhandled : P (some (M, false)) =
        λ r e. omega (arith, ap (λ r. claims token r.0) (sym (some_inj e))) in
      let failing : P (some (emits M (request_failed t not_implemented), true)) =
        λ r e. omega (arith, ap (λ r. claims token r.0) (sym (some_inj e))) in
      let aborts : P none = λ r e. absurd cc in
      if_intro P (not p.is_streamed_media) unhandled (
        if_intro P (p.handle_type == 0) (if_intro P (p.handle == 0) failing aborts) (
          if_intro P (not (p.handle_type == 1)) unhandled (
            if_intro P (p.handle == 0) aborts (
              if_intro P p.has_unknown failing (λ r e.
                let (N, g, h) = bind_inv (channel_for B media_caps initiated M t p method) _ e in
                omega (
                  arith,
                  ap (λ r. claims token r.0) (sym (some_inj h)),
                  channel_for-claims token M N t p method g,
                ))))))

  abbrev Bounded : ℕ → Manager → Option Manager → Type 0
  Bounded token M o = (N : Manager) → o ≡ some N → claims token N ≤ claims token M

  same-Bounded :
      (token : ℕ) (M K : Manager) → claims token K ≡ claims token M → Bounded token M (some K)
  same-Bounded token M K e N f = omega (arith, e, ap (claims token) (sym (some_inj f)))

  media-claims :
      (token : ℕ) (M : Manager) (is_initiator : Bool) (contact : ℕ)
      → Bounded token M (init_media_cb M is_initiator contact)
  unfolding init_media_cb answers answers_in waits
  media-claims token M is_initiator contact =
      if_intro (Bounded token M) is_initiator (same-Bounded token M M refl) (λ N f.
        let (r, g, h) = bind_inv (new_media_channel M true contact false false none) _ f in
        omega (
          arith,
          new-claims token M true contact false false none r g,
          ap (claims token) (sym (some_inj h)),
        ))

  status-claims :
      (token : ℕ) (M : Manager) (status : Status)
      → Bounded token M (connection_status_changed_cb M status)
  unfolding connection_status_changed_cb
  status-claims token M connecting = same-Bounded token M _ refl
  status-claims token M disconnected =
      λ N f. close_all-claims token (record M { listens_for_media = false }) N f
  status-claims token M other_status = same-Bounded token M M refl

  emptied-claims :
      (token : ℕ) (M K : Manager) (es : List Entry)
      → claims token K ≤ claims token M
      → Bounded token M (elim es as (λ _. Option Manager) [ [] ↦ some K | _ ∷ _ ↦ none ])
  emptied-claims token M K [] e N f = omega (arith, e, ap (claims token) (sym (some_inj f)))
  emptied-claims token M K (_ ∷ _) e N f = absurd cc

  dispose-claims : (token : ℕ) (M : Manager) → Bounded token M (dispose M)
  unfolding dispose
  dispose-claims token M =
      if_intro (Bounded token M) M.dispose_has_run (same-Bounded token M M refl) (λ N f.
        let (K, g, h) = bind_inv (close_all (record M { dispose_has_run = true })) _ f in
        emptied-claims token M K K.channels
          (close_all-claims token (record M { dispose_has_run = true }) K g) N h)

  step-claims :
      (token : ℕ) (M N : Manager) (c : ManagerCall)
      → manager_step M c ≡ some N
      → claims token N ≤ claims token M + asked_times token (c ∷ [])
  unfolding manager_step asked_times
  step-claims token M N (asks t p method) f =
      let (r, g, h) = bind_inv (requestotron B media_caps initiated M t p method) _ f in
      omega
        (arith, requestotron-claims token M t p method r g, ap (claims token) (sym (some_inj h)))
  step-claims token M N (calls_channel path c) f =
      omega
        (arith, on-claims token (λ C. step B media_caps initiated asked C (on_bus c)) M N path f)
  step-claims token M N (brings_media is_initiator contact) f = omega (
    arith,
    if_intro (Bounded token M) M.listens_for_media (media-claims token M is_initiator contact)
        (same-Bounded token M M refl) N f,
  )
  step-claims token M N (changes_status status) f = omega (
    arith,
    if_intro (Bounded token M) M.status_connected (status-claims token M status)
        (same-Bounded token M M refl) N f,
  )
  step-claims token M N disposes_manager f = omega (arith, dispose-claims token M N f)

  unfoldable pub manager_run : Manager → List ManagerCall → Option Manager
  unfolding manager_step
  manager_run = for_each manager_step

  asked_times_cons :
      (token : ℕ) (c : ManagerCall) (calls : List ManagerCall)
      → asked_times token (c ∷ calls) ≡ asked_times token (c ∷ []) + asked_times token calls
  unfolding asked_times
  asked_times_cons token (asks t p method) calls = omega arith
  asked_times_cons token (calls_channel _ _) calls = omega arith
  asked_times_cons token (brings_media _ _) calls = omega arith
  asked_times_cons token (changes_status _) calls = omega arith
  asked_times_cons token disposes_manager calls = omega arith

  run-claims :
      (token : ℕ) (M N : Manager) (calls : List ManagerCall)
      → manager_run M calls ≡ some N
      → claims token N ≤ claims token M + asked_times token calls
  unfolding manager_run for_each asked_times
  run-claims token M N [] f = omega (arith, ap (claims token) (some_inj f))
  run-claims token M N (c ∷ calls) f =
      let (K, g, h) = bind_inv (manager_step M c) _ f in
      let here = step-claims token M K c g in
      let rest = run-claims token K N calls h in
      omega (arith, here, rest, asked_times_cons token c calls)

  -- Whatever calls a new manager gets that do not abort, a request for a channel gets no more answers
  -- than it is made, those that are still to come counted too.
  pub request_answered_once :
      (token self_handle : ℕ) (N : Manager) (calls : List ManagerCall)
      → manager_run (new_manager self_handle) calls ≡ some N
      → answers token N.log + waiting_for token N.channels ≤ asked_times token calls
  unfolding new_manager answers waiting_for
  request_answered_once token self_handle N calls f =
      omega (arith, run-claims token (new_manager self_handle) N calls f)
