-- ===== src/ContactList/Roster/Removal.antt =====
-- src/contact-list.c: subscription and removal.
use telepathy_haze.ContactList.Roster.{
  blist_add, drop_buddy, emits, request_subscription_async, request_subscription, World,
  remove_contact, on_list, last_instance, blist_remove,
}
use telepathy_haze.ContactList.State.{
  account_add_buddy, contact_removed, ContactList, groups_changed,
}
use telepathy_haze.Prelude.{
  ◌>>=◌, Option-cases, fold, nil_of_empty, ◌∙◌, sym, ◌≢◌, [], false, String, ◌⊎◌, true, none, ◌∷◌,
  inr, ap, Bool-cases, ℕ, ◌↔◌, inl, In, refl, some, List, some_inj, ◌≡◌, arith, Option,
}
use telepathy_haze.Prelude.Table.{lookup}
use telepathy_haze.Purple.{Blist, Buddy, IsBlist}
use telepathy_haze.Telepathy.{Handles}
use telepathy_haze.ContactList.Publish.{reject_publish_request}
use telepathy_haze.ContactList.Publish.Invariant.{reject-resolves, reject-ne-none}
use telepathy_haze.ContactList.Roster.Drops.{drops-only, drops-keeps}
use telepathy_haze.Prelude.Sets.{HandleSet}

module _ {B : Blist} where
  on_list-blist :
      (w t : World B) (o : Option ContactList) → on_list w o ≡ some t → t.blist ≡ w.blist
  on_list-blist w t none e = absurd (cc e)
  on_list-blist w t (some l) e = ap (λ (u : World B). u.blist) (sym (some_inj e))

  on_list-list : (w t : World B) (o : Option ContactList) → on_list w o ≡ some t → o ≡ some t.list
  on_list-list w t none e = absurd (cc e)
  on_list-list w t (some l) e = ap (λ (u : World B). some u.list) (some_inj e)

last_instance_iff :
    (b : Buddy) (cs : List Buddy)
    → ((c : Buddy) → In c cs → c.addr ≢ b.addr)
    → (last_instance b cs ≡ true) ↔ (cs ≡ [])
unfolding last_instance
last_instance_iff b [] f = (λ _. refl, λ _. refl)
last_instance_iff b (c ∷ cs) f =
    let other = f c (inl refl) in (ground (arith, other), ground (arith, other))

module _ (B : Blist) (R : Handles) (L : IsBlist B) where
  open L use {
    remove_only, addr_inj, find_name, find_buddies_nil, find_buddy_none, add_adds, add_keeps,
  }

  -- Removing a buddy of a connected account tells Telepathy that the contact is gone exactly if no
  -- buddy of that name is left, and that it left the group in any case.
  pub blist_remove-out :
      (w : World B) (b : Buddy)
      → w.disconnected ≡ false
      → let t = blist_remove B R w b in
        let h = R.ensure b.name in
        let left = groups_changed h [] (B.group_name t.blist b.group ∷ []) ∷ w.list.out in
        ((B.find_buddies t.blist b.name ≡ []) × (t.list.out ≡ contact_removed h ∷ left))
        ⊎ ((B.find_buddies t.blist b.name ≢ []) × (t.list.out ≡ left))
  unfolding blist_remove
  blist_remove-out w b on =
      let cs = B.find_buddies (B.remove_buddy w.blist b) b.name in
      let last = last_instance_iff b cs (λ c i. (remove_only w.blist b.name b c i).1) in
      elim (Bool-cases (last_instance b cs)) [
        | inl t ↦ inl (ground (arith, on, t, last.0 t), ground (arith, on, t))
        | inr f ↦ inr ((λ e. cc (last.1 (ground (arith, on, f, e)), f)), ground (arith, on, f))
      ]

  -- The state after the loop of haze_contact_list_remove_contact.
  emptied : World B → ℕ → World B
  emptied w h = fold (drop_buddy B R) w (B.find_buddies w.blist (R.inspect h))

  emptied-find : (w : World B) (h : ℕ) → B.find_buddies (emptied w h).blist (R.inspect h) ≡ []
  unfolding emptied
  emptied-find w h =
      let cs = B.find_buddies w.blist (R.inspect h) in
      nil_of_empty _
        (λ b i. let (j, other) = drops-only B R L w cs (R.inspect h) b i in other b j refl)

  -- Removing a contact never aborts. It leaves no buddy of the contact, and resolves a request of
  -- the contact to see our presence.
  pub remove_contact_lem :
      (w : World B) (h : ℕ)
      → (t : World B) × (remove_contact B R w h ≡ some t)
        × (B.find_buddy t.blist (R.inspect h) ≡ none)
        × (lookup h t.list.pending ≡ none)
  unfolding remove_contact emptied
  remove_contact_lem w h =
      let e = emptied w h in
      elim (Option-cases (reject_publish_request e.list h)) [
        | inl f ↦ absurd (reject-ne-none e.list h f)
        | inr (l, f) ↦ (
          record e { list = l },
          rw f,
          find_buddies_nil e.blist (R.inspect h) (emptied-find w h),
          reject-resolves e.list l h f,
        )
      ]

  -- Removing a contact keeps every buddy of the other contacts, and finds no new ones.
  pub remove_contact-others :
      (w t : World B) (h : ℕ) (m : String) (b : Buddy)
      → remove_contact B R w h ≡ some t
      → B.normalize m ≢ B.normalize (R.inspect h)
      → In b (B.find_buddies t.blist m) ↔ In b (B.find_buddies w.blist m)
  unfolding remove_contact emptied
  remove_contact-others w t h m b e other =
      let n = R.inspect h in
      let cs = B.find_buddies w.blist n in
      let same = on_list-blist (emptied w h) t (reject_publish_request (emptied w h).list h) e in
      (
        λ i. (drops-only B R L w cs m b (rw same at i)).0,
        λ i. rw same (
            drops-keeps B R L w cs m b i (λ c j a.
              let d = addr_inj w.blist m n b c i j a in
              other (
                sym (find_name w.blist m b i)
                ∙ ap (λ (x : Buddy). B.normalize x.name) d
                ∙ find_name w.blist n c j))),
      )

  -- A request to subscribe aborts exactly if the contact is on the list already; otherwise the
  -- contact is on the list afterwards, and nobody leaves it.
  pub request_subscription_lem :
      (w : World B) (h : ℕ)
      → ((request_subscription B R w h ≡ none) × (B.find_buddy w.blist (R.inspect h) ≢ none))
        ⊎ ((t : World B) × (request_subscription B R w h ≡ some t)
            × (B.find_buddy w.blist (R.inspect h) ≡ none)
            × (B.find_buddy t.blist (R.inspect h) ≢ none))
  unfolding request_subscription
  request_subscription_lem w h = elim (Option-cases (B.find_buddy w.blist (R.inspect h))) [
    | inl f ↦
        let n = R.inspect h in
        let r = B.add_buddy w.blist n none in
        inr (
          emits (blist_add B R w n none) (account_add_buddy n),
          rw (f, request_subscription),
          f,
          λ g. rw (find_buddy_none r.0 n g) at (add_adds w.blist n n none refl),
        )
    | inr (b, f) ↦ inl (rw (f, request_subscription), λ g. cc (f, g))
  ]

  -- A contact that is on the list stays there while others are added.
  request_subscription-keeps :
      (w t : World B) (h : ℕ) (n : String)
      → request_subscription B R w h ≡ some t
      → B.find_buddy w.blist n ≢ none
      → B.find_buddy t.blist n ≢ none
  unfolding request_subscription
  request_subscription-keeps w t h n e on off =
      elim (Option-cases (B.find_buddy w.blist (R.inspect h))) [
        | inr (b, f) ↦ cc (rw (f, request_subscription) at e)
        | inl f ↦
            let m = R.inspect h in
            let added : some (emits (blist_add B R w m none) (account_add_buddy m)) ≡ some t =
              rw (f, request_subscription) at e in
            let gone : B.find_buddies (B.add_buddy w.blist m none).0 n ≡ [] =
              find_buddy_none _ n (rw (← some_inj added) at off) in
            on (
              find_buddies_nil w.blist n
                (nil_of_empty _ (λ b i. rw gone at (add_keeps w.blist m n none b i))))
      ]

  -- So a request to subscribe to several contacts aborts if one of them is on the list at its start.
  pub request_subscription_async-aborts :
      (w : World B) (hs : HandleSet) (h : ℕ)
      → In h hs
      → B.find_buddy w.blist (R.inspect h) ≢ none
      → request_subscription_async B R w hs ≡ none
  unfolding request_subscription_async
  request_subscription_async-aborts w [] h i on = absurd i
  request_subscription_async-aborts w (x ∷ hs) h i on =
      elim (Option-cases (request_subscription B R w x)) [
        | inl f ↦ rw (f, ◌>>=◌)
        | inr (t, f) ↦
            let rest = request_subscription_async-aborts t hs h in
            elim i [
              | inl same ↦ elim (request_subscription_lem w x) [
                | inl (g, _) ↦ cc (f, g)
                | inr (u, g, off, _) ↦ absurd (on (rw same off))
              ]
              | inr j ↦ rw (f, ◌>>=◌) (rest j (request_subscription-keeps w t x (R.inspect h) f on))
            ]
      ]
