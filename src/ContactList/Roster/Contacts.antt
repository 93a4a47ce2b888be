-- ===== src/ContactList/Roster/Contacts.antt =====
-- src/contact-list.c: which contacts the contact list has, and their states.
use telepathy_haze.ContactList.Roster.{World, Agrees, dup_contacts, dup_states, add_named}
use telepathy_haze.ContactList.State.{SubscriptionState, Request}
use telepathy_haze.Prelude.{
  is_some, Option-cases, List-cases, ==_iff, ◌⊎◌, Bool-cases, ◌↔◌, List, false, refl, inl, arith,
  none, ◌||◌, sym, fold, ◌==◌, true, In, Bool, ap, ◌≢◌, ℕ, if◌then◌else◌, [], ◌≡◌, inr, ◌∙◌, ◌∷◌,
}
use telepathy_haze.Prelude.Sets.{member-add, HandleSet, add, member}
use telepathy_haze.Prelude.Table.{lookup, keys}
use telepathy_haze.Purple.{IsBlist, Blist, Buddy}
use telepathy_haze.Telepathy.{Handles}

member-fold-add :
    (s ks : HandleSet) (h : ℕ) → member (fold add s ks) h ≡ (member s h || member ks h)
unfolding fold member
member-fold-add s [] h = ground arith
member-fold-add s (k ∷ ks) h = ground (arith, member-fold-add (add s k) ks h, member-add s k h)

member-keys : (p : List (ℕ × Request)) (h : ℕ) → member (keys p) h ≡ is_some (lookup h p)
unfolding member lookup
member-keys [] h = refl
member-keys ((j, r) ∷ p) h = ground (arith, member-keys p h)

module _ (B : Blist) (R : Handles) where
  -- The handles of the buddies, 0 left out.
  named : List Buddy → ℕ → Bool
  named [] h = false
  named (b ∷ bs) h =
      if R.ensure b.name == 0 then named bs h else if R.ensure b.name == h then true else named bs h

  member-fold-add_named :
      (s : HandleSet) (bs : List Buddy) (h : ℕ)
      → member (fold (add_named B R) s bs) h ≡ (member s h || named bs h)
  unfolding fold named add_named
  member-fold-add_named s [] h = ground arith
  member-fold-add_named s (b ∷ bs) h = ground (
    arith,
    member-fold-add_named s bs h,
    member-fold-add_named (add s (R.ensure b.name)) bs h,
    member-add s (R.ensure b.name) h,
  )

  named-In :
      (bs : List Buddy) (h : ℕ) → named bs h ≡ true → (b : Buddy) × In b bs × (R.ensure b.name ≡ h)
  unfolding named
  named-In [] h e = absurd (ground arith)
  named-In (b ∷ bs) h e = elim (Bool-cases (R.ensure b.name == h)) [
    | inl f ↦ (b, inl refl, (==_iff _ _).0 f)
    | inr f ↦ let (c, i, g) = named-In bs h (ground (arith, f)) in (c, inr i, g)
  ]

  In-named :
      (bs : List Buddy) (b : Buddy) (h : ℕ)
      → In b bs
      → R.ensure b.name ≡ h
      → h ≢ 0
      → named bs h ≡ true
  unfolding named
  In-named [] b h i e z = absurd i
  In-named (c ∷ bs) b h (inl i) e z =
      let f : R.ensure c.name ≡ h = ap (λ (d : Buddy). R.ensure d.name) (sym i) ∙ e in
      ground (arith, f)
  In-named (c ∷ bs) b h (inr i) e z = ground (arith, In-named bs b h i e z)

  module _ (L : IsBlist B) (A : Agrees B R) where
    open L use {find_buddy_none, find_buddies_nil, all_has, all_only, find_name, find_same}
    open A use {ensure_same, same_ensure}

    -- A contact is on the buddy list exactly if one of all buddies has its handle.
    named→find :
        (w : World B) (h : ℕ)
        → R.is_valid h ≡ true
        → named (B.all_buddies w.blist) h ≡ true
        → B.find_buddy w.blist (R.inspect h) ≢ none
    named→find w h v e none' =
        let (b, i, f) = named-In (B.all_buddies w.blist) h e in
        let j = all_only w.blist b i in
        let same = find_same w.blist b.name (R.inspect h) (same_ensure b.name h v f) in
        let empty = find_buddy_none w.blist (R.inspect h) none' in rw (same, empty) at j

    find→named :
        (w : World B) (h : ℕ) (b : Buddy) (bs : List Buddy)
        → R.is_valid h ≡ true
        → B.find_buddies w.blist (R.inspect h) ≡ b ∷ bs
        → named (B.all_buddies w.blist) h ≡ true
    find→named w h b bs v e =
        let i : In b (B.find_buddies w.blist (R.inspect h)) = rw e (inl refl) in
        let f = ensure_same b.name (R.inspect h) (find_name w.blist (R.inspect h) b i) in
        In-named (B.all_buddies w.blist) b h (all_has w.blist (R.inspect h) b i)
          (f ∙ R.ensure-inspect h v) (λ z. cc (rw (z, R.zero_invalid) at v))

    named-find :
        (w : World B) (h : ℕ)
        → R.is_valid h ≡ true
        → named (B.all_buddies w.blist) h ≡ is_some (B.find_buddy w.blist (R.inspect h))
    named-find w h v = elim (List-cases (B.find_buddies w.blist (R.inspect h))) [
      | inl e ↦
          let f = find_buddies_nil w.blist (R.inspect h) e in
          elim (Bool-cases (named (B.all_buddies w.blist) h)) [
            | inl t ↦ absurd (named→find w h v t f)
            | inr t ↦ rw (t, f)
          ]
      | inr (b, bs, e) ↦ elim (Option-cases (B.find_buddy w.blist (R.inspect h))) [
        | inl f ↦ absurd (cc (e, find_buddy_none w.blist (R.inspect h) f))
        | inr (c, f) ↦ rw (f, find→named w h b bs v e)
      ]
    ]

    -- The contact list has a valid contact exactly if Telepathy is told that we see its presence,
    -- that it asks to see ours, or that it sees ours.
    pub member-dup_contacts :
        (w : World B) (h : ℕ)
        → R.is_valid h ≡ true
        → (member (dup_contacts B R w) h ≡ true) ↔ (
            ((dup_states B R w h).0 ≡ SubscriptionState.yes')
            ⊎ ((dup_states B R w h).1 ≡ SubscriptionState.ask)
            ⊎ ((dup_states B R w h).1 ≡ SubscriptionState.yes'))
    unfolding dup_contacts dup_states
    member-dup_contacts w h v =
        let bs = B.all_buddies w.blist in
        let s = fold (add_named B R) w.list.publishing_to bs in
        let ks = keys w.list.pending in
        let e = member-fold-add s ks h in
        let f = member-fold-add_named w.list.publishing_to bs h in
        (
          ground (arith, e, f, named-find w h v, member-keys w.list.pending h),
          ground (arith, e, f, named-find w h v, member-keys w.list.pending h),
        )
