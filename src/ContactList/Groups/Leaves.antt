-- ===== src/ContactList/Groups/Leaves.antt =====
-- src/contact-list.c: the loops of haze_contact_list_remove_many_from_group.
use telepathy_haze.ContactList.Groups.{drop_from, drop_contact}
use telepathy_haze.ContactList.Roster.{World}
use telepathy_haze.ContactList.Roster.Drops.{drop-blist}
use telepathy_haze.Prelude.{
  ℕ, In, ◌≢◌, [], inr, inl, List, fold, ◌≡◌, ap, ==_iff, ◌∷◌, ◌∙◌, if◌then◌else◌, sym, String, true,
  Bool-cases, refl, ◌==◌, arith,
}
use telepathy_haze.Prelude.Sets.{HandleSet}
use telepathy_haze.Purple.{IsBlist, Buddy, Blist}
use telepathy_haze.Telepathy.{Handles}

module _ (B : Blist) (R : Handles) (fallback : String) (L : IsBlist B) where
  open L use {
    find_buddy_none, find_buddies_nil, find_same, find_name, addr_inj, remove_keeps, remove_only,
    new_find_buddies, new_some, new_keeps_group,
  }

  drop_from-blist :
      (w : World B) (g : ℕ) (c : Buddy)
      → (drop_from B R fallback g w c).blist
        ≡ (if c.group == g then B.remove_buddy w.blist c else w.blist)
  unfolding drop_from
  drop_from-blist w g c = ground (arith, drop-blist B R L w c)

  drops_from-only :
      (w : World B) (g : ℕ) (cs : List Buddy) (m : String) (b : Buddy)
      → In b (B.find_buddies (fold (drop_from B R fallback g) w cs).blist m)
      → In b (B.find_buddies w.blist m)
  unfolding fold
  drops_from-only w g [] m b i = i
  drops_from-only w g (c ∷ cs) m b i =
      let j = drops_from-only (drop_from B R fallback g w c) g cs m b i in
      let e = drop_from-blist w g c in
      elim (Bool-cases (c.group == g)) [
        | inl t ↦ (remove_only w.blist m c b (rw (e, t) at j)).0
        | inr f ↦ rw (e, f) at j
      ]

  drops_from-out :
      (w : World B) (g : ℕ) (cs : List Buddy) (m : String) (b : Buddy)
      → In b (B.find_buddies (fold (drop_from B R fallback g) w cs).blist m)
      → In b cs
      → b.group ≢ g
  unfolding fold
  drops_from-out w g [] m b i j same = absurd j
  drops_from-out w g (c ∷ cs) m b i (inr j) same =
      drops_from-out (drop_from B R fallback g w c) g cs m b i j same
  drops_from-out w g (c ∷ cs) m b i (inl j) same =
      let k = drops_from-only (drop_from B R fallback g w c) g cs m b i in
      let e = drop_from-blist w g c in
      let t : (c.group == g) ≡ true = (==_iff _ _).1 (sym (ap (λ (x : Buddy). x.group) j) ∙ same) in
      (remove_only w.blist m c b (rw (e, t) at k)).1 (ap (λ (x : Buddy). x.addr) j)

  drops_from-keeps :
      (w : World B) (g : ℕ) (cs : List Buddy) (m : String) (b : Buddy)
      → In b (B.find_buddies w.blist m)
      → ((c : Buddy) → In c cs → c.group ≡ g → b.addr ≢ c.addr)
      → In b (B.find_buddies (fold (drop_from B R fallback g) w cs).blist m)
  unfolding fold
  drops_from-keeps w g [] m b i f = i
  drops_from-keeps w g (c ∷ cs) m b i f =
      let u = drop_from B R fallback g w c in
      let e = drop_from-blist w g c in
      let i' : In b (B.find_buddies u.blist m) = elim (Bool-cases (c.group == g)) [
        | inl t ↦ rw (e, t) (remove_keeps w.blist m c b i (f c (inl refl) ((==_iff _ _).0 t)))
        | inr t ↦ rw (e, t) i
      ] in
      drops_from-keeps u g cs m b i' (λ x j. f x (inr j))

  -- The loop over the contacts: what is outside of the group stays.
  pub drop_contacts-keeps :
      (w : World B) (g : ℕ) (hs : HandleSet) (m : String) (b : Buddy)
      → In b (B.find_buddies w.blist m)
      → b.group ≢ g
      → In b (B.find_buddies (fold (drop_contact B R fallback g) w hs).blist m)
  unfolding fold drop_contact
  drop_contacts-keeps w g [] m b i other = i
  drop_contacts-keeps w g (h ∷ hs) m b i other =
      let n = R.inspect h in
      let cs = B.find_buddies w.blist n in
      drop_contacts-keeps (drop_contact B R fallback g w h) g hs m b
        (drops_from-keeps w g cs m b i
          (λ c j e a. other (ap (λ (x : Buddy). x.group) (addr_inj w.blist m n b c i j a) ∙ e)))
        other

  drop_contacts-only :
      (w : World B) (g : ℕ) (hs : HandleSet) (m : String) (b : Buddy)
      → In b (B.find_buddies (fold (drop_contact B R fallback g) w hs).blist m)
      → In b (B.find_buddies w.blist m)
  unfolding fold drop_contact
  drop_contacts-only w g [] m b i = i
  drop_contacts-only w g (h ∷ hs) m b i =
      drops_from-only w g (B.find_buddies w.blist (R.inspect h)) m b
        (drop_contacts-only (drop_contact B R fallback g w h) g hs m b i)

  -- And each of the contacts leaves it.
  pub drop_contacts-out :
      (w : World B) (g : ℕ) (hs : HandleSet) (h : ℕ) (b : Buddy)
      → In h hs
      → In b (B.find_buddies (fold (drop_contact B R fallback g) w hs).blist (R.inspect h))
      → b.group ≢ g
  unfolding fold drop_contact
  drop_contacts-out w g [] h b i j same = absurd i
  drop_contacts-out w g (k ∷ hs) h b (inr i) j same =
      drop_contacts-out (drop_contact B R fallback g w k) g hs h b i j same
  drop_contacts-out w g (k ∷ hs) h b (inl i) j same =
      let n = R.inspect k in
      let cs = B.find_buddies w.blist n in
      let j' = drop_contacts-only (drop_contact B R fallback g w k) g hs n b (rw i at j) in
      drops_from-out w g cs n b j' (drops_from-only w g cs n b j') same
