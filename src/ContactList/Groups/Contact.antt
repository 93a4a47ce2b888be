-- ===== src/ContactList/Groups/Contact.antt =====
-- src/contact-list.c: what haze_contact_list_set_contact_groups_async does to the groups of a contact.
use telepathy_haze.ContactList.Groups.{set_contact_groups_async, or_fallback}
use telepathy_haze.ContactList.Groups.Assign.{assign-has, assign-others, assign}
use telepathy_haze.ContactList.Groups.Names.{AreGroupNames, IsInGroup, In-desired, desired-In}
use telepathy_haze.ContactList.Groups.Undesired.{
  prune-group_name, prune-only, prune, wanted, prune-wanted, prune-keeps,
}
use telepathy_haze.ContactList.Roster.{World}
use telepathy_haze.Prelude.{String, true, ap, In, false, ◌∙◌, List, refl, sym, ◌≢◌, ℕ, ◌≡◌, ◌↔◌}
use telepathy_haze.Purple.{Blist, IsBlist, Buddy}
use telepathy_haze.Telepathy.{Handles}

module _ (B : Blist) (R : Handles) (fallback : String) (L : IsBlist B) where
  open L use {addr_inj, find_name}

  set_contact_groups-loops :
      (w : World B) (h : ℕ) (names : List String)
      → set_contact_groups_async B R fallback w h names ≡ (
          let ns = or_fallback fallback names in
          let u = assign B R fallback L w h ns in
          prune B R fallback L u ns (B.find_buddies u.blist (R.inspect h)))
  unfolding set_contact_groups_async assign prune
  set_contact_groups-loops w h names = refl

  -- Setting the groups of a contact leaves its buddies only in groups whose names were asked for,
  -- the fallback group counting as asked for where no name was given.
  pub set_contact_groups-only :
      (w : World B) (h : ℕ) (names : List String) (b : Buddy)
      → In b (B.find_buddies (set_contact_groups_async B R fallback w h names).blist (R.inspect h))
      → In
          (B.group_name (set_contact_groups_async B R fallback w h names).blist b.group)
          (or_fallback fallback names)
  set_contact_groups-only w h names b i =
      let ns = or_fallback fallback names in
      let u = assign B R fallback L w h ns in
      let cs = B.find_buddies u.blist (R.inspect h) in
      let e = set_contact_groups-loops w h names in
      let i' = rw e at i in
      let t =
        prune-wanted B R fallback L u ns cs (R.inspect h) b i'
          (prune-only B R fallback L u ns cs (R.inspect h) b i') in
      rw (e, prune-group_name B R fallback L u ns cs b.group) (desired-In _ ns t)

  -- Every name that was asked for, or the fallback group where none was, ends up as the name of a
  -- group that the contact is in; so the contact is never left without a group.
  -- The names are taken as given to the contact list by TpBaseContactList: normalised, one for each
  -- group.
  pub set_contact_groups-all :
      (w : World B) (h : ℕ) (names : List String) (n : String)
      → AreGroupNames B w.blist (or_fallback fallback names)
      → In n (or_fallback fallback names)
      → IsInGroup B R (set_contact_groups_async B R fallback w h names) h n
  set_contact_groups-all w h names n v i =
      let ns = or_fallback fallback names in
      let bn = R.inspect h in
      let u = assign B R fallback L w h ns in
      let cs = B.find_buddies u.blist bn in
      let (b, j, e) = assign-has B R fallback L w h ns ns n v (λ x k. k) i in
      let t : wanted B R fallback L u.blist ns b ≡ true = In-desired _ ns (rw e i) in
      let k =
        prune-keeps B R fallback L u ns cs bn b j
          (λ c l f a. let same = addr_inj u.blist bn bn b c j l a in cc (f, t, same)) in
      rw (set_contact_groups-loops w h names)
        (b, k, prune-group_name B R fallback L u ns cs b.group ∙ e)

  -- The buddies of all other contacts are as before.
  pub set_contact_groups-others :
      (w : World B) (h : ℕ) (names : List String) (m : String) (b : Buddy)
      → AreGroupNames B w.blist (or_fallback fallback names)
      → B.normalize m ≢ B.normalize (R.inspect h)
      → In b (B.find_buddies (set_contact_groups_async B R fallback w h names).blist m)
        ↔ In b (B.find_buddies w.blist m)
  set_contact_groups-others w h names m b v other =
      let ns = or_fallback fallback names in
      let n = R.inspect h in
      let u = assign B R fallback L w h ns in
      let cs = B.find_buddies u.blist n in
      let both = assign-others B R fallback L w h ns ns m b v (λ x k. k) other in
      let apart : In b (B.find_buddies u.blist m)
          → (c : Buddy) → In c cs
          → wanted B R fallback L u.blist ns c ≡ false
          → b.addr ≢ c.addr =
        λ i c j _ a. other (
          sym (find_name u.blist m b i)
          ∙ ap (λ (x : Buddy). B.normalize x.name) (addr_inj u.blist m n b c i j a)
          ∙ find_name u.blist n c j) in
      rw (set_contact_groups-loops w h names) (
        λ i. both.0 (prune-only B R fallback L u ns cs m b i),
        λ i. let i' = both.1 i in prune-keeps B R fallback L u ns cs m b i' (apart i'),
      )
