-- ===== src/ContactList/Groups/Removal.antt =====
-- src/contact-list.c: taking contacts out of a group.
use telepathy_haze.ContactList.Groups.{
  remove_from_group_async, not_available, remove_many_from_group, Error, drop_contact,
  prep_remove_from_group, add_orphan, orphans,
}
use telepathy_haze.ContactList.Groups.Orphans.{
  add_orphans-keeps_group, is_orphan, escapes, add_orphans-keeps, add_orphans-adds, member-orphans,
}
use telepathy_haze.ContactList.Roster.{emits, World}
use telepathy_haze.Prelude.{
  arith, Option-cases, List-cases, ◌==◌, fold, inr, sym, [], String, ◌∙◌, Bool-cases, ◌≢◌, inl,
  none, ◌≡◌, ℕ, some, In,
}
use telepathy_haze.Prelude.Sets.{member-In, HandleSet, member}
use telepathy_haze.Purple.{Blist, IsGroupName, IsBlist, Buddy}
use telepathy_haze.Telepathy.{Handles}
use telepathy_haze.ContactList.Groups.Leaves.{drop_contacts-out, drop_contacts-keeps}
use telepathy_haze.ContactList.State.{groups_created}

module _ (B : Blist) (R : Handles) (fallback : String) (L : IsBlist B) where
  open L use {find_buddy_none, find_buddies_nil, new_find_buddies, new_some, new_keeps_group}

  -- What haze_contact_list_prep_remove_from_group leaves where it allows the removal.
  record Prepared (w t : World B) (n : String) (g : ℕ) (contacts : HandleSet) : Type 0 where
    keeps :
        (m : String) (b : Buddy) → In b (B.find_buddies w.blist m) → In b (B.find_buddies t.blist m)
    safe :
        (h : ℕ) (b : Buddy)
        → In h contacts
        → In b (B.find_buddies w.blist (R.inspect h))
        → (c : Buddy) × In c (B.find_buddies t.blist (R.inspect h)) × (c.group ≢ g)
    still : B.find_group t.blist n ≡ some g

  no_orphans-safe :
      (w : World B) (g : ℕ) (contacts : HandleSet) (h : ℕ) (b : Buddy)
      → orphans B R fallback w.blist g [] contacts ≡ []
      → In h contacts
      → In b (B.find_buddies w.blist (R.inspect h))
      → (c : Buddy) × In c (B.find_buddies w.blist (R.inspect h)) × (c.group ≢ g)
  no_orphans-safe w g contacts h b e i j =
      elim (Bool-cases (is_orphan B R fallback L w.blist g h)) [
        | inl t ↦ absurd (
            unfold member in
            cc (rw e at (member-orphans B R fallback L w.blist g [] contacts h i t)))
        | inr f ↦ escapes g (B.find_buddies w.blist (R.inspect h)) b f j
      ]

  moved-safe :
      (w u : World B) (g d : ℕ) (contacts : HandleSet) (h : ℕ) (b : Buddy)
      → ((m : String) → B.find_buddies u.blist m ≡ B.find_buddies w.blist m)
      → d ≢ g
      → In h contacts
      → In b (B.find_buddies w.blist (R.inspect h))
      → let os = orphans B R fallback w.blist g [] contacts in
        (c : Buddy) × In c
          (B.find_buddies (fold (add_orphan B R fallback (some d)) u os).blist (R.inspect h))
        × (c.group ≢ g)
  moved-safe w u g d contacts h b same apart i j =
      let os = orphans B R fallback w.blist g [] contacts in
      elim (Bool-cases (is_orphan B R fallback L w.blist g h)) [
        | inl t ↦
            let k = member-In os h (member-orphans B R fallback L w.blist g [] contacts h i t) in
            let (c, l, e) = add_orphans-adds B R fallback L u d os h k in
            (c, l, λ f. apart (sym e ∙ f))
        | inr f ↦
            let (c, k, e) = escapes g (B.find_buddies w.blist (R.inspect h)) b f j in
            (
              c,
              add_orphans-keeps B R fallback L u (some d) os (R.inspect h) c
                  (rw (same (R.inspect h)) k),
              e,
            )
      ]

  -- The contact list once the fallback group is there.
  abbrev with_fallback : World B → World B
  with_fallback w =
      emits (record w { blist = (B.new_group w.blist fallback).0 }) (groups_created fallback)

  -- The three ways through the function for a group that exists.
  data Prep (w : World B) (n : String) (g : ℕ) (contacts : HandleSet) : Type 0 where
    no_orphans :
        orphans B R fallback w.blist g [] contacts ≡ []
        → prep_remove_from_group B R fallback w n contacts ≡ (w, none)
        → Prep w n g contacts
    refused :
        prep_remove_from_group B R fallback w n contacts ≡ (with_fallback w, some not_available)
        → Prep w n g contacts
    moved :
        (d : ℕ)
        → d ≢ g
        → prep_remove_from_group B R fallback w n contacts ≡ (
            let os = orphans B R fallback w.blist g [] contacts in
            (fold (add_orphan B R fallback (some d)) (with_fallback w) os, none))
        → Prep w n g contacts

  prep-Prep :
      (w : World B) (n : String) (g : ℕ) (contacts : HandleSet)
      → IsGroupName B fallback
      → B.find_group w.blist n ≡ some g
      → Prep w n g contacts
  unfolding prep_remove_from_group
  prep-Prep w n g contacts v f =
      let (d, e) = new_some w.blist fallback v in
      elim (List-cases (orphans B R fallback w.blist g [] contacts)) [
        | inl z ↦ no_orphans z (ground (arith, f, z))
        | inr (o, os, z) ↦ elim (Bool-cases (d == g)) [
          | inl t ↦ refused (ground (arith, f, z, e, t))
          | inr t ↦ moved d (λ same. ground (arith, same, t)) (ground (arith, f, z, e, t))
        ]
      ]

  prep-Prepared :
      (w : World B) (n : String) (g : ℕ) (contacts : HandleSet)
      → IsGroupName B fallback
      → B.find_group w.blist n ≡ some g
      → (prep_remove_from_group B R fallback w n contacts).1 ≡ none
      → Prepared w (prep_remove_from_group B R fallback w n contacts).0 n g contacts
  prep-Prepared w n g contacts v f e =
      let same : (m : String)
          → B.find_buddies (with_fallback w).blist m ≡ B.find_buddies w.blist m =
        λ m. new_find_buddies w.blist fallback m in
      elim (prep-Prep w n g contacts v f) [
        | no_orphans z p ↦ rw p (record {
          keeps = λ m b i. i;
          safe = λ h b i j. no_orphans-safe w g contacts h b z i j;
          still = f;
        })
        | refused p ↦ absurd (cc (rw p at e))
        | moved d apart p ↦ rw p (record {
          keeps = λ m b i.
              add_orphans-keeps B R fallback L (with_fallback w) (some d) _ m b (rw (same m) i);
          safe = λ h b i j. moved-safe w (with_fallback w) g d contacts h b same apart i j;
          still =
              add_orphans-keeps_group B R fallback L (with_fallback w) (some d) _ n g
                (new_keeps_group w.blist fallback n g f);
        })
      ]

  remove-result :
      (w : World B) (n : String) (contacts : HandleSet)
      → (remove_from_group_async B R fallback w n contacts).1
        ≡ (prep_remove_from_group B R fallback w n contacts).1
  unfolding remove_from_group_async
  remove-result w n contacts = ground arith

  -- Where the removal is refused, the buddy list has the buddies that it had.
  pub remove_from_group-refused :
      (w : World B) (n : String) (contacts : HandleSet) (e : Error) (m : String)
      → IsGroupName B fallback
      → (remove_from_group_async B R fallback w n contacts).1 ≡ some e
      → B.find_buddies (remove_from_group_async B R fallback w n contacts).0.blist m
        ≡ B.find_buddies w.blist m
  unfolding remove_from_group_async
  remove_from_group-refused w n contacts e m v f = elim (Option-cases (B.find_group w.blist n)) [
    | inl z ↦ absurd (unfold prep_remove_from_group in ground (arith, z))
    | inr (g, z) ↦ elim (prep-Prep w n g contacts v z) [
      | no_orphans _ p ↦ absurd (cc (rw p at (sym (remove-result w n contacts) ∙ f)))
      | moved d _ p ↦ absurd (cc (rw p at (sym (remove-result w n contacts) ∙ f)))
      | refused p ↦ ground (arith, p, new_find_buddies w.blist fallback m)
    ]
  ]

  remove-many :
      (w : World B) (n : String) (g : ℕ) (contacts : HandleSet)
      → IsGroupName B fallback
      → B.find_group w.blist n ≡ some g
      → (remove_from_group_async B R fallback w n contacts).1 ≡ none
      → let t = (prep_remove_from_group B R fallback w n contacts).0 in
        Prepared w t n g contacts
        × ((remove_from_group_async B R fallback w n contacts).0
            ≡ fold (drop_contact B R fallback g) t contacts)
  unfolding remove_from_group_async remove_many_from_group
  remove-many w n g contacts v f e =
      let e' = sym (remove-result w n contacts) ∙ e in
      let p = prep-Prepared w n g contacts v f e' in (p, ground (arith, e', p.still))

  -- Where the removal succeeds, none of the contacts is left in the group.
  pub remove_from_group-out :
      (w : World B) (n : String) (g : ℕ) (contacts : HandleSet) (h : ℕ) (b : Buddy)
      → IsGroupName B fallback
      → B.find_group w.blist n ≡ some g
      → (remove_from_group_async B R fallback w n contacts).1 ≡ none
      → In h contacts
      → In b
          (B.find_buddies (remove_from_group_async B R fallback w n contacts).0.blist (R.inspect h))
      → b.group ≢ g
  remove_from_group-out w n g contacts h b v f e i j =
      let (p, q) = remove-many w n g contacts v f e in
      drop_contacts-out B R fallback L _ g contacts h b i (rw q at j)

  -- Nobody is lost: where the removal succeeds, a contact of it that was on the buddy list still has a
  -- buddy there, in another group.
  pub remove_from_group-safe :
      (w : World B) (n : String) (g : ℕ) (contacts : HandleSet) (h : ℕ) (b : Buddy)
      → IsGroupName B fallback
      → B.find_group w.blist n ≡ some g
      → (remove_from_group_async B R fallback w n contacts).1 ≡ none
      → In h contacts
      → In b (B.find_buddies w.blist (R.inspect h))
      → (c : Buddy) × In c
          (B.find_buddies (remove_from_group_async B R fallback w n contacts).0.blist (R.inspect h))
        × (c.group ≢ g)
  remove_from_group-safe w n g contacts h b v f e i j =
      let (p, q) = remove-many w n g contacts v f e in
      let (c, k, other) = p.safe h b i j in
      (c, rw q (drop_contacts-keeps B R fallback L _ g contacts (R.inspect h) c k other), other)

  -- Where the removal succeeds, every buddy that is outside of the group stays.
  pub remove_from_group-keeps :
      (w : World B) (n : String) (g : ℕ) (contacts : HandleSet) (m : String) (b : Buddy)
      → IsGroupName B fallback
      → B.find_group w.blist n ≡ some g
      → (remove_from_group_async B R fallback w n contacts).1 ≡ none
      → In b (B.find_buddies w.blist m)
      → b.group ≢ g
      → In b (B.find_buddies (remove_from_group_async B R fallback w n contacts).0.blist m)
  remove_from_group-keeps w n g contacts m b v f e i other =
      let (p, q) = remove-many w n g contacts v f e in
      rw q (drop_contacts-keeps B R fallback L _ g contacts m b (p.keeps m b i) other)
