-- ===== src/ContactList/Roster/Drops.antt =====
-- src/contact-list.c: loops that take buddies off the list.
use telepathy_haze.ContactList.Roster.{World, drop_buddy}
use telepathy_haze.Prelude.{
  inl, fold, [], ◌≢◌, arith, List, ◌∙◌, ℕ, In, ◌≡◌, refl, ◌∷◌, inr, String,
}
use telepathy_haze.Purple.{IsBlist, Blist, Buddy}
use telepathy_haze.Telepathy.{Handles}

module _ (B : Blist) (R : Handles) (L : IsBlist B) where
  open L use {remove_keeps, remove_only, remove_group_name}

  pub drop-blist : (w : World B) (c : Buddy) → (drop_buddy B R w c).blist ≡ B.remove_buddy w.blist c
  unfolding drop_buddy
  drop-blist w c = ground arith

  pub drops-only :
      (w : World B) (cs : List Buddy) (m : String) (b : Buddy)
      → In b (B.find_buddies (fold (drop_buddy B R) w cs).blist m)
      → In b (B.find_buddies w.blist m) × ((c : Buddy) → In c cs → b.addr ≢ c.addr)
  unfolding fold
  drops-only w [] m b i = (i, λ c h. absurd h)
  drops-only w (x ∷ cs) m b i =
      let later = drops-only (drop_buddy B R w x) cs m b i in
      let here = remove_only w.blist m x b (rw (drop-blist w x) at later.0) in
      (here.0, λ c h. elim h [ inl e ↦ rw e here.1 | inr j ↦ later.1 c j ])

  pub drops-keeps :
      (w : World B) (cs : List Buddy) (m : String) (b : Buddy)
      → In b (B.find_buddies w.blist m)
      → ((c : Buddy) → In c cs → b.addr ≢ c.addr)
      → In b (B.find_buddies (fold (drop_buddy B R) w cs).blist m)
  unfolding fold
  drops-keeps w [] m b i f = i
  drops-keeps w (x ∷ cs) m b i f =
      drops-keeps (drop_buddy B R w x) cs m b
        (rw (drop-blist w x) (remove_keeps w.blist m x b i (f x (inl refl)))) (λ c j. f c (inr j))

  pub drops-group_name :
      (w : World B) (cs : List Buddy) (x : ℕ)
      → B.group_name (fold (drop_buddy B R) w cs).blist x ≡ B.group_name w.blist x
  unfolding fold
  drops-group_name w [] x = refl
  drops-group_name w (c ∷ cs) x =
      drops-group_name (drop_buddy B R w c) cs x
      ∙ rw (drop-blist w c) (remove_group_name w.blist c x)
