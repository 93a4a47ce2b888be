-- ===== src/ContactList/Groups/Orphans.antt =====
-- src/contact-list.c: haze_contact_list_prep_remove_from_group, which finds the contacts that would
-- be left without a group and puts them into the fallback group.
use telepathy_haze.ContactList.Groups.{orphans, add_orphan, is_in, orphaned}
use telepathy_haze.ContactList.Roster.{World}
use telepathy_haze.Prelude.{
  if◌then◌else◌, sym, ◌∙◌, ℕ, fold, List, ◌≢◌, refl, In, arith, inr, inl, ◌≡◌, Option, Bool, String,
  [], ap, some, ◌&&◌, ◌∷◌, Bool-cases, false, true, ◌==◌,
}
use telepathy_haze.Prelude.Sets.{add, member, HandleSet, member-add}
use telepathy_haze.Purple.{Blist, IsBlist, Buddy}
use telepathy_haze.Telepathy.{Handles}

-- A contact that is no orphan has a buddy outside of the group, if it has any.
not-is_in : (g : ℕ) (bs : List Buddy) (b : Buddy) → is_in g bs ≡ false → In b bs → b.group ≢ g
unfolding is_in
not-is_in g [] b e i = absurd i
not-is_in g (c ∷ bs) b e (inl same) = let f = ap (λ (x : Buddy). x.group) same in ground (arith, f)
not-is_in g (c ∷ bs) b e (inr i) = ground (arith, not-is_in g bs b)

not-orphaned :
    (g : ℕ) (bs : List Buddy) → orphaned g bs ≡ false → (c : Buddy) × In c bs × (c.group ≢ g)
unfolding orphaned
not-orphaned g [] e = absurd (cc e)
not-orphaned g (b ∷ bs) e = elim (Bool-cases (b.group == g)) [
  | inl f ↦ let (c, i, other) = not-orphaned g bs (ground (arith, f)) in (c, inr i, other)
  | inr f ↦ (b, inl refl, λ same. ground (arith, f, same))
]

pub escapes :
    (g : ℕ) (bs : List Buddy) (b : Buddy)
    → (is_in g bs && orphaned g bs) ≡ false
    → In b bs
    → (c : Buddy) × In c bs × (c.group ≢ g)
escapes g bs b e i = elim (Bool-cases (is_in g bs)) [
  | inl f ↦ not-orphaned g bs (ground (arith, f))
  | inr f ↦ (b, i, not-is_in g bs b f i)
]

module _ (B : Blist) (R : Handles) (fallback : String) (L : IsBlist B) where
  open L use {
    add_group, add_keeps, add_adds, add_keeps_group, new_find_buddies, new_some, new_keeps_group,
  }

  abbrev pub is_orphan : B.State → ℕ → ℕ → Bool
  is_orphan s g h = let bs = B.find_buddies s (R.inspect h) in is_in g bs && orphaned g bs

  abbrev found_with : B.State → ℕ → HandleSet → ℕ → HandleSet
  found_with s g found k = if is_orphan s g k then add found k else found

  orphans-keeps :
      (s : B.State) (g : ℕ) (found hs : HandleSet) (h : ℕ)
      → member found h ≡ true
      → member (orphans B R fallback s g found hs) h ≡ true
  unfolding orphans
  orphans-keeps s g found [] h e = e
  orphans-keeps s g found (k ∷ hs) h e =
      orphans-keeps s g (found_with s g found k) hs h (ground (arith, member-add found k h))

  pub member-orphans :
      (s : B.State) (g : ℕ) (found hs : HandleSet) (h : ℕ)
      → In h hs
      → is_orphan s g h ≡ true
      → member (orphans B R fallback s g found hs) h ≡ true
  unfolding orphans
  member-orphans s g found [] h i e = absurd i
  member-orphans s g found (k ∷ hs) h (inr i) e =
      member-orphans s g (found_with s g found k) hs h i e
  member-orphans s g found (k ∷ hs) h (inl same) e =
      let e' : is_orphan s g k ≡ true = ap (is_orphan s g) (sym same) ∙ e in
      orphans-keeps s g (found_with s g found k) hs h (ground (arith, e', member-add found k h))

  pub add_orphans-keeps :
      (w : World B) (d : Option ℕ) (os : HandleSet) (m : String) (b : Buddy)
      → In b (B.find_buddies w.blist m)
      → In b (B.find_buddies (fold (add_orphan B R fallback d) w os).blist m)
  unfolding fold add_orphan
  add_orphans-keeps w d [] m b i = i
  add_orphans-keeps w d (h ∷ os) m b i =
      add_orphans-keeps (add_orphan B R fallback d w h) d os m b
        (add_keeps w.blist (R.inspect h) m d b i)

  pub add_orphans-keeps_group :
      (w : World B) (d : Option ℕ) (os : HandleSet) (n : String) (g : ℕ)
      → B.find_group w.blist n ≡ some g
      → B.find_group (fold (add_orphan B R fallback d) w os).blist n ≡ some g
  unfolding fold add_orphan
  add_orphans-keeps_group w d [] n g e = e
  add_orphans-keeps_group w d (h ∷ os) n g e =
      add_orphans-keeps_group (add_orphan B R fallback d w h) d os n g
        (add_keeps_group w.blist (R.inspect h) n d g e)

  pub add_orphans-adds :
      (w : World B) (d : ℕ) (os : HandleSet) (h : ℕ)
      → In h os
      → (b : Buddy) × In b
          (B.find_buddies (fold (add_orphan B R fallback (some d)) w os).blist (R.inspect h))
        × (b.group ≡ d)
  unfolding fold add_orphan
  add_orphans-adds w d [] h i = absurd i
  add_orphans-adds w d (k ∷ os) h (inr i) =
      add_orphans-adds (add_orphan B R fallback (some d) w k) d os h i
  add_orphans-adds w d (k ∷ os) h (inl same) =
      let n = R.inspect k in
      let b = (B.add_buddy w.blist n (some d)).1 in
      (
        b,
        rw same (
            add_orphans-keeps (add_orphan B R fallback (some d) w k) (some d) os n b
              (add_adds w.blist n n (some d) refl)),
        add_group w.blist n d,
      )
