-- ===== src/ContactList/Groups/Assign.antt =====
-- src/contact-list.c: the first loop of haze_contact_list_set_contact_groups_async, which puts the
-- contact into its groups.
use telepathy_haze.ContactList.Groups.{add_to_group}
use telepathy_haze.ContactList.Roster.{World}
use telepathy_haze.Prelude.{
  ◌∙◌, List, ◌≢◌, refl, [], fold, ◌∷◌, sym, ◌↔◌, ◌≡◌, arith, String, In, ◌⊎◌, inl, inr, some,
  Option-cases, ℕ,
}
use telepathy_haze.Purple.{Blist, Buddy, IsBlist, IsGroupName}
use telepathy_haze.Telepathy.{Handles}
use telepathy_haze.ContactList.Groups.Names.{
  new_group-keeps_name, IsInGroup, AreGroupNames, new_group-AreGroupNames, add_buddy-AreGroupNames,
  new_group-named,
}

module _ (B : Blist) (R : Handles) (fallback : String) (L : IsBlist B) where
  open L use {
    in_group_sound, add_group, add_keeps, add_adds, add_only, add_group_name, new_find_buddies,
    new_some,
  }

  -- The two ways in which the buddy list comes out: the contact was in the group, or is new there.
  Added : B.State → String → String → B.State → Type 0
  Added s n bname t =
      (g : ℕ) × ((B.new_group s n).1 ≡ some g)
      × (((t ≡ (B.new_group s n).0)
            × ((b : Buddy) × In b (B.find_buddies (B.new_group s n).0 bname) × (b.group ≡ g)))
          ⊎ (t ≡ (B.add_buddy (B.new_group s n).0 bname (some g)).0))

  Added-keeps :
      (s t : B.State) (n bname m : String) (b : Buddy)
      → Added s n bname t
      → In b (B.find_buddies s m)
      → In b (B.find_buddies t m) × (B.group_name t b.group ≡ B.group_name s b.group)
  unfolding Added
  Added-keeps s t n bname m b (g, e, way) i =
      let u = (B.new_group s n).0 in
      let i' : In b (B.find_buddies u m) = rw (new_find_buddies s n m) i in
      let name = new_group-keeps_name B L s n m b i in
      elim way [
        | inl (same, _) ↦ (rw same i', rw same name)
        | inr same ↦ (
          rw same (add_keeps u bname m (some g) b i'),
          rw same (add_group_name u bname g b.group ∙ name),
        )
      ]

  Added-only :
      (s t : B.State) (n bname m : String) (b : Buddy)
      → Added s n bname t
      → B.normalize m ≢ B.normalize bname
      → In b (B.find_buddies t m)
      → In b (B.find_buddies s m)
  unfolding Added
  Added-only s t n bname m b (g, e, way) other i =
      let u = (B.new_group s n).0 in
      rw (← new_find_buddies s n m) (elim way [
        | inl (same, _) ↦ rw same at i
        | inr same ↦ elim (add_only u bname m (some g) b (rw same at i)) [
          | inl (_, c) ↦ absurd (other c)
          | inr old ↦ old
        ]
      ])

  Added-has :
      (s t : B.State) (ns : List String) (n bname : String)
      → AreGroupNames B s ns
      → In n ns
      → Added s n bname t
      → (b : Buddy) × In b (B.find_buddies t bname) × (B.group_name t b.group ≡ n)
  unfolding Added
  Added-has s t ns n bname v i (g, e, way) =
      let u = (B.new_group s n).0 in
      let name = new_group-named B L s ns n g v i e in
      elim way [
        | inl (same, (b, j, k)) ↦ (b, rw same j, rw (same, k) name)
        | inr same ↦
            let b = (B.add_buddy u bname (some g)).1 in
            (
              b,
              rw same (add_adds u bname bname (some g) refl),
              rw (same, add_group u bname g) (add_group_name u bname g g ∙ name),
            )
      ]

  Added-AreGroupNames :
      (s t : B.State) (ns : List String) (n bname : String)
      → AreGroupNames B s ns
      → In n ns
      → Added s n bname t
      → AreGroupNames B t ns
  unfolding Added
  Added-AreGroupNames s t ns n bname v i (g, e, way) =
      let u = new_group-AreGroupNames B L s ns n v i in
      elim way [
        | inl (same, _) ↦ rw same u
        | inr same ↦
            rw same
              (add_buddy-AreGroupNames B L _ ns n bname g u i (new_group-named B L s ns n g v i e))
      ]

  add_to_group-Added :
      (w : World B) (n : String) (h : ℕ)
      → IsGroupName B n
      → Added w.blist n (R.inspect h) (add_to_group B R fallback n w h).blist
  unfolding Added add_to_group
  add_to_group-Added w n h v =
      let (g, e) = new_some w.blist n v in
      let s = (B.new_group w.blist n).0 in
      elim (Option-cases (B.find_buddy_in_group s (R.inspect h) g)) [
        | inl f ↦ (g, e, inr (ground (arith, e, f)))
        | inr (b, f) ↦
            let (i, j) = in_group_sound s (R.inspect h) g b f in
            (g, e, inl (ground (arith, e, f), (b, i, j)))
      ]

  -- The contact's groups after the loop.
  unfoldable pub assign : World B → ℕ → List String → World B
  assign w h ns = fold (λ u n. add_to_group B R fallback n u h) w ns

  assign-keeps :
      (w : World B) (h : ℕ) (ns xs : List String) (m : String) (b : Buddy)
      → AreGroupNames B w.blist ns
      → ((x : String) → In x xs → In x ns)
      → In b (B.find_buddies w.blist m)
      → In b (B.find_buddies (assign w h xs).blist m)
        × (B.group_name (assign w h xs).blist b.group ≡ B.group_name w.blist b.group)
  unfolding assign fold
  assign-keeps w h ns [] m b v sub i = (i, refl)
  assign-keeps w h ns (x ∷ xs) m b v sub i =
      let n = R.inspect h in
      let u = add_to_group B R fallback x w h in
      let a = add_to_group-Added w x h (v.named x (sub x (inl refl))) in
      let (j, e) = Added-keeps w.blist u.blist x n m b a i in
      let v' = Added-AreGroupNames w.blist u.blist ns x n v (sub x (inl refl)) a in
      let (k, f) = assign-keeps u h ns xs m b v' (λ y o. sub y (inr o)) j in (k, f ∙ e)

  pub assign-has :
      (w : World B) (h : ℕ) (ns xs : List String) (n : String)
      → AreGroupNames B w.blist ns
      → ((x : String) → In x xs → In x ns)
      → In n xs
      → IsInGroup B R (assign w h xs) h n
  unfolding assign fold
  assign-has w h ns [] n v sub i = absurd i
  assign-has w h ns (x ∷ xs) n v sub i =
      let bn = R.inspect h in
      let u = add_to_group B R fallback x w h in
      let a = add_to_group-Added w x h (v.named x (sub x (inl refl))) in
      let v' = Added-AreGroupNames w.blist u.blist ns x bn v (sub x (inl refl)) a in
      let sub' : (y : String) → In y xs → In y ns = λ y o. sub y (inr o) in
      elim i [
        | inr j ↦ assign-has u h ns xs n v' sub' j
        | inl same ↦
            let (b, j, e) = Added-has w.blist u.blist ns x bn v (sub x (inl refl)) a in
            let (k, f) = assign-keeps u h ns xs bn b v' sub' j in (b, k, f ∙ e ∙ sym same)
      ]

  assign-only :
      (w : World B) (h : ℕ) (ns xs : List String) (m : String) (b : Buddy)
      → AreGroupNames B w.blist ns
      → ((x : String) → In x xs → In x ns)
      → B.normalize m ≢ B.normalize (R.inspect h)
      → In b (B.find_buddies (assign w h xs).blist m)
      → In b (B.find_buddies w.blist m)
  unfolding assign fold
  assign-only w h ns [] m b v sub other i = i
  assign-only w h ns (x ∷ xs) m b v sub other i =
      let n = R.inspect h in
      let u = add_to_group B R fallback x w h in
      let a = add_to_group-Added w x h (v.named x (sub x (inl refl))) in
      let v' = Added-AreGroupNames w.blist u.blist ns x n v (sub x (inl refl)) a in
      Added-only w.blist u.blist x n m b a other
        (assign-only u h ns xs m b v' (λ y o. sub y (inr o)) other i)

  -- The other contacts keep their buddies, and get no new ones.
  pub assign-others :
      (w : World B) (h : ℕ) (ns xs : List String) (m : String) (b : Buddy)
      → AreGroupNames B w.blist ns
      → ((x : String) → In x xs → In x ns)
      → B.normalize m ≢ B.normalize (R.inspect h)
      → In b (B.find_buddies (assign w h xs).blist m) ↔ In b (B.find_buddies w.blist m)
  assign-others w h ns xs m b v sub other =
      (assign-only w h ns xs m b v sub other, λ i. (assign-keeps w h ns xs m b v sub i).0)
