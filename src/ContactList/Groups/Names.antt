-- ===== src/ContactList/Groups/Names.antt =====
-- src/contact-list.c: names of groups, and what becomes of them when groups and buddies are added.
use telepathy_haze.ContactList.Groups.{desired}
use telepathy_haze.ContactList.Roster.{World}
use telepathy_haze.Prelude.{
  ◌∷◌, List, true, ◌∙◌, arith, inl, some, [], In, ℕ, String, inr, some_inj, ◌≡◌, Option-cases,
  eq_iff,
}
use telepathy_haze.Purple.{IsGroupName, Blist, IsBlist, Buddy}
use telepathy_haze.Telepathy.{Handles}

pub desired-In : (n : String) (ms : List String) → desired n ms ≡ true → In n ms
unfolding desired
desired-In n [] e = absurd (ground arith)
desired-In n (m ∷ ms) e = ground (arith, eq_iff n m, desired-In n ms)

pub In-desired : (n : String) (ms : List String) → In n ms → desired n ms ≡ true
unfolding desired
In-desired n [] i = absurd i
In-desired n (m ∷ ms) i = ground (arith, eq_iff n m, In-desired n ms)

-- Names that stand for different groups, each of them the name of its group if there is one.
pub record AreGroupNames (B : Blist) (s : B.State) (ns : List String) : Type 0 where
  pub named : (n : String) → In n ns → IsGroupName B n
  pub distinct : (n m : String) → In n ns → In m ns → B.collate n ≡ B.collate m → n ≡ m
  pub canonical : (n : String) (g : ℕ) → In n ns → B.find_group s n ≡ some g → B.group_name s g ≡ n

module _ (B : Blist) (R : Handles) where
  -- The contact has a buddy in a group of that name.
  abbrev pub IsInGroup : World B → ℕ → String → Type 0
  IsInGroup w h n =
      (b : Buddy) × In b (B.find_buddies w.blist (R.inspect h)) × (B.group_name w.blist b.group ≡ n)

module _ (B : Blist) (L : IsBlist B) where
  open L use {
    in_group_sound, addr_inj, add_group, add_keeps, add_adds, add_only, add_group_name,
    add_find_group, remove_keeps, remove_only, remove_group_name, new_find_buddies, new_known,
    new_some, new_name, new_group_name, new_fresh, new_unfound, new_find_group,
  }

  pub new_group-keeps_name :
      (s : B.State) (n m : String) (b : Buddy)
      → In b (B.find_buddies s m)
      → B.group_name (B.new_group s n).0 b.group ≡ B.group_name s b.group
  new_group-keeps_name s n m b i = elim (Option-cases (B.find_group s n)) [
    | inl f ↦ new_group_name s n b.group (new_fresh s n m b f i)
    | inr (g, f) ↦ rw (new_known s n g f)
  ]

  pub new_group-named :
      (s : B.State) (ns : List String) (n : String) (g : ℕ)
      → AreGroupNames B s ns
      → In n ns
      → (B.new_group s n).1 ≡ some g
      → B.group_name (B.new_group s n).0 g ≡ n
  new_group-named s ns n g v i e = elim (Option-cases (B.find_group s n)) [
    | inl f ↦ new_name s n g (v.named n i) f e
    | inr (x, f) ↦
        let same : x ≡ g = some_inj (rw (new_known s n x f) at e) in
        rw (new_known s n x f) (rw same at (v.canonical n x i f))
  ]

  pub new_group-AreGroupNames :
      (s : B.State) (ns : List String) (n : String)
      → AreGroupNames B s ns
      → In n ns
      → AreGroupNames B (B.new_group s n).0 ns
  new_group-AreGroupNames s ns n v i = record {
    named = v.named;
    distinct = v.distinct;
    canonical = λ m x j e. elim (Option-cases (B.find_group s n)) [
      | inr (g, f) ↦ rw (new_known s n g f) (v.canonical m x j (rw (new_known s n g f) at e))
      | inl f ↦ elim (new_find_group s n m x e) [
        | inl old ↦ new_group_name s n x (new_unfound s n m x f old) ∙ v.canonical m x j old
        | inr (fresh, same) ↦ new_name s n x (v.named n i) f fresh ∙ v.distinct n m i j same
      ]
    ];
  }

  pub add_buddy-AreGroupNames :
      (s : B.State) (ns : List String) (n bname : String) (g : ℕ)
      → AreGroupNames B s ns
      → In n ns
      → B.group_name s g ≡ n
      → AreGroupNames B (B.add_buddy s bname (some g)).0 ns
  add_buddy-AreGroupNames s ns n bname g v i e = record {
    named = v.named;
    distinct = v.distinct;
    canonical = λ m x j f. add_group_name s bname g x ∙ elim (add_find_group s bname m g x f) [
      | inl old ↦ v.canonical m x j old
      | inr (same, c) ↦ rw same (e ∙ v.distinct n m i j (rw e at c))
    ];
  }
