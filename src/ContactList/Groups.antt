-- ===== src/ContactList/Groups.antt =====
-- The groups of the contact list (src/contact-list.c). `none` is a failed assertion; the errors that
-- Telepathy is told of are values.
pub mod Names
pub mod Assign
pub mod Undesired
pub mod Contact
pub mod Orphans
pub mod Leaves
pub mod Removal
mod Tests
use telepathy_haze.ContactList.Roster.{drop_buddy, blist_add, emits, World}
use telepathy_haze.ContactList.State.{
  group_renamed, groups_created, groups_removed, account_add_buddy,
}
use telepathy_haze.Prelude.{
  some, String, str_eq, ◌∷◌, none, true, [], Option, ◌>>=◌, fold, map, List, ◌==◌, if◌then◌else◌, ℕ,
  Bool, false, ◌&&◌,
}
use telepathy_haze.Prelude.Sets.{HandleSet, difference, add}
use telepathy_haze.Purple.{
  buddy_node, Buddy, other_leaf, Node, Blist, Leaf, contact_node, other_node,
}
use telepathy_haze.Telepathy.{Handles}

pub data Error : Type 0 where
  not_available does_not_exist : Error

-- The group pointers of a contact's buddies: one of them is the group, all of them are.
unfoldable pub is_in : ℕ → List Buddy → Bool
is_in g [] = false
is_in g (b ∷ bs) = if b.group == g then true else is_in g bs

unfoldable pub orphaned : ℕ → List Buddy → Bool
orphaned g [] = true
orphaned g (b ∷ bs) = if b.group == g then orphaned g bs else false

abbrev pub is_group : Option ℕ → ℕ → Bool
is_group none g = false
is_group (some d) g = d == g

abbrev pub is_empty : HandleSet → Bool
is_empty [] = true
is_empty (_ ∷ _) = false

-- A name among the desired ones.
unfoldable pub desired : String → List String → Bool
desired n [] = false
desired n (m ∷ ms) = if str_eq n m then true else desired n ms

abbrev pub or_fallback : String → List String → List String
or_fallback fallback [] = fallback ∷ []
or_fallback fallback (n ∷ ns) = n ∷ ns

-- `fallback` is haze_get_fallback_group ().
module _ (B : Blist) (R : Handles) (fallback : String) where
  abbrev pub in_blist : World B → B.State → World B
  in_blist w s = record w { blist = s }

  unfoldable pub add_to_group : String → World B → ℕ → World B
  unfolding blist_add
  add_to_group n w h =
      let bname = R.inspect h in
      let r = B.new_group w.blist n in
      let w' = emits (in_blist w r.0) (groups_created n) in
      elim r.1 [
        | none ↦ w'
        | some g ↦ elim (B.find_buddy_in_group r.0 bname g) [
          | some _ ↦ w'
          | none ↦ emits (blist_add B R w' bname (some g)) (account_add_buddy bname)
        ]
      ]

  unfoldable pub add_to_group_async : World B → String → HandleSet → Option (World B)
  unfolding add_to_group fold
  add_to_group_async w n contacts =
      let r = B.new_group w.blist n in
      elim r.1 [
        | none ↦ none
        | some _ ↦ some (fold (add_to_group n) (emits (in_blist w r.0) (groups_created n)) contacts)
      ]

  -- The contacts that are in the group and in no other.
  unfoldable pub orphans : B.State → ℕ → HandleSet → HandleSet → HandleSet
  unfolding is_in orphaned add
  orphans s g found [] = found
  orphans s g found (h ∷ hs) =
      let bs = B.find_buddies s (R.inspect h) in
      orphans s g (if is_in g bs && orphaned g bs then add found h else found) hs

  unfoldable pub add_orphan : Option ℕ → World B → ℕ → World B
  unfolding blist_add
  add_orphan group w h =
      let bname = R.inspect h in emits (blist_add B R w bname group) (account_add_buddy bname)

  unfoldable pub prep_remove_from_group : World B → String → HandleSet → World B × Option Error
  unfolding orphans add_orphan fold
  prep_remove_from_group w n contacts = elim (B.find_group w.blist n) [
    | none ↦ (w, none)
    | some g ↦
        let os = orphans w.blist g [] contacts in
        let r = B.new_group w.blist fallback in
        let w' = emits (in_blist w r.0) (groups_created fallback) in
        if is_empty os
        then (w, none)
        else if is_group r.1 g
        then (w', some not_available)
        else (fold (add_orphan r.1) w' os, none)
  ]

  unfoldable pub drop_from : ℕ → World B → Buddy → World B
  unfolding drop_buddy
  drop_from g w b = if b.group == g then drop_buddy B R w b else w

  unfoldable pub drop_contact : ℕ → World B → ℕ → World B
  unfolding drop_from fold
  drop_contact g w h = fold (drop_from g) w (B.find_buddies w.blist (R.inspect h))

  unfoldable pub remove_many_from_group : World B → String → HandleSet → World B
  unfolding drop_contact fold
  remove_many_from_group w n contacts = elim (B.find_group w.blist n) [
    | none ↦ w
    | some g ↦ fold (drop_contact g) w contacts
  ]

  unfoldable pub remove_from_group_async : World B → String → HandleSet → World B × Option Error
  unfolding prep_remove_from_group remove_many_from_group
  remove_from_group_async w n contacts =
      let r = prep_remove_from_group w n contacts in
      elim r.1 [ none ↦ (remove_many_from_group r.0 n contacts, none) | some e ↦ (r.0, some e) ]

  unfoldable pub remove_from_group : World B → String → ℕ → World B × Option Error
  unfolding prep_remove_from_group remove_many_from_group
  remove_from_group w n h =
      let contacts = add [] h in
      let r = prep_remove_from_group w n contacts in
      elim r.1 [ none ↦ (remove_many_from_group r.0 n contacts, none) | some e ↦ (r.0, some e) ]

  leaf_member : HandleSet → Leaf → HandleSet
  unfolding add
  leaf_member s (buddy_node n) = let h = R.ensure n in if h == 0 then s else add s h
  leaf_member s other_leaf = s

  node_members : HandleSet → Node → HandleSet
  unfolding leaf_member fold
  node_members s (contact_node leaves) = fold leaf_member s leaves
  node_members s other_node = s

  unfoldable pub dup_group_members : World B → String → HandleSet
  unfolding node_members fold
  dup_group_members w n = elim (B.find_group w.blist n) [
    | none ↦ []
    | some g ↦ fold node_members [] (B.children w.blist g)
  ]

  unfoldable pub remove_group_async : World B → String → World B × Option Error
  unfolding dup_group_members prep_remove_from_group
  remove_group_async w n =
      let r = prep_remove_from_group w n (dup_group_members w n) in
      elim r.1 [
        | some e ↦ (r.0, some e)
        | none ↦
            let s : B.State = elim (B.find_group r.0.blist n) [
              | some g ↦ B.remove_group r.0.blist g
              | none ↦ r.0.blist
            ] in
            (emits (in_blist r.0 s) (groups_removed n), none)
      ]

  unfoldable pub set_group_members_async :
      World B → String → HandleSet → Option (World B × Option Error)
  unfolding dup_group_members prep_remove_from_group add_to_group_async remove_many_from_group
  set_group_members_async w n contacts =
      let r = B.new_group w.blist n in
      let outcasts = difference (dup_group_members w n) contacts in
      elim r.1 [
        | none ↦ none
        | some _ ↦
            let p = prep_remove_from_group (emits (in_blist w r.0) (groups_created n)) n outcasts in
            elim p.1 [
              | some e ↦ some (p.0, some e)
              | none ↦ do
                t ← add_to_group_async p.0 n contacts
                some (remove_many_from_group t n outcasts, none)
            ]
      ]

  unfoldable pub rename_group_async : World B → String → String → World B × Option Error
  rename_group_async w old_name new_name = elim (B.find_group w.blist old_name) [
    | none ↦ (w, some does_not_exist)
    | some g ↦ elim (B.find_group w.blist new_name) [
      | some _ ↦ (w, some not_available)
      | none ↦ (
        emits (in_blist w (B.rename_group w.blist g new_name)) (group_renamed old_name new_name),
        none,
      )
    ]
  ]

  -- The second loop of haze_contact_list_set_contact_groups_async.
  unfoldable pub drop_undesired : List String → World B → Buddy → World B
  unfolding desired drop_buddy
  drop_undesired names w b =
      if desired (B.group_name w.blist b.group) names then w else drop_buddy B R w b

  unfoldable pub set_contact_groups_async : World B → ℕ → List String → World B
  unfolding add_to_group drop_undesired fold
  set_contact_groups_async w h names =
      let ns = or_fallback fallback names in
      let w' = fold (λ u n. add_to_group n u h) w ns in
      fold (drop_undesired ns) w' (B.find_buddies w'.blist (R.inspect h))

  unfoldable pub dup_contact_groups : World B → ℕ → List String
  dup_contact_groups w h =
      map (λ b. B.group_name w.blist b.group) (B.find_buddies w.blist (R.inspect h))

  -- `none` for an empty name; the name of the group that libpurple takes for the same, if any.
  unfoldable pub normalize_group : World B → String → Option String
  normalize_group w s =
      let ret = B.strip_unprintables s in
      if str_eq ret "" then none else elim (B.find_group w.blist ret) [
        | none ↦ some ret
        | some g ↦
            let group_name = B.group_name w.blist g in
            if str_eq group_name ret then some ret else some group_name
      ]
