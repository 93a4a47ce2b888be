-- ===== src/ContactList/Groups/Undesired.antt =====
-- src/contact-list.c: the second loop of haze_contact_list_set_contact_groups_async, which takes the
-- contact out of the groups that are not desired.
use telepathy_haze.ContactList.Groups.{desired, drop_undesired}
use telepathy_haze.ContactList.Roster.{World}
use telepathy_haze.ContactList.Roster.Drops.{drop-blist}
use telepathy_haze.Prelude.{
  Bool, [], ◌∷◌, fold, String, inl, List, In, ◌≢◌, ◌≡◌, arith, if◌then◌else◌, refl, true, ℕ, inr,
  Bool-cases, ap, false, ◌∙◌,
}
use telepathy_haze.Purple.{Buddy, Blist, IsBlist}
use telepathy_haze.Telepathy.{Handles}

module _ (B : Blist) (R : Handles) (fallback : String) (L : IsBlist B) where
  open L use {addr_inj, find_name, remove_group_name, remove_keeps, remove_only}

  abbrev pub wanted : B.State → List String → Buddy → Bool
  wanted s ns b = desired (B.group_name s b.group) ns

  drop_undesired-blist :
      (w : World B) (ns : List String) (c : Buddy)
      → (drop_undesired B R fallback ns w c).blist
        ≡ (if wanted w.blist ns c then w.blist else B.remove_buddy w.blist c)
  unfolding drop_undesired
  drop_undesired-blist w ns c = ground (arith, drop-blist B R L w c)

  unfoldable pub prune : World B → List String → List Buddy → World B
  prune w ns cs = fold (drop_undesired B R fallback ns) w cs

  pub prune-group_name :
      (w : World B) (ns : List String) (cs : List Buddy) (x : ℕ)
      → B.group_name (prune w ns cs).blist x ≡ B.group_name w.blist x
  unfolding prune fold
  prune-group_name w ns [] x = refl
  prune-group_name w ns (c ∷ cs) x =
      let u = drop_undesired B R fallback ns w c in
      prune-group_name u ns cs x
      ∙ ground (arith, drop_undesired-blist w ns c, remove_group_name w.blist c x)

  pub prune-only :
      (w : World B) (ns : List String) (cs : List Buddy) (m : String) (b : Buddy)
      → In b (B.find_buddies (prune w ns cs).blist m)
      → In b (B.find_buddies w.blist m)
  unfolding prune fold
  prune-only w ns [] m b i = i
  prune-only w ns (c ∷ cs) m b i =
      let u = drop_undesired B R fallback ns w c in
      let e = drop_undesired-blist w ns c in
      let j = prune-only u ns cs m b i in
      elim (Bool-cases (wanted w.blist ns c)) [
        | inl t ↦ rw (e, t) at j
        | inr f ↦ (remove_only w.blist m c b (rw (e, f) at j)).0
      ]

  -- What is undesired is gone.
  pub prune-wanted :
      (w : World B) (ns : List String) (cs : List Buddy) (m : String) (b : Buddy)
      → In b (B.find_buddies (prune w ns cs).blist m)
      → In b cs
      → wanted w.blist ns b ≡ true
  unfolding prune fold
  prune-wanted w ns [] m b i j = absurd j
  prune-wanted w ns (c ∷ cs) m b i j =
      let u = drop_undesired B R fallback ns w c in
      let e = drop_undesired-blist w ns c in
      let k = prune-only u ns cs m b i in
      elim j [
        | inl same ↦ elim (Bool-cases (wanted w.blist ns c)) [
          | inl t ↦ rw same t
          | inr f ↦
              absurd
                ((remove_only w.blist m c b (rw (e, f) at k)).1 (ap (λ (x : Buddy). x.addr) same))
        ]
        | inr l ↦
            let t = prune-wanted u ns cs m b i l in
            ground (arith, t, e, remove_group_name w.blist c b.group)
      ]

  -- What is desired stays, and so does every other buddy of the list.
  pub prune-keeps :
      (w : World B) (ns : List String) (cs : List Buddy) (m : String) (b : Buddy)
      → In b (B.find_buddies w.blist m)
      → ((c : Buddy) → In c cs → wanted w.blist ns c ≡ false → b.addr ≢ c.addr)
      → In b (B.find_buddies (prune w ns cs).blist m)
  unfolding prune fold
  prune-keeps w ns [] m b i f = i
  prune-keeps w ns (c ∷ cs) m b i f =
      let u = drop_undesired B R fallback ns w c in
      let e = drop_undesired-blist w ns c in
      let i' : In b (B.find_buddies u.blist m) = elim (Bool-cases (wanted w.blist ns c)) [
        | inl t ↦ rw (e, t) i
        | inr g ↦ rw (e, g) (remove_keeps w.blist m c b i (f c (inl refl) g))
      ] in
      prune-keeps u ns cs m b i'
        (λ x j g. f x (inr j) (ground (arith, g, e, remove_group_name w.blist c x.group)))
