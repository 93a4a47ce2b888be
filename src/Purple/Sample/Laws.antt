-- ===== src/Purple/Sample/Laws.antt =====
-- The behaviour that src/contact-list.c relies on holds of the sample buddy list.
use telepathy_haze.Prelude.{
  Option, ◌≢◌, ℕ, String, Bool-cases, inl, arith, eq_iff, ◌<◌, List, ◌≡◌, ◌==◌, In, str_eq, ap, sym,
  refl, none, inr, ◌∙◌, ==_iff, some, Option-cases, [], ◌⊎◌, some_inj, ◌∷◌,
}
use telepathy_haze.Purple.{IsBlist, Buddy}
use telepathy_haze.Purple.Sample.{
  kill, sample_new_group, find, sample_add, name_of, first_in, kill-keeps, SampleState, first,
  above_buddies, kill-only, all-inj, In-named, above_groups, fresh, named-In, all, group_of, named,
  sample,
}

named-name : (n : String) (bs : List Buddy) (b : Buddy) → In b (named n bs) → b.name ≡ n
named-name n bs b i = (named-In n bs b i).1

named-all : (n : String) (bs : List Buddy) (b : Buddy) → In b (named n bs) → In b bs
named-all n bs b i = (named-In n bs b i).0

first_in-In :
    (g : ℕ) (bs : List Buddy) (b : Buddy) → first_in g bs ≡ some b → In b bs × (b.group ≡ g)
unfolding first_in
first_in-In g [] b e = absurd (cc e)
first_in-In g (c ∷ bs) b e = elim (Bool-cases (c.group == g)) [
  | inl t ↦
      let same : c ≡ b = some_inj (rw t at e) in
      (inl (sym same), sym (ap (λ (x : Buddy). x.group) same) ∙ (==_iff _ _).0 t)
  | inr f ↦ let j = first_in-In g bs b (rw f at e) in (inr j.0, j.1)
]

first-none : (bs : List Buddy) → first bs ≡ none → bs ≡ []
unfolding first
first-none [] e = refl
first-none (b ∷ bs) e = absurd (cc e)

-- A number that the names and the buddies do not reach.
below-groups :
    (r : List (ℕ × String)) (m : String) (x : ℕ) → group_of m r ≡ some x → x < above_groups r
unfolding group_of above_groups
below-groups [] m x e = absurd (cc e)
below-groups ((g, n) ∷ r) m x e = ground (arith, below-groups r m x)

below-buddies : (bs : List Buddy) (b : Buddy) → In b bs → b.group < above_buddies bs
unfolding above_buddies
below-buddies [] b i = absurd i
below-buddies (c ∷ bs) b (inl same) = let f = ap (λ (x : Buddy). x.group) same in omega (arith, f)
below-buddies (c ∷ bs) b (inr i) = omega (arith, below-buddies bs b i)

new-known :
    (s : SampleState) (n : String) (g : ℕ)
    → group_of n s.groups ≡ some g
    → sample_new_group s n ≡ (s, some g)
unfolding sample_new_group
new-known s n g e = rw (e, sample_new_group)

new-slots : (s : SampleState) (n : String) → (sample_new_group s n).0.slots ≡ s.slots
unfolding sample_new_group
new-slots s n = ground arith

-- What a new group does to the table.
new-groups :
    (s : SampleState) (n : String)
    → group_of n s.groups ≡ none
    → n ≢ ""
    → sample_new_group s n ≡ (record s { groups = (fresh s, n) ∷ s.groups }, some (fresh s))
unfolding sample_new_group
new-groups s n e v = ground (arith, e, eq_iff n "")

new-nothing : (s : SampleState) → group_of "" s.groups ≡ none → sample_new_group s "" ≡ (s, none)
unfolding sample_new_group
new-nothing s e = ground (arith, e, eq_iff "" "")

-- Either way, where there is no group of that name.
new-cases :
    (s : SampleState) (n : String)
    → group_of n s.groups ≡ none
    → (sample_new_group s n ≡ (s, none))
      ⊎ (sample_new_group s n ≡ (record s { groups = (fresh s, n) ∷ s.groups }, some (fresh s)))
unfolding sample_new_group
new-cases s n e = elim (Bool-cases (str_eq n "")) [
  | inl t ↦ inl (ground (arith, e, t))
  | inr f ↦ inr (ground (arith, e, f))
]

above_groups-le : (s : SampleState) (x : ℕ) → x < above_groups s.groups → x ≢ fresh s
unfolding fresh
above_groups-le s x h e = omega arith

above_buddies-le : (s : SampleState) (x : ℕ) → x < above_buddies (all s.slots) → x ≢ fresh s
unfolding fresh
above_buddies-le s x h e = omega arith

new-name :
    (s : SampleState) (n : String) (g : ℕ)
    → group_of n s.groups ≡ none
    → (sample_new_group s n).1 ≡ some g
    → name_of g (sample_new_group s n).0.groups ≡ n
unfolding name_of
new-name s n g e f = elim (new-cases s n e) [
  | inl h ↦ absurd (cc (rw h at f))
  | inr h ↦ rw h (ground (arith, some_inj (rw h at f)))
]

new-group_name :
    (s : SampleState) (n : String) (x : ℕ)
    → (sample_new_group s n).1 ≢ some x
    → name_of x (sample_new_group s n).0.groups ≡ name_of x s.groups
unfolding name_of
new-group_name s n x f = elim (Option-cases (group_of n s.groups)) [
  | inr (g, e) ↦ rw (new-known s n g e)
  | inl e ↦ elim (new-cases s n e) [
    | inl h ↦ rw h
    | inr h ↦
        let other : fresh s ≢ x = λ same. f (rw h (ap some same)) in rw h (ground (arith, other))
  ]
]

new-fresh :
    (s : SampleState) (n : String) (x : ℕ)
    → group_of n s.groups ≡ none
    → x ≢ fresh s
    → (sample_new_group s n).1 ≢ some x
new-fresh s n x e other f = elim (new-cases s n e) [
  | inl h ↦ cc (rw h at f)
  | inr h ↦ other (sym (some_inj (rw h at f)))
]

new-find_group :
    (s : SampleState) (n m : String) (x : ℕ)
    → group_of m (sample_new_group s n).0.groups ≡ some x
    → (group_of m s.groups ≡ some x) ⊎ (((sample_new_group s n).1 ≡ some x) × (n ≡ m))
unfolding group_of
new-find_group s n m x f = elim (Option-cases (group_of n s.groups)) [
  | inr (g, e) ↦ inl (rw (new-known s n g e) at f)
  | inl e ↦ elim (new-cases s n e) [
    | inl h ↦ inl (rw h at f)
    | inr h ↦ elim (Bool-cases (str_eq n m)) [
      | inl t ↦ inr (rw h (rw (h, t) at f), (eq_iff n m).0 t)
      | inr u ↦ inl (rw (h, u) at f)
    ]
  ]
]

new-keeps_group :
    (s : SampleState) (n m : String) (x : ℕ)
    → group_of m s.groups ≡ some x
    → group_of m (sample_new_group s n).0.groups ≡ some x
unfolding group_of
new-keeps_group s n m x f = elim (Option-cases (group_of n s.groups)) [
  | inr (g, e) ↦ rw (new-known s n g e) f
  | inl e ↦ elim (new-cases s n e) [
    | inl h ↦ rw h f
    | inr h ↦ rw h (ground (arith, f, e, eq_iff n m))
  ]
]

sample_add-keeps :
    (s : SampleState) (n m : String) (g : Option ℕ) (b : Buddy)
    → In b (find s.slots m)
    → In b (find (sample_add s n g).0.slots m)
unfolding sample_add find
sample_add-keeps s n m g b i =
    In-named m (all (sample_add s n g).0.slots) b
      (unfold all in inr (named-all m (all s.slots) b i)) (named-name m (all s.slots) b i)

sample_add-adds :
    (s : SampleState) (n m : String) (g : Option ℕ)
    → m ≡ n
    → In (sample_add s n g).1 (find (sample_add s n g).0.slots m)
unfolding sample_add find
sample_add-adds s n m g e =
    In-named m (all (sample_add s n g).0.slots) (sample_add s n g).1 (unfold all in inl refl)
      (sym e)

sample_add-only :
    (s : SampleState) (n m : String) (g : Option ℕ) (b : Buddy)
    → In b (find (sample_add s n g).0.slots m)
    → ((b ≡ (sample_add s n g).1) × (m ≡ n)) ⊎ In b (find s.slots m)
unfolding sample_add find all
sample_add-only s n m g b i =
    let bs = all (sample_add s n g).0.slots in
    let e = named-name m bs b i in
    elim (named-all m bs b i) [
      | inl same ↦ inl (same, sym e ∙ ap (λ (x : Buddy). x.name) same)
      | inr k ↦ inr (In-named m (all s.slots) b k e)
    ]

pub sample-IsBlist : IsBlist sample
unfolding sample_add find
sample-IsBlist = record {
  all_has = λ s n b i. named-all n (all s.slots) b i;
  all_only = λ s b i. In-named b.name (all s.slots) b i refl;
  find_name = λ s n b i. named-name n (all s.slots) b i;
  find_same = λ s n m e. ap (λ k. named k (all s.slots)) e;
  find_buddy_none = λ s n e. first-none (find s.slots n) e;
  find_buddies_nil = λ s n e. unfold first in rw e;
  in_group_sound = λ s n g b e. first_in-In g (find s.slots n) b e;
  addr_inj = λ s n m a b i j e.
      all-inj s.slots a b (named-all n (all s.slots) a i) (named-all m (all s.slots) b j) e;
  add_name = λ s n g. refl;
  add_group = λ s n g. refl;
  add_keeps = λ s n m g b i. sample_add-keeps s n m g b i;
  add_adds = λ s n m g e. sample_add-adds s n m g e;
  add_only = λ s n m g b i. sample_add-only s n m g b i;
  add_group_name = λ s n g x. refl;
  add_find_group = λ s n m g x e. inl e;
  add_keeps_group = λ s n m g x e. e;
  remove_keeps = λ s m c b i f.
      In-named m (all (kill c.addr s.slots)) b
        (kill-keeps c.addr s.slots b (named-all m (all s.slots) b i) f)
        (named-name m (all s.slots) b i);
  remove_only = λ s m c b i.
      let k = kill-only c.addr s.slots b (named-all m (all (kill c.addr s.slots)) b i) in
      (In-named m (all s.slots) b k.0 (named-name m (all (kill c.addr s.slots)) b i), k.1);
  remove_group_name = λ s c x. refl;
  new_find_buddies = λ s n m. ap (λ r. find r m) (new-slots s n);
  new_known = λ s n g e. new-known s n g e;
  new_some = λ s n v. elim (Option-cases (group_of n s.groups)) [
    | inl e ↦ (fresh s, rw (new-groups s n e v.1))
    | inr (g, e) ↦ (g, rw (new-known s n g e))
  ];
  new_name = λ s n g v e f. new-name s n g e f;
  new_group_name = λ s n x f. new-group_name s n x f;
  new_fresh = λ s n m b e i.
      new-fresh s n b.group e (
        above_buddies-le s b.group (below-buddies (all s.slots) b (named-all m (all s.slots) b i)));
  new_unfound =
      λ s n m x e f. new-fresh s n x e (above_groups-le s x (below-groups s.groups m x f));
  new_keeps_group = λ s n m x e. new-keeps_group s n m x e;
  new_find_group = λ s n m x e. new-find_group s n m x e;
}
