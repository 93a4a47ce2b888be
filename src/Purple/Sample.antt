-- ===== src/Purple/Sample.antt =====
-- A buddy list with the behaviour that src/contact-list.c relies on: buddies in slots, the newest
-- first, a slot's address being the number of slots behind it.
pub mod Laws
use telepathy_haze.Prelude.{
  sym, refl, ℕ, Option, ◌≢◌, ◌∷◌, [], inl, ◌<◌, ==_iff, ◌∙◌, arith, List, String, some, Bool-cases,
  str_eq, eq_iff, ◌+◌, none, ap, length, inr, ◌==◌, ◌⊎◌, ◌≡◌, if◌then◌else◌, In,
}
use telepathy_haze.Purple.{Buddy, Blist}

pub record Entry : Type 0 where
  pub name : String
  pub group : ℕ

pub record SampleState : Type 0 where
  pub slots : List (Option Entry)
  pub groups : List (ℕ × String)

unfoldable pub all : List (Option Entry) → List Buddy
all [] = []
all (none ∷ r) = all r
all (some e ∷ r) = record { addr = length r; name = e.name; group = e.group } ∷ all r

unfoldable pub named : String → List Buddy → List Buddy
named n [] = []
named n (b ∷ bs) = if str_eq b.name n then b ∷ named n bs else named n bs

unfoldable pub find : List (Option Entry) → String → List Buddy
unfolding all named
find r n = named n (all r)

unfoldable pub kill : ℕ → List (Option Entry) → List (Option Entry)
kill a [] = []
kill a (o ∷ r) = if length r == a then none ∷ r else o ∷ kill a r

unfoldable pub first : List Buddy → Option Buddy
first [] = none
first (b ∷ bs) = some b

unfoldable pub first_in : ℕ → List Buddy → Option Buddy
first_in g [] = none
first_in g (b ∷ bs) = if b.group == g then some b else first_in g bs

unfoldable pub group_of : String → List (ℕ × String) → Option ℕ
group_of n [] = none
group_of n ((g, m) ∷ r) = if str_eq m n then some g else group_of n r

unfoldable pub name_of : ℕ → List (ℕ × String) → String
name_of x [] = ""
name_of x ((g, m) ∷ r) = if g == x then m else name_of x r

-- Above every group that is named or that has a buddy.
unfoldable pub above_groups : List (ℕ × String) → ℕ
above_groups [] = 1
above_groups ((g, _) ∷ r) = g + 1 + above_groups r

unfoldable pub above_buddies : List Buddy → ℕ
above_buddies [] = 0
above_buddies (b ∷ bs) = b.group + 1 + above_buddies bs

unfoldable pub fresh : SampleState → ℕ
unfolding above_groups above_buddies all
fresh s = above_groups s.groups + above_buddies (all s.slots)

unfoldable pub sample_new_group : SampleState → String → SampleState × Option ℕ
unfolding group_of fresh
sample_new_group s n = elim (group_of n s.groups) [
  | some g ↦ (s, some g)
  | none ↦
      if str_eq n ""
      then (s, none)
      else (record s { groups = (fresh s, n) ∷ s.groups }, some (fresh s))
]

abbrev pub in_group : Option ℕ → ℕ
in_group none = 0
in_group (some g) = g

unfoldable pub sample_add : SampleState → String → Option ℕ → SampleState × Buddy
sample_add s n g = (
  record s { slots = some (record { name = n; group = in_group g }) ∷ s.slots },
  record { addr = length s.slots; name = n; group = in_group g },
)

abbrev pub sample : Blist
sample = record {
  State = SampleState;
  normalize = λ n. n;
  collate = λ n. n;
  strip_unprintables = λ n. n;
  find_buddies = λ s n. find s.slots n;
  all_buddies = λ s. all s.slots;
  find_buddy = λ s n. first (find s.slots n);
  find_buddy_in_group = λ s n g. first_in g (find s.slots n);
  find_group = λ s n. group_of n s.groups;
  group_name = λ s x. name_of x s.groups;
  children = λ s g. [];
  items = λ s. [];
  new_group = sample_new_group;
  add_buddy = sample_add;
  remove_buddy = λ s b. record s { slots = kill b.addr s.slots };
  remove_group = λ s g. s;
  rename_group = λ s g n. s;
}

pub named-In :
    (n : String) (bs : List Buddy) (b : Buddy) → In b (named n bs) → In b bs × (b.name ≡ n)
unfolding named
named-In n [] b i = absurd i
named-In n (c ∷ bs) b i = elim (Bool-cases (str_eq c.name n)) [
  | inl t ↦
      let e = (eq_iff c.name n).0 t in
      let split : (b ≡ c) ⊎ In b (named n bs) = rw t at i in
      elim split [
        | inl same ↦ (inl same, ap (λ (x : Buddy). x.name) same ∙ e)
        | inr j ↦ (inr (named-In n bs b j).0, (named-In n bs b j).1)
      ]
  | inr f ↦ let j = named-In n bs b (rw f at i) in (inr j.0, j.1)
]

pub In-named : (n : String) (bs : List Buddy) (b : Buddy) → In b bs → b.name ≡ n → In b (named n bs)
unfolding named
In-named n [] b i e = absurd i
In-named n (c ∷ bs) b (inl same) e =
    let t = (eq_iff c.name n).1 (ap (λ (x : Buddy). x.name) (sym same) ∙ e) in rw t (inl same)
In-named n (c ∷ bs) b (inr i) e = ground (arith, In-named n bs b i e)

pub all-below : (r : List (Option Entry)) (b : Buddy) → In b (all r) → b.addr < length r
unfolding all
all-below [] b i = absurd i
all-below (none ∷ r) b i = omega (arith, all-below r b i)
all-below (some e ∷ r) b (inl same) = let f = ap (λ (x : Buddy). x.addr) same in omega (arith, f)
all-below (some e ∷ r) b (inr i) = omega (arith, all-below r b i)

pub all-inj :
    (r : List (Option Entry)) (a b : Buddy) → In a (all r) → In b (all r) → a.addr ≡ b.addr → a ≡ b
unfolding all
all-inj [] a b i j e = absurd i
all-inj (none ∷ r) a b i j e = all-inj r a b i j e
all-inj (some x ∷ r) a b (inl p) (inl q) e = p ∙ sym q
all-inj (some x ∷ r) a b (inl p) (inr j) e =
    let f = ap (λ (y : Buddy). y.addr) p in absurd (omega (arith, f, all-below r b j))
all-inj (some x ∷ r) a b (inr i) (inl q) e =
    let f = ap (λ (y : Buddy). y.addr) q in absurd (omega (arith, f, all-below r a i))
all-inj (some x ∷ r) a b (inr i) (inr j) e = all-inj r a b i j e

pub length-kill : (a : ℕ) (r : List (Option Entry)) → length (kill a r) ≡ length r
unfolding kill
length-kill a [] = refl
length-kill a (o ∷ r) = ground (arith, length-kill a r)

pub kill-only :
    (a : ℕ) (r : List (Option Entry)) (b : Buddy)
    → In b (all (kill a r))
    → In b (all r) × (b.addr ≢ a)
unfolding kill all
kill-only a [] b i = absurd i
kill-only a (none ∷ r) b i = elim (Bool-cases (length r == a)) [
  | inl t ↦ let j : In b (all r) = rw t at i in (j, λ e. ground (arith, t, e, all-below r b j))
  | inr f ↦ kill-only a r b (rw f at i)
]
kill-only a (some e ∷ r) b i = elim (Bool-cases (length r == a)) [
  | inl t ↦ let j : In b (all r) = rw t at i in (inr j, λ e. ground (arith, t, e, all-below r b j))
  | inr f ↦
      let split : (b ≡ record { addr = length (kill a r); name = e.name; group = e.group })
          ⊎ In b (all (kill a r)) =
        rw f at i in
      elim split [
        | inl same ↦
            let g = ap (λ (x : Buddy). x.addr) same in
            (inl (rw (length-kill a r) at same), λ h. ground (arith, f, g, h, length-kill a r))
        | inr j ↦ let k = kill-only a r b j in (inr k.0, k.1)
      ]
]

pub kill-keeps :
    (a : ℕ) (r : List (Option Entry)) (b : Buddy)
    → In b (all r)
    → b.addr ≢ a
    → In b (all (kill a r))
unfolding kill all
kill-keeps a [] b i f = absurd i
kill-keeps a (none ∷ r) b i f = elim (Bool-cases (length r == a)) [
  | inl t ↦ rw t i
  | inr u ↦ rw u (kill-keeps a r b i f)
]
kill-keeps a (some e ∷ r) b (inl same) f =
    let g = ap (λ (x : Buddy). x.addr) same in
    elim (Bool-cases (length r == a)) [
      | inl t ↦ absurd (f (g ∙ (==_iff _ _).0 t))
      | inr u ↦ rw u (inl (rw (length-kill a r) same))
    ]
kill-keeps a (some e ∷ r) b (inr i) f = elim (Bool-cases (length r == a)) [
  | inl t ↦ rw t i
  | inr u ↦ rw u (inr (kill-keeps a r b i f))
]
