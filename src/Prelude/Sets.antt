-- ===== src/Prelude/Sets.antt =====
-- Sets of handles (TpHandleSet): the members without repetition, in the order of iteration.
use mathlib.Core.Path.{◌≡◌}
use mathlib.Core.Bool.{Bool, true, false}
use mathlib.Core.List.{List, [], ◌∷◌}
use Prim.Native.Nat.{ℕ}
use native.Mathlib.Omega.{arith}
use telepathy_haze.Prelude.Tests.{if◌then◌else◌, ◌==◌}
use telepathy_haze.Prelude.Lists.{In}

abbrev pub HandleSet : Type 0
HandleSet = List ℕ

unfoldable pub member : HandleSet → ℕ → Bool
member [] k = false
member (h ∷ s) k = if h == k then true else member s k

unfoldable pub add : HandleSet → ℕ → HandleSet
unfolding member
add s h = if member s h then s else h ∷ s

unfoldable pub remove : HandleSet → ℕ → HandleSet
remove [] k = []
remove (h ∷ s) k = if h == k then remove s k else h ∷ remove s k

-- The members of the first set that are not in the second.
unfoldable pub difference : HandleSet → HandleSet → HandleSet
unfolding member
difference [] t = []
difference (h ∷ s) t = if member t h then difference s t else h ∷ difference s t

pub member-add :
    (s : HandleSet) (h k : ℕ) → member (add s h) k ≡ (if h == k then true else member s k)
unfolding add member
member-add s h k = ground arith

pub member-remove :
    (s : HandleSet) (h k : ℕ) → member (remove s h) k ≡ (if h == k then false else member s k)
unfolding remove member
member-remove [] h k = ground arith
member-remove (x ∷ s) h k = ground (arith, member-remove s h k)

pub member-difference :
    (s t : HandleSet) (k : ℕ)
    → member (difference s t) k ≡ (if member t k then false else member s k)
unfolding difference member
member-difference [] t k = ground arith
member-difference (x ∷ s) t k = ground (arith, member-difference s t k)

-- Iteration visits the members and nothing else.
pub member-In : (s : HandleSet) (k : ℕ) → member s k ≡ true → In k s
unfolding member
member-In [] k h = ground arith
member-In (x ∷ s) k h = ground (arith, member-In s k)

pub In-member : (s : HandleSet) (k : ℕ) → In k s → member s k ≡ true
unfolding member
In-member [] k h = absurd h
In-member (x ∷ s) k h = ground (arith, In-member s k)
