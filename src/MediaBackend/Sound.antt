-- ===== src/MediaBackend/Sound.antt =====
-- src/media-backend.c: what is counted of one identifier of streams.
use telepathy_haze.Prelude.{
  inr, false, ◌⊎◌, arith, inl, Bool, subst, ◌≡◌, true, ◌+◌, ◌≤◌, refl, suc, ℕ,
}

-- With the next identifier, whether the handler is ready, the number of streams that have an
-- identifier, and the number of their announcements.
abbrev pub IsSound : ℕ → ℕ → Bool → ℕ → ℕ → Type 0
IsSound i next is_ready t a =
    (next ≤ i → (t ≡ 0) × (a ≡ 0))
    × (t ≤ 1)
    × (is_ready ≡ false → a ≡ 0)
    × (is_ready ≡ true → (a ≤ 1) × (t ≤ a))

pub fewer-IsSound :
    (i next : ℕ) (r : Bool) (t u a : ℕ) → u ≤ t → IsSound i next r t a → IsSound i next r u a
fewer-IsSound i next r t u a l (p, q, n, y) = (
  λ h. (let (x, z) = p h in omega arith, (p h).1),
  omega arith,
  n,
  λ h. ((y h).0, let (x, z) = y h in omega arith),
)

-- All the streams are announced, or another one is there.
pub ready-IsSound :
    (i next t a b : ℕ) → b ≡ t + a → IsSound i next false t a → IsSound i next true t b
ready-IsSound i next t a b e (p, q, n, y) =
    let z = n refl in
    (
      λ h. ((p h).0, let (u, v) = p h in omega arith),
      q,
      λ f. absurd cc,
      λ f. (omega arith, omega arith),
    )

-- The new stream has the identifier or not.
abbrev pub IsOne : ℕ → ℕ → ℕ → Type 0
IsOne i next k = (k ≡ 0) ⊎ ((k ≡ 1) × (next ≡ i))

pub added-IsSound :
    (i next k t a : ℕ)
    → IsOne i next k
    → IsSound i next false t a
    → IsSound i (suc next) false (t + k) a
added-IsSound i next k t a (inl e) (p, q, n, y) =
    (λ h. (let (u, v) = p (omega arith) in omega arith, n refl), omega arith, n, λ f. absurd cc)
added-IsSound i next k t a (inr (e, d)) (p, q, n, y) =
    let (u, v) = p (omega arith) in (λ h. absurd (omega arith), omega arith, n, λ f. absurd cc)

pub announced-IsSound :
    (i next k t a : ℕ)
    → IsOne i next k
    → IsSound i next true t a
    → IsSound i (suc next) true (t + k) (k + a)
announced-IsSound i next k t a (inl e) (p, q, n, y) =
    let (u, v) = y refl in
    (
      λ h. (
        let (u, v) = p (omega arith) in omega arith,
        let (u, v) = p (omega arith) in omega arith,
      ),
      omega arith,
      λ f. absurd cc,
      λ f. (omega arith, omega arith),
    )
announced-IsSound i next k t a (inr (e, d)) (p, q, n, y) =
    let (u, v) = p (omega arith) in
    (λ h. absurd (omega arith), omega arith, λ f. absurd cc, λ f. (omega arith, omega arith))

pub move-IsSound :
    (i n m : ℕ) (r q : Bool) (t u a b : ℕ)
    → n ≡ m
    → r ≡ q
    → t ≡ u
    → a ≡ b
    → IsSound i n r t a
    → IsSound i m q u b
move-IsSound i n m r q t u a b e f g h = subst (λ v. v) (λ k. IsSound i (e k) (f k) (g k) (h k))
