-- ===== src/Capabilities/Clients.antt =====
-- src/connection-capabilities.c: the capabilities that libpurple is told are those of the clients.
use telepathy_haze.Prelude.Bits.{has, bit_or, has-one_or, has_four_or}
use telepathy_haze.Capabilities.{Caps, Signal, ClientClass}
use telepathy_haze.Capabilities.Updates.{
  update_capabilities, emit_capabilities_changed, update_clients, add_client_caps, get_elem?,
  client_flags, class_flags,
}
use telepathy_haze.Prelude.{
  subst, ◌↔◌, zero, List, Option-cases, inr, str_eq, ltb, Bool-cases, if◌then◌else◌, ◌∷◌, refl, inl,
  suc, ◌≡◌, is_some, Bool, true, [], length, bind_inv, ◌==◌, ◌&&◌, some, ℕ, ◌||◌, false, arith,
  fold, String,
}
use telepathy_haze.Prelude.Names.{find-drop, drop, find, find-put, put}
use telepathy_haze.Telepathy.{Handles}

-- A client of the table has the flag.
unfoldable pub any_client : ℕ → List (String × ℕ) → Bool
any_client flag [] = false
any_client flag ((_, flags) ∷ t) = has flags flag || any_client flag t

has-add_client_caps :
    (caps : ℕ) (p : String × ℕ)
    → (has (add_client_caps caps p) 1 ≡ (has caps 1 || has p.1 1))
      × (has (add_client_caps caps p) 4 ≡ (has caps 4 || has p.1 2))
unfolding add_client_caps
has-add_client_caps caps p =
    let audio = has-one_or caps 1 in
    let video = has_four_or caps 1 in
    let audio4 = has-one_or (bit_or caps 1) 4 in
    let video4 = has_four_or (bit_or caps 1) 4 in
    let alone = has-one_or caps 4 in
    let alone4 = has_four_or caps 4 in
    elim (Bool-cases (has p.1 1)) [
      | inl a ↦ (ground (arith, a, audio, audio4), ground (arith, a, video, video4))
      | inr a ↦ (ground (arith, a, alone), ground (arith, a, alone4))
    ]

has-fold_client_caps :
    (caps : ℕ) (t : List (String × ℕ))
    → (has (fold add_client_caps caps t) 1 ≡ (has caps 1 || any_client 1 t))
      × (has (fold add_client_caps caps t) 4 ≡ (has caps 4 || any_client 2 t))
unfolding fold any_client
has-fold_client_caps caps [] = (ground arith, ground arith)
has-fold_client_caps caps (p ∷ t) =
    let rest = has-fold_client_caps (add_client_caps caps p) t in
    let here = has-add_client_caps caps p in
    (ground (arith, rest.0, here.0), ground (arith, rest.1, here.1))

-- The client at each index has no classes, or one at its own index.
unfoldable pub in_bounds : ℕ → List (String × List ClientClass) → Bool
in_bounds i [] = true
in_bounds i ((_, []) ∷ clients) = in_bounds (suc i) clients
in_bounds i ((_, rccs) ∷ clients) = ltb i (length rccs) && in_bounds (suc i) clients

-- The client is not among those of the call.
unfoldable pub is_named : String → List (String × List ClientClass) → Bool
is_named n [] = false
is_named n ((m, _) ∷ clients) = str_eq m n || is_named n clients

in_range : {A : Type 0} (xs : List A) (i : ℕ) → is_some (get_elem? xs i) ≡ ltb i (length xs)
unfolding get_elem?
in_range [] zero = refl
in_range [] (suc i) = ground arith
in_range (x ∷ xs) zero = ground arith
in_range (x ∷ xs) (suc i) = ground (arith, in_range xs i)

flags_total :
    (i : ℕ) (rccs : List ClientClass) (left flags : ℕ) (c : ClientClass)
    → get_elem? rccs i ≡ some c
    → is_some (client_flags i rccs left flags) ≡ true
unfolding client_flags
flags_total i rccs zero flags c e = refl
flags_total i rccs (suc left) flags c e =
    ground (arith, e, flags_total i rccs left (class_flags flags c) c e)

client_total :
    (i : ℕ) (n : String) (rccs : List ClientClass) (rest : List (String × List ClientClass))
    → in_bounds i ((n, rccs) ∷ rest)
      ≡ (is_some (client_flags i rccs (length rccs) 0) && in_bounds (suc i) rest)
unfolding in_bounds client_flags
client_total i n [] rest = refl
client_total i n (r ∷ rccs) rest = elim (Option-cases (get_elem? (r ∷ rccs) i)) [
  | inl e ↦ ground (arith, e, in_range (r ∷ rccs) i)
  | inr (c, e) ↦ ground (
    arith,
    e,
    in_range (r ∷ rccs) i,
    flags_total i (r ∷ rccs) (length rccs) (class_flags 0 c) c e,
  )
]

clients_total :
    (i : ℕ) (t : List (String × ℕ)) (clients : List (String × List ClientClass))
    → is_some (update_clients i t clients) ≡ in_bounds i clients
unfolding update_clients in_bounds
clients_total i t [] = refl
clients_total i t ((n, rccs) ∷ clients) =
    elim (Option-cases (client_flags i rccs (length rccs) 0)) [
      | inl e ↦ ground (arith, e, client_total i n rccs clients)
      | inr (f, e) ↦
          let next = if f == 0 then drop n t else put n f (drop n t) in
          ground (arith, e, client_total i n rccs clients, clients_total (suc i) next clients)
    ]

clients_others :
    (i : ℕ) (t u : List (String × ℕ)) (clients : List (String × List ClientClass)) (n : String)
    → update_clients i t clients ≡ some u
    → is_named n clients ≡ false
    → find n u ≡ find n t
unfolding update_clients is_named
clients_others i t u [] n e x = ground (arith, e)
clients_others i t u ((m, rccs) ∷ clients) n e x =
    let (f, q, r) = bind_inv (client_flags i rccs (length rccs) 0) _ e in
    let next = if f == 0 then drop m t else put m f (drop m t) in
    let rest = clients_others (suc i) next u clients n r (ground (arith, x)) in
    ground (arith, rest, x, find-drop m n t, find-put m n f (drop m t))

class_flags_twice : (c : ClientClass) → class_flags (class_flags 0 c) c ≡ class_flags 0 c
unfolding class_flags
class_flags_twice c = elim (Option-cases c.client_type) [
  | inl e ↦ ground (arith, e)
  | inr (t, e) ↦ elim (Bool-cases c.handles_audio) [
    | inl a ↦ ground (arith, e, a)
    | inr a ↦ ground (arith, e, a)
  ]
]

first_only :
    (c : ClientClass) (cs : List ClientClass) (left : ℕ)
    → client_flags 0 (c ∷ cs) left (class_flags 0 c) ≡ some (class_flags 0 c)
unfolding client_flags get_elem?
first_only c cs zero = refl
first_only c cs (suc left) = ground (arith, class_flags_twice c, first_only c cs left)

module _ (R : Handles) (media_caps : String → ℕ) (self_handle : ℕ) where
  abbrev pub IsUpdateOf : Caps → List (String × List ClientClass) → Caps × List Signal → Type 0
  IsUpdateOf C clients (D, out) =
      (has D.ui_caps 1 ≡ any_client 1 D.client_caps)
      × (has D.ui_caps 4 ≡ any_client 2 D.client_caps)
      × ((n : String) → is_named n clients ≡ false → find n D.client_caps ≡ find n C.client_caps)
      × ((out ≡ []) ↔ (C.ui_caps ≡ D.ui_caps))

  -- UpdateCapabilities on a connection that is connected reads no class out of bounds exactly if
  -- each client, of those that have classes at all, has more of them than there are clients before it. Then
  -- libpurple is told of audio exactly if a client of the table has the flag of audio, likewise video;
  -- a client that was not in the call has the flags it had; and a
  -- signal is emitted exactly if what libpurple is told has changed.
  pub update_capabilities_lem :
      (C : Caps) (clients : List (String × List ClientClass))
      → (is_some (update_capabilities R media_caps self_handle true C clients)
          ≡ in_bounds 0 clients)
        × ((r : Caps × List Signal)
            → update_capabilities R media_caps self_handle true C clients ≡ some (inl r)
            → IsUpdateOf C clients r)
  unfolding update_capabilities emit_capabilities_changed
  update_capabilities_lem C clients = (
    elim (Option-cases (update_clients 0 C.client_caps clients)) [
      | inl e ↦ ground (arith, e, clients_total 0 C.client_caps clients)
      | inr (t, e) ↦ ground (arith, e, clients_total 0 C.client_caps clients)
    ],
    λ r e.
        let (t, q, f) = bind_inv (update_clients 0 C.client_caps clients) _ e in
        let caps = has-fold_client_caps 0 t in
        let D : Caps = record { ui_caps = fold add_client_caps 0 t; client_caps = t } in
        let out =
          emit_capabilities_changed R media_caps self_handle D self_handle C.ui_caps D.ui_caps in
        subst (IsUpdateOf C clients) {x = (D, out)} {y = r} (cc) (
          ground (arith, caps.0),
          ground (arith, caps.1),
          λ n x. clients_others 0 C.client_caps t clients n q x,
          ground arith,
        ),
  )

  -- Of the classes of a client that is alone in the call only the first counts.
  pub update-first_only :
      (is_connected : Bool) (C : Caps) (n : String) (c : ClientClass) (cs : List ClientClass)
      → update_capabilities R media_caps self_handle is_connected C ((n, c ∷ cs) ∷ [])
        ≡ update_capabilities R media_caps self_handle is_connected C ((n, c ∷ []) ∷ [])
  unfolding update_capabilities update_clients client_flags get_elem?
  update-first_only k C n c cs = ground (arith, first_only c cs (length cs))
