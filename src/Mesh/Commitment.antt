-- ===== src/Mesh/Commitment.antt =====
-- The Merkle root commits to the leaves and to their order.
use fallow.Prelude.{
  ℕ, zero, suc, some, String, List, [], ◌∷◌, ◌++◌, ◌≡◌, ◌⊎◌, inl, inr, refl, sym, ap, ◌∙◌, arith,
  map, length, All, length-map,
}
use fallow.Prelude.Eq.{ℕ_eq}
use fallow.Mesh.Store.{Bytes}
use fallow.Mesh.Merkle.{leaf, node, pair_up, climb, merkle_root}
use fallow.Mesh.Levels.{
  Collision, append-split, map-some, length-pair_up_same, digest_cases, leaves_cases,
}

module _ (sha256 : Bytes → Bytes) (fromhex : String → Bytes) (hex : Bytes → String) (size : ℕ)
    (sized : (b : Bytes) → length (sha256 b) ≡ size) where
  abbrev Sized : List Bytes → Type 0
  Sized xs = All (λ d. length d ≡ size) xs

  node_cases :
      (a b c d : Bytes)
      → length a ≡ size
      → length c ≡ size
      → node sha256 fromhex hex a b ≡ node sha256 fromhex hex c d
      → ((a ≡ c) × (b ≡ d)) ⊎ Collision sha256
  unfolding node
  node_cases a b c d h k e = elim (digest_cases sha256 (1 ∷ a ++ b) (1 ∷ c ++ d) e) [
    | inr x ↦ inr x
    | inl q ↦ inl (append-split a b c d (h ∙ sym k) (ground (arith, q)))
  ]

  Sized-pair_up : (xs : List Bytes) → Sized xs → Sized (pair_up sha256 fromhex hex xs)
  unfolding pair_up node
  Sized-pair_up [] h = tt
  Sized-pair_up (x ∷ []) h = h
  Sized-pair_up (x ∷ y ∷ rest) h = (sized _, Sized-pair_up rest h.1.1)

  pair_up_cases :
      (xs ys : List Bytes)
      → length xs ≡ length ys
      → Sized xs
      → Sized ys
      → pair_up sha256 fromhex hex xs ≡ pair_up sha256 fromhex hex ys
      → (xs ≡ ys) ⊎ Collision sha256
  unfolding pair_up
  pair_up_cases [] [] h s t e = inl refl
  pair_up_cases [] (y ∷ ys) h s t e = absurd (omega (arith, h))
  pair_up_cases (x ∷ xs) [] h s t e = absurd (omega (arith, h))
  pair_up_cases (x ∷ []) (y ∷ []) h s t e = inl e
  pair_up_cases (x ∷ []) (y ∷ z ∷ ys) h s t e = absurd (omega (arith, h))
  pair_up_cases (x ∷ z ∷ xs) (y ∷ []) h s t e = absurd (omega (arith, h))
  pair_up_cases (x ∷ w ∷ xs) (y ∷ z ∷ ys) h s t e =
      elim (node_cases x w y z s.0 t.0 (ground (arith, e))) [
        | inr c ↦ inr c
        | inl q ↦ elim (pair_up_cases xs ys (omega (arith, h)) s.1.1 t.1.1 (ground (arith, e))) [
          | inr c ↦ inr c
          | inl r ↦ inl (ground (arith, q.0, q.1, r))
        ]
      ]

  climb_cases :
      (fuel : ℕ) (xs ys : List Bytes) {d : Bytes}
      → length xs ≡ length ys
      → Sized xs
      → Sized ys
      → climb sha256 fromhex hex fuel xs ≡ some d
      → climb sha256 fromhex hex fuel ys ≡ some d
      → (xs ≡ ys) ⊎ Collision sha256
  unfolding climb
  climb_cases fuel [] [] h s t e f = inl refl
  climb_cases fuel [] (y ∷ ys) h s t e f = absurd (omega (arith, h))
  climb_cases fuel (x ∷ xs) [] h s t e f = absurd (omega (arith, h))
  climb_cases fuel (x ∷ []) (y ∷ []) h s t e f = inl (ground (arith, e, f))
  climb_cases fuel (x ∷ []) (y ∷ z ∷ ys) h s t e f = absurd (omega (arith, h))
  climb_cases fuel (x ∷ z ∷ xs) (y ∷ []) h s t e f = absurd (omega (arith, h))
  climb_cases zero (x ∷ w ∷ xs) (y ∷ z ∷ ys) h s t e f = absurd (cc)
  climb_cases (suc fuel) (x ∷ w ∷ xs) (y ∷ z ∷ ys) {d = d} h s t e f =
      elim (climb_cases fuel (pair_up sha256 fromhex hex (x ∷ w ∷ xs))
        (pair_up sha256 fromhex hex (y ∷ z ∷ ys)) {d = d}
        (length-pair_up_same sha256 fromhex hex (x ∷ w ∷ xs) (y ∷ z ∷ ys) h)
        (Sized-pair_up (x ∷ w ∷ xs) s) (Sized-pair_up (y ∷ z ∷ ys) t) e f) [
          | inl q ↦ pair_up_cases (x ∷ w ∷ xs) (y ∷ z ∷ ys) h s t q
          | inr c ↦ inr c
        ]

  Sized-leaf : (hs : List String) → Sized (map (leaf sha256 fromhex hex) hs)
  unfolding leaf
  Sized-leaf [] = tt
  Sized-leaf (h ∷ hs) = (sized _, Sized-leaf hs)

  -- If two lists of chunk hashes of one length have the same root, they name the same digests in the
  -- same order, or two inputs with one digest have been found, or two digests with one hex text. Every
  -- digest has one size.
  pub merkle_root_binds :
      (fuel : ℕ) (hs gs : List String) {r : String}
      → length hs ≡ length gs
      → merkle_root sha256 fromhex hex fuel hs ≡ some r
      → merkle_root sha256 fromhex hex fuel gs ≡ some r
      → (map fromhex hs ≡ map fromhex gs) ⊎ (Collision sha256 ⊎ Collision hex)
  unfolding merkle_root
  merkle_root_binds fuel [] [] h e f = inl refl
  merkle_root_binds fuel [] (g ∷ gs) h e f = absurd (omega (arith, h))
  merkle_root_binds fuel (x ∷ hs) [] h e f = absurd (omega (arith, h))
  merkle_root_binds fuel (x ∷ hs) (g ∷ gs) {r = r} h e f =
      let xs : List Bytes = map (leaf sha256 fromhex hex) (x ∷ hs) in
      let ys : List Bytes = map (leaf sha256 fromhex hex) (g ∷ gs) in
      let left = map-some hex (climb sha256 fromhex hex fuel xs) e in
      let right = map-some hex (climb sha256 fromhex hex fuel ys) f in
      elim (digest_cases hex (right.0) (left.0) (right.2 ∙ sym left.2)) [
        | inr c ↦ inr (inr c)
        | inl same ↦
            elim (climb_cases fuel xs ys {d = left.0}
              (length-map (leaf sha256 fromhex hex) (x ∷ hs)
                ∙ h
                ∙ sym (length-map (leaf sha256 fromhex hex) (g ∷ gs)))
              (Sized-leaf (x ∷ hs)) (Sized-leaf (g ∷ gs)) left.1 (right.1 ∙ ap some same)) [
                | inr c ↦ inr (inl c)
                | inl q ↦ elim (leaves_cases sha256 fromhex hex (x ∷ hs) (g ∷ gs) q) [
                  | inl k ↦ inl k
                  | inr c ↦ inr (inl c)
                ]
              ]
      ]
