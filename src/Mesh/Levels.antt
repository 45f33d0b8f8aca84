-- ===== src/Mesh/Levels.antt =====
-- The levels of a Merkle tree: each is shorter than the one below, so the loop ends in a root.
use fallow.Prelude.{
  ℕ, zero, suc, ◌+◌, ◌*◌, ◌≤◌, Option, none, some, String, List, [], ◌∷◌, ◌++◌, ◌≡◌, ◌≢◌, ◌⊎◌, inl,
  inr, refl, ap, arith, map, length, subst, Bool-cases, length-map,
}
use mathlib.Core.Option
use fallow.Prelude.Eq.{◌==◌, ℕ_eq}
use fallow.Mesh.Store.{Bytes}
use fallow.Mesh.Merkle.{leaf, node, pair_up, climb, merkle_root}

-- Two inputs with one digest.
pub record Collision {B : Type 0} (digest : Bytes → B) : Type 0 where
  pub first : Bytes
  pub second : Bytes
  pub differ : first ≢ second
  pub agree : digest first ≡ digest second

bytes_cases : (a b : Bytes) → (a ≡ b) ⊎ (a ≢ b)
bytes_cases [] [] = inl refl
bytes_cases [] (y ∷ ys) = inr (λ e. absurd (cc))
bytes_cases (x ∷ xs) [] = inr (λ e. absurd (cc))
bytes_cases (x ∷ xs) (y ∷ ys) = elim (Bool-cases (x == y)) [
  | inr e ↦ inr (λ q. absurd (ground (arith, e, q)))
  | inl e ↦ elim (bytes_cases xs ys) [
    | inl q ↦ inl (ground (arith, e, q))
    | inr q ↦ inr (λ r. q (ground (arith, r)))
  ]
]

pub digest_cases :
    {B : Type 0} (digest : Bytes → B) (a b : Bytes)
    → digest a ≡ digest b
    → (a ≡ b) ⊎ Collision digest
digest_cases digest a b e = elim (bytes_cases a b) [
  | inl q ↦ inl q
  | inr q ↦ inr (record { first = a; second = b; differ = q; agree = e })
]

pub append-split : (a b c d : Bytes) → length a ≡ length c → a ++ b ≡ c ++ d → (a ≡ c) × (b ≡ d)
append-split [] b [] d h e = (refl, e)
append-split [] b (y ∷ c) d h e = absurd (omega (arith, h))
append-split (x ∷ a) b [] d h e = absurd (omega (arith, h))
append-split (x ∷ a) b (y ∷ c) d h e =
    let rest = append-split a b c d (omega (arith, h)) (ground (arith, e)) in
    (ground (arith, rest.0, e), rest.1)

pub map-some :
    (hex : Bytes → String) (o : Option Bytes) {r : String}
    → Option.map hex o ≡ some r
    → (d : Bytes) × (o ≡ some d) × (hex d ≡ r)
map-some hex none h = absurd (cc)
map-some hex (some d) h = (d, refl, ground (arith, h))

module _ (sha256 : Bytes → Bytes) (fromhex : String → Bytes) (hex : Bytes → String) where
  length-pair_up : (xs : List Bytes) → length (pair_up sha256 fromhex hex xs) * 2 ≤ length xs + 1
  unfolding pair_up
  length-pair_up [] = omega arith
  length-pair_up (x ∷ []) = omega arith
  length-pair_up (x ∷ y ∷ rest) = omega (arith, length-pair_up rest)

  -- With as much fuel as there are nodes, the loop ends in a root.
  climb_enough :
      (fuel : ℕ) (x : Bytes) (xs : List Bytes)
      → length (x ∷ xs) ≤ fuel
      → (d : Bytes) × (climb sha256 fromhex hex fuel (x ∷ xs) ≡ some d)
  unfolding climb pair_up
  climb_enough fuel x [] h = (x, refl)
  climb_enough zero x (y ∷ rest) h = absurd (omega (arith, h))
  climb_enough (suc fuel) x (y ∷ rest) h =
      climb_enough fuel (node sha256 fromhex hex x y) (pair_up sha256 fromhex hex rest)
        (omega (arith, h, length-pair_up rest))

  -- More fuel changes nothing.
  climb_more :
      (fuel : ℕ) (xs : List Bytes) {d : Bytes}
      → climb sha256 fromhex hex fuel xs ≡ some d
      → climb sha256 fromhex hex (suc fuel) xs ≡ some d
  unfolding climb
  climb_more fuel [] h = absurd (cc)
  climb_more fuel (x ∷ []) h = h
  climb_more zero (x ∷ y ∷ rest) h = absurd (cc)
  climb_more (suc fuel) (x ∷ y ∷ rest) h =
      climb_more fuel (pair_up sha256 fromhex hex (x ∷ y ∷ rest)) h

  climb_later :
      (more fuel : ℕ) (xs : List Bytes) {d : Bytes}
      → climb sha256 fromhex hex fuel xs ≡ some d
      → climb sha256 fromhex hex (more + fuel) xs ≡ some d
  climb_later zero fuel xs {d = d} h =
      subst (λ n. climb sha256 fromhex hex n xs ≡ some d) (omega arith) h
  climb_later (suc more) fuel xs {d = d} h =
      subst (λ n. climb sha256 fromhex hex n xs ≡ some d) (omega arith)
        (climb_more (more + fuel) xs (climb_later more fuel xs h))

  pub length-pair_up_same :
      (xs ys : List Bytes)
      → length xs ≡ length ys
      → length (pair_up sha256 fromhex hex xs) ≡ length (pair_up sha256 fromhex hex ys)
  unfolding pair_up
  length-pair_up_same [] [] h = refl
  length-pair_up_same [] (y ∷ ys) h = absurd (omega (arith, h))
  length-pair_up_same (x ∷ xs) [] h = absurd (omega (arith, h))
  length-pair_up_same (x ∷ []) (y ∷ []) h = refl
  length-pair_up_same (x ∷ []) (y ∷ z ∷ ys) h = absurd (omega (arith, h))
  length-pair_up_same (x ∷ w ∷ xs) (y ∷ []) h = absurd (omega (arith, h))
  length-pair_up_same (x ∷ w ∷ xs) (y ∷ z ∷ ys) h =
      ap suc (length-pair_up_same xs ys (omega (arith, h)))

  pub leaves_cases :
      (hs gs : List String)
      → map (leaf sha256 fromhex hex) hs ≡ map (leaf sha256 fromhex hex) gs
      → (map fromhex hs ≡ map fromhex gs) ⊎ Collision sha256
  unfolding leaf
  leaves_cases [] [] e = inl refl
  leaves_cases [] (g ∷ gs) e = absurd (cc)
  leaves_cases (x ∷ hs) [] e = absurd (cc)
  leaves_cases (x ∷ hs) (g ∷ gs) e =
      elim (digest_cases sha256 (0 ∷ fromhex x) (0 ∷ fromhex g) (ground (arith, e))) [
        | inr c ↦ inr c
        | inl q ↦ elim (leaves_cases hs gs (ground (arith, e))) [
          | inr c ↦ inr c
          | inl r ↦ inl (ground (arith, q, r))
        ]
      ]

  -- With as much fuel as there are chunks the root is found, and more fuel finds the same.
  pub merkle_root_total :
      (fuel more : ℕ) (hs : List String)
      → length hs ≤ fuel
      → (r : String) × (merkle_root sha256 fromhex hex fuel hs ≡ some r)
        × (merkle_root sha256 fromhex hex (more + fuel) hs ≡ some r)
  unfolding merkle_root
  merkle_root_total fuel more [] h = (hex (sha256 (0 ∷ [])), refl, refl)
  merkle_root_total fuel more (x ∷ hs) h =
      let found =
        climb_enough fuel (leaf sha256 fromhex hex x) (map (leaf sha256 fromhex hex) hs)
          (omega (arith, h, length-map (leaf sha256 fromhex hex) hs)) in
      (
        hex (found.0),
        ap (Option.map hex) found.1,
        ap (Option.map hex)
            (climb_later more fuel (map (leaf sha256 fromhex hex) (x ∷ hs)) found.1),
      )
