-- ===== src/Prelude/Table.antt =====
-- Tables keyed by a primary key: lists of rows, with the key a function of the row.
use mathlib.Core.Path.{◌≡◌, refl}
use mathlib.Core.Bool.{Bool, false}
use mathlib.Core.Option
use mathlib.Core.Option.{Option, none, some}
use mathlib.Core.List.{List, [], ◌∷◌, ◌++◌, map}
use native.Mathlib.Omega.{arith}
use fallow.Prelude.Tests.{if◌then◌else◌, is_some, or_else, Bool-cases}
use mathlib.Core.Logic.{inl, inr}
use fallow.Prelude.Lists.{All, All-mono}
use fallow.Prelude.Eq.{Eq, ◌==◌}

module _ {K Row : Type 0} ⦃e : Eq K⦄ (key : Row → K) where
  -- The row of a key.
  unfoldable pub lookup : K → List Row → Option Row
  lookup k [] = none
  lookup k (r ∷ rs) = if key r == k then some r else lookup k rs

  abbrev pub has : K → List Row → Bool
  has k rs = is_some (lookup k rs)

  -- DELETE FROM ... WHERE key = k, and Python's `del d[k]`.
  unfoldable pub delete : K → List Row → List Row
  delete k [] = []
  delete k (r ∷ rs) = let rest = delete k rs in if key r == k then rest else r ∷ rest

  -- No two rows have one key.
  abbrev pub IsKeyed : List Row → Type 0
  IsKeyed [] = Unit
  IsKeyed (r ∷ rs) = (lookup (key r) rs ≡ none) × IsKeyed rs

  pub lookup-key : (k : K) (rs : List Row) {r : Row} → lookup k rs ≡ some r → key r ≡ k
  unfolding lookup
  lookup-key k [] h = ground arith
  lookup-key k (r ∷ rs) {r = s} h = ground (arith, e.beq_iff (key r) k, lookup-key k rs {r = s})

  -- An UPDATE that keeps the keys acts on the row of each key.
  pub lookup-map :
      (g : Row → Row) (keeps : (r : Row) → key (g r) ≡ key r) (k : K) (rs : List Row)
      → lookup k (map g rs) ≡ Option.map g (lookup k rs)
  unfolding lookup
  lookup-map g keeps k [] = refl
  lookup-map g keeps k (r ∷ rs) = ground (arith, keeps r, lookup-map g keeps k rs)

  pub lookup-append :
      (k : K) (rs ss : List Row) → lookup k (rs ++ ss) ≡ or_else (lookup k rs) (lookup k ss)
  unfolding lookup
  lookup-append k [] ss = refl
  lookup-append k (r ∷ rs) ss = ground (arith, lookup-append k rs ss)

  pub lookup-delete :
      (k j : K) (rs : List Row) → lookup j (delete k rs) ≡ (if k == j then none else lookup j rs)
  unfolding lookup delete
  lookup-delete k j [] = ground arith
  lookup-delete k j (r ∷ rs) =
      ground (arith, lookup-delete k j rs, e.beq_iff (key r) k, e.beq_iff (key r) j, e.beq_iff k j)

  pub IsKeyed-map :
      (g : Row → Row) (keeps : (r : Row) → key (g r) ≡ key r) (rs : List Row)
      → IsKeyed rs
      → IsKeyed (map g rs)
  IsKeyed-map g keeps [] h = tt
  IsKeyed-map g keeps (r ∷ rs) h =
      (ground (arith, keeps r, lookup-map g keeps (key r) rs, h.0), IsKeyed-map g keeps rs h.1)

  pub IsKeyed-append :
      (rs : List Row) (r : Row) → lookup (key r) rs ≡ none → IsKeyed rs → IsKeyed (rs ++ r ∷ [])
  unfolding lookup
  IsKeyed-append [] r h u = (refl, tt)
  IsKeyed-append (s ∷ rs) r h u = (
    ground (
      arith,
      lookup-append (key s) rs (r ∷ []),
      e.beq_iff (key r) (key s),
      e.beq_iff (key s) (key r),
      u.0,
    ),
    IsKeyed-append rs r (ground arith) u.1,
  )

  pub IsKeyed-delete : (k : K) (rs : List Row) → IsKeyed rs → IsKeyed (delete k rs)
  unfolding delete
  IsKeyed-delete k [] u = tt
  IsKeyed-delete k (r ∷ rs) u = ground (arith, IsKeyed-delete k rs u.1, lookup-delete k (key r) rs)

  -- With distinct keys each row is found by its key.
  pub lookup_self : (rs : List Row) → IsKeyed rs → All (λ r. lookup (key r) rs ≡ some r) rs
  unfolding lookup
  lookup_self [] h = tt
  lookup_self (r ∷ rs) h = (
    ground (arith, e.beq_iff (key r) (key r)),
    All-mono (λ s. lookup (key s) rs ≡ some s) (λ s. lookup (key s) (r ∷ rs) ≡ some s)
        (λ s p. ground (arith, p, h.0, e.beq_iff (key r) (key s))) rs (lookup_self rs h.1),
  )

  -- What holds away from a key holds when the key's row is deleted, or is not there.
  pub delete_away {κ μ} :
      (P : Row → Type κ) (Q : Row → Type μ) (k : K)
      (away : (r : Row) → (key r == k) ≡ false → P r → Q r) (rs : List Row)
      → All P rs
      → All Q (delete k rs)
  unfolding delete
  delete_away P Q k away [] h = tt
  delete_away P Q k away (r ∷ rs) h = elim (Bool-cases (key r == k)) [
    | inl e ↦ rw e (delete_away P Q k away rs h.1)
    | inr e ↦ rw e (away r e h.0, delete_away P Q k away rs h.1)
  ]

  pub absent_away {κ μ} :
      (P : Row → Type κ) (Q : Row → Type μ) (k : K)
      (away : (r : Row) → (key r == k) ≡ false → P r → Q r) (rs : List Row)
      → lookup k rs ≡ none
      → All P rs
      → All Q rs
  unfolding lookup
  absent_away P Q k away [] u h = tt
  absent_away P Q k away (r ∷ rs) u h = elim (Bool-cases (key r == k)) [
    | inl e ↦ absurd (ground (arith, e, u))
    | inr e ↦ (away r e h.0, absent_away P Q k away rs (ground (arith, e, u)) h.1)
  ]
