-- ===== src/Prelude/Lru.antt =====
-- Python's OrderedDict as a bounded history: assign, move to the end, and pop the oldest.
use Prim.Native.Nat.{ℕ, ◌≤◌}
use mathlib.Core.List.{List, [], ◌∷◌, ◌++◌}
use native.Mathlib.Omega.{arith}
use fallow.Prelude.Tests.{ltb, if◌then◌else◌}
use fallow.Prelude.Lists.{length}
use fallow.Prelude.Eq.{Eq}
use fallow.Prelude.Table.{delete}

module _ {A : Type 0} where
  -- `while len(d) > cap: d.popitem(last=False)`.
  unfoldable pub drop_oldest : ℕ → List A → List A
  drop_oldest cap [] = []
  drop_oldest cap (x ∷ xs) =
      let rest = drop_oldest cap xs in if ltb cap (length (x ∷ xs)) then rest else x ∷ xs

  pub length-drop_oldest : (cap : ℕ) (xs : List A) → length (drop_oldest cap xs) ≤ cap
  unfolding drop_oldest
  length-drop_oldest cap [] = omega arith
  length-drop_oldest cap (x ∷ xs) = ground (arith, length-drop_oldest cap xs)

module _ {K Row : Type 0} ⦃e : Eq K⦄ (key : Row → K) where
  -- `d[k] = row; d.move_to_end(k)`, and then the oldest go.
  unfoldable pub remember_last : ℕ → Row → List Row → List Row
  remember_last cap r rs = drop_oldest cap (delete key (key r) rs ++ r ∷ [])

  pub length-remember_last :
      (cap : ℕ) (r : Row) (rs : List Row) → length (remember_last cap r rs) ≤ cap
  unfolding remember_last
  length-remember_last cap r rs = length-drop_oldest cap (delete key (key r) rs ++ r ∷ [])
