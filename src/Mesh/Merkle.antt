-- ===== src/Mesh/Merkle.antt =====
-- fallow_modelmesh/merkle.py. sha256, bytes.fromhex and bytes.hex are arguments. The loop over the
-- levels runs on fuel; without enough of it there is no root.
use fallow.Prelude.{ℕ, zero, suc, Option, none, some, String, List, [], ◌∷◌, ◌++◌, map}
use mathlib.Core.Option
use fallow.Mesh.Store.{Bytes}

module _ (sha256 : Bytes → Bytes) (fromhex : String → Bytes) (hex : Bytes → String) where
  unfoldable pub leaf : String → Bytes
  leaf h = sha256 (0 ∷ fromhex h)

  unfoldable pub node : Bytes → Bytes → Bytes
  node left right = sha256 (1 ∷ left ++ right)

  -- The next level: an odd node is kept as it is.
  unfoldable pub pair_up : List Bytes → List Bytes
  unfolding node
  pair_up [] = []
  pair_up (x ∷ []) = x ∷ []
  pair_up (x ∷ y ∷ rest) = node x y ∷ pair_up rest

  -- `while len(level) > 1`, and then `level[0]`.
  unfoldable pub climb : ℕ → List Bytes → Option Bytes
  unfolding pair_up
  climb fuel [] = none
  climb fuel (x ∷ []) = some x
  climb zero (x ∷ y ∷ rest) = none
  climb (suc fuel) (x ∷ y ∷ rest) = climb fuel (pair_up (x ∷ y ∷ rest))

  unfoldable pub merkle_root : ℕ → List String → Option String
  unfolding leaf climb
  merkle_root fuel [] = some (hex (sha256 (0 ∷ [])))
  merkle_root fuel (h ∷ hs) = Option.map hex (climb fuel (map leaf (h ∷ hs)))
