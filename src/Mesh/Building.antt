-- ===== src/Mesh/Building.antt =====
-- fallow_modelmesh/chunk.py and build_manifest of manifest.py. A file is its bytes, and read(n) gives the
-- next n of them, or what is left; the loop runs on fuel. `hexdigest` is the hex text of a digest.
use fallow.Prelude.{
  ℕ, zero, suc, ◌+◌, Option, none, some, String, List, [], ◌∷◌, map, length, take, drop, ltb,
  if◌then◌else◌,
}
use mathlib.Core.Option
use fallow.Mesh.Store.{Bytes, Manifest, join}
use fallow.Mesh.Merkle.{merkle_root}

-- The while loop of iter_file_chunks.
unfoldable pub chunks_from : ℕ → ℕ → Bytes → Option (List Bytes)
chunks_from fuel size [] = some []
chunks_from zero size (b ∷ bs) = none
chunks_from (suc fuel) size (b ∷ bs) =
    Option.map (λ cs. take size (b ∷ bs) ∷ cs) (chunks_from fuel size (drop size (b ∷ bs)))

-- ValueError, or the fuel's end, is `none`.
unfoldable pub iter_file_chunks : ℕ → ℕ → Bytes → Option (List Bytes)
unfolding chunks_from
iter_file_chunks fuel size file = if ltb 0 size then chunks_from fuel size file else none

unfoldable pub total_length : List Bytes → ℕ
total_length [] = 0
total_length (c ∷ cs) = length c + total_length cs

module _ (sha256 : Bytes → Bytes) (fromhex : String → Bytes) (hex : Bytes → String) where
  abbrev pub hexdigest : Bytes → String
  hexdigest b = hex (sha256 b)

  abbrev pub manifest_of : String → ℕ → List Bytes → String → Manifest
  manifest_of model size cs root = record {
    model_id = model;
    total_size = total_length cs;
    chunk_size = size;
    whole_file_sha256 = hexdigest (join cs);
    chunks = map hexdigest cs;
    merkle_root = root;
  }

  unfoldable pub build_manifest : ℕ → String → ℕ → Bytes → Option Manifest
  unfolding iter_file_chunks merkle_root total_length
  build_manifest fuel model size file = elim (iter_file_chunks fuel size file) [
    | none ↦ none
    | some cs ↦
        Option.map (manifest_of model size cs)
          (merkle_root sha256 fromhex hex fuel (map hexdigest cs))
  ]
