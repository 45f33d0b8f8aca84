-- ===== src/Mesh/Publishing.antt =====
-- From a file to its manifest and back: chunking loses nothing, and the manifest that is built of a file
-- yields the file wherever its chunks are held.
use fallow.Prelude.{
  ℕ, zero, suc, ◌≤◌, true, some, String, List, [], ◌∷◌, ◌++◌, ◌≡◌, refl, sym, ap, ◌∙◌, arith, map,
  length, length-append, length-map, length-drop-le, length-take-le, take, drop, take-drop, ltb,
  All,
}
use mathlib.Core.Option
use mathlib.Core.Option.{some-injective}
use fallow.Mesh.Store.{Bytes, Manifest, ChunkStore, ok, reconstruct, join}
use fallow.Mesh.Merkle.{merkle_root}
use fallow.Mesh.Levels.{merkle_root_total}
use fallow.Mesh.Building.{
  chunks_from, iter_file_chunks, total_length, hexdigest, manifest_of, build_manifest,
}
use fallow.Mesh.Rebuild.{Holds, reconstruct_complete}

total_length-join : (cs : List Bytes) → total_length cs ≡ length (join cs)
unfolding total_length
total_length-join [] = refl
total_length-join (c ∷ cs) = omega (arith, total_length-join cs, length-append c (join cs))

-- What chunking a file gives.
pub record IsChunking (size : ℕ) (file : Bytes) (cs : List Bytes) : Type 0 where
  pub whole : join cs ≡ file
  pub bounded : All (λ c. (1 ≤ length c) × (length c ≤ size)) cs
  pub few : length cs ≤ length file

chunks_from-IsChunking :
    (fuel n : ℕ) (file : Bytes)
    → length file ≤ fuel
    → (cs : List Bytes) × (chunks_from fuel (suc n) file ≡ some cs) × IsChunking (suc n) file cs
unfolding chunks_from
chunks_from-IsChunking fuel n [] h =
    ([], refl, record { whole = refl; bounded = tt; few = omega arith })
chunks_from-IsChunking zero n (b ∷ bs) h = absurd (omega (arith, h))
chunks_from-IsChunking (suc fuel) n (b ∷ bs) h =
    let rest = chunks_from-IsChunking fuel n (drop n bs) (omega (arith, h, length-drop-le n bs)) in
    (
      (b ∷ take n bs) ∷ rest.0,
      ap (Option.map (λ cs. (b ∷ take n bs) ∷ cs)) rest.1,
      record {
        whole = ap (λ x. b ∷ take n bs ++ x) rest.2.whole ∙ ap (λ x. b ∷ x) (take-drop n bs);
        bounded = ((omega arith, omega (arith, length-take-le n bs)), rest.2.bounded);
        few = omega (arith, rest.2.few, length-drop-le n bs);
      },
    )

module _ (sha256 : Bytes → Bytes) (fromhex : String → Bytes) (hex : Bytes → String) where
  chunked :
      (fuel n : ℕ) (file : Bytes) {cs : List Bytes}
      → chunks_from fuel (suc n) file ≡ some cs
      → iter_file_chunks fuel (suc n) file ≡ some cs
  unfolding iter_file_chunks
  chunked fuel n file e = rw (positive, iter_file_chunks) e
    where
      positive : ltb 0 (suc n) ≡ true
      positive = ground arith

  build_manifest-some :
      (fuel n : ℕ) (model : String) (file : Bytes) (cs : List Bytes) {r : String}
      → chunks_from fuel (suc n) file ≡ some cs
      → merkle_root sha256 fromhex hex fuel (map (hexdigest sha256 fromhex hex) cs) ≡ some r
      → build_manifest sha256 fromhex hex fuel model (suc n) file
        ≡ some (manifest_of sha256 fromhex hex model (suc n) cs r)
  unfolding build_manifest iter_file_chunks
  build_manifest-some fuel n model file cs e f = rw (positive, e, build_manifest) (rw f refl)
    where
      positive : ltb 0 (suc n) ≡ true
      positive = ground arith

  -- With a positive chunk size and fuel for each byte, a file is chunked and its manifest is built: the
  -- chunks join to the file, none is empty or longer than the chunk size, and the manifest lists their
  -- digests in order, with the size and the digest of the file.
  pub build_manifest_total :
      (fuel n : ℕ) (model : String) (file : Bytes)
      → length file ≤ fuel
      → (cs : List Bytes) × (m : Manifest) × (iter_file_chunks fuel (suc n) file ≡ some cs)
        × (build_manifest sha256 fromhex hex fuel model (suc n) file ≡ some m)
        × IsChunking (suc n) file cs
        × (m.chunks ≡ map (hexdigest sha256 fromhex hex) cs)
        × (m.total_size ≡ length file)
        × (m.whole_file_sha256 ≡ hexdigest sha256 fromhex hex file)
  build_manifest_total fuel n model file h =
      let found = chunks_from-IsChunking fuel n file h in
      let cs : List Bytes = found.0 in
      let root =
        merkle_root_total sha256 fromhex hex fuel 0 (map (hexdigest sha256 fromhex hex) cs)
          (omega (arith, h, found.2.few, length-map (hexdigest sha256 fromhex hex) cs)) in
      (
        cs,
        manifest_of sha256 fromhex hex model (suc n) cs (root.0),
        chunked fuel n file found.1,
        build_manifest-some fuel n model file cs found.1 root.1,
        found.2,
        refl,
        total_length-join cs ∙ ap length found.2.whole,
        ap (hexdigest sha256 fromhex hex) found.2.whole,
      )

  -- If a manifest is built of a file with a positive chunk size and fuel for each byte, then from every
  -- store that holds the file's chunks it gives the file back, byte for byte.
  pub build_manifest-reconstruct :
      (fuel n : ℕ) (model : String) (file : Bytes) (cs : List Bytes) (m : Manifest) (s : ChunkStore)
      → length file ≤ fuel
      → iter_file_chunks fuel (suc n) file ≡ some cs
      → build_manifest sha256 fromhex hex fuel model (suc n) file ≡ some m
      → All (Holds (hexdigest sha256 fromhex hex) s) cs
      → (reconstruct (hexdigest sha256 fromhex hex) m s).1 ≡ ok file
  build_manifest-reconstruct fuel n model file cs m s h c e held =
      let t = build_manifest_total fuel n model file h in
      let same_chunks : t.0 ≡ cs = some-injective _ _ (sym t.2 ∙ c) in
      let same_manifest : t.1 ≡ m = some-injective _ _ (sym t.3 ∙ e) in
      let whole : join cs ≡ file = ap join (sym same_chunks) ∙ t.4.whole in
      reconstruct_complete (hexdigest sha256 fromhex hex) m s cs
        (sym (ap (λ x. x.chunks) same_manifest)
          ∙ t.5
          ∙ ap (map (hexdigest sha256 fromhex hex)) same_chunks)
        (sym (ap (λ x. x.total_size) same_manifest) ∙ t.6 ∙ ap length (sym whole))
        (sym (ap (λ x. x.whole_file_sha256) same_manifest)
          ∙ t.7
          ∙ ap (hexdigest sha256 fromhex hex) (sym whole))
        held
      ∙ ap ok whole
