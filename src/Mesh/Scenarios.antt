-- ===== src/Mesh/Scenarios.antt =====
-- A store of two chunks under a toy digest, and the mesh's theorems on it.
use fallow.Prelude.Eq.{◌==◌, String_eq, ℕ_eq, ==_iff}
use fallow.Prelude.{
  none, false, inl, inr, ltb, if◌then◌else◌, ℕ, ◌≡◌, refl, some, String, List, [], ◌∷◌, arith,
  length,
}
use fallow.Prelude.Table.{lookup, delete}
use fallow.Mesh.Store.{Bytes, ok, Chunk, ChunkStore, Manifest, chunk_at, fetch_delta, reconstruct}
use fallow.Mesh.Custody.{IsHonest, total, fetch_delta-IsHonest}
use fallow.Prelude.{◌+◌, ◌⊎◌, map}
use fallow.Mesh.Merkle.{merkle_root}
use fallow.Mesh.Levels.{Collision}
use fallow.Mesh.Commitment.{merkle_root_binds}
use fallow.Mesh.Building.{iter_file_chunks, build_manifest, manifest_of, hexdigest}
use fallow.Mesh.Publishing.{IsChunking, build_manifest_total, build_manifest-reconstruct}
use fallow.Mesh.Rejection.{fetch_delta-rejects}
use fallow.Prelude.Members.{In}
use fallow.Mesh.Rebuild.{Spells, reconstruct-Spells}

-- By the first byte.
abbrev digest : Bytes → String
digest [] = "0"
digest (b ∷ bs) = if ltb b 2 then "1" else "2"

abbrev store : ChunkStore
store = record {
  max_bytes = 4;
  used = 3;
  chunks = record { key = "1"; content = 1 ∷ 5 ∷ [] } ∷ record { key = "2"; content = 7 ∷ [] } ∷ [];
}

abbrev manifest : Manifest
manifest = record {
  model_id = "m";
  total_size = 3;
  chunk_size = 2;
  whole_file_sha256 = "1";
  chunks = "1" ∷ "2" ∷ [];
  merkle_root = "r";
}

abbrev honest_peers : String → List (String → Bytes)
honest_peers h = (λ k. 1 ∷ 5 ∷ []) ∷ []

store-IsHonest : IsHonest digest (record store { chunks = []; used = 0 })
unfolding total
store-IsHonest = record { accounted = refl; capped = omega arith; keyed = tt; addressed = tt }

fetch_delta-IsHonest_example :
    IsHonest digest
      (fetch_delta digest manifest honest_peers (record store { chunks = []; used = 0 })).0
fetch_delta-IsHonest_example =
    fetch_delta-IsHonest digest manifest honest_peers (record store { chunks = []; used = 0 })
      store-IsHonest

-- No other bytes are held under the digest of the empty chunk.
nothing_held : (c : Chunk) → chunk_at "0" store ≡ some c → c.content ≡ []
unfolding lookup
nothing_held c h = absurd (cc)

reconstruct-Spells_example :
    (length {A = ℕ} (1 ∷ 5 ∷ 7 ∷ []) ≡ manifest.total_size)
    × (digest (1 ∷ 5 ∷ 7 ∷ []) ≡ manifest.whole_file_sha256)
    × Spells digest ("1" ∷ "2" ∷ []) (1 ∷ 5 ∷ 7 ∷ [])
unfolding reconstruct lookup delete
reconstruct-Spells_example =
    reconstruct-Spells digest manifest store {content = 1 ∷ 5 ∷ 7 ∷ []} refl

abbrev lying_peers : String → List (String → Bytes)
lying_peers h = (λ k. []) ∷ []

different : (t : String) → ("0" == t) ≡ false → ◌≡◌ {A = String} "0" t → ⊥
different t h q = absurd (ground (arith, h, (==_iff {A = String} "0" t).1 q))

not_named : ¬ In "0" manifest.chunks
not_named (inl q) = different "1" refl q
not_named (inr (inl q)) = different "2" refl q
not_named (inr (inr m)) = m

fetch_delta-rejects_example :
    chunk_at "0"
      (fetch_delta digest manifest lying_peers (record store { chunks = []; used = 0 })).0
    ≡ none
unfolding lookup
fetch_delta-rejects_example =
    fetch_delta-rejects digest "0" manifest lying_peers (record store { chunks = []; used = 0 })
      not_named refl

abbrev sum_bytes : Bytes → ℕ
sum_bytes [] = 0
sum_bytes (b ∷ bs) = b + sum_bytes bs

-- A digest of one byte, and its text.
abbrev sum_of : Bytes → Bytes
sum_of b = sum_bytes b ∷ []

abbrev text_of : Bytes → String
text_of [] = ""
text_of (b ∷ bs) = if b == 3 then "03" else "xx"

abbrev file : Bytes
file = 1 ∷ 2 ∷ 4 ∷ []

abbrev file_chunks : List Bytes
file_chunks = (1 ∷ 2 ∷ []) ∷ (4 ∷ []) ∷ []

abbrev file_store : ChunkStore
file_store = record {
  max_bytes = 100;
  used = 3;
  chunks =
      (record { key = "03"; content = 1 ∷ 2 ∷ [] })
      ∷ (record { key = "xx"; content = 4 ∷ [] })
      ∷ [];
}

abbrev root_bytes : String → Bytes
root_bytes s = if s == "03" then 3 ∷ [] else 7 ∷ []

merkle_root_binds_example :
    (map root_bytes ("03" ∷ "xx" ∷ []) ≡ map root_bytes ("xx" ∷ "03" ∷ []))
    ⊎ (Collision sum_of ⊎ Collision text_of)
unfolding merkle_root
merkle_root_binds_example =
    merkle_root_binds sum_of root_bytes text_of 1 (λ b. refl) 2 ("03" ∷ "xx" ∷ [])
      ("xx" ∷ "03" ∷ []) refl refl refl

build_manifest_total_example :
    (cs : List Bytes) × (m : Manifest) × (iter_file_chunks 3 2 file ≡ some cs)
    × (build_manifest sum_of root_bytes text_of 3 "m" 2 file ≡ some m)
    × IsChunking 2 file cs
    × (m.chunks ≡ map (hexdigest sum_of root_bytes text_of) cs)
    × (m.total_size ≡ length file)
    × (m.whole_file_sha256 ≡ hexdigest sum_of root_bytes text_of file)
build_manifest_total_example =
    build_manifest_total sum_of root_bytes text_of 3 1 "m" file (omega arith)

abbrev built : Manifest
built = manifest_of sum_of root_bytes text_of "m" 2 file_chunks "xx"

build_manifest-reconstruct_example :
    (reconstruct (hexdigest sum_of root_bytes text_of) built file_store).1 ≡ ok file
unfolding iter_file_chunks build_manifest lookup
build_manifest-reconstruct_example =
    build_manifest-reconstruct sum_of root_bytes text_of 3 1 "m" file file_chunks built file_store
      (omega arith) refl refl (refl, (refl, tt))
