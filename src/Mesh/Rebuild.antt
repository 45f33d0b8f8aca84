-- ===== src/Mesh/Rebuild.antt =====
-- What `reconstruct` returns: only a file that the manifest commits to, and always that file when the
-- store holds its chunks.
use fallow.Prelude.{
  some, String, List, [], ◌∷◌, ◌++◌, ◌≡◌, ◌⊎◌, refl, ap, ◌∙◌, subst, arith, inl, inr, All, All-mono,
  length, map, Bool-cases,
}
use fallow.Prelude.Eq.{◌==◌, String_eq, ℕ_eq, ==_iff, ==_refl}
use fallow.Prelude.Table.{lookup, delete, lookup-append, lookup-delete}
use fallow.Mesh.Custody.{get-held}
use fallow.Mesh.Store.{
  Bytes, join, Error, Outcome, ok, raised, Chunk, ChunkStore, Manifest, chunk_key, chunk_at,
  move_to_end, get, read_chunks, verify, reconstruct,
}

Outcome-cases :
    {A : Type 0} (o : Outcome A) → ((a : A) × (o ≡ ok a)) ⊎ ((e : Error) × (o ≡ raised e))
Outcome-cases (ok a) = inl (a, refl)
Outcome-cases (raised e) = inr (e, refl)

module _ (sha256 : Bytes → String) where
  -- The content is the pieces that the digests name, one after the other.
  abbrev pub Spells : List String → Bytes → Type 0
  Spells hs content = (ps : List Bytes) × (map sha256 ps ≡ hs) × (join ps ≡ content)

  read_chunks-Spells :
      (hs : List String) (s : ChunkStore) {content : Bytes}
      → (read_chunks sha256 hs s).1 ≡ ok content
      → Spells hs content
  unfolding read_chunks
  read_chunks-Spells [] s {content = content} h = ([], refl, ground (arith, h))
  read_chunks-Spells (k ∷ hs) s {content = content} h =
      go (λ c e. read_chunks-Spells hs (get k s).0 {content = c} e) (get k s).1 refl h
    where
      go :
          ((c : Bytes) → (read_chunks sha256 hs (get k s).0).1 ≡ ok c → Spells hs c)
          → (o : Outcome Bytes) → (get k s).1 ≡ o
          → (read_chunks sha256 (k ∷ hs) s).1 ≡ ok content
          → Spells (k ∷ hs) content
      go ih (raised e) q h = absurd (ground (arith, q, h))
      go ih (ok piece) q h = elim (Bool-cases (sha256 piece == k)) [
        | inr n ↦ absurd (ground (arith, q, n, h))
        | inl y ↦ elim (Outcome-cases (read_chunks sha256 hs (get k s).0).1) [
          | inr (e, x) ↦ absurd (ground (arith, q, y, x, h))
          | inl (more, x) ↦
              let rest = ih more x in
              (
                piece ∷ rest.0,
                ground (arith, (==_iff (sha256 piece) k).0 y, rest.1),
                ap (λ z. piece ++ z) rest.2 ∙ ground (arith, q, y, x, h),
              )
        ]
      ]

  verify-ok :
      (m : Manifest) (c : Bytes) {content : Bytes}
      → verify sha256 m c ≡ ok content
      → (c ≡ content) × (length c ≡ m.total_size) × (sha256 c ≡ m.whole_file_sha256)
  unfolding verify
  verify-ok m c h =
      ground (arith, h, ==_iff (length c) m.total_size, ==_iff (sha256 c) m.whole_file_sha256)

  -- A reconstruction that returns has written a file of the manifest's size and digest, made of pieces
  -- whose digests are the manifest's chunks in order, whatever the store holds.
  pub reconstruct-Spells :
      (m : Manifest) (s : ChunkStore) {content : Bytes}
      → (reconstruct sha256 m s).1 ≡ ok content
      → (length content ≡ m.total_size)
        × (sha256 content ≡ m.whole_file_sha256)
        × Spells m.chunks content
  unfolding reconstruct
  reconstruct-Spells m s {content = content} h =
      elim (Outcome-cases (read_chunks sha256 m.chunks s).1) [
        | inr (e, x) ↦ absurd (ground (arith, x, h))
        | inl (c, x) ↦
            let v = verify-ok m c {content = content} (ground (arith, x, h)) in
            subst
              (λ y.
                (length y ≡ m.total_size) × (sha256 y ≡ m.whole_file_sha256) × Spells m.chunks y)
              v.0 (v.1, v.2, read_chunks-Spells m.chunks s x)
      ]

  abbrev pub Holds : ChunkStore → Bytes → Type 0
  Holds s p = chunk_at (sha256 p) s ≡ some (record { key = sha256 p; content = p })

  get-Holds : (p q : Bytes) (s : ChunkStore) → Holds s p → Holds s q → Holds (get (sha256 p) s).0 q
  unfolding get move_to_end lookup
  get-Holds p q s h k =
      let c : Chunk = record { key = sha256 p; content = p } in
      rw (h, get)
        (ground (
          arith,
          lookup-append chunk_key (sha256 q) (delete chunk_key (sha256 p) s.chunks) (c ∷ []),
          lookup-delete chunk_key (sha256 p) (sha256 q) s.chunks,
          ==_iff (sha256 p) (sha256 q),
          h,
          k,
        ))

  read_chunks_complete :
      (ps : List Bytes) (s : ChunkStore)
      → All (Holds s) ps
      → (read_chunks sha256 (map sha256 ps) s).1 ≡ ok (join ps)
  unfolding read_chunks
  read_chunks_complete [] s h = refl
  read_chunks_complete (p ∷ ps) s h =
      let g = get-held sha256 (sha256 p) s h.0 in
      let rest =
        read_chunks_complete ps (get (sha256 p) s).0
          (All-mono (Holds s) (Holds (get (sha256 p) s).0) (λ q. get-Holds p q s h.0) ps h.1) in
      ground (arith, g, rest, ==_refl (sha256 p))

  -- From a store that holds every piece of a file, the manifest of the file yields the file.
  pub reconstruct_complete :
      (m : Manifest) (s : ChunkStore) (ps : List Bytes)
      → m.chunks ≡ map sha256 ps
      → m.total_size ≡ length (join ps)
      → m.whole_file_sha256 ≡ sha256 (join ps)
      → All (Holds s) ps
      → (reconstruct sha256 m s).1 ≡ ok (join ps)
  unfolding reconstruct verify
  reconstruct_complete m s ps e f g h = ground (
    arith,
    e,
    f,
    g,
    read_chunks_complete ps s h,
    ==_refl (length (join ps)),
    ==_refl (sha256 (join ps)),
  )
