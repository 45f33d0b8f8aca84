-- ===== src/Mesh/Rejection.antt =====
-- What an exchange lets into the store: only chunks that the manifest names.
use fallow.Prelude.{
  Bool, true, false, none, some, String, List, [], ◌∷◌, ◌≡◌, ◌⊎◌, ◌∙◌, refl, sym, arith, inl, inr,
  length, any, ltb, Bool-cases, Option-cases, is_some, ◌||◌, if◌then◌else◌,
}
use fallow.Prelude.Eq.{◌==◌, String_eq, ==_iff}
use fallow.Prelude.Table.{lookup, delete, lookup-key, lookup-append, lookup-delete}
use fallow.Prelude.Members.{In}
use fallow.Mesh.Store.{
  Bytes, Chunk, ChunkStore, Manifest, chunk_key, chunk_at, move_to_end, evict_until_fits, insert,
  put, missing_after, missing_chunks, stored, fetch_all, fetch_delta,
}
use fallow.Mesh.Custody.{evict-lookup, fetched-store}

missing_after-In :
    (seen : List String) (s : ChunkStore) (hs : List String) (k : String)
    → In k (missing_after seen s hs)
    → In k hs
unfolding missing_after
missing_after-In seen s [] k m = m
missing_after-In seen s (h ∷ hs) k m =
    go (missing_after-In seen s hs k) (missing_after-In (h ∷ seen) s hs k)
      (is_some (chunk_at h s) || any (λ x. x == h) seen) m
  where
    go :
        (In k (missing_after seen s hs) → In k hs)
        → (In k (missing_after (h ∷ seen) s hs) → In k hs)
        → (b : Bool)
        → In k (if b then missing_after seen s hs else h ∷ missing_after (h ∷ seen) s hs)
        → In k (h ∷ hs)
    go f g true n = inr (f n)
    go f g false (inl q) = inl q
    go f g false (inr n) = inr (g n)

module _ (sha256 : Bytes → String) (k : String) where
  Absent : ChunkStore → Type 0
  Absent s = chunk_at k s ≡ none

  move-Absent :
      (s : ChunkStore) (j : String) {c : Chunk}
      → chunk_at j s ≡ some c
      → Absent s
      → Absent (move_to_end c s)
  unfolding Absent move_to_end lookup
  move-Absent s j {c = c} h a = ground (
    arith,
    a,
    h,
    lookup-key chunk_key j s.chunks h,
    lookup-append chunk_key k (delete chunk_key (c.key) s.chunks) (c ∷ []),
    lookup-delete chunk_key (c.key) k s.chunks,
    ==_iff (c.key) k,
  )

  insert-Absent :
      (content : Bytes) (s : ChunkStore)
      → (sha256 content == k) ≡ false
      → Absent s
      → Absent (insert sha256 content s)
  unfolding Absent insert lookup
  insert-Absent content s n a =
      let kept = (evict_until_fits (length content) s.max_bytes s.used s.chunks).1 in
      ground (
        arith,
        n,
        lookup-append chunk_key k kept ((record { key = sha256 content; content = content }) ∷ []),
        evict-lookup sha256 (length content) s.max_bytes s.used s.chunks k a,
      )

  put-Absent :
      (content : Bytes) (s : ChunkStore)
      → (sha256 content == k) ≡ false
      → Absent s
      → Absent (put sha256 content s).0
  unfolding put
  put-Absent content s n a = elim (Bool-cases (ltb s.max_bytes (length content))) [
    | inl e ↦ rw e a
    | inr e ↦ rw e (elim (Option-cases (chunk_at (sha256 content) s)) [
      | inl x ↦ rw x (insert-Absent content s n a)
      | inr (c, x) ↦ rw x (move-Absent s (sha256 content) x a)
    ])
  ]

  fetch_all-Absent :
      (holders : String → List (String → Bytes)) (hs : List String) (s : ChunkStore)
      → ¬ In k hs
      → Absent s
      → Absent (fetch_all sha256 holders hs s).0
  unfolding fetch_all
  fetch_all-Absent holders [] s o a = a
  fetch_all-Absent holders (h ∷ hs) s o a =
      go (λ t. fetch_all-Absent holders hs t (λ i. o (inr i))) (holders h) refl
    where
      go :
          ((t : ChunkStore) → Absent t → Absent (fetch_all sha256 holders hs t).0)
          → (ps : List (String → Bytes)) → holders h ≡ ps
          → Absent (fetch_all sha256 holders (h ∷ hs) s).0
      go ih [] e = rw (e, fetch_all) a
      go ih (peer ∷ ps) e =
          let p = put sha256 (peer h) s in
          rw (e, fetch_all)
            (elim (Bool-cases (sha256 (peer h) == h)) [
              | inr n ↦ rw n a
              | inl y ↦
                  let w = put-Absent (peer h) s (other y (Bool-cases (sha256 (peer h) == k))) a in
                  rw y (elim (Option-cases (stored p)) [
                    | inl n ↦
                        rw (n, fetched-store sha256 h (fetch_all sha256 holders hs (p.0)))
                          (ih (p.0) w)
                    | inr (x, n) ↦ rw n w
                  ])
            ])
        where
          other :
              (sha256 (peer h) == h) ≡ true
              → ((sha256 (peer h) == k) ≡ true) ⊎ ((sha256 (peer h) == k) ≡ false)
              → (sha256 (peer h) == k) ≡ false
          other y (inr f) = f
          other y (inl t) =
              absurd (
                o (inl (sym ((==_iff (sha256 (peer h)) k).0 t) ∙ (==_iff (sha256 (peer h)) h).0 y)))

  -- Bytes that a peer serves under another digest never enter the store: after an exchange, successful or
  -- not, no key is held that was not held before and that the manifest does not name.
  pub fetch_delta-rejects :
      (m : Manifest) (holders : String → List (String → Bytes)) (s : ChunkStore)
      → ¬ In k m.chunks
      → chunk_at k s ≡ none
      → chunk_at k (fetch_delta sha256 m holders s).0 ≡ none
  unfolding fetch_delta missing_chunks Absent
  fetch_delta-rejects m holders s o a =
      fetch_all-Absent holders (missing_chunks m s) s (λ i. o (missing_after-In [] s m.chunks k i))
        a
