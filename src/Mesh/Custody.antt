-- ===== src/Mesh/Custody.antt =====
-- What the store holds: each chunk's bytes hash to its key, whatever the peers serve, and the cap.
use fallow.Prelude.{
  ℕ, ◌+◌, ◌-◌, ◌≤◌, false, none, some, String, List, [], ◌∷◌, ◌++◌, ◌≡◌, refl, sym, ap, ◌∙◌, subst,
  arith, inl, inr, All, All-append, length, ltb, Bool-cases, Option-cases,
}
use fallow.Prelude.Eq.{◌==◌, String_eq, ==_iff, ==_refl}
use fallow.Prelude.Table.{
  lookup, delete, IsKeyed, lookup-key, lookup-append, lookup-delete, IsKeyed-append, IsKeyed-delete,
}
use fallow.Mesh.Store.{
  Bytes, Outcome, ok, raised, Chunk, ChunkStore, Manifest, chunk_key, chunk_at, move_to_end,
  evict_until_fits, get, insert, put, missing_chunks, fetched, stored, fetch_all, fetch_delta,
}

unfoldable pub total : List Chunk → ℕ
total [] = 0
total (c ∷ cs) = length c.content + total cs

total-append : (cs : List Chunk) (c : Chunk) → total (cs ++ c ∷ []) ≡ total cs + length c.content
unfolding total
total-append [] c = omega arith
total-append (x ∷ cs) c = omega (arith, total-append cs c)

delete-absent :
    (k : String) (cs : List Chunk) → lookup chunk_key k cs ≡ none → delete chunk_key k cs ≡ cs
unfolding lookup delete
delete-absent k [] h = refl
delete-absent k (c ∷ cs) h = ground (arith, delete-absent k cs)

total-delete :
    (k : String) (cs : List Chunk) {c : Chunk}
    → IsKeyed chunk_key cs
    → lookup chunk_key k cs ≡ some c
    → total (delete chunk_key k cs) + length c.content ≡ total cs
unfolding lookup delete total
total-delete k [] u h = absurd (cc)
total-delete k (x ∷ cs) {c = c} u h = elim (Bool-cases (x.key == k)) [
  | inl e ↦
      let same : x ≡ c = ground (arith, e, h) in
      ground
        (arith, e, (==_iff (x.key) k).0 e, delete-absent k cs, u.0, ap (λ y. length y.content) same)
  | inr e ↦ ground (arith, e, total-delete k cs {c = c} u.1 (ground (arith, e, h)))
]

module _ (P : Chunk → Type 0) where
  All-delete : (k : String) (cs : List Chunk) → All P cs → All P (delete chunk_key k cs)
  unfolding delete
  All-delete k [] h = tt
  All-delete k (c ∷ cs) h = ground (arith, h.0, All-delete k cs h.1)

  All_lookup :
      (k : String) (cs : List Chunk) {c : Chunk} → lookup chunk_key k cs ≡ some c → All P cs → P c
  unfolding lookup
  All_lookup k [] h a = absurd (cc)
  All_lookup k (x ∷ cs) {c = c} h a = elim (Bool-cases (x.key == k)) [
    | inl e ↦ let same : x ≡ c = ground (arith, e, h) in subst P same a.0
    | inr e ↦ All_lookup k cs (ground (arith, e, h)) a.1
  ]

module _ (sha256 : Bytes → String) where
  abbrev pub IsAddressed : Chunk → Type 0
  IsAddressed c = sha256 c.content ≡ c.key

  -- The bytes in use are those of the chunks, within the cap; the keys are distinct; each chunk is
  -- addressed by its content.
  pub record IsHonest (s : ChunkStore) : Type 0 where
    pub accounted : s.used ≡ total s.chunks
    pub capped : s.used ≤ s.max_bytes
    pub keyed : IsKeyed chunk_key s.chunks
    pub addressed : All IsAddressed s.chunks

  pub evict-lookup :
      (inc cap used : ℕ) (cs : List Chunk) (k : String)
      → lookup chunk_key k cs ≡ none
      → lookup chunk_key k (evict_until_fits inc cap used cs).1 ≡ none
  unfolding evict_until_fits lookup
  evict-lookup inc cap used [] k h = refl
  evict-lookup inc cap used (c ∷ cs) k h =
      ground (arith, h, evict-lookup inc cap (used - length c.content) cs k)

  evict-holds :
      (inc cap used : ℕ) (cs : List Chunk)
      → inc ≤ cap
      → used ≡ total cs
      → IsKeyed chunk_key cs
      → All IsAddressed cs
      → (let r = evict_until_fits inc cap used cs in
          (r.0 ≡ total (r.1)) × r.0 + inc ≤ cap × IsKeyed chunk_key (r.1) × All IsAddressed (r.1))
  unfolding evict_until_fits total
  evict-holds inc cap used [] f e u a = (e, omega (arith, e, f), tt, tt)
  evict-holds inc cap used (c ∷ cs) f e u a = elim (Bool-cases (ltb cap (used + inc))) [
    | inl k ↦ rw k (evict-holds inc cap (used - length c.content) cs f (omega (arith, e)) u.1 a.1)
    | inr k ↦ rw k (e, ground (arith, k), u, a)
  ]

  move_to_end-IsHonest :
      (s : ChunkStore) (k : String) {c : Chunk}
      → chunk_at k s ≡ some c
      → IsHonest s
      → IsHonest (move_to_end c s)
  unfolding move_to_end
  move_to_end-IsHonest s k {c = c} h v =
      let same : c.key ≡ k = lookup-key chunk_key k s.chunks h in
      let here : lookup chunk_key (c.key) s.chunks ≡ some c =
        subst (λ y. lookup chunk_key y s.chunks ≡ some c) (sym same) h in
      let left = delete chunk_key (c.key) s.chunks in
      record {
        accounted =
            omega
              (arith, v.accounted, total-append left c, total-delete (c.key) s.chunks v.keyed here);
        capped = v.capped;
        keyed =
            IsKeyed-append chunk_key left c
              (ground (arith, lookup-delete chunk_key (c.key) (c.key) s.chunks, ==_refl (c.key)))
              (IsKeyed-delete chunk_key (c.key) s.chunks v.keyed);
        addressed =
            All-append IsAddressed left (c ∷ [])
              (All-delete IsAddressed (c.key) s.chunks v.addressed)
              (All_lookup IsAddressed k s.chunks h v.addressed, tt);
      }

  insert-IsHonest :
      (content : Bytes) (s : ChunkStore)
      → length content ≤ s.max_bytes
      → chunk_at (sha256 content) s ≡ none
      → IsHonest s
      → IsHonest (insert sha256 content s)
  unfolding insert
  insert-IsHonest content s f h v =
      let kept = evict_until_fits (length content) s.max_bytes s.used s.chunks in
      let new : Chunk = record { key = sha256 content; content = content } in
      let r =
        evict-holds (length content) s.max_bytes s.used s.chunks f v.accounted v.keyed
          v.addressed in
      record {
        accounted = omega (arith, r.0, total-append (kept.1) new);
        capped = r.1;
        keyed =
            IsKeyed-append chunk_key (kept.1) new
              (evict-lookup (length content) s.max_bytes s.used s.chunks (sha256 content) h) r.2;
        addressed = All-append IsAddressed (kept.1) (new ∷ []) r.3 (refl, tt);
      }

  pub put-IsHonest :
      (content : Bytes) (s : ChunkStore) → IsHonest s → IsHonest (put sha256 content s).0
  unfolding put
  put-IsHonest content s v = elim (Bool-cases (ltb s.max_bytes (length content))) [
    | inl e ↦ rw e v
    | inr e ↦ rw e (elim (Option-cases (chunk_at (sha256 content) s)) [
      | inl n ↦ rw n (insert-IsHonest content s (ground (arith, e)) n v)
      | inr (c, h) ↦ rw h (move_to_end-IsHonest s (sha256 content) h v)
    ])
  ]

  pub get-IsHonest : (k : String) (s : ChunkStore) → IsHonest s → IsHonest (get k s).0
  unfolding get
  get-IsHonest k s v = elim (Option-cases (chunk_at k s)) [
    | inl n ↦ rw (n, get) v
    | inr (c, h) ↦ rw (h, get) (move_to_end-IsHonest s k h v)
  ]

  pub fetched-store : (h : String) (r : ChunkStore × Outcome (List String)) → (fetched h r).0 ≡ r.0
  fetched-store h (s, ok hs) = refl
  fetched-store h (s, raised e) = refl

  fetch_all-IsHonest :
      (holders : String → List (String → Bytes)) (hs : List String) (s : ChunkStore)
      → IsHonest s
      → IsHonest (fetch_all sha256 holders hs s).0
  unfolding fetch_all
  fetch_all-IsHonest holders [] s v = v
  fetch_all-IsHonest holders (h ∷ hs) s v =
      go (λ t. fetch_all-IsHonest holders hs t) (holders h) refl
    where
      go :
          ((t : ChunkStore) → IsHonest t → IsHonest (fetch_all sha256 holders hs t).0)
          → (ps : List (String → Bytes)) → holders h ≡ ps
          → IsHonest (fetch_all sha256 holders (h ∷ hs) s).0
      go ih [] e = rw (e, fetch_all) v
      go ih (peer ∷ ps) e =
          let p = put sha256 (peer h) s in
          let w = put-IsHonest (peer h) s v in
          rw (e, fetch_all)
            (elim (Bool-cases (sha256 (peer h) == h)) [
              | inr k ↦ rw k v
              | inl k ↦ rw k (elim (Option-cases (stored p)) [
                | inl n ↦ rw (n, fetched-store h (fetch_all sha256 holders hs (p.0))) (ih (p.0) w)
                | inr (x, n) ↦ rw n w
              ])
            ])

  -- Whatever the peers serve, fetching the missing chunks leaves the store honest, also when it fails:
  -- each chunk held is the one its key names, and the cap and the accounting hold.
  pub fetch_delta-IsHonest :
      (m : Manifest) (holders : String → List (String → Bytes)) (s : ChunkStore)
      → IsHonest s
      → IsHonest (fetch_delta sha256 m holders s).0
  unfolding fetch_delta
  fetch_delta-IsHonest m holders s v = fetch_all-IsHonest holders (missing_chunks m s) s v

  lookup-end :
      (k : String) (cs : List Chunk) (c : Chunk)
      → lookup chunk_key k cs ≡ none
      → c.key ≡ k
      → lookup chunk_key k (cs ++ c ∷ []) ≡ some c
  unfolding lookup
  lookup-end k cs c h e =
      ground (arith, h, lookup-append chunk_key k cs (c ∷ []), (==_iff (c.key) k).1 e)

  pub chunk_at-move :
      (k : String) (s : ChunkStore) {c : Chunk}
      → chunk_at k s ≡ some c
      → chunk_at k (move_to_end c s) ≡ some c
  unfolding move_to_end
  chunk_at-move k s {c = c} h =
      let same : c.key ≡ k = lookup-key chunk_key k s.chunks h in
      lookup-end k (delete chunk_key (c.key) s.chunks) c
        (ground (arith, lookup-delete chunk_key (c.key) k s.chunks, (==_iff (c.key) k).1 same)) same

  chunk_at-insert :
      (content : Bytes) (s : ChunkStore)
      → chunk_at (sha256 content) s ≡ none
      → chunk_at (sha256 content) (insert sha256 content s)
        ≡ some (record { key = sha256 content; content = content })
  unfolding insert
  chunk_at-insert content s h =
      lookup-end (sha256 content) _ _
        (evict-lookup (length content) s.max_bytes s.used s.chunks (sha256 content) h) refl

  pub get-held :
      (k : String) (s : ChunkStore) {c : Chunk} → chunk_at k s ≡ some c → (get k s).1 ≡ ok c.content
  unfolding get
  get-held k s h = rw (h, get) refl

  -- A chunk that was put is there: its bytes are returned under the key that `put` gave, unless other
  -- bytes of the same digest were held before.
  get-put :
      (content : Bytes) (s : ChunkStore)
      → length content ≤ s.max_bytes
      → ((c : Chunk) → chunk_at (sha256 content) s ≡ some c → c.content ≡ content)
      → ((put sha256 content s).1 ≡ ok (sha256 content))
        × ((get (sha256 content) (put sha256 content s).0).1 ≡ ok content)
  unfolding put
  get-put content s f k = rw (the_guard) (
    refl,
    elim (Option-cases (chunk_at (sha256 content) s)) [
      | inl n ↦
          rw n (get-held (sha256 content) (insert sha256 content s) (chunk_at-insert content s n))
      | inr (c, h) ↦ rw h (
          get-held (sha256 content) (move_to_end c s) (chunk_at-move (sha256 content) s h)
          ∙ ap ok (k c h))
    ],
  )
    where
      the_guard : ltb s.max_bytes (length content) ≡ false
      the_guard = ground (arith, f)
