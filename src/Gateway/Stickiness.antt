-- ===== src/Gateway/Stickiness.antt =====
-- A session stays with the endpoint that it was given, and the map keeps within its limit.
use fallow.Prelude.{
  is_empty, ℕ, suc, ◌+◌, ◌<◌, Bool, ◌&&◌, Option, none, some, String, List, [], ◌∷◌, ◌++◌, ◌≡◌,
  refl, sym, subst, arith, inl, inr, length, ltb, Bool-cases, Option-cases,
}
use fallow.Prelude.Eq.{◌==◌, String_eq, ℕ_eq, Pair_eq, ==_iff, ==_refl}
use fallow.Prelude.Table.{lookup, delete, lookup-key, lookup-append, lookup-delete}
use fallow.Prelude.Members.{In, head?-filter, filter-head?}
use fallow.Protocol.{ReplicaEndpoint}
use fallow.Gateway.Affinity.{
  hit, EndpointKey, endpoint_key, Entry, AffinityMap, entry_session, expire, touch, trim, remember,
  forget, bound_candidate, replace, reuse, resolve,
}

-- The entry is the session's only one, and the newest.
abbrev pub EndsWith : Entry → List Entry → Type 0
EndsWith e es = (xs : List Entry) × (es ≡ xs ++ e ∷ []) × (lookup entry_session e.session xs ≡ none)

touch-EndsWith : (e : Entry) (es : List Entry) → EndsWith e (touch e es)
unfolding touch
touch-EndsWith e es = (
  delete entry_session e.session es,
  refl,
  ground (arith, lookup-delete entry_session e.session e.session es, ==_refl e.session),
)

lookup-tail :
    (k : String) (x : Entry) (xs : List Entry)
    → lookup entry_session k (x ∷ xs) ≡ none
    → lookup entry_session k xs ≡ none
unfolding lookup
lookup-tail k x xs h = ground (arith, h)

trim-EndsWith :
    (limit : ℕ) (e : Entry) (xs : List Entry)
    → 0 < limit
    → lookup entry_session e.session xs ≡ none
    → EndsWith e (trim limit (xs ++ e ∷ []))
unfolding trim
trim-EndsWith limit e [] p h = ([], ground arith, h)
trim-EndsWith limit e (x ∷ xs) p h = elim (Bool-cases (ltb limit (suc (length (xs ++ e ∷ []))))) [
  | inl k ↦ rw k (trim-EndsWith limit e xs p (lookup-tail e.session x xs h))
  | inr k ↦ rw k (x ∷ xs, refl, h)
]

expire-EndsWith :
    (ttl now : ℕ) (e : Entry) (xs : List Entry)
    → now < e.touched_at + ttl
    → lookup entry_session e.session xs ≡ none
    → EndsWith e (expire ttl now (xs ++ e ∷ []))
unfolding expire
expire-EndsWith ttl now e [] p h = ([], ground (arith, p), h)
expire-EndsWith ttl now e (x ∷ xs) p h = elim (Bool-cases (ltb now (x.touched_at + ttl))) [
  | inl k ↦ rw k (x ∷ xs, refl, h)
  | inr k ↦ rw k (expire-EndsWith ttl now e xs p (lookup-tail e.session x xs h))
]

lookup-EndsWith :
    (e : Entry) (es : List Entry) → EndsWith e es → lookup entry_session e.session es ≡ some e
unfolding lookup
lookup-EndsWith e es (xs, q, h) =
    rw q (ground (arith, h, lookup-append entry_session e.session xs (e ∷ []), ==_refl e.session))

abbrev entry_for : String → ReplicaEndpoint → ℕ → Entry
entry_for s r now = record { session = s; endpoint = endpoint_key r; touched_at = now }

remember-EndsWith :
    (s : String) (r : ReplicaEndpoint) (now : ℕ) (m : AffinityMap)
    → 0 < m.limit
    → EndsWith (entry_for s r now) (remember s r now m).entries
unfolding remember
remember-EndsWith s r now m p =
    let e = entry_for s r now in
    let t = touch-EndsWith e (expire m.ttl now m.entries) in
    rw (t.1) (trim-EndsWith m.limit e t.0 p t.2)

-- A candidate with the endpoint is found, and what is found has it.
bound_candidate-found :
    (k : EndpointKey) (rs : List ReplicaEndpoint) {r : ReplicaEndpoint}
    → bound_candidate k rs ≡ some r
    → endpoint_key r ≡ k
unfolding bound_candidate
bound_candidate-found k rs {r = r} h =
    (==_iff (endpoint_key r) k).0 (head?-filter (λ x. endpoint_key x == k) rs h)

bound_candidate-In :
    (rs : List ReplicaEndpoint) (r : ReplicaEndpoint)
    → In r rs
    → (x : ReplicaEndpoint) × (bound_candidate (endpoint_key r) rs ≡ some x)
unfolding bound_candidate
bound_candidate-In rs r m =
    filter-head? (λ x. endpoint_key x == endpoint_key r) rs r m (==_refl (endpoint_key r))

module _ (pick : List ReplicaEndpoint → Option ReplicaEndpoint) where
  -- A session that resolves to an endpoint has its newest entry.
  replace-EndsWith :
      (s : String) (rs : List ReplicaEndpoint) (now : ℕ) (m : AffinityMap) {r : ReplicaEndpoint}
      → 0 < m.limit
      → (replace pick s rs now m).1.endpoint ≡ some r
      → EndsWith (entry_for s r now) (replace pick s rs now m).0.entries
  unfolding replace
  replace-EndsWith s rs now m {r = r} p h = elim (Option-cases (pick rs)) [
    | inl e ↦ absurd (ground (arith, e, h))
    | inr (x, e) ↦
        let same : x ≡ r = ground (arith, e, h) in
        rw (e, replace)
          (subst (λ y. EndsWith (entry_for s y now) (remember s x now m).entries) same
            (remember-EndsWith s x now m p))
  ]

  reuse-EndsWith :
      (s : String) (rs : List ReplicaEndpoint) (keep : Bool) (now : ℕ) (m : AffinityMap) (e : Entry)
      {r : ReplicaEndpoint}
      → 0 < m.limit
      → e.session ≡ s
      → (reuse pick s rs keep now m e).1.endpoint ≡ some r
      → EndsWith (entry_for s r now) (reuse pick s rs keep now m e).0.entries
  unfolding reuse forget
  reuse-EndsWith s rs keep now m e {r = r} p q h =
      elim (Option-cases (bound_candidate e.endpoint rs)) [
        | inr (x, b) ↦
            let given : x ≡ r = ground (arith, b, h) in
            let found : endpoint_key r ≡ e.endpoint =
              subst (λ y. endpoint_key y ≡ e.endpoint) given
                (bound_candidate-found e.endpoint rs b) in
            rw (b, reuse)
              (subst (λ z. EndsWith z (touch (record e { touched_at = now }) m.entries))
                (same_entry q found) (touch-EndsWith (record e { touched_at = now }) m.entries))
        | inl b ↦ elim (Bool-cases (keep && is_empty rs)) [
          | inl k ↦ absurd (ground (arith, b, k, h))
          | inr k ↦
              rw (b, k, reuse)
                (replace-EndsWith s rs now (forget s m) {r = r} p (ground (arith, b, k, h)))
        ]
      ]
    where
      same_entry :
          e.session ≡ s
          → endpoint_key r ≡ e.endpoint
          → (record e { touched_at = now }) ≡ entry_for s r now
      same_entry a b = ground (arith, a, b)

  resolve-EndsWith :
      (s : String) (rs : List ReplicaEndpoint) (keep : Bool) (now : ℕ) (m : AffinityMap)
      {r : ReplicaEndpoint}
      → 0 < m.limit
      → (resolve pick (some s) rs keep now m).1.endpoint ≡ some r
      → EndsWith (entry_for s r now) (resolve pick (some s) rs keep now m).0.entries
  unfolding resolve
  resolve-EndsWith s rs keep now m {r = r} p h =
      let live : AffinityMap = record m { entries = expire m.ttl now m.entries } in
      elim (Option-cases (lookup entry_session s live.entries)) [
        | inl n ↦ rw (n, resolve) (replace-EndsWith s rs now live {r = r} p (ground (arith, n, h)))
        | inr (e, n) ↦
            rw (n, resolve)
              (reuse-EndsWith s rs keep now live e {r = r} p
                (lookup-key entry_session s live.entries n) (ground (arith, n, h)))
      ]

  replace-ttl :
      (s : String) (rs : List ReplicaEndpoint) (now : ℕ) (m : AffinityMap)
      → (replace pick s rs now m).0.ttl ≡ m.ttl
  unfolding replace remember
  replace-ttl s rs now m = elim (Option-cases (pick rs)) [
    | inl e ↦ rw (e, replace) refl
    | inr (x, e) ↦ rw (e, replace) refl
  ]

  reuse-ttl :
      (s : String) (rs : List ReplicaEndpoint) (keep : Bool) (now : ℕ) (m : AffinityMap) (e : Entry)
      → (reuse pick s rs keep now m e).0.ttl ≡ m.ttl
  unfolding reuse forget
  reuse-ttl s rs keep now m e = elim (Option-cases (bound_candidate e.endpoint rs)) [
    | inl b ↦ ground (arith, b, replace-ttl s rs now (forget s m))
    | inr (x, b) ↦ ground (arith, b)
  ]

  resolve-ttl :
      (s : String) (rs : List ReplicaEndpoint) (keep : Bool) (now : ℕ) (m : AffinityMap)
      → (resolve pick (some s) rs keep now m).0.ttl ≡ m.ttl
  unfolding resolve
  resolve-ttl s rs keep now m =
      let live : AffinityMap = record m { entries = expire m.ttl now m.entries } in
      elim (Option-cases (lookup entry_session s live.entries)) [
        | inl n ↦ rw (n, resolve) (replace-ttl s rs now live)
        | inr (e, n) ↦ rw (n, resolve) (reuse-ttl s rs keep now live e)
      ]

  resolve-hit :
      (s : String) (rs : List ReplicaEndpoint) (keep : Bool) (now : ℕ) (m : AffinityMap) (e : Entry)
      (r : ReplicaEndpoint)
      → lookup entry_session s (expire m.ttl now m.entries) ≡ some e
      → e.endpoint ≡ endpoint_key r
      → In r rs
      → (let d = (resolve pick (some s) rs keep now m).1 in
          (d.state ≡ hit)
          × ((y : ReplicaEndpoint) × (d.endpoint ≡ some y) × (endpoint_key y ≡ endpoint_key r)))
  unfolding resolve reuse
  resolve-hit s rs keep now m e r l q i =
      let b = bound_candidate-In rs r i in
      let c : bound_candidate e.endpoint rs ≡ some (b.0) =
        subst (λ k. bound_candidate k rs ≡ some (b.0)) (sym q) (b.1) in
      (
        ground (arith, l, c),
        (b.0, ground (arith, l, c), bound_candidate-found (endpoint_key r) rs (b.1)),
      )

  -- In a map whose limit is not 0, a session that was given an endpoint is given the same endpoint
  -- again, as a hit, when the very next call of resolve on the map is for the same session, comes within
  -- the time to live and still has the endpoint among its candidates.
  pub resolve_again :
      (s : String) (rs : List ReplicaEndpoint) (keep : Bool) (now : ℕ) (m : AffinityMap)
      {r : ReplicaEndpoint}
      → 0 < m.limit
      → (resolve pick (some s) rs keep now m).1.endpoint ≡ some r
      → (later : ℕ) (others : List ReplicaEndpoint) (x : Bool) → later < now + m.ttl
      → In r others
      → (let again =
            (resolve pick (some s) others x later (resolve pick (some s) rs keep now m).0).1 in
          (again.state ≡ hit)
          × ((y : ReplicaEndpoint) × (again.endpoint ≡ some y) × (endpoint_key y ≡ endpoint_key r)))
  unfolding resolve
  resolve_again s rs keep now m {r = r} p h later others x t i =
      let one = (resolve pick (some s) rs keep now m).0 in
      let e = entry_for s r now in
      let (xs, q, n) = resolve-EndsWith s rs keep now m p h in
      let time = resolve-ttl s rs keep now m in
      resolve-hit s others x later one e r
        (rw (q)
          (lookup-EndsWith e _ (expire-EndsWith one.ttl later e xs (omega (arith, t, time)) n)))
        refl i
