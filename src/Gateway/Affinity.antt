-- ===== src/Gateway/Affinity.antt =====
-- gateway/affinity.py: the sliding-TTL LRU map from sessions to endpoints. `pick` and the clock's
-- reading are arguments; `ttl` is in microseconds.
use fallow.Prelude.{
  is_empty, ℕ, ◌+◌, Bool, ◌&&◌, Option, none, some, String, List, [], ◌∷◌, ◌++◌, length, filter,
  head?, ltb, if◌then◌else◌,
}
use fallow.Prelude.Eq.{◌==◌, String_eq, ℕ_eq, Pair_eq}
use fallow.Prelude.Table.{lookup, delete}
use fallow.Protocol.{ReplicaEndpoint}

pub data AffinityState : Type 0 where
  none_used hit miss : AffinityState

pub record AffinityDecision : Type 0 where
  pub endpoint : Option ReplicaEndpoint
  pub state : AffinityState

abbrev pub EndpointKey : Type 0
EndpointKey = String × (String × (ℕ × String))

unfoldable pub endpoint_key : ReplicaEndpoint → EndpointKey
endpoint_key r = (r.agent_id, (r.host, (r.port, r.model_id)))

pub record Entry : Type 0 where
  pub session : String
  pub endpoint : EndpointKey
  pub touched_at : ℕ

-- Oldest first.
pub record AffinityMap : Type 0 where
  pub ttl : ℕ
  pub limit : ℕ
  pub entries : List Entry

abbrev pub entry_session : Entry → String
entry_session e = e.session

-- `now - touched_at < ttl` on signed times.
unfoldable pub expire : ℕ → ℕ → List Entry → List Entry
expire ttl now [] = []
expire ttl now (e ∷ es) =
    let rest = expire ttl now es in if ltb now (e.touched_at + ttl) then e ∷ es else rest

-- The entry assigned and moved to the end.
unfoldable pub touch : Entry → List Entry → List Entry
touch e es = delete entry_session e.session es ++ e ∷ []

-- The loop that pops the oldest entry while there are more than `limit`.
unfoldable pub trim : ℕ → List Entry → List Entry
trim limit [] = []
trim limit (e ∷ es) =
    let rest = trim limit es in if ltb limit (length (e ∷ es)) then rest else e ∷ es

unfoldable pub remember : String → ReplicaEndpoint → ℕ → AffinityMap → AffinityMap
unfolding expire touch trim
remember session r now m = record m {
  entries = trim m.limit (
      touch (record { session = session; endpoint = endpoint_key r; touched_at = now })
        (expire m.ttl now m.entries));
}

unfoldable pub forget : String → AffinityMap → AffinityMap
forget session m = record m { entries = delete entry_session session m.entries }

-- The first candidate with the entry's endpoint.
unfoldable pub bound_candidate : EndpointKey → List ReplicaEndpoint → Option ReplicaEndpoint
unfolding endpoint_key
bound_candidate k candidates = head? (filter (λ r. endpoint_key r == k) candidates)

module _ (pick : List ReplicaEndpoint → Option ReplicaEndpoint) where
  -- The session gets a replacement.
  unfoldable pub replace :
      String → List ReplicaEndpoint → ℕ → AffinityMap → AffinityMap × AffinityDecision
  unfolding remember
  replace session candidates now m = elim (pick candidates) [
    | none ↦ (m, record { endpoint = none; state = miss })
    | some r ↦ (remember session r now m, record { endpoint = some r; state = miss })
  ]

  -- What becomes of a session with an entry.
  unfoldable pub reuse :
      String
      → List ReplicaEndpoint
      → Bool
      → ℕ
      → AffinityMap
      → Entry
      → AffinityMap × AffinityDecision
  unfolding bound_candidate touch replace forget
  reuse session candidates preserve now m e = elim (bound_candidate e.endpoint candidates) [
    | some r ↦ (
      record m { entries = touch (record e { touched_at = now }) m.entries },
      record { endpoint = some r; state = hit },
    )
    | none ↦
        if preserve && is_empty candidates
        then (m, record { endpoint = none; state = miss })
        else replace session candidates now (forget session m)
  ]

  unfoldable pub resolve :
      Option String → List ReplicaEndpoint → Bool → ℕ → AffinityMap → AffinityMap × AffinityDecision
  unfolding expire reuse replace
  resolve none candidates preserve now m =
      (m, record { endpoint = pick candidates; state = none_used })
  resolve (some session) candidates preserve now m =
      let live = record m { entries = expire m.ttl now m.entries } in
      elim (lookup entry_session session live.entries) [
        | some e ↦ reuse session candidates preserve now live e
        | none ↦ replace session candidates now live
      ]
