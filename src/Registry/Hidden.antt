-- ===== src/Registry/Hidden.antt =====
-- What a revoked agent's rows are hidden from.
use fallow.Prelude.{
  All_of, Bool, true, false, not, ◌&&◌, none, some, String, List, [], ◌∷◌, ◌≡◌, ◌≢◌, refl, subst,
  arith, filter, map, Bool-cases, Option-cases, inl, inr, All, All-append, All-map,
}
use fallow.Prelude.Eq.{◌==◌, ==_iff, String_eq, ℕ_eq}
use fallow.Prelude.Table.{lookup}
use fallow.Registry.Rows.{AgentRow, Tables, gives, agent_key, device_key, is_revoked}
use fallow.Registry.Presence.{site_route, authenticate_agent}
use fallow.Registry.Views.{is_ready, ready_endpoints_for_row, concat_endpoints}
use fallow.Registry.Revoked.{AllRevoked}

-- Nothing finds the agent among the rows that are not revoked.
lookup-revoked :
    (agent : String) (rows : List AgentRow)
    → AllRevoked agent rows
    → lookup agent_key agent (filter (λ a. not (is_revoked a)) rows) ≡ none
unfolding lookup
lookup-revoked agent [] h = refl
lookup-revoked agent (a ∷ rows) h = elim (Bool-cases (is_revoked a)) [
  | inl e ↦ rw e (lookup-revoked agent rows h.1)
  | inr e ↦ rw (e, stranger e) (lookup-revoked agent rows h.1)
]
  where
    stranger : is_revoked a ≡ false → (a.agent_id == agent) ≡ false
    stranger e = elim (Bool-cases (a.agent_id == agent)) [
      | inl q ↦ absurd (ground (arith, e, h.0 ((==_iff {A = String} a.agent_id agent).0 q)))
      | inr q ↦ q
    ]

-- The rows that are not revoked are other agents'.
pub others :
    (agent : String) (p : AgentRow → Bool) (rows : List AgentRow)
    → ((a : AgentRow) → p a ≡ true → is_revoked a ≡ false)
    → AllRevoked agent rows
    → All (λ a. a.agent_id ≢ agent) (filter p rows)
others agent p [] k h = tt
others agent p (a ∷ rows) k h = elim (Bool-cases (p a)) [
  | inl e ↦ rw e (λ q. absurd (ground (arith, k a e, h.0 q)), others agent p rows k h.1)
  | inr e ↦ rw e (others agent p rows k h.1)
]

pub ready_endpoints-others :
    (agent model : String) (rows : List AgentRow)
    → All (λ a. a.agent_id ≢ agent) rows
    → All (λ e. e.agent_id ≢ agent) (concat_endpoints (map (ready_endpoints_for_row model) rows))
unfolding concat_endpoints ready_endpoints_for_row
ready_endpoints-others agent model [] h = tt
ready_endpoints-others agent model (a ∷ rows) h =
    All-append (λ e. e.agent_id ≢ agent) (ready_endpoints_for_row model a)
      (concat_endpoints (map (ready_endpoints_for_row model) rows))
      (All-map (λ r. Unit {0}) (λ e. e.agent_id ≢ agent)
        (λ r. record {
          agent_id = a.agent_id;
          host = a.host;
          port = r.port;
          model_id = model;
          inflight = r.inflight;
        })
        (λ r u. h.0) (filter (λ r. r.model_id == model && is_ready r.state) a.replicas)
        (All_of (λ r. Unit {0}) (λ r. tt)
          (filter (λ r. r.model_id == model && is_ready r.state) a.replicas)))
      (ready_endpoints-others agent model rows h.1)

-- The row that a token finds.
lookup-AllRevoked :
    (agent h : String) (rows : List AgentRow) {a : AgentRow}
    → AllRevoked agent rows
    → lookup device_key h rows ≡ some a
    → a.agent_id ≡ agent
    → is_revoked a ≡ true
unfolding lookup
lookup-AllRevoked agent h [] k e = absurd (cc)
lookup-AllRevoked agent h (b ∷ rows) {a = a} k e = elim (Bool-cases (device_key b == h)) [
  | inl q ↦
      let found : b ≡ a = ground (arith, e, q) in
      subst (λ r. r.agent_id ≡ agent → is_revoked r ≡ true) found k.0
  | inr q ↦ lookup-AllRevoked agent h rows {a = a} k.1 (ground (arith, e, q))
]

-- No token authenticates as the agent.
pub authenticate_agent-others :
    (hash : String → String) (agent bearer : String) (db : Tables)
    → AllRevoked agent db.agents
    → authenticate_agent hash bearer db ≢ gives (some agent)
unfolding authenticate_agent
authenticate_agent-others hash agent bearer db h q =
    elim (Option-cases (lookup device_key (hash bearer) db.agents)) [
      | inl e ↦ absurd (ground (arith, e, q))
      | inr (a, e) ↦ elim (Bool-cases (is_revoked a)) [
        | inl f ↦ absurd (ground (arith, e, f, q))
        | inr f ↦
            absurd (ground (arith, e, f, q, lookup-AllRevoked agent (hash bearer) db.agents h e))
      ]
    ]

pub site_route-revoked :
    (agent : String) (db : Tables) → AllRevoked agent db.agents → site_route agent db ≡ none
unfolding site_route
site_route-revoked agent db h = rw (lookup-revoked agent db.agents h, site_route) refl
