-- ===== src/Registry/Liveness.antt =====
-- The endpoints that routing is offered, against the snapshots that the scheduler is given.
use fallow.Prelude.{
  subst, ℕ, ◌≤◌, Bool, true, false, not, ◌&&◌, String, List, [], ◌∷◌, ◌≡◌, refl, ap, arith, any,
  filter, map, inl, inr, All, All-append, All-map, All-mono,
}
use fallow.Prelude.Eq.{◌==◌, String_eq}
use fallow.Prelude.Rank.{by, ascending}
use fallow.Prelude.Members.{In, In-map, All-In, In-filter, filter-In, In-insertion_sort}
use fallow.Protocol.{AgentSnapshot, ReplicaEndpoint, ReplicaStatus, ReplicaState}
use fallow.Scheduler.Eligibility.{agent_is_fit, has_warm_replica, is_warm}
use fallow.Registry.Rows.{AgentRow, Tables, RegistryConfig, is_older, is_revoked}
use fallow.Registry.Views.{
  snapshots, snapshot_from_row, registered_rows, replica_endpoints, ready_endpoints_for_row,
  concat_endpoints, is_routable, is_ready,
}

-- A snapshot of the endpoint's agent that the scheduler finds fit and warm.
pub record IsBacked (model : String) (seen : List AgentSnapshot) (e : ReplicaEndpoint)
    : Type 0 where
  pub agent : AgentSnapshot
  pub listed : In agent seen
  pub same_agent : agent.agent_id ≡ e.agent_id
  pub same_host : agent.host ≡ e.host
  pub fit : agent_is_fit agent ≡ true
  pub warm : has_warm_replica agent model ≡ true
  pub for_model : e.model_id ≡ model

any-In : {A : Type 0} (p : A → Bool) (xs : List A) (x : A) → In x xs → p x ≡ true → any p xs ≡ true
any-In p [] x m h = absurd m
any-In p (y ∷ ys) x (inl e) h = ground (arith, ap p e, h)
any-In p (y ∷ ys) x (inr m) h = ground (arith, any-In p ys x m h)

fit_row :
    (cfg : RegistryConfig) (now : ℕ) (a : AgentRow)
    → is_routable cfg now a ≡ true
    → agent_is_fit (snapshot_from_row a false) ≡ true
unfolding agent_is_fit
fit_row cfg now a r = ground (arith, r)

warm_ready : (s : ReplicaState) → is_ready s ≡ true → is_warm s ≡ true
warm_ready ReplicaState.loading h = absurd (cc)
warm_ready ReplicaState.ready h = refl
warm_ready ReplicaState.suspended h = refl
warm_ready ReplicaState.stopped h = absurd (cc)

warm_row :
    (model : String) (a : AgentRow) (x : ReplicaStatus)
    → In x (filter (λ r. r.model_id == model && is_ready r.state) a.replicas)
    → has_warm_replica (snapshot_from_row a false) model ≡ true
unfolding has_warm_replica
warm_row model a x k =
    let found = In-filter (λ r. r.model_id == model && is_ready r.state) a.replicas x k in
    any-In (λ r. r.model_id == model && is_warm r.state) a.replicas x found.0
      (ground (arith, found.1, warm_ready x.state))

module _ (cfg : RegistryConfig) (model : String) (now : ℕ) (db : Tables)
    (order : cfg.suspect_after ≤ cfg.offline_after) where
  -- A routable row's snapshot is fresh.
  In-snapshots :
      (a : AgentRow)
      → In a db.agents
      → is_routable cfg now a ≡ true
      → In (snapshot_from_row a false) (snapshots cfg now db)
  unfolding snapshots
  In-snapshots a m r =
      let unsuspected : is_older cfg.suspect_after now a ≡ false = ground (arith, r) in
      let online : not (is_older cfg.offline_after now a) ≡ true = ground (arith, r, order) in
      let row : In a (registered_rows db) =
        In-insertion_sort (by ascending (λ x. x.registered_at))
          (filter (λ x. not (is_revoked x)) db.agents) a
          (filter-In (λ x. not (is_revoked x)) db.agents a m (ground (arith, r))) in
      subst (λ b. In (snapshot_from_row a b) (snapshots cfg now db)) unsuspected
        (In-map (λ x. snapshot_from_row x (is_older cfg.suspect_after now x))
          (filter (λ x. not (is_older cfg.offline_after now x)) (registered_rows db)) a
          (filter-In (λ x. not (is_older cfg.offline_after now x)) (registered_rows db) a row
            online))

  ready_endpoints-IsBacked :
      (a : AgentRow)
      → In a db.agents
      → is_routable cfg now a ≡ true
      → All (IsBacked model (snapshots cfg now db)) (ready_endpoints_for_row model a)
  unfolding ready_endpoints_for_row
  ready_endpoints-IsBacked a m r =
      All-map (λ x. In x ready) (IsBacked model (snapshots cfg now db))
        (λ x. record {
          agent_id = a.agent_id;
          host = a.host;
          port = x.port;
          model_id = model;
          inflight = x.inflight;
        })
        (λ x k. record {
          agent = snapshot_from_row a false;
          listed = In-snapshots a m r;
          same_agent = refl;
          same_host = refl;
          fit = fit_row cfg now a r;
          warm = warm_row model a x k;
          for_model = refl;
        })
        ready (All-In ready)
    where
      ready : List ReplicaStatus
      ready = filter (λ x. x.model_id == model && is_ready x.state) a.replicas

  endpoints-IsBacked :
      (rows : List AgentRow)
      → All (λ a. In a db.agents × (is_routable cfg now a ≡ true)) rows
      → All
          (IsBacked model (snapshots cfg now db))
          (concat_endpoints (map (ready_endpoints_for_row model) rows))
  unfolding concat_endpoints
  endpoints-IsBacked [] h = tt
  endpoints-IsBacked (a ∷ rows) h =
      All-append (IsBacked model (snapshots cfg now db)) (ready_endpoints_for_row model a)
        (concat_endpoints (map (ready_endpoints_for_row model) rows))
        (ready_endpoints-IsBacked a h.0.0 h.0.1) (endpoints-IsBacked rows h.1)

  -- If an agent is suspect before it is offline, every endpoint that routing is offered for a model
  -- has a snapshot of its agent, taken at the same time, that the scheduler finds fit and warm for it.
  pub replica_endpoints-IsBacked :
      All (IsBacked model (snapshots cfg now db)) (replica_endpoints cfg model now db)
  unfolding replica_endpoints
  replica_endpoints-IsBacked = endpoints-IsBacked (filter (is_routable cfg now) db.agents) (
      All-mono (λ a. In a (filter (is_routable cfg now) db.agents))
        (λ a. In a db.agents × (is_routable cfg now a ≡ true))
        (λ a m. In-filter (is_routable cfg now) db.agents a m)
        (filter (is_routable cfg now) db.agents) (All-In (filter (is_routable cfg now) db.agents)))
