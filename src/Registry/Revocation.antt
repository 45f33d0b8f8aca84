-- ===== src/Registry/Revocation.antt =====
-- Revocation is for good: what a revoked agent is kept from.
use fallow.Prelude.{
  ℕ, not, none, some, String, List, ◌≡◌, ◌≢◌, arith, filter, Bool-cases, inl, inr, All, All-map,
  All-filter,
}
use fallow.Prelude.Eq.{String_eq, ℕ_eq}
use fallow.Prelude.Table.{lookup-map, has}
use fallow.Prelude.Rank.{insertion_sort-All, by, ascending}
use fallow.Registry.Rows.{Tables, RegistryConfig, gives, agent_key, is_revoked, is_older}
use fallow.Registry.Presence.{on_agent, revoke_agent, update_agent, site_route, authenticate_agent}
use fallow.Registry.Views.{
  snapshots, snapshot_from_row, registered_rows, replica_endpoints, is_routable,
}
use fallow.Registry.Revoked.{IsGone, IsGone-update, IsGone-append, AllRevoked-revoke_row}
use fallow.Registry.Agents.{revoking, updated_for, updated_for-agent_id, run-keeps}
use fallow.Registry.Hidden.{
  site_route-revoked, others, ready_endpoints-others, authenticate_agent-others,
}
use fallow.Registry.Calls.{Call, run}

module _ (hash prefix : String → String) (cfg : RegistryConfig) (agent : String) where
  revoke_agent-IsGone :
      (now : ℕ) (db : Tables)
      → (revoke_agent agent now db).1 ≡ gives tt
      → IsGone agent (revoke_agent agent now db).0.agents
  unfolding revoke_agent on_agent update_agent
  revoke_agent-IsGone now db h = elim (Bool-cases (has agent_key agent db.agents)) [
    | inl e ↦
        rw (e, revoke_agent, on_agent)
          (
            ground (
              arith,
              lookup-map agent_key (updated_for agent (revoking now))
                  (updated_for-agent_id agent (revoking now)) agent db.agents,
              e,
            ),
            AllRevoked-revoke_row agent now db.agents,
          )
    | inr e ↦ absurd (ground (arith, e, h))
  ]

  -- Once an agent is revoked it stays out, whatever is written after: it has no route, it is in no
  -- snapshot, no replica of it is offered for any model, and no token authenticates as it.
  pub revoke_agent_terminal :
      (now : ℕ) (db : Tables) (cs : List Call)
      → (revoke_agent agent now db).1 ≡ gives tt
      → (let q = (run hash prefix cfg cs ((revoke_agent agent now db).0)).0 in
          (site_route agent q ≡ none)
          × ((at : ℕ) → All (λ s. s.agent_id ≢ agent) (snapshots cfg at q))
          × ((model : String) (at : ℕ)
              → All (λ e. e.agent_id ≢ agent) (replica_endpoints cfg model at q))
          × ((bearer : String) → authenticate_agent hash bearer q ≢ gives (some agent)))
  unfolding snapshots replica_endpoints
  revoke_agent_terminal now db cs h =
      let q : Tables = (run hash prefix cfg cs ((revoke_agent agent now db).0)).0 in
      let gone : IsGone agent q.agents =
        run-keeps (IsGone agent) (IsGone-update agent) (IsGone-append agent) hash prefix cfg cs
          ((revoke_agent agent now db).0) (revoke_agent-IsGone now db h) in
      (
        site_route-revoked agent q gone.1,
        λ at.
            All-map (λ a. a.agent_id ≢ agent) (λ s. s.agent_id ≢ agent)
              (λ a. snapshot_from_row a (is_older cfg.suspect_after at a)) (λ a k. k)
              (filter (λ a. not (is_older cfg.offline_after at a)) (registered_rows q))
              (All-filter (λ a. a.agent_id ≢ agent) (λ a. not (is_older cfg.offline_after at a))
                (registered_rows q)
                (insertion_sort-All (by ascending (λ a. a.registered_at)) (λ a. a.agent_id ≢ agent)
                  (filter (λ a. not (is_revoked a)) q.agents)
                  (others agent (λ a. not (is_revoked a)) q.agents (λ a e. ground (arith, e))
                    gone.1))),
        λ model at.
            ready_endpoints-others agent model (filter (is_routable cfg at) q.agents)
              (others agent (is_routable cfg at) q.agents (λ a e. ground (arith, e)) gone.1),
        λ bearer. authenticate_agent-others hash agent bearer q gone.1,
      )
