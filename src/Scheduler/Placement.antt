-- ===== src/Scheduler/Placement.antt =====
-- Whom the capability policy and the enrolment choose: an admissible candidate, and a best one.
use mathlib.Core.Option
use fallow.Prelude.{
  ℕ, ◌≤◌, Bool, true, false, Bool-cases, Option-cases, Option, none, some, String, List, ◌≡◌, refl,
  arith, inl, inr, filter, subst,
}
use fallow.Prelude.Eq.{◌==◌, String_eq, ==_iff}
use fallow.Prelude.Rank.{
  Rank, NotBefore, least, least-NotBefore, least-All, least-eq-none, followed_by, by, false_first,
  ascending, descending,
}
use fallow.Prelude.Members.{In, All-In, All_at, In-filter, filter-In}
use fallow.Protocol.{AgentSnapshot, ReplicaEndpoint}
use fallow.Scheduler.Eligibility.{is_eligible, has_warm_replica, agent_has_gpu}
use fallow.Scheduler.Policies.{
  eligible, agent_rank, select_agent, replicas_for, endpoint_rank, pick_replica,
}

module _ {A : Type 0} (r : Rank A) (p : A → Bool) where
  -- A least admissible item: it is in the list and admissible, and no admissible item is before it.
  abbrev pub IsChoice : List A → A → Type 0
  IsChoice xs best =
      In best xs × (p best ≡ true) × ((a : A) → In a xs → p a ≡ true → NotBefore r best a)

  pub least-IsChoice :
      (xs : List A) {best : A} → least r (filter p xs) ≡ some best → IsChoice xs best
  least-IsChoice xs {best = best} h =
      let here =
        In-filter p xs best
          (least-All r (λ a. In a (filter p xs)) (filter p xs) h (All-In (filter p xs))) in
      (
        here.0,
        here.1,
        λ a m k.
            All_at (NotBefore r best) (filter p xs) (least-NotBefore r (filter p xs) h) a
              (filter-In p xs a m k),
      )

  pub least-none : (xs : List A) → least r (filter p xs) ≡ none → (a : A) → In a xs → p a ≡ false
  least-none xs h a m = elim (Bool-cases (p a)) [
    | inl e ↦ absurd (subst (In a) (least-eq-none r (filter p xs) h) (filter-In p xs a m e))
    | inr e ↦ e
  ]

-- Warm before cold; among equals in that, with a GPU before without; then the more free memory.
abbrev pub Preferred : String → AgentSnapshot → AgentSnapshot → Type 0
Preferred model_id best a =
    (has_warm_replica a model_id ≡ true → has_warm_replica best model_id ≡ true)
    × (has_warm_replica a model_id ≡ has_warm_replica best model_id
        → (agent_has_gpu a ≡ true → agent_has_gpu best ≡ true)
          × (agent_has_gpu a ≡ agent_has_gpu best → a.mem_available_mb ≤ best.mem_available_mb))

NotBefore-Preferred :
    (model_id : String) (best a : AgentSnapshot)
    → NotBefore (agent_rank model_id) best a
    → Preferred model_id best a
unfolding agent_rank followed_by by false_first descending ascending
NotBefore-Preferred model_id best a h = ground arith

-- The agent that the capability policy names is among the given ones, may run the unit, and is
-- preferred to every other that may.
pub select_agent-Preferred :
    (model_id : String) (needs_gpu : Bool) (agents : List AgentSnapshot) {id : String}
    → select_agent model_id needs_gpu agents ≡ some id
    → (best : AgentSnapshot) × (best.agent_id ≡ id)
      × In best agents
      × (is_eligible best needs_gpu ≡ true)
      × ((a : AgentSnapshot)
          → In a agents
          → is_eligible a needs_gpu ≡ true
          → Preferred model_id best a)
unfolding select_agent eligible
select_agent-Preferred model_id needs_gpu agents {id = id} h =
    elim (Option-cases (least (agent_rank model_id) (eligible needs_gpu agents))) [
      | inl e ↦ absurd (ground (arith, e, h))
      | inr (best, e) ↦
          let c = least-IsChoice (agent_rank model_id) (λ a. is_eligible a needs_gpu) agents e in
          (
            best,
            ground (arith, e, h),
            c.0,
            c.1,
            λ a m k. NotBefore-Preferred model_id best a (c.2 a m k),
          )
    ]

-- The capability policy names no agent only if none of the given ones may run the unit.
select_agent-none :
    (model_id : String) (needs_gpu : Bool) (agents : List AgentSnapshot)
    → select_agent model_id needs_gpu agents ≡ none
    → (a : AgentSnapshot) → In a agents
    → is_eligible a needs_gpu ≡ false
unfolding select_agent eligible
select_agent-none model_id needs_gpu agents h =
    least-none (agent_rank model_id) (λ a. is_eligible a needs_gpu) agents
      (go (least (agent_rank model_id) (eligible needs_gpu agents)) h)
  where
    go : (o : Option AgentSnapshot) → Option.map (λ a. a.agent_id) o ≡ none → o ≡ none
    go none e = refl
    go (some b) e = absurd (cc)

-- The replica that is picked serves the model and has the fewest requests in flight of those that do.
pick_replica-least :
    (address : String → ℕ → String) (model_id : String) (replicas : List ReplicaEndpoint)
    {best : ReplicaEndpoint}
    → pick_replica address model_id replicas ≡ some best
    → In best replicas
      × (best.model_id ≡ model_id)
      × ((r : ReplicaEndpoint) → In r replicas → r.model_id ≡ model_id → best.inflight ≤ r.inflight)
unfolding pick_replica endpoint_rank replicas_for followed_by by ascending
pick_replica-least address model_id replicas {best = best} h =
    let c = least-IsChoice (endpoint_rank address) (λ r. r.model_id == model_id) replicas h in
    (
      c.0,
      (==_iff (best.model_id) model_id).0 (c.1),
      λ r m e. ground (arith, c.2 r m ((==_iff (r.model_id) model_id).1 e)),
    )
