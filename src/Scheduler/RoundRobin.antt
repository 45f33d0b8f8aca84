-- ===== src/Scheduler/RoundRobin.antt =====
-- RoundRobinScheduler, whose state is its cursor; each handout returns the advanced cursor.
use fallow.Prelude.{ℕ, ◌+◌, ◌%◌, Bool, Option, none, String, List, [], ◌∷◌, length, get_elem?}
use mathlib.Core.Option
use fallow.Prelude.Rank.{by_text, by, insertion_sort}
use fallow.Protocol.{AgentSnapshot, ReplicaEndpoint}
use fallow.Scheduler.Policies.{eligible, replicas_for, endpoint_rank}

unfoldable pub next_index : ℕ → ℕ → ℕ × ℕ
next_index cursor length = (cursor % length, cursor + 1)

unfoldable pub hand_out {ℓ} : {A : Type ℓ} → List A → ℕ → Option A × ℕ
unfolding next_index
hand_out [] cursor = (none, cursor)
hand_out (x ∷ xs) cursor =
    let i = next_index cursor (length (x ∷ xs)) in (get_elem? (x ∷ xs) (i.0), i.1)

unfoldable pub roster : Bool → List AgentSnapshot → List AgentSnapshot
roster needs_gpu agents = insertion_sort (by by_text (λ a. a.agent_id)) (eligible needs_gpu agents)

unfoldable pub select_agent : Bool → List AgentSnapshot → ℕ → Option String × ℕ
unfolding hand_out roster
select_agent needs_gpu agents cursor =
    let h = hand_out (roster needs_gpu agents) cursor in (Option.map (λ a. a.agent_id) (h.0), h.1)

unfoldable pub pick_replica :
    (String → ℕ → String) → String → List ReplicaEndpoint → ℕ → Option ReplicaEndpoint × ℕ
unfolding hand_out
pick_replica address model_id replicas cursor =
    hand_out (insertion_sort (endpoint_rank address) (replicas_for model_id replicas)) cursor
