-- ===== src/Scheduler/Policies.antt =====
-- scheduler/policies.py and selection.py. `address` is Python's f"{host}:{port}".
use fallow.Prelude.{ℕ, Bool, not, ◌&&◌, Option, String, List, filter, ltb}
use mathlib.Core.Option
use fallow.Prelude.Eq.{◌==◌, String_eq}
use fallow.Prelude.Rank.{Rank, ascending, descending, false_first, by_text, by, followed_by, least}
use fallow.Protocol.{AgentSnapshot, ReplicaEndpoint, ModelManifest}
use fallow.Scheduler.Eligibility.{agent_has_gpu, is_eligible, has_warm_replica, model_fit}

unfoldable pub replicas_for : String → List ReplicaEndpoint → List ReplicaEndpoint
replicas_for model_id replicas = filter (λ r. r.model_id == model_id) replicas

unfoldable pub eligible : Bool → List AgentSnapshot → List AgentSnapshot
eligible needs_gpu agents = filter (λ a. is_eligible a needs_gpu) agents

-- CapabilityScheduler._rank: warm first, then GPU, then more free RAM, then the id.
unfoldable pub agent_rank : String → Rank AgentSnapshot
agent_rank model_id = followed_by (by false_first (λ a. not (has_warm_replica a model_id))) (
    followed_by (by false_first (λ a. not (agent_has_gpu a))) (
      followed_by (by (descending ascending) (λ a. a.mem_available_mb))
        (by by_text (λ a. a.agent_id))))

unfoldable pub select_agent : String → Bool → List AgentSnapshot → Option String
unfolding eligible
select_agent model_id needs_gpu agents =
    Option.map (λ a. a.agent_id) (least (agent_rank model_id) (eligible needs_gpu agents))

module _ (address : String → ℕ → String) where
  unfoldable pub endpoint_rank : Rank ReplicaEndpoint
  endpoint_rank =
      followed_by (by ascending (λ r. r.inflight)) (by by_text (λ r. address r.host r.port))

  unfoldable pub pick_replica : String → List ReplicaEndpoint → Option ReplicaEndpoint
  unfolding endpoint_rank replicas_for
  pick_replica model_id replicas = least endpoint_rank (replicas_for model_id replicas)

-- selection.py: a model that uses the GPU first on a machine with one, then the larger, then the id.
unfoldable pub uses_gpu : ModelManifest → Bool
uses_gpu model = ltb 0 model.min_vram_mb

unfoldable pub model_rank : Bool → Rank ModelManifest
unfolding uses_gpu
model_rank prefer_gpu =
    followed_by (by false_first (λ m. not (prefer_gpu && uses_gpu m)))
      (followed_by (by (descending ascending) (λ m. m.size_bytes)) (by by_text (λ m. m.model_id)))

unfoldable pub fitting : AgentSnapshot → List ModelManifest → List ModelManifest
fitting agent models = filter (λ m. (model_fit m agent).fits) models

unfoldable pub select_model_for_agent : AgentSnapshot → List ModelManifest → Option ModelManifest
unfolding fitting
select_model_for_agent agent models =
    least (model_rank (agent_has_gpu agent)) (fitting agent models)
