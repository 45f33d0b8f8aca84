-- ===== src/Scheduler/Enrolment.antt =====
-- The model that a machine is given: one that fits it, the largest, on the GPU where there is one; and
-- the capacity declared at enrolment bounds what the machine can later hold.
use fallow.Prelude.{
  ◌≤◌, true, false, none, some, String, List, [], ◌∷◌, ◌≡◌, refl, arith, inl, inr, map,
}
use fallow.Prelude.Rank.{least, followed_by, by, false_first, ascending, descending}
use fallow.Prelude.Members.{In, filter-eq-nil}
use fallow.Protocol.{AgentSnapshot, ModelManifest, GpuInfo, GpuStatus}
use fallow.Scheduler.Eligibility.{
  agent_has_gpu, model_fit, capacity_snapshot, full_gpu, max_vram, agent_available_vram_mb,
}
use fallow.Scheduler.Policies.{fitting, model_rank, uses_gpu, select_model_for_agent}
use fallow.Scheduler.Placement.{least-IsChoice, least-none}

-- The selected model fits the machine; if the machine has a GPU and a model that uses one fits, it
-- uses one; and among the models that are its equals in that, none is larger.
select_model_for_agent-largest :
    (agent : AgentSnapshot) (models : List ModelManifest) {best : ModelManifest}
    → select_model_for_agent agent models ≡ some best
    → In best models
      × ((model_fit best agent).fits ≡ true)
      × ((m : ModelManifest)
          → In m models
          → (model_fit m agent).fits ≡ true
          → (agent_has_gpu agent ≡ true → uses_gpu m ≡ true → uses_gpu best ≡ true)
            × (uses_gpu m ≡ uses_gpu best → m.size_bytes ≤ best.size_bytes))
unfolding select_model_for_agent fitting model_rank followed_by by false_first ascending descending
select_model_for_agent-largest agent models h =
    let c =
      least-IsChoice (model_rank (agent_has_gpu agent)) (λ m. (model_fit m agent).fits) models h in
    (c.0, c.1, λ m i k. ground (arith, c.2 m i k))

max_vram-bound :
    (gs : List GpuInfo) (ss : List GpuStatus)
    → ((s : GpuStatus) → In s ss → (g : GpuInfo) × In g gs × s.vram_free_mb ≤ g.vram_mb)
    → max_vram ss ≤ max_vram (map full_gpu gs)
unfolding max_vram
max_vram-bound gs [] h = omega arith
max_vram-bound gs (s ∷ ss) h =
    let g = h s (inl refl) in
    ground (arith, max_vram-bound gs ss (λ x m. h x (inr m)), above gs (g.0) (g.1), g.2)
  where
    above : (xs : List GpuInfo) (g : GpuInfo) → In g xs → g.vram_mb ≤ max_vram (map full_gpu xs)
    above [] g m = absurd m
    above (x ∷ xs) g (inl e) = rw e (omega arith)
    above (x ∷ xs) g (inr m) = omega (arith, above xs g m)

module _ (id : String) (agent : AgentSnapshot) (ram : agent.mem_available_mb ≤ agent.caps.ram_mb)
    (gpus : (s : GpuStatus)
      → In s agent.gpus
      → (g : GpuInfo) × In g agent.caps.gpus × s.vram_free_mb ≤ g.vram_mb) where
  model_fit-capacity :
      (m : ModelManifest)
      → (model_fit m (capacity_snapshot id agent.caps)).fits ≡ false
      → (model_fit m agent).fits ≡ false
  unfolding model_fit capacity_snapshot agent_available_vram_mb
  model_fit-capacity m h = ground (arith, ram, max_vram-bound agent.caps.gpus agent.gpus gpus)

  -- A machine for which enrolment finds no model never gets one later: while its free memory stays
  -- within the declared memory and each GPU's free memory within a declared GPU's, no model fits it.
  select_model_for_agent-enrolled :
      (models : List ModelManifest)
      → select_model_for_agent (capacity_snapshot id agent.caps) models ≡ none
      → select_model_for_agent agent models ≡ none
  unfolding select_model_for_agent fitting least
  select_model_for_agent-enrolled models h =
      let cap = capacity_snapshot id agent.caps in
      let unfit =
        least-none (model_rank (agent_has_gpu cap)) (λ m. (model_fit m cap).fits) models h in
      rw
        (filter-eq-nil (λ m. (model_fit m agent).fits) models
          (λ m i. model_fit-capacity m (unfit m i)))
        refl
