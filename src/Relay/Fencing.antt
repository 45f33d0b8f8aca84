-- ===== src/Relay/Fencing.antt =====
-- The generation fence of an agent: what it keeps out of the registry of live claims, over all calls.
use fallow.Prelude.{
  ◌&&◌, not, subst, ℕ, max, ◌≤◌, false, Option, some, String, List, [], ◌∷◌, ◌≡◌, sym, arith, ltb,
  Bool-cases, ◌⊎◌, inl, inr, All, All-append, All-mono, map, filter,
}
use fallow.Prelude.Eq.{◌==◌, ==_refl, String_eq}
use fallow.Prelude.Members.{In, In-map, All-In, filter-In}
use fallow.Relay.Rows.{Work, WorkState, Broker, RelayRequest}
use fallow.Relay.Registry.{deadline_expired, generation_of, set_generation, terminate}
use fallow.Relay.Claims.{
  new_work, take_slot, is_waiting, offer, claim, abandon_waiter, invalidate_agent, terminate_all,
  set_future, assign_work, is_outdated_work, is_outdated_waiter,
}
use fallow.Relay.Keeping.{terminate_all-keeps, cancel_keeps, cancel_all-keeps}
use fallow.Relay.Fenced.{
  IsCurrent, IsFenced, fence-retire, is_outdated_work-IsCurrent, generation_of-set_generation,
  terminate_all-IsCurrent, IsFenced-retire, IsFenced-set_future, IsFenced-set_generation,
  IsFenced-begun, IsFenced-terminate, fence_le,
}
use fallow.Relay.Answers.{start_response-keeps, write-keeps, finish-keeps, fail-keeps}
use fallow.Relay.Calls.{
  invalidate, hang_up, end_badly, end_well, run_out, send, begin, abandon, give_up, abandon_cases,
  claim_work, offer_cases, offer_work, Call, step, run, Closes,
}

IsFenced-offer :
    (agent : String) (g : ℕ) (other : String) (port : ℕ) (request : RelayRequest) (deadline : ℕ)
    (c : String) (b : Broker)
    → IsFenced agent g b
    → IsFenced agent g ((offer other port request deadline c b).broker)
unfolding generation_of assign_work set_future
IsFenced-offer agent g other port request deadline c b h =
    offer_cases (λ r. IsFenced agent g r.broker) other port request deadline c b (λ e. h) (λ e q. h)
      (λ w e q t.
        cancel_keeps (IsFenced agent g) (IsFenced-set_future agent g) w.ticket
          (record b { waiters = (take_slot (is_waiting b) other b.waiters).1 }) h)
      (λ w q t. (
        h.0,
        All-append (IsCurrent agent g) b.works
            (new_work other port request deadline w.generation c ∷ []) h.1
            (λ r. new_le w.generation r (ltb→ge t), tt),
      ))
  where
    ltb→ge : {n m : ℕ} → ltb n m ≡ false → m ≤ n
    ltb→ge k = ground (arith, k)

    new_le : (n : ℕ) → other ≡ agent → generation_of other n b ≤ n → g ≤ n
    new_le n r k = fence_le agent g n b h.0 (subst (λ a. generation_of a n b ≤ n) r k)

IsFenced-claim :
    (agent : String) (g : ℕ) (other : String) (generation : ℕ) (ticket : String) (b : Broker)
    → IsFenced agent g b
    → IsFenced agent g ((claim other generation ticket b).broker)
unfolding claim generation_of
IsFenced-claim agent g other generation ticket b h =
    elim (Bool-cases (ltb generation (generation_of other 0 b))) [
      | inl e ↦ rw (e, claim) h
      | inr e ↦
          rw (e, claim)
            (IsFenced-set_generation agent g other (max (generation_of other 0 b) generation) b
              grows h)
    ]
  where
    grows : other ≡ agent → g ≤ max (generation_of other 0 b) generation
    grows q = ground (arith, q, subst (λ a. g ≤ generation_of a 0 b) (sym q) h.0)

IsFenced-abandon_waiter :
    (agent : String) (g : ℕ) (other ticket : String) (b : Broker)
    → IsFenced agent g b
    → IsFenced agent g ((abandon_waiter other ticket b).0)
unfolding generation_of
IsFenced-abandon_waiter agent g other ticket b h =
    abandon_cases (λ x. IsFenced agent g (x.0)) other ticket b h
      (cancel_keeps (IsFenced agent g) (IsFenced-set_future agent g) ticket (left b) h)
      (λ c. IsFenced-terminate agent g c WorkState.failed (some "cancelled") "cancelled" (left b) h)
  where
    left : Broker → Broker
    left b = record b {
      waiters = filter (λ w. not (w.agent_id == other && w.ticket == ticket)) b.waiters;
    }

IsFenced-invalidate_agent :
    (agent : String) (g : ℕ) (other : String) (newer : ℕ) (reason : String) (b : Broker)
    → IsFenced agent g b
    → IsFenced agent g ((invalidate_agent other newer reason b).0)
unfolding invalidate_agent generation_of
IsFenced-invalidate_agent agent g other newer reason b h =
    let fenced : Broker = set_generation other (max (generation_of other 0 b) newer) b in
    let cs : List String =
      map (λ w. w.claim_id) (filter (is_outdated_work other newer) fenced.works) in
    let left : Broker = (terminate_all cs reason fenced).0 in
    cancel_all-keeps (IsFenced agent g) (IsFenced-set_future agent g)
      (filter (is_outdated_waiter other newer) left.waiters) left
      (terminate_all-keeps (IsFenced agent g) (IsFenced-retire agent g) cs reason fenced
        (IsFenced-set_generation agent g other (max (generation_of other 0 b) newer) b grows h))
  where
    grows : other ≡ agent → g ≤ max (generation_of other 0 b) newer
    grows q = ground (arith, q, subst (λ a. g ≤ generation_of a 0 b) (sym q) h.0)

listed :
    (agent : String) (g : ℕ) (ws : List Work)
    → All
        (λ w.
          IsCurrent agent g w
          ⊎ In w.claim_id (map (λ x. x.claim_id) (filter (is_outdated_work agent g) ws)))
        ws
listed agent g ws =
    All-mono (λ w. In w ws)
      (λ w.
        IsCurrent agent g w
        ⊎ In w.claim_id (map (λ x. x.claim_id) (filter (is_outdated_work agent g) ws)))
      (λ w m. elim (Bool-cases (is_outdated_work agent g w)) [
        | inl e ↦ inr (
            In-map (λ x. x.claim_id) (filter (is_outdated_work agent g) ws) w
              (filter-In (is_outdated_work agent g) ws w m e))
        | inr e ↦ inl (is_outdated_work-IsCurrent agent g w e)
      ])
      ws (All-In ws)

-- The claims of older generations go, and the fence is raised before they do.
invalidate_agent-IsFenced :
    (agent : String) (newer : ℕ) (reason : String) (b : Broker)
    → IsFenced agent newer ((invalidate_agent agent newer reason b).0)
unfolding invalidate_agent generation_of
invalidate_agent-IsFenced agent newer reason b =
    let fenced : Broker = set_generation agent (max (generation_of agent 0 b) newer) b in
    let cs : List String =
      map (λ w. w.claim_id) (filter (is_outdated_work agent newer) fenced.works) in
    let left : Broker = (terminate_all cs reason fenced).0 in
    cancel_all-keeps (IsFenced agent newer) (IsFenced-set_future agent newer)
      (filter (is_outdated_waiter agent newer) left.waiters) left
      (
        terminate_all-keeps (λ x. newer ≤ generation_of agent 0 x) (fence-retire agent newer) cs
            reason fenced (raised b),
        terminate_all-IsCurrent agent newer cs reason fenced (listed agent newer b.works),
      )
  where
    raised :
        (b : Broker)
        → newer
          ≤ generation_of agent 0 (set_generation agent (max (generation_of agent 0 b) newer) b)
    raised b = ground (
      arith,
      generation_of-set_generation agent agent (max (generation_of agent 0 b) newer) b,
      ==_refl {A = String} agent,
    )

abbrev Kept : String → ℕ → Broker × Closes → Type 0
Kept agent g x = IsFenced agent g (x.0)

ends :
    (agent : String) (g : ℕ) (b : Broker)
    → IsFenced agent g b
    → (c : String) (state : WorkState) (reason : Option String) (terminal : String)
    → IsFenced agent g ((terminate c state reason terminal b).0)
ends agent g b h c state reason terminal = IsFenced-terminate agent g c state reason terminal b h

IsFenced-step :
    (agent : String) (g : ℕ) (x : Call) (b : Broker)
    → IsFenced agent g b
    → IsFenced agent g ((step x b).0)
unfolding generation_of step
IsFenced-step agent g (offer_work other port request deadline c) b h =
    IsFenced-offer agent g other port request deadline c b h
IsFenced-step agent g (claim_work other generation ticket) b h =
    IsFenced-claim agent g other generation ticket b h
IsFenced-step agent g (give_up ticket) b h =
    cancel_keeps (IsFenced agent g) (IsFenced-set_future agent g) ticket b h
IsFenced-step agent g (abandon other ticket) b h = IsFenced-abandon_waiter agent g other ticket b h
IsFenced-step agent g (begin other c generation status kind now) b h =
    start_response-keeps (Kept agent g) b h (ends agent g b h) other c generation status kind now
      (IsFenced-begun agent g c status kind b h)
IsFenced-step agent g (send other c generation bytes now) b h =
    write-keeps (Kept agent g) b h (ends agent g b h) other c generation bytes now
IsFenced-step agent g (run_out c) b h =
    IsFenced-terminate agent g c WorkState.failed (some deadline_expired) deadline_expired b h
IsFenced-step agent g (end_well other c generation now) b h =
    finish-keeps (Kept agent g) b h (ends agent g b h) other c generation now
IsFenced-step agent g (end_badly other c generation code now) b h =
    fail-keeps (Kept agent g) b h (ends agent g b h) other c generation code now
IsFenced-step agent g (hang_up c) b h =
    IsFenced-terminate agent g c WorkState.invalid (some "client_disconnect") "client_disconnect" b
      h
IsFenced-step agent g (invalidate other newer reason) b h =
    IsFenced-invalidate_agent agent g other newer reason b h

IsFenced-run :
    (agent : String) (g : ℕ) (xs : List Call) (b : Broker)
    → IsFenced agent g b
    → IsFenced agent g ((run xs b).0)
unfolding run
IsFenced-run agent g [] b h = h
IsFenced-run agent g (x ∷ xs) b h =
    IsFenced-run agent g xs ((step x b).0) (IsFenced-step agent g x b h)

-- Once an agent's older claims are invalidated, none of its live claims is of an older generation, in
-- every run that follows.
pub invalidate_agent-fences :
    (agent : String) (newer : ℕ) (reason : String) (b : Broker) (xs : List Call)
    → All
        (λ w. w.agent_id ≡ agent → newer ≤ w.generation)
        ((run xs ((invalidate_agent agent newer reason b).0)).0).works
unfolding generation_of
invalidate_agent-fences agent newer reason b xs =
    (IsFenced-run agent newer xs ((invalidate_agent agent newer reason b).0)
      (invalidate_agent-IsFenced agent newer reason b)).1
