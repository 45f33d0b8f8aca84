-- ===== src/Relay/Fenced.antt =====
-- The generation fence of an agent and its live claims, under the parts of the broker's calls.
use fallow.Prelude.{
  ℕ, ◌≤◌, false, Option, some, String, List, [], ◌∷◌, ◌≡◌, arith, Bool-cases, Option-cases, ◌⊎◌,
  inl, inr, if◌then◌else◌, All, All-mono, All-map,
}
use fallow.Prelude.Eq.{◌==◌, ==_iff, String_eq}
use fallow.Prelude.Table.{lookup, lookup-key, lookup-delete, delete_away, absent_away}
use fallow.Prelude.Members.{In}
use fallow.Relay.Rows.{FutureState, Work, WorkState, Broker, Reply, work_key, fence_key}
use fallow.Relay.Registry.{
  deadline_expired, fence_of, generation_of, set_generation, retire, terminate, on_claim,
  expire_late, record_terminal, record_last_claim,
}
use fallow.Relay.Claims.{terminate_all, set_future, is_outdated_work}
use fallow.Relay.Responses.{begun, set_work}
use fallow.Relay.Calls.{terminate_cases, on_claim_cases}

-- The work is another agent's or not older than a generation.
abbrev pub IsCurrent : String → ℕ → Work → Type 0
IsCurrent agent g w = w.agent_id ≡ agent → g ≤ w.generation

abbrev pub IsFenced : String → ℕ → Broker → Type 0
IsFenced agent g b = (g ≤ generation_of agent 0 b) × All (IsCurrent agent g) b.works

pub is_outdated_work-IsCurrent :
    (agent : String) (g : ℕ) (w : Work) → is_outdated_work agent g w ≡ false → IsCurrent agent g w
is_outdated_work-IsCurrent agent g w h e =
    ground (arith, h, ==_iff {A = String} w.agent_id agent, e)

module _ (agent : String) (g : ℕ) where
  -- The live works that are current or on a list, when the first of the list is terminated.
  terminate-listed :
      (c : String) (cs : List String) (state : WorkState) (reason : Option String)
      (terminal : String) (b : Broker)
      → All (λ w. IsCurrent agent g w ⊎ In w.claim_id (c ∷ cs)) b.works
      → All
          (λ w. IsCurrent agent g w ⊎ In w.claim_id cs)
          ((terminate c state reason terminal b).0).works
  unfolding retire record_terminal record_last_claim
  terminate-listed c cs state reason terminal b h =
      terminate_cases (λ x. All After (x.0).works) c state reason terminal b
        (λ e. absent_away work_key Before After c away b.works e h)
        (λ w e.
          rw (lookup-key work_key c b.works e) (delete_away work_key Before After c away b.works h))
    where
      Before : Work → Type 0
      Before w = IsCurrent agent g w ⊎ In w.claim_id (c ∷ cs)

      After : Work → Type 0
      After w = IsCurrent agent g w ⊎ In w.claim_id cs

      away : (w : Work) → (w.claim_id == c) ≡ false → Before w → After w
      away w e (inl k) = inl k
      away w e (inr (inl k)) = absurd (ground (arith, e, k, ==_iff {A = String} w.claim_id c))
      away w e (inr (inr k)) = inr k

  pub terminate_all-IsCurrent :
      (cs : List String) (reason : String) (b : Broker)
      → All (λ w. IsCurrent agent g w ⊎ In w.claim_id cs) b.works
      → All (IsCurrent agent g) ((terminate_all cs reason b).0).works
  unfolding terminate_all
  terminate_all-IsCurrent [] reason b h =
      All-mono (λ w. IsCurrent agent g w ⊎ In w.claim_id []) (IsCurrent agent g) (λ w. first w)
        b.works h
    where
      first : (w : Work) → IsCurrent agent g w ⊎ In w.claim_id [] → IsCurrent agent g w
      first w (inl k) = k
      first w (inr k) = absurd k
  terminate_all-IsCurrent (c ∷ cs) reason b h =
      terminate_all-IsCurrent cs reason ((terminate c WorkState.invalid (some reason) reason b).0)
        (terminate-listed c cs WorkState.invalid (some reason) reason b h)

pub generation_of-set_generation :
    (agent other : String) (n : ℕ) (b : Broker)
    → generation_of agent 0 (set_generation other n b)
      ≡ (if other == agent then n else generation_of agent 0 b)
unfolding generation_of set_generation lookup
generation_of-set_generation agent other n b =
    ground (arith, lookup-delete fence_key other agent b.fences)

module _ (agent : String) (g : ℕ) where
  pub fence-retire :
      (w : Work) (state : WorkState) (reason : Option String) (b : Broker)
      → g ≤ generation_of agent 0 b
      → g ≤ generation_of agent 0 (retire w state reason b)
  unfolding retire record_terminal record_last_claim generation_of
  fence-retire w state reason b h = h

  pub IsFenced-retire :
      (w : Work) (state : WorkState) (reason : Option String) (b : Broker)
      → IsFenced agent g b
      → IsFenced agent g (retire w state reason b)
  unfolding retire record_terminal record_last_claim generation_of
  IsFenced-retire w state reason b h = (
    h.0,
    delete_away work_key (IsCurrent agent g) (IsCurrent agent g) w.claim_id (λ r e k. k) b.works
        h.1,
  )

  pub IsFenced-set_future :
      (ticket : String) (state : FutureState) (b : Broker)
      → IsFenced agent g b
      → IsFenced agent g (set_future ticket state b)
  unfolding set_future generation_of
  IsFenced-set_future ticket state b h = h

  pub IsFenced-set_generation :
      (other : String) (n : ℕ) (b : Broker)
      → (other ≡ agent → g ≤ n)
      → IsFenced agent g b
      → IsFenced agent g (set_generation other n b)
  unfolding set_generation
  IsFenced-set_generation other n b k h = (
    ground (
      arith,
      generation_of-set_generation agent other n b,
      ==_iff {A = String} other agent,
      k,
      h.0,
    ),
    h.1,
  )

  pub IsFenced-begun :
      (c : String) (status : ℕ) (kind : String) (b : Broker)
      → IsFenced agent g b
      → IsFenced agent g (set_work c (begun status kind) b)
  unfolding set_work generation_of
  IsFenced-begun c status kind b h = (
    h.0,
    All-map (IsCurrent agent g) (IsCurrent agent g)
        (λ w. if w.claim_id == c then begun status kind w else w)
        (λ w k. elim (Bool-cases (w.claim_id == c)) [ inl e ↦ rw e k | inr e ↦ rw e k ]) b.works
        h.1,
  )

  pub IsFenced-terminate :
      (c : String) (state : WorkState) (reason : Option String) (terminal : String) (b : Broker)
      → IsFenced agent g b
      → IsFenced agent g ((terminate c state reason terminal b).0)
  IsFenced-terminate c state reason terminal b h =
      terminate_cases (λ x. IsFenced agent g (x.0)) c state reason terminal b (λ e. h)
        (λ w e. IsFenced-retire w state reason b h)

  pub IsFenced-on_claim :
      {A : Type 0} (other c : String) (generation now : ℕ) (body : Work → Broker → Reply A)
      (b : Broker)
      → ((w : Work) → IsFenced agent g ((body w b).broker))
      → IsFenced agent g b
      → IsFenced agent g ((on_claim other c generation now body b).broker)
  unfolding expire_late
  IsFenced-on_claim other c generation now body b k h =
      on_claim_cases (λ r. IsFenced agent g r.broker) other c generation now body b (λ e. h)
        (λ w e.
          IsFenced-terminate w.claim_id WorkState.failed (some deadline_expired) deadline_expired b
            h)
        (λ w e. k w)

  -- New work is given the generation of its claimant, which an offer has tested.
  pub fence_le :
      (n : ℕ) (b : Broker) → g ≤ generation_of agent 0 b → generation_of agent n b ≤ n → g ≤ n
  unfolding generation_of
  fence_le n b h k = elim (Option-cases (fence_of agent b)) [
    | inl e ↦ ground (arith, e, h, k)
    | inr (f, e) ↦ ground (arith, e, h, k)
  ]
