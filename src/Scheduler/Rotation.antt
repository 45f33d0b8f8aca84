-- ===== src/Scheduler/Rotation.antt =====
-- The fairness of RoundRobinScheduler: in as many handouts as there are eligible agents, each has a
-- turn, wherever the cursor stands.
use mathlib.Core.Option
use native.Mathlib.Nat.{mod-lt, mod-add-mod, add-mod_right, mod-eq_of_lt}
use fallow.Prelude.{
  ℕ, zero, suc, ◌+◌, ◌-◌, ◌%◌, ◌<◌, Bool, true, Option, some, String, List, [], ◌∷◌, ◌≡◌, refl, sym,
  ap, ◌∙◌, arith, inl, inr, Bool-cases, leb, length, get_elem?,
}
use fallow.Prelude.Rank.{by_text, by, length-insertion_sort}
use fallow.Prelude.Members.{In, filter-In, In-insertion_sort, In-position, get_elem?-In}
use fallow.Protocol.{AgentSnapshot}
use fallow.Scheduler.Eligibility.{is_eligible}
use fallow.Scheduler.Policies.{eligible}
use fallow.Scheduler.RoundRobin.{hand_out, roster, select_agent}

-- The answers of k handouts in a row, each from the cursor that the one before left.
unfoldable pub turns : Bool → List AgentSnapshot → ℕ → ℕ → List (Option String)
turns needs_gpu agents zero cursor = []
turns needs_gpu agents (suc k) cursor =
    let r = select_agent needs_gpu agents cursor in r.0 ∷ turns needs_gpu agents k (r.1)

-- Some offset within one turn of the wheel leads from c to i.
offset : (n c i : ℕ) → i < n → (k : ℕ) × k < n × ((c + k) % n ≡ i)
offset n c i h = elim (Bool-cases (leb (c % n) i)) [
  | inl e ↦ (
    i - c % n,
    omega arith,
    sym (mod-add-mod c n (i - c % n)) ∙ ap (λ x. x % n) (ground arith) ∙ mod-eq_of_lt h,
  )
  | inr e ↦
      let small = mod-lt c {m = n} (omega arith) in
      (
        (i + n) - c % n,
        ground (arith, e, small),
        sym (mod-add-mod c n ((i + n) - c % n))
            ∙ ap (λ x. x % n) (ground (arith, e, small))
            ∙ add-mod_right i n
            ∙ mod-eq_of_lt h,
      )
]

hand_out-some :
    {A : Type 0} (xs : List A) (c : ℕ) {a : A}
    → get_elem? xs (c % length xs) ≡ some a
    → hand_out xs c ≡ (some a, c + 1)
unfolding hand_out
hand_out-some [] c h = absurd (cc)
hand_out-some (x ∷ xs) c h = ap (λ o. (o, c + 1)) h

hand_out-cursor : {A : Type 0} (xs : List A) (c : ℕ) → 0 < length xs → (hand_out xs c).1 ≡ c + 1
unfolding hand_out
hand_out-cursor [] c h = absurd (omega arith)
hand_out-cursor (x ∷ xs) c h = refl

module _ (needs_gpu : Bool) (agents : List AgentSnapshot) where
  select_agent-cursor :
      (c : ℕ) → 0 < length (roster needs_gpu agents) → (select_agent needs_gpu agents c).1 ≡ c + 1
  unfolding select_agent
  select_agent-cursor c l = hand_out-cursor (roster needs_gpu agents) c l

  select_agent-some :
      (c : ℕ) {a : AgentSnapshot}
      → get_elem? (roster needs_gpu agents) (c % length (roster needs_gpu agents)) ≡ some a
      → (select_agent needs_gpu agents c).0 ≡ some (a.agent_id)
  unfolding select_agent
  select_agent-some c h =
      ap (λ r. Option.map (λ b. b.agent_id) (r.0)) (hand_out-some (roster needs_gpu agents) c h)

  turns-get :
      (n k c : ℕ)
      → k < n
      → 0 < length (roster needs_gpu agents)
      → get_elem? (turns needs_gpu agents n c) k ≡ some (select_agent needs_gpu agents (c + k)).0
  unfolding turns
  turns-get zero k c h l = absurd (omega arith)
  turns-get (suc n) zero c h l = ap (λ x. some (select_agent needs_gpu agents x).0) (omega arith)
  turns-get (suc n) (suc k) c h l = rw (select_agent-cursor c l) (
      turns-get n k (c + 1) (omega (arith, h)) l
      ∙ ap (λ x. some (select_agent needs_gpu agents x).0) (omega arith))

  length-roster : length (roster needs_gpu agents) ≡ length (eligible needs_gpu agents)
  unfolding roster
  length-roster = length-insertion_sort (by by_text (λ a. a.agent_id)) (eligible needs_gpu agents)

  -- An eligible agent is named within as many handouts in a row as there are eligible agents,
  -- whatever the cursor.
  pub turns-fair :
      (cursor : ℕ) (a : AgentSnapshot)
      → In a agents
      → is_eligible a needs_gpu ≡ true
      → In (some (a.agent_id)) (turns needs_gpu agents (length (eligible needs_gpu agents)) cursor)
  unfolding eligible roster
  turns-fair cursor a m e =
      let crew = roster needs_gpu agents in
      let here =
        In-insertion_sort (by by_text (λ b. b.agent_id)) (eligible needs_gpu agents) a
          (filter-In (λ b. is_eligible b needs_gpu) agents a m e) in
      let at = In-position crew a here in
      let off = offset (length crew) cursor (at.0) (at.1) in
      let chosen = select_agent-some (cursor + off.0) {a = a} (rw (off.2) (at.2)) in
      rw (sym length-roster) (
        get_elem?-In (turns needs_gpu agents (length crew) cursor) (off.0)
          (turns-get (length crew) (off.0) cursor (off.1) (omega (arith, at.1)) ∙ ap some chosen))
