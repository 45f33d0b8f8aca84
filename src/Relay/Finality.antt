-- ===== src/Relay/Finality.antt =====
-- What the calls close: a claim's stream is closed as its claim leaves the registry.
use fallow.Prelude.{
  count-append, is_some, any, ℕ, ◌+◌, max, Bool, true, false, Option, some, String, List, [], ◌∷◌,
  ◌++◌, ◌≡◌, refl, ap, arith, ltb, Bool-cases, inl, inr, if◌then◌else◌, count, map, filter,
}
use fallow.Prelude.Eq.{◌==◌, ==_iff, String_eq}
use fallow.Prelude.Table.{lookup, has, lookup-key, lookup-delete, lookup-map}
use fallow.Relay.Rows.{Work, WorkState, Broker, FutureState, RelayRequest, work_key}
use fallow.Relay.Registry.{
  generation_of, set_generation, retire, terminate, record_terminal, record_last_claim,
  deadline_expired,
}
use fallow.Relay.Responses.{set_work, begun}
use fallow.Relay.Claims.{
  offer, claim, cancel, abandon_waiter, invalidate_agent, terminate_all, set_future, assign_work,
  new_work, is_outdated_work, is_outdated_waiter,
}
use fallow.Relay.Calls.{
  invalidate, hang_up, end_badly, end_well, run_out, send, begin, abandon, give_up, claim_work,
  offer_work, Call, step, run, effect, terminate_cases, offer_cases, abandon_cases, Closes,
}
use fallow.Relay.Answers.{start_response-keeps, write-keeps, finish-keeps, fail-keeps}
use fallow.Relay.Keeping.{cancel_keeps, cancel_all-keeps}

-- How often a claim's stream is closed.
abbrev pub closings : String → Closes → ℕ
closings c = count (λ x. x.0 == c)

-- 1 while the claim is in the registry.
abbrev pub live : String → Broker → ℕ
live c b = if has work_key c b.works then 1 else 0

abbrev pub is_offer_of : String → Call → Bool
is_offer_of c (offer_work agent port request deadline d) = d == c
is_offer_of c _ = false

lookup_append_other :
    (d c : String) (w : Work) (ws : List Work)
    → w.claim_id ≡ d
    → (d == c) ≡ false
    → lookup work_key c (ws ++ w ∷ []) ≡ lookup work_key c ws
unfolding lookup
lookup_append_other d c w [] e h = rw (e, h) refl
lookup_append_other d c w (x ∷ ws) e h = ground (arith, lookup_append_other d c w ws e h)

-- The closes account for the claim.
abbrev Accounts : String → ℕ → Broker × Closes → Type 0
Accounts c n x = closings c (x.1) + live c (x.0) ≡ n

module _ (c : String) where
  Accounts-terminate :
      (d : String) (state : WorkState) (reason : Option String) (terminal : String) (b : Broker)
      → Accounts c (live c b) (terminate d state reason terminal b)
  unfolding retire record_terminal record_last_claim
  Accounts-terminate d state reason terminal b =
      terminate_cases (Accounts c (live c b)) d state reason terminal b (λ e. omega arith)
        (λ w e. ground (
          arith,
          lookup-key work_key d b.works e,
          lookup-delete work_key w.claim_id c b.works,
          ==_iff {A = String} d c,
          e,
        ))

  -- One after the other.
  Accounts-append :
      (n : ℕ) (x y : Broker × Closes)
      → Accounts c n x
      → Accounts c (live c (x.0)) y
      → Accounts c n (y.0, x.1 ++ y.1)
  Accounts-append n x y h k = omega (arith, count-append (λ x. x.0 == c) (x.1) (y.1), h, k)

  Accounts-terminate_all :
      (cs : List String) (reason : String) (b : Broker)
      → Accounts c (live c b) (terminate_all cs reason b)
  unfolding terminate_all
  Accounts-terminate_all [] reason b = omega arith
  Accounts-terminate_all (d ∷ ds) reason b =
      let t : Broker × Closes = terminate d WorkState.invalid (some reason) reason b in
      Accounts-append (live c b) t (terminate_all ds reason (t.0))
        (Accounts-terminate d WorkState.invalid (some reason) reason b)
        (Accounts-terminate_all ds reason (t.0))

  Accounts-begun :
      (d : String) (status : ℕ) (kind : String) (b : Broker)
      → Accounts c (live c b) (set_work d (begun status kind) b, [])
  unfolding set_work
  Accounts-begun d status kind b = ground (
    arith,
    lookup-map work_key (λ w. if w.claim_id == d then begun status kind w else w)
        (λ w. keeps w (w.claim_id == d)) c b.works,
  )
    where
      keeps : (w : Work) (t : Bool) → (if t then begun status kind w else w).claim_id ≡ w.claim_id
      keeps w true = refl
      keeps w false = refl

  -- What touches only futures and waiters.
  Accounts-set_future :
      (n : ℕ) (closes : Closes) (ticket : String) (state : FutureState) (b : Broker)
      → Accounts c n (b, closes)
      → Accounts c n (set_future ticket state b, closes)
  unfolding set_future
  Accounts-set_future n closes ticket state b h = h

  Accounts-cancel :
      (n : ℕ) (closes : Closes) (ticket : String) (b : Broker)
      → Accounts c n (b, closes)
      → Accounts c n (cancel ticket b, closes)
  Accounts-cancel n closes =
      cancel_keeps (λ b. Accounts c n (b, closes)) (Accounts-set_future n closes)

  Accounts-offer :
      (agent : String) (port : ℕ) (request : RelayRequest) (deadline : ℕ) (d : String) (b : Broker)
      → (d == c) ≡ false
      → Accounts c (live c b) (effect (offer agent port request deadline d b))
  unfolding assign_work set_future
  Accounts-offer agent port request deadline d b h =
      offer_cases (λ r. Accounts c (live c b) (effect r)) agent port request deadline d b
        (λ e. omega arith) (λ e q. omega arith)
        (λ w e q t. Accounts-cancel (live c b) [] w.ticket _ (omega arith))
        (λ w q t. omega (
          arith,
          ap {B = ℕ} (λ o. if is_some o then 1 else 0)
              (lookup_append_other d c (new_work agent port request deadline w.generation d) b.works
                refl h),
        ))

  Accounts-claim :
      (agent : String) (generation : ℕ) (ticket : String) (b : Broker)
      → Accounts c (live c b) (effect (claim agent generation ticket b))
  unfolding claim set_generation
  Accounts-claim agent generation ticket b =
      elim (Bool-cases (ltb generation (generation_of agent 0 b))) [
        | inl e ↦ rw (e, claim) (omega arith)
        | inr e ↦ rw (e, claim) (omega arith)
      ]

  Accounts-abandon_waiter :
      (agent ticket : String) (b : Broker) → Accounts c (live c b) (abandon_waiter agent ticket b)
  Accounts-abandon_waiter agent ticket b =
      abandon_cases (Accounts c (live c b)) agent ticket b (omega arith)
        (Accounts-cancel (live c b) [] ticket _ (omega arith))
        (λ d. Accounts-terminate d WorkState.failed (some "cancelled") "cancelled" _)

  Accounts-invalidate_agent :
      (agent : String) (newer : ℕ) (reason : String) (b : Broker)
      → Accounts c (live c b) (invalidate_agent agent newer reason b)
  unfolding invalidate_agent set_generation
  Accounts-invalidate_agent agent newer reason b =
      let fenced : Broker = set_generation agent (max (generation_of agent 0 b) newer) b in
      let t : Broker × Closes =
        terminate_all (map (λ w. w.claim_id) (filter (is_outdated_work agent newer) fenced.works))
          reason fenced in
      cancel_all-keeps (λ b'. Accounts c (live c b) (b', t.1))
        (Accounts-set_future (live c b) (t.1))
        (filter (is_outdated_waiter agent newer) (t.0).waiters) (t.0)
        (Accounts-terminate_all
          (map (λ w. w.claim_id) (filter (is_outdated_work agent newer) fenced.works)) reason
          fenced)

  Accounts-step :
      (x : Call) (b : Broker) → is_offer_of c x ≡ false → Accounts c (live c b) (step x b)
  unfolding step
  Accounts-step (offer_work agent port request deadline d) b h =
      Accounts-offer agent port request deadline d b h
  Accounts-step (claim_work agent generation ticket) b h = Accounts-claim agent generation ticket b
  Accounts-step (give_up ticket) b h = Accounts-cancel (live c b) [] ticket b (omega arith)
  Accounts-step (abandon agent ticket) b h = Accounts-abandon_waiter agent ticket b
  Accounts-step (begin agent d generation status kind now) b h =
      start_response-keeps (Accounts c (live c b)) b (omega arith)
        (λ e s r t. Accounts-terminate e s r t b) agent d generation status kind now
        (Accounts-begun d status kind b)
  Accounts-step (send agent d generation bytes now) b h =
      write-keeps (Accounts c (live c b)) b (omega arith) (λ e s r t. Accounts-terminate e s r t b)
        agent d generation bytes now
  Accounts-step (run_out d) b h =
      Accounts-terminate d WorkState.failed (some deadline_expired) deadline_expired b
  Accounts-step (end_well agent d generation now) b h =
      finish-keeps (Accounts c (live c b)) b (omega arith) (λ e s r t. Accounts-terminate e s r t b)
        agent d generation now
  Accounts-step (end_badly agent d generation code now) b h =
      fail-keeps (Accounts c (live c b)) b (omega arith) (λ e s r t. Accounts-terminate e s r t b)
        agent d generation code now
  Accounts-step (hang_up d) b h =
      Accounts-terminate d WorkState.invalid (some "client_disconnect") "client_disconnect" b
  Accounts-step (invalidate agent newer reason) b h = Accounts-invalidate_agent agent newer reason b

  -- In a run that does not offer the claim's id again, the claim's stream is closed once if the claim
  -- leaves the registry, and never while it stays there or was not there.
  pub run-closes :
      (xs : List Call) (b : Broker)
      → any (is_offer_of c) xs ≡ false
      → closings c ((run xs b).1) + live c ((run xs b).0) ≡ live c b
  unfolding run
  run-closes [] b h = omega arith
  run-closes (x ∷ xs) b h =
      Accounts-append (live c b) (step x b) (run xs ((step x b).0))
        (Accounts-step x b (ground (arith, h))) (run-closes xs ((step x b).0) (ground (arith, h)))
