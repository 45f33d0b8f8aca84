-- ===== src/Relay/Calls.antt =====
-- Histories of the broker: its calls in the order in which its lock admits them, and the streams that
-- they close.
use fallow.Prelude.{
  length, ◌&&◌, filter, ℕ, true, false, not, Option, none, some, String, List, [], ◌∷◌, ◌++◌, ◌≡◌,
  refl, arith, leb, ltb, Bool-cases, Option-cases, inl, inr,
}
use fallow.Prelude.Eq.{◌==◌, String_eq, ℕ_eq}
use fallow.Mesh.Store.{Bytes}
use fallow.Relay.Rows.{
  state_error, request_too_large, max_request_bytes, FutureState, pending, cancelled, resolved,
  FutureState, Future, failed, Waiter, RelayRequest, Work, WorkState, Broker, RelayError, Outcome,
  ok, raised, Reply,
}
use fallow.Relay.Registry.{
  generation_of, work_of, retire, terminate, check, refuse, expire_late, on_claim,
}
use fallow.Relay.Responses.{start_response, write, deadline_terminate, finish, fail, disconnect}
use fallow.Relay.Claims.{
  is_valid_request, new_work, future_of, assign_work, is_waiting, take_slot, offer, claim, cancel,
  abandon_waiter, invalidate_agent,
}

-- `give_up` is the cancellation of a waiting claim, by its timeout or by its caller.
pub data Call : Type 0 where
  offer_work : String → ℕ → RelayRequest → ℕ → String → Call
  claim_work : String → ℕ → String → Call
  give_up : String → Call
  abandon : String → String → Call
  begin : String → String → ℕ → ℕ → String → ℕ → Call
  send : String → String → ℕ → Bytes → ℕ → Call
  run_out : String → Call
  end_well : String → String → ℕ → ℕ → Call
  end_badly : String → String → ℕ → String → ℕ → Call
  hang_up : String → Call
  invalidate : String → ℕ → String → Call

abbrev pub Closes : Type 0
Closes = List (String × String)

abbrev pub effect : {A : Type 0} → Reply A → Broker × Closes
effect r = (r.broker, r.closes)

unfoldable pub step : Call → Broker → Broker × Closes
unfolding offer claim cancel abandon_waiter start_response write deadline_terminate finish fail
    disconnect invalidate_agent
step (offer_work agent port request deadline c) b = effect (offer agent port request deadline c b)
step (claim_work agent generation ticket) b = effect (claim agent generation ticket b)
step (give_up ticket) b = (cancel ticket b, [])
step (abandon agent ticket) b = abandon_waiter agent ticket b
step (begin agent c generation status kind now) b =
    effect (start_response agent c generation status kind now b)
step (send agent c generation chunk now) b = effect (write agent c generation chunk now b)
step (run_out c) b = deadline_terminate c b
step (end_well agent c generation now) b = effect (finish agent c generation now b)
step (end_badly agent c generation code now) b = effect (fail agent c generation code now b)
step (hang_up c) b = disconnect c b
step (invalidate agent newer reason) b = invalidate_agent agent newer reason b

unfoldable pub run : List Call → Broker → Broker × Closes
unfolding step
run [] b = (b, [])
run (c ∷ cs) b = let s = step c b in let rest = run cs (s.0) in (rest.0, s.1 ++ rest.1)

-- What holds of a termination and of doing nothing holds of `terminate`.
pub terminate_cases {κ} :
    (P : Broker × Closes → Type κ) (c : String) (state : WorkState) (reason : Option String)
    (terminal : String) (b : Broker)
    → (work_of c b ≡ none → P (b, []))
    → ((w : Work) → work_of c b ≡ some w → P (retire w state reason b, (c, terminal) ∷ []))
    → P (terminate c state reason terminal b)
unfolding terminate
terminate_cases P c state reason terminal b h k = elim (Option-cases (work_of c b)) [
  | inl e ↦ rw (e, terminate) (h e)
  | inr (w, e) ↦ rw (e, terminate) (k w e)
]

pub check-ok :
    (agent c : String) (generation : ℕ) (b : Broker) {w : Work}
    → check agent c generation b ≡ ok w
    → (work_of c b ≡ some w)
unfolding check
check-ok agent c generation b {w = w} h = elim (Option-cases (work_of c b)) [
  | inl e ↦ absurd (ground (arith, e, h))
  | inr (x, e) ↦ ground (arith, e, h)
]

pub on_claim_cases {κ} :
    {A : Type 0} (P : Reply A → Type κ) (agent c : String) (generation now : ℕ)
    (body : Work → Broker → Reply A) (b : Broker)
    → ((e : RelayError) → P (refuse b e))
    → ((w : Work) → work_of c b ≡ some w → P (expire_late w b))
    → ((w : Work) → work_of c b ≡ some w → P (body w b))
    → P (on_claim agent c generation now body b)
unfolding on_claim
on_claim_cases P agent c generation now body b f g h = go (check agent c generation b) refl
  where
    go :
        (o : Outcome Work)
        → check agent c generation b ≡ o
        → P (on_claim agent c generation now body b)
    go (raised e) q = rw (q, on_claim) (f e)
    go (ok w) q = elim (Bool-cases (leb w.deadline now)) [
      | inl e ↦ rw (q, e, on_claim) (g w (check-ok agent c generation b q))
      | inr e ↦ rw (q, e, on_claim) (h w (check-ok agent c generation b q))
    ]

-- An offer is refused as it is, finds no claimant, finds a stale one, or is assigned.
pub offer_cases {κ} :
    (P : Reply Work → Type κ) (agent : String) (port : ℕ) (request : RelayRequest) (deadline : ℕ)
    (c : String) (b : Broker)
    → (let slot = take_slot (is_waiting b) agent b.waiters in
        let popped = record b { waiters = slot.1 } in
        ((e : RelayError) → P (refuse b e))
        → ((e : RelayError) → slot.0 ≡ none → P (refuse popped e))
        → ((w : Waiter) (e : RelayError)
            → slot.0 ≡ some w
            → ltb w.generation (generation_of agent w.generation b) ≡ true
            → P (refuse (cancel w.ticket popped) e))
        → ((w : Waiter)
            → slot.0 ≡ some w
            → ltb w.generation (generation_of agent w.generation b) ≡ false
            → P (record {
              broker = assign_work w (new_work agent port request deadline w.generation c) popped;
              outcome = ok (new_work agent port request deadline w.generation c);
              closes = [];
            }))
        → P (offer agent port request deadline c b))
unfolding offer
offer_cases P agent port request deadline c b f n s k =
    elim (Bool-cases (ltb max_request_bytes (length request.body))) [
      | inl d ↦ rw (d, offer) (f request_too_large)
      | inr d ↦ elim (Bool-cases (is_valid_request request)) [
        | inr e ↦ rw (d, e, offer) (f (state_error "invalid request" none))
        | inl e ↦ elim (Option-cases ((take_slot (is_waiting b) agent b.waiters).0)) [
          | inl q ↦ rw (d, e, q, offer) (n (state_error "no claimant" none) q)
          | inr (w, q) ↦ elim (Bool-cases (ltb w.generation (generation_of agent w.generation b))) [
            | inl t ↦ rw (d, e, q, t, offer) (s w (state_error "stale claimant" none) q t)
            | inr t ↦ rw (d, e, q, t, offer) (k w q t)
          ]
        ]
      ]
    ]

pub abandon_cases {κ} :
    (P : Broker × Closes → Type κ) (agent ticket : String) (b : Broker)
    → (let left = record b {
      waiters = filter (λ w. not (w.agent_id == agent && w.ticket == ticket)) b.waiters;
    } in
        P (left, [])
        → P (cancel ticket left, [])
        → ((c : String) → P (terminate c failed (some "cancelled") "cancelled" left))
        → P (abandon_waiter agent ticket b))
unfolding abandon_waiter
abandon_cases P agent ticket b h k t = elim (Option-cases (future_of ticket b)) [
  | inl e ↦ rw (e, abandon_waiter) h
  | inr (f, e) ↦ go f e f.state refl
]
  where
    go :
        (f : Future)
        → future_of ticket b ≡ some f
        → (s : FutureState) → f.state ≡ s
        → P (abandon_waiter agent ticket b)
    go f e pending q = rw (e, q, abandon_waiter) k
    go f e cancelled q = rw (e, q, abandon_waiter) h
    go f e (resolved c) q = rw (e, q, abandon_waiter) (t c)
