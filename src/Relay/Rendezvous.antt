-- ===== src/Relay/Rendezvous.antt =====
-- Which waiting claim an offer goes to.
use mathlib.Core.Option
use fallow.Prelude.{
  ◌∙◌, Option-cases, ◌≢◌, ◌≤◌, subst, ℕ, Bool, true, false, not, some, String, List, [], ◌∷◌, ◌++◌,
  ◌≡◌, refl, ap, arith, ltb, Bool-cases, inl, inr, if◌then◌else◌, All, filter,
}
use fallow.Prelude.Eq.{==_refl, ◌==◌, ==_iff, String_eq}
use fallow.Prelude.Table.{lookup-map, lookup-key}
use fallow.Relay.Rows.{
  Future, Work, Waiter, Broker, RelayRequest, Outcome, ok, resolved, future_key,
}
use fallow.Relay.Registry.{generation_of}
use fallow.Relay.Claims.{future_of, offer, set_future, assign_work, new_work, is_waiting, take_slot}
use fallow.Relay.Calls.{offer_cases}

-- The oldest waiter of an agent that still waits: those before it are others' or done.
pub record IsOldest (waits : String → Bool) (agent : String) (before : List Waiter) (w : Waiter)
    : Type 0 where
  pub own : w.agent_id ≡ agent
  pub waiting : waits w.ticket ≡ true
  pub earlier : All (λ x. x.agent_id ≡ agent → waits x.ticket ≡ false) before

abbrev is_other : String → Waiter → Bool
is_other agent w = not (w.agent_id == agent)

-- A waiter taken from a list: where it stood, and what is left.
pub record IsTaken (waits : String → Bool) (agent : String) (ws : List Waiter) (w : Waiter)
    (left : List Waiter) : Type 0 where
  pub before : List Waiter
  pub after : List Waiter
  pub stood : ws ≡ before ++ w ∷ after
  pub oldest : IsOldest waits agent before w
  pub leaves : left ≡ filter (is_other agent) before ++ after

-- A waiter in front that is another's, or done.
IsTaken-cons :
    (waits : String → Bool) (agent : String) (x : Waiter) (xs : List Waiter) (w : Waiter)
    (left : List Waiter)
    → (x.agent_id ≡ agent → waits x.ticket ≡ false)
    → IsTaken waits agent xs w left
    → IsTaken waits agent (x ∷ xs) w (if x.agent_id == agent then left else x ∷ left)
IsTaken-cons waits agent x xs w left k h = record {
  before = x ∷ h.before;
  after = h.after;
  stood = ap (λ ys. x ∷ ys) h.stood;
  oldest = record {
    own = h.oldest.own;
    waiting = h.oldest.waiting;
    earlier = (k, h.oldest.earlier);
  };
  leaves = elim (Bool-cases (x.agent_id == agent)) [
    | inl e ↦ rw e h.leaves
    | inr e ↦ rw e (ap (λ ys. x ∷ ys) h.leaves)
  ];
}

take_slot-oldest :
    (waits : String → Bool) (agent : String) (ws : List Waiter) (w : Waiter)
    → (take_slot waits agent ws).0 ≡ some w
    → IsTaken waits agent ws w ((take_slot waits agent ws).1)
unfolding take_slot
take_slot-oldest waits agent [] w h = absurd (cc)
take_slot-oldest waits agent (x ∷ xs) w h = elim (Bool-cases (x.agent_id == agent)) [
  | inl e ↦ elim (Bool-cases (waits x.ticket)) [
    | inl f ↦
        subst (λ v. IsTaken waits agent (x ∷ xs) v ((take_slot waits agent (x ∷ xs)).1))
          (ground (arith, e, f, h))
          (subst (λ l. IsTaken waits agent (x ∷ xs) x l) (ground (arith, e, f)) (first e f))
    | inr f ↦
        subst (λ l. IsTaken waits agent (x ∷ xs) w l) (ground (arith, e, f))
          (IsTaken-cons waits agent x xs w ((take_slot waits agent xs).1) (λ q. f)
            (take_slot-oldest waits agent xs w (ground (arith, e, f, h))))
  ]
  | inr e ↦
      subst (λ l. IsTaken waits agent (x ∷ xs) w l) (ground (arith, e))
        (IsTaken-cons waits agent x xs w ((take_slot waits agent xs).1) (stranger e)
          (take_slot-oldest waits agent xs w (ground (arith, e, h))))
]
  where
    first : (x.agent_id == agent) ≡ true → waits x.ticket ≡ true → IsTaken waits agent (x ∷ xs) x xs
    first e f = record {
      before = [];
      after = xs;
      stood = refl;
      oldest = record {
        own = (==_iff {A = String} x.agent_id agent).0 e;
        waiting = f;
        earlier = tt;
      };
      leaves = refl;
    }

    stranger : (x.agent_id == agent) ≡ false → x.agent_id ≡ agent → waits x.ticket ≡ false
    stranger e q = absurd (ground (arith, e, q, ==_iff {A = String} x.agent_id agent))

-- What `assign_work` does to a future.
abbrev resolve_row : String → String → Future → Future
resolve_row t c f = if f.ticket == t then record f { state = resolved c } else f

future_of-assign_work :
    (w : Waiter) (work : Work) (b : Broker) (k : String)
    → future_of k (assign_work w work b)
      ≡ Option.map (resolve_row w.ticket work.claim_id) (future_of k b)
unfolding assign_work set_future
future_of-assign_work w work b k =
    lookup-map future_key (resolve_row w.ticket work.claim_id) (λ f. ground arith) k b.futures

resolved_future :
    (w : Waiter) (work : Work) (b : Broker)
    → is_waiting b w.ticket ≡ true
    → future_of w.ticket (assign_work w work b)
      ≡ some (record { ticket = w.ticket; state = resolved work.claim_id })
unfolding is_waiting
resolved_future w work b h = elim (Option-cases (future_of w.ticket b)) [
  | inl e ↦ absurd (ground (arith, e, h))
  | inr (f, e) ↦
      let own : f.ticket ≡ w.ticket = lookup-key future_key w.ticket b.futures e in
      future_of-assign_work w work b w.ticket ∙ (rw (e, own, ==_refl {A = String} w.ticket) refl)
]

other_future :
    (w : Waiter) (work : Work) (b : Broker) (k : String)
    → k ≢ w.ticket
    → future_of k (assign_work w work b) ≡ future_of k b
other_future w work b k ne = elim (Option-cases (future_of k b)) [
  | inl e ↦ future_of-assign_work w work b k ∙ (rw e refl)
  | inr (f, e) ↦
      let own : f.ticket ≡ k = lookup-key future_key k b.futures e in
      future_of-assign_work w work b k
      ∙ (rw e (ground (arith, own, ne, ==_iff {A = String} f.ticket w.ticket)))
]

-- What an accepted offer of `work` did: the agent's oldest waiting claim took it.
pub record IsHandedOver (agent : String) (b : Broker) (work : Work) (out : Broker) : Type 0 where
  pub waiter : Waiter
  pub left : List Waiter
  pub taken : IsTaken (is_waiting b) agent b.waiters waiter left
  pub at_its_fence : generation_of agent waiter.generation b ≤ waiter.generation
  pub for_its_generation : work.generation ≡ waiter.generation
  pub registered : out.works ≡ b.works ++ work ∷ []
  pub line_left : out.waiters ≡ left
  pub handed :
      future_of waiter.ticket out
      ≡ some (record { ticket = waiter.ticket; state = resolved work.claim_id })
  pub others : (k : String) → k ≢ waiter.ticket → future_of k out ≡ future_of k b

IsHandedOver-assign_work :
    (agent : String) (b : Broker) (w : Waiter) (work : Work)
    → (take_slot (is_waiting b) agent b.waiters).0 ≡ some w
    → ltb w.generation (generation_of agent w.generation b) ≡ false
    → work.generation ≡ w.generation
    → IsHandedOver agent b work
        (assign_work w work (record b { waiters = (take_slot (is_waiting b) agent b.waiters).1 }))
unfolding assign_work set_future is_waiting
IsHandedOver-assign_work agent b w work q t g =
    let left : List Waiter = (take_slot (is_waiting b) agent b.waiters).1 in
    record {
      waiter = w;
      left = left;
      taken = take_slot-oldest (is_waiting b) agent b.waiters w q;
      at_its_fence = ground (arith, t);
      for_its_generation = g;
      registered = refl;
      line_left = refl;
      handed =
          resolved_future w work (record b { waiters = left })
            (take_slot-oldest (is_waiting b) agent b.waiters w q).oldest.waiting;
      others = other_future w work (record b { waiters = left });
    }

-- An offer that is accepted goes to the oldest claim of its agent that still waits: that claim's
-- future is resolved with the id of the work, and every other future is as it was. The claim's
-- generation is not below the agent's fence, the work is registered under that generation, and the
-- waiter and the agent's finished ones before it leave the line.
pub offer-oldest :
    (agent : String) (port : ℕ) (request : RelayRequest) (deadline : ℕ) (c : String) (b : Broker)
    (work : Work)
    → (offer agent port request deadline c b).outcome ≡ ok work
    → IsHandedOver agent b work ((offer agent port request deadline c b).broker)
offer-oldest agent port request deadline c b work =
    offer_cases (λ r. r.outcome ≡ ok work → IsHandedOver agent b work r.broker) agent port request
      deadline c b (λ e h. absurd (cc)) (λ e q h. absurd (cc)) (λ w e q t h. absurd (cc))
      (λ w q t h.
        subst
          (λ x. IsHandedOver agent b x (
            assign_work w (new_work agent port request deadline w.generation c)
              (record b { waiters = (take_slot (is_waiting b) agent b.waiters).1 })))
          (ok-injective h)
          (IsHandedOver-assign_work agent b w (new_work agent port request deadline w.generation c)
            q t refl))
  where
    ok-injective : {x y : Work} → ◌≡◌ {A = Outcome Work} (ok x) (ok y) → x ≡ y
    ok-injective h = cc
