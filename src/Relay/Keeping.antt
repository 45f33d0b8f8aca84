-- ===== src/Relay/Keeping.antt =====
-- What is kept when a list of claims is terminated and a list of waiters is cancelled.
use fallow.Prelude.{Option, some, String, List, [], ◌∷◌, Bool-cases, inl, inr}
use fallow.Prelude.Eq.{String_eq}
use fallow.Relay.Rows.{FutureState, Work, Waiter, WorkState, Broker}
use fallow.Relay.Registry.{retire, terminate}
use fallow.Relay.Claims.{is_waiting, cancel, terminate_all, cancel_all, set_future}
use fallow.Relay.Calls.{terminate_cases}

-- What every retirement keeps is kept when a list of claims is terminated.
pub terminate_all-keeps {κ} :
    (P : Broker → Type κ)
    → ((w : Work) (state : WorkState) (reason : Option String) (b : Broker)
        → P b
        → P (retire w state reason b))
    → (cs : List String) (reason : String) (b : Broker) → P b
    → P ((terminate_all cs reason b).0)
unfolding terminate_all
terminate_all-keeps P keeps [] reason b h = h
terminate_all-keeps P keeps (c ∷ cs) reason b h =
    terminate_all-keeps P keeps cs reason ((terminate c WorkState.invalid (some reason) reason b).0)
      (terminate_cases (λ x. P (x.0)) c WorkState.invalid (some reason) reason b (λ e. h)
        (λ w e. keeps w WorkState.invalid (some reason) b h))

-- Futures are all that cancelling touches.
pub cancel_keeps {κ} :
    (P : Broker → Type κ)
    → ((ticket : String) (state : FutureState) (b : Broker) → P b → P (set_future ticket state b))
    → (ticket : String) (b : Broker) → P b
    → P (cancel ticket b)
unfolding cancel
cancel_keeps P keeps ticket b h = elim (Bool-cases (is_waiting b ticket)) [
  | inl e ↦ rw (e, cancel) (keeps ticket FutureState.cancelled b h)
  | inr e ↦ rw (e, cancel) h
]

pub cancel_all-keeps {κ} :
    (P : Broker → Type κ)
    → ((ticket : String) (state : FutureState) (b : Broker) → P b → P (set_future ticket state b))
    → (ws : List Waiter) (b : Broker) → P b
    → P (cancel_all ws b)
unfolding cancel_all
cancel_all-keeps P keeps [] b h = h
cancel_all-keeps P keeps (w ∷ ws) b h =
    cancel_all-keeps P keeps ws (cancel w.ticket b) (cancel_keeps P keeps w.ticket b h)
