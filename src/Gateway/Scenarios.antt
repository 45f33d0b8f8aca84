-- ===== src/Gateway/Scenarios.antt =====
-- Two requests of one session, and the counts of a few requests in flight.
use fallow.Prelude.{◌≡◌, refl, false, some, String, List, [], ◌∷◌, inl, inr, arith, head?}
use fallow.Prelude.Table.{lookup}
use fallow.Protocol.{ReplicaEndpoint}
use fallow.Prelude.{true}
use fallow.Gateway.Admission.{AdmissionQueue, Turn, turn, arrive, attempt, cancel, admit_run}
use fallow.Gateway.Lanes.{IsCounted, admit_run-IsCounted}
use fallow.Gateway.Turns.{IsAdmitted, turn-admitted}
use fallow.Prelude.{ℕ, ◌+◌, ◌*◌, ◌≤◌}
use fallow.Gateway.Quota.{new_state, charges, token_units}
use fallow.Gateway.Bucket.{charges_bounded}
use fallow.Gateway.Inflight.{Action, take, give, count, acts, quiet, count-live}
use fallow.Gateway.Affinity.{AffinityMap, hit, endpoint_key, resolve}
use fallow.Gateway.Stickiness.{resolve_again}

abbrev replica : String → ReplicaEndpoint
replica agent = record { agent_id = agent; host = "h"; port = 80; model_id = "m"; inflight = 0 }

abbrev replicas : List ReplicaEndpoint
replicas = replica "a1" ∷ replica "a2" ∷ []

abbrev sessions : AffinityMap
sessions = record { ttl = 100; limit = 2; entries = [] }

resolve_again_example :
    let again =
      (resolve head?
        (some "s")
        (replica "a2" ∷ replica "a1" ∷ [])
        false
        60
        (resolve head? (some "s") replicas false 5 sessions).0).1 in
    (again.state ≡ hit)
    × ((y : ReplicaEndpoint) × (again.endpoint ≡ some y)
        × (endpoint_key y ≡ endpoint_key (replica "a1")))
unfolding resolve lookup
resolve_again_example =
    resolve_again head? "s" replicas false 5 sessions (omega arith) refl 60
      (replica "a2" ∷ replica "a1" ∷ []) false (omega arith) (inr (inl refl))

abbrev traffic : List Action
traffic = take ("h", 80) ∷ take ("h", 80) ∷ take ("h", 81) ∷ give 1 ∷ give 1 ∷ []

count-live_example : count ("h", 80) (acts traffic quiet).counts ≡ 1
unfolding acts
count-live_example = count-live ("h", 80) traffic

abbrev room : AdmissionQueue
room = record {
  capacity = 1;
  timeout = 100;
  lanes = (record { lane = "m"; tickets = "t1" ∷ "t2" ∷ [] }) ∷ [];
  waiting = 2;
}

abbrev first_turn : Turn
first_turn = record {
  lane = "m";
  ticket = "t1";
  first = false;
  over = false;
  elapsed = 10;
  after = 20;
  found = true;
}

turn-admitted_example : IsAdmitted first_turn room ((turn first_turn room).0)
unfolding turn lookup
turn-admitted_example = turn-admitted first_turn room refl

admit_run-IsCounted_example :
    IsCounted (
      admit_run
        (arrive "m" "t3" ∷ attempt first_turn ∷ arrive "n" "t4" ∷ cancel "m" "t2" ∷ [])
        room)
unfolding lookup
admit_run-IsCounted_example =
    admit_run-IsCounted
      (arrive "m" "t3" ∷ attempt first_turn ∷ arrive "n" "t4" ∷ cancel "m" "t2" ∷ []) room
      (record { keyed = (refl, tt); counted = refl })

abbrev requests : List ℕ
requests = 1000 ∷ 2000 ∷ 1500 ∷ 60000000 ∷ []

charges_bounded_example :
    let s = new_state "k" (some 2) 0 in
    let c = charges (some 2) (some 5) requests s in
    c.1 * token_units + (c.0).bucket_tokens + s.bucket_updated_at * 2
    ≤ s.bucket_tokens + (c.0).bucket_updated_at * 2
charges_bounded_example = charges_bounded 2 (some 5) requests (new_state "k" (some 2) 0)
