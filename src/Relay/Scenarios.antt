-- ===== src/Relay/Scenarios.antt =====
-- Two waiting claims of one agent, a request for it, and a stream that is read.
use fallow.Prelude.{◌≤◌, ◌+◌, ◌≡◌, refl, String, List, [], ◌∷◌, arith, All}
use fallow.Prelude.Table.{lookup}
use fallow.Relay.Rows.{RelayRequest, Work, pending, cancelled, Broker, empty_broker}
use fallow.Relay.Stream.{new_stream}
use fallow.Relay.Delivery.{
  Turn, write, read, shut, turns, opened, IsFaithful, turns-delivers, turns_complete,
}
use fallow.Relay.Claims.{offer, new_work, invalidate_agent}
use fallow.Relay.Calls.{Call, offer_work, begin, send, end_well, hang_up, run}
use fallow.Relay.Fencing.{invalidate_agent-fences}
use fallow.Relay.Finality.{closings, live, run-closes}
use fallow.Relay.Rendezvous.{IsHandedOver, offer-oldest}

abbrev talk : List Turn
talk = write (1 ∷ 2 ∷ []) 10 1 ∷ write (3 ∷ []) 10 2 ∷ read ∷ shut "eof" ∷ []

abbrev later : List Turn
later = write (4 ∷ []) 10 3 ∷ read ∷ []

turns-delivers_example : IsFaithful (turns talk (opened 0))
turns-delivers_example = turns-delivers 0 talk (omega arith, (omega arith, (tt, (tt, tt))))

turns_complete_example :
    (let end : String = "eof" in end ≡ "eof")
    × ((turns later (turns talk (opened 0))).got ≡ (turns talk (opened 0)).sent)
    × ((turns later (turns talk (opened 0))).sent ≡ (turns talk (opened 0)).sent)
unfolding turns new_stream
turns_complete_example =
    turns_complete 0 talk later (omega arith, (omega arith, (tt, (tt, tt)))) (omega arith, (tt, tt))
      refl refl

abbrev request : RelayRequest
request = record {
  method = "POST";
  path = "/v1/embeddings";
  content_type = "application/json";
  body = [];
}

abbrev line : Broker
line = record empty_broker {
  waiters =
      (record { agent_id = "a1"; ticket = "t1"; generation = 1 })
      ∷ (record { agent_id = "a2"; ticket = "t2"; generation = 1 })
      ∷ (record { agent_id = "a1"; ticket = "t3"; generation = 2 })
      ∷ [];
  futures =
      (record { ticket = "t1"; state = cancelled })
      ∷ (record { ticket = "t2"; state = pending })
      ∷ (record { ticket = "t3"; state = pending })
      ∷ [];
}

abbrev handed : Work
handed = new_work "a1" 80 request 50 2 "c1"

offer-oldest_example : IsHandedOver "a1" line handed ((offer "a1" 80 request 50 "c1" line).broker)
unfolding offer lookup
offer-oldest_example = offer-oldest "a1" 80 request 50 "c1" line handed refl

abbrev busy : Broker
busy = record line { works = handed ∷ [] }

abbrev answers : List Call
answers =
    begin "a1" "c1" 2 200 "text/plain" 10
    ∷ send "a1" "c1" 2 (1 ∷ []) 11
    ∷ offer_work "a2" 80 request 60 "c2"
    ∷ end_well "a1" "c1" 2 12
    ∷ hang_up "c1"
    ∷ []

run-closes_example : closings "c1" ((run answers busy).1) + live "c1" ((run answers busy).0) ≡ 1
unfolding lookup
run-closes_example = run-closes "c1" answers busy refl

invalidate_agent-fences_example :
    All
      (λ w. w.agent_id ≡ "a1" → 3 ≤ w.generation)
      ((run answers ((invalidate_agent "a1" 3 "offline" busy).0)).0).works
invalidate_agent-fences_example = invalidate_agent-fences "a1" 3 "offline" busy answers
