-- ===== src/Gateway/Turns.antt =====
-- Whom a turn of the waiting room admits.
use fallow.Prelude.{
  ◌<◌, ◌∙◌, ◌-◌, ◌≢◌, if◌then◌else◌, true, false, some, String, List, [], ◌∷◌, ◌≡◌, refl, ap, arith,
  leb,
}
use fallow.Prelude.Eq.{◌==◌, ==_iff, ==_refl, String_eq}
use fallow.Prelude.Table.{lookup, lookup-delete}
use fallow.Gateway.Admission.{
  head_is, Lane, AdmissionQueue, admitted, lane_key, tickets_of, queue_of, set_queue, is_head,
  remove_first, remove, Turn, turn,
}
use fallow.Gateway.Lanes.{turn_cases}

queue_of-set_queue :
    (lane other : String) (ts : List String) (ls : List Lane)
    → tickets_of (lookup lane_key other (set_queue lane ts ls))
      ≡ (if lane == other then ts else tickets_of (lookup lane_key other ls))
unfolding set_queue lookup
queue_of-set_queue lane other [] ls = ground (arith, lookup-delete lane_key lane other ls)
queue_of-set_queue lane other (t ∷ ts) ls = ground (arith, lookup-delete lane_key lane other ls)

-- What an admission did: the ticket stood first in its lane and has left it, and nothing else moved.
pub record IsAdmitted (t : Turn) (q out : AdmissionQueue) : Type 0 where
  pub behind : List String
  pub stood : queue_of t.lane q ≡ t.ticket ∷ behind
  pub left : queue_of t.lane out ≡ behind
  pub others : (lane : String) → lane ≢ t.lane → queue_of lane out ≡ queue_of lane q
  pub fewer : out.waiting ≡ q.waiting - 1
  pub found : t.found ≡ true
  pub in_time : t.after < q.timeout

is_head-stood :
    (lane ticket : String) (q : AdmissionQueue)
    → is_head lane ticket q ≡ true
    → (behind : List String) × (queue_of lane q ≡ ticket ∷ behind)
unfolding is_head
is_head-stood lane ticket q h = go (queue_of lane q) refl h
  where
    go :
        (ts : List String)
        → queue_of lane q ≡ ts
        → head_is ticket ts ≡ true
        → (behind : List String) × (queue_of lane q ≡ ticket ∷ behind)
    go [] e k = absurd (cc)
    go (x ∷ xs) e k = (xs, e ∙ ap (λ y. y ∷ xs) ((==_iff {A = String} x ticket).0 k))

remove-IsAdmitted :
    (t : Turn) (q : AdmissionQueue) (behind : List String)
    → queue_of t.lane q ≡ t.ticket ∷ behind
    → t.found ≡ true
    → leb q.timeout t.after ≡ false
    → IsAdmitted t q (remove t.lane t.ticket q)
unfolding remove remove_first
remove-IsAdmitted t q behind stood g f = record {
  behind = behind;
  stood = stood;
  left = ground (
    arith,
    stood,
    ==_refl {A = String} t.ticket,
    ==_refl {A = String} t.lane,
    queue_of-set_queue t.lane t.lane behind q.lanes,
  );
  others = λ lane ne. ground (
    arith,
    stood,
    ne,
    ==_refl {A = String} t.ticket,
    ==_iff {A = String} t.lane lane,
    queue_of-set_queue t.lane lane behind q.lanes,
  );
  fewer = ground (arith, stood, ==_refl {A = String} t.ticket);
  found = g;
  in_time = ground (arith, f);
}

-- A turn admits only the ticket at the head of its lane, when the probe found a replica before the
-- timeout was reached. The ticket is then out of its lane, whose queue is what stood behind it; every
-- other lane's queue is as it was, and one fewer is counted as waiting.
pub turn-admitted :
    (t : Turn) (q : AdmissionQueue) → (turn t q).1 ≡ some admitted → IsAdmitted t q ((turn t q).0)
turn-admitted t q =
    turn_cases (λ x. x.1 ≡ some admitted → IsAdmitted t q (x.0)) t q (λ h. absurd (cc))
      (λ h. absurd (ground (arith, h))) (λ h. absurd (ground (arith, h)))
      (λ e f g h.
        let (behind, stood) = is_head-stood t.lane t.ticket q e in
        remove-IsAdmitted t q behind stood g f)
