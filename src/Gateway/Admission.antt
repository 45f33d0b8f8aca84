-- ===== src/Gateway/Admission.antt =====
-- gateway/admission.py. Lanes are rows, tickets and lanes are texts, and a fresh ticket is an argument.
-- `wait` is split where it awaits: its entry, and the turns of its loop, each given what the clock and
-- the probe say. Times are whole milliseconds.
use fallow.Prelude.{
  ℕ, ◌+◌, ◌-◌, Bool, false, not, ◌&&◌, ◌||◌, Option, none, some, String, List, [], ◌∷◌, ◌++◌, leb,
  is_empty, any, if◌then◌else◌,
}
use fallow.Prelude.Eq.{◌==◌, String_eq}
use fallow.Prelude.Table.{lookup, delete}

pub record Lane : Type 0 where
  pub lane : String
  pub tickets : List String

pub record AdmissionQueue : Type 0 where
  pub capacity : ℕ
  pub timeout : ℕ
  pub lanes : List Lane
  pub waiting : ℕ

pub data AdmissionStatus : Type 0 where
  admitted overflow timed_out : AdmissionStatus

abbrev pub lane_key : Lane → String
lane_key l = l.lane

-- `self._lanes.get(lane)`, where a missing lane has no tickets.
abbrev pub tickets_of : Option Lane → List String
tickets_of none = []
tickets_of (some l) = l.tickets

abbrev pub queue_of : String → AdmissionQueue → List String
queue_of lane q = tickets_of (lookup lane_key lane q.lanes)

-- The lane's queue is replaced; an empty one is deleted.
unfoldable pub set_queue : String → List String → List Lane → List Lane
set_queue lane [] ls = delete lane_key lane ls
set_queue lane (t ∷ ts) ls = (record { lane = lane; tickets = t ∷ ts }) ∷ delete lane_key lane ls

abbrev pub over_capacity : AdmissionQueue → Bool
over_capacity q = leb q.capacity q.waiting

-- The entry of `wait`: overflow at once, or a place in the lane.
unfoldable pub enter : String → String → AdmissionQueue → AdmissionQueue × Option AdmissionStatus
unfolding set_queue
enter lane ticket q =
    if not (is_empty (queue_of lane q)) && over_capacity q then (q, some overflow) else (
      record q {
        lanes = set_queue lane (queue_of lane q ++ ticket ∷ []) q.lanes;
        waiting = q.waiting + 1;
      },
      none,
    )

abbrev pub head_is : String → List String → Bool
head_is ticket [] = false
head_is ticket (t ∷ ts) = t == ticket

unfoldable pub is_head : String → String → AdmissionQueue → Bool
is_head lane ticket q = head_is ticket (queue_of lane q)

-- `queue.remove(ticket)`: the first of them.
unfoldable pub remove_first : String → List String → List String
remove_first ticket [] = []
remove_first ticket (t ∷ ts) =
    let rest = remove_first ticket ts in if t == ticket then ts else t ∷ rest

unfoldable pub remove : String → String → AdmissionQueue → AdmissionQueue
unfolding set_queue remove_first
remove lane ticket q =
    if any (λ t. t == ticket) (queue_of lane q)
    then record q {
      lanes = set_queue lane (remove_first ticket (queue_of lane q)) q.lanes;
      waiting = q.waiting - 1;
    }
    else q

-- `wait` when the timeout is 0: one probe and no waiting.
abbrev pub at_once : Bool → AdmissionStatus
at_once found = if found then admitted else timed_out

-- What a turn is told: the time before and after the probe, and whether the probe finds a replica.
pub record Turn : Type 0 where
  pub lane : String
  pub ticket : String
  pub first : Bool
  pub over : Bool
  pub elapsed : ℕ
  pub after : ℕ
  pub found : Bool

-- The end of a turn that is not admitted: `late` is whether no time remains.
abbrev pub settle_turn : Turn → Bool → AdmissionQueue → AdmissionQueue × Option AdmissionStatus
settle_turn t late q =
    if t.first && t.over
    then (remove t.lane t.ticket q, some overflow)
    else if late
    then (remove t.lane t.ticket q, some timed_out)
    else (q, none)

-- One turn of the loop of `wait`; without a status it sleeps and takes another.
unfoldable pub turn : Turn → AdmissionQueue → AdmissionQueue × Option AdmissionStatus
unfolding is_head remove
turn t q =
    let late = leb q.timeout t.elapsed in
    if (t.first || not late) && is_head t.lane t.ticket q
    then (if leb q.timeout t.after
        then (remove t.lane t.ticket q, some timed_out)
        else if t.found
        then (remove t.lane t.ticket q, some admitted)
        else settle_turn t false q)
    else settle_turn t late q

pub data Step : Type 0 where
  arrive : String → String → Step
  attempt : Turn → Step
  cancel : String → String → Step

unfoldable pub admit_step : Step → AdmissionQueue → AdmissionQueue × Option AdmissionStatus
unfolding enter turn remove
admit_step (arrive lane ticket) q = enter lane ticket q
admit_step (attempt t) q = turn t q
admit_step (cancel lane ticket) q = (remove lane ticket q, none)

unfoldable pub admit_run : List Step → AdmissionQueue → AdmissionQueue
unfolding admit_step
admit_run [] q = q
admit_run (s ∷ ss) q = admit_run ss ((admit_step s q).0)
