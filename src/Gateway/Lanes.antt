-- ===== src/Gateway/Lanes.antt =====
-- The waiting room: its count is the number of waiting tickets.
use fallow.Prelude.{
  ℕ, ◌+◌, ◌≤◌, Bool, true, false, not, ◌&&◌, ◌||◌, Option, none, some, String, List, [], ◌∷◌, ◌++◌,
  ◌≡◌, ap, subst, arith, length, length-append, leb, is_empty, any, Bool-cases, inl, inr,
}
use fallow.Prelude.Eq.{◌==◌, ==_iff, ==_refl, String_eq}
use fallow.Prelude.Table.{lookup, delete, lookup-delete, IsKeyed, IsKeyed-delete}
use fallow.Gateway.Admission.{
  Lane, AdmissionQueue, AdmissionStatus, admitted, overflow, timed_out, lane_key, tickets_of,
  queue_of, set_queue, over_capacity, enter, is_head, remove_first, remove, Turn, settle_turn, turn,
  Step, arrive, attempt, cancel, admit_step, admit_run,
}

abbrev pub total_tickets : List Lane → ℕ
total_tickets [] = 0
total_tickets (l ∷ ls) = length l.tickets + total_tickets ls

-- The lanes are distinct, and their tickets are counted.
pub record IsCounted (q : AdmissionQueue) : Type 0 where
  pub keyed : IsKeyed lane_key q.lanes
  pub counted : q.waiting ≡ total_tickets q.lanes

-- Without its lane the room holds that many tickets fewer.
total_tickets-delete :
    (lane : String) (ls : List Lane)
    → IsKeyed lane_key ls
    → total_tickets (delete lane_key lane ls) + length (tickets_of (lookup lane_key lane ls))
      ≡ total_tickets ls
unfolding delete lookup
total_tickets-delete lane [] k = omega arith
total_tickets-delete lane (l ∷ ls) k = elim (Bool-cases (l.lane == lane)) [
  | inl e ↦ rw e (
      omega
        (arith, total_tickets-delete lane ls k.1, ap {B = ℕ} (λ o. length (tickets_of o)) (away e)))
  | inr e ↦ rw e (omega (arith, total_tickets-delete lane ls k.1))
]
  where
    away : (l.lane == lane) ≡ true → lookup lane_key lane ls ≡ none
    away e = subst (λ x. lookup lane_key x ls ≡ none) ((==_iff {A = String} l.lane lane).0 e) k.0

total_tickets-set_queue :
    (lane : String) (ts : List String) (ls : List Lane)
    → IsKeyed lane_key ls
    → total_tickets (set_queue lane ts ls) + length (tickets_of (lookup lane_key lane ls))
      ≡ length ts + total_tickets ls
unfolding set_queue
total_tickets-set_queue lane [] ls k = omega (arith, total_tickets-delete lane ls k)
total_tickets-set_queue lane (t ∷ ts) ls k = omega (arith, total_tickets-delete lane ls k)

IsKeyed-set_queue :
    (lane : String) (ts : List String) (ls : List Lane)
    → IsKeyed lane_key ls
    → IsKeyed lane_key (set_queue lane ts ls)
unfolding set_queue
IsKeyed-set_queue lane [] ls k = IsKeyed-delete lane_key lane ls k
IsKeyed-set_queue lane (t ∷ ts) ls k = (
  ground (arith, lookup-delete lane_key lane lane ls, ==_refl {A = String} lane),
  IsKeyed-delete lane_key lane ls k,
)

length-remove_first :
    (t : String) (ts : List String)
    → any (λ x. x == t) ts ≡ true
    → length (remove_first t ts) + 1 ≡ length ts
unfolding remove_first
length-remove_first t [] h = absurd (ground (arith, h))
length-remove_first t (x ∷ xs) h = ground (arith, h, length-remove_first t xs)

length-any : (t : String) (ts : List String) → any (λ x. x == t) ts ≡ true → 1 ≤ length ts
length-any t [] h = absurd (ground (arith, h))
length-any t (x ∷ xs) h = omega arith

IsCounted-enter :
    (lane ticket : String) (q : AdmissionQueue) → IsCounted q → IsCounted ((enter lane ticket q).0)
unfolding enter
IsCounted-enter lane ticket q h =
    elim (Bool-cases (not (is_empty (queue_of lane q)) && over_capacity q)) [
      | inl e ↦ rw (e, enter) h
      | inr e ↦
          rw (e, enter)
            (record {
              keyed = IsKeyed-set_queue lane (queue_of lane q ++ ticket ∷ []) q.lanes h.keyed;
              counted = omega (
                arith,
                h.counted,
                total_tickets-set_queue lane (queue_of lane q ++ ticket ∷ []) q.lanes h.keyed,
                length-append (queue_of lane q) (ticket ∷ []),
              );
            })
    ]

IsCounted-remove :
    (lane ticket : String) (q : AdmissionQueue) → IsCounted q → IsCounted (remove lane ticket q)
unfolding remove
IsCounted-remove lane ticket q h = elim (Bool-cases (any (λ t. t == ticket) (queue_of lane q))) [
  | inr e ↦ rw (e, remove) h
  | inl e ↦
      rw (e, remove)
        (record {
          keyed = IsKeyed-set_queue lane (remove_first ticket (queue_of lane q)) q.lanes h.keyed;
          counted = omega (
            arith,
            h.counted,
            total_tickets-set_queue lane (remove_first ticket (queue_of lane q)) q.lanes h.keyed,
            length-remove_first ticket (queue_of lane q) e,
          );
        })
]

-- A turn leaves the room as it is, or its ticket goes: late, over capacity, or admitted.
pub turn_cases {κ} :
    (P : AdmissionQueue × Option AdmissionStatus → Type κ) (t : Turn) (q : AdmissionQueue)
    → P (q, none)
    → P (remove t.lane t.ticket q, some timed_out)
    → P (remove t.lane t.ticket q, some overflow)
    → (is_head t.lane t.ticket q ≡ true
        → leb q.timeout t.after ≡ false
        → t.found ≡ true
        → P (remove t.lane t.ticket q, some admitted))
    → P (turn t q)
unfolding turn
turn_cases P t q idle late full adm =
    elim (Bool-cases ((t.first || not (leb q.timeout t.elapsed)) && is_head t.lane t.ticket q)) [
      | inr e ↦ rw (e, turn) (settled (leb q.timeout t.elapsed))
      | inl e ↦ elim (Bool-cases (leb q.timeout t.after)) [
        | inl f ↦ rw (e, f, turn) late
        | inr f ↦ elim (Bool-cases t.found) [
          | inl g ↦ rw (e, f, g, turn) (adm (ground (arith, e)) f g)
          | inr g ↦ rw (e, f, g, turn) (settled false)
        ]
      ]
    ]
  where
    settled : (l : Bool) → P (settle_turn t l q)
    settled l = elim (Bool-cases (t.first && t.over)) [
      | inl e ↦ rw e full
      | inr e ↦ elim (Bool-cases l) [ inl f ↦ rw (e, f) late | inr f ↦ rw (e, f) idle ]
    ]

IsCounted-step : (s : Step) (q : AdmissionQueue) → IsCounted q → IsCounted ((admit_step s q).0)
unfolding admit_step
IsCounted-step (arrive lane ticket) q h = IsCounted-enter lane ticket q h
IsCounted-step (attempt t) q h =
    turn_cases (λ x. IsCounted (x.0)) t q h (IsCounted-remove t.lane t.ticket q h)
      (IsCounted-remove t.lane t.ticket q h) (λ e f g. IsCounted-remove t.lane t.ticket q h)
IsCounted-step (cancel lane ticket) q h = IsCounted-remove lane ticket q h

-- Whatever requests arrive, take their turns and are cancelled, the room's count stays the number of
-- tickets that wait in its lanes, each lane being there once.
pub admit_run-IsCounted :
    (ss : List Step) (q : AdmissionQueue) → IsCounted q → IsCounted (admit_run ss q)
unfolding admit_run
admit_run-IsCounted [] q h = h
admit_run-IsCounted (s ∷ ss) q h =
    admit_run-IsCounted ss ((admit_step s q).0) (IsCounted-step s q h)
