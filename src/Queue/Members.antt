-- ===== src/Queue/Members.antt =====
-- A submission leaves the memberships of other jobs alone, but for the outcomes of their finished units.
use mathlib.Core.Option.{some-injective}
use fallow.Prelude.{
  ◌++◌, ◌∙◌, ℕ, ◌≡◌, ◌≢◌, refl, true, ◌||◌, Option, none, some, String, List, [], ◌∷◌, arith,
  is_some, Bool-cases, Option-cases, inl, inr, ap, sym, subst,
}
use fallow.Prelude.Eq.{◌==◌, String_eq, Pair_eq, ==_iff}
use fallow.Prelude.Table.{lookup, has, lookup-append, lookup-key, lookup-map}
use fallow.Queue.Rows.{
  WorkUnitState, is_leased, is_pending, WorkUnit, Membership, Db, WorkUnitSpec, JobSubmit, is_done,
  is_dead, unit_key, membership_key,
}
use fallow.Queue.Tables.{unit_of, set_job_state}
use fallow.Queue.Status.{recompute_job_state}
use fallow.Queue.Submit.{
  insert_job, attach_units, attach_unit, settle, upsert_unit, owner_row, upsert_membership,
  snapshot_terminal_owner, forget_unit, membership_row, job_row, fresh_row,
}
use fallow.Queue.Invariant.Submits.{unit_of-attach}

abbrev member_of : String × String → Db → Option Membership
member_of k db = lookup membership_key k db.memberships

-- The unit has no outcome that the job `j` could be given.
abbrev pub IsUnfinishedFor : String → String → Db → Type 0
IsUnfinishedFor j u db =
    (w : WorkUnit)
    → unit_of u db ≡ some w
    → (is_done w.state || is_dead w.state) ≡ true
    → w.job_id ≢ j

settle_other : (new m : Membership) → membership_key m ≢ membership_key new → settle new m ≡ m
unfolding settle
settle_other new m ne = ground (arith, ne, ==_iff (membership_key m) (membership_key new))

member_of-upsert :
    (new : Membership) (db : Db) (k : String × String) (m : Membership)
    → member_of k db ≡ some m
    → k ≢ membership_key new
    → member_of k (upsert_membership new db) ≡ some m
unfolding upsert_membership settle
member_of-upsert new db k m h ne =
    elim (Bool-cases (has membership_key (membership_key new) db.memberships)) [
      | inl e ↦
          rw (e, lookup-map membership_key (settle new) (λ x. ground arith) k db.memberships, h)
            (ap some (
              settle_other new m
                (λ q. ne (sym (lookup-key membership_key k db.memberships h) ∙ q))))
      | inr e ↦ rw (e, lookup-append membership_key k db.memberships (new ∷ []), h) refl
    ]

member_of-snapshot :
    (v j u : String) (db : Db) (m : Membership)
    → member_of (j, u) db ≡ some m
    → IsUnfinishedFor j u db
    → member_of (j, u) (snapshot_terminal_owner v db) ≡ some m
unfolding snapshot_terminal_owner owner_row
member_of-snapshot v j u db m h safe = elim (Option-cases (unit_of v db)) [
  | inl e ↦ rw (e, snapshot_terminal_owner) h
  | inr (w, e) ↦ elim (Bool-cases (is_done w.state || is_dead w.state)) [
    | inr f ↦ rw (e, f, snapshot_terminal_owner) h
    | inl f ↦
        rw (e, f, snapshot_terminal_owner)
          (member_of-upsert (owner_row db w) db (j, u) m h (apart w e f))
  ]
]
  where
    apart :
        (w : WorkUnit)
        → unit_of v db ≡ some w
        → (is_done w.state || is_dead w.state) ≡ true
        → (j, u) ≢ membership_key (owner_row db w)
    apart w e f q =
        let key : u ≡ v = ap (λ k. k.1) q ∙ lookup-key unit_key v db.work_units e in
        safe w (subst (λ x. unit_of x db ≡ some w) (sym key) e) f (sym (ap (λ k. k.0) q))

memberships-attach :
    (job : String) (now : ℕ) (v : WorkUnitSpec) (found : Option String) (db : Db)
    → (attach_unit job now v found db).memberships
      ≡ (snapshot_terminal_owner v.work_unit_id db).memberships ++ membership_row job v found ∷ []
unfolding attach_unit forget_unit upsert_unit
memberships-attach job now v none db = ground arith
memberships-attach job now v (some ref) db = ground arith

member_of-attach :
    (job : String) (now : ℕ) (v : WorkUnitSpec) (found : Option String) (db : Db) (j u : String)
    (m : Membership)
    → member_of (j, u) db ≡ some m
    → IsUnfinishedFor j u db
    → member_of (j, u) (attach_unit job now v found db) ≡ some m
member_of-attach job now v found db j u m h safe =
    rw
      (
        memberships-attach job now v found db,
        lookup-append membership_key (j, u) (snapshot_terminal_owner v.work_unit_id db).memberships
            (membership_row job v found ∷ []),
        member_of-snapshot v.work_unit_id j u db m h safe,
      )
      refl

attach_unit-IsUnfinishedFor :
    (job : String) (now : ℕ) (v : WorkUnitSpec) (found : Option String) (db : Db) (j u : String)
    → j ≢ job
    → IsUnfinishedFor j u db
    → IsUnfinishedFor j u (attach_unit job now v found db)
attach_unit-IsUnfinishedFor job now v found db j u other safe w at f =
    let row = sym (unit_of-attach job now v found db u) ∙ at in
    elim (Bool-cases (v.work_unit_id == u)) [
      | inl e ↦
          let own : some (fresh_row job v (is_some found) now) ≡ some w = rw e at row in
          λ q. other (sym q ∙ sym (ap (λ (x : WorkUnit). x.job_id) (some-injective _ _ own)))
      | inr e ↦ safe w (rw e at row) f
    ]

attach_units-keeps_member :
    (job : String) (now : ℕ) (deduped : String → Option String) (vs : List WorkUnitSpec) (db : Db)
    (j u : String) (m : Membership)
    → j ≢ job
    → member_of (j, u) db ≡ some m
    → IsUnfinishedFor j u db
    → member_of (j, u) (attach_units job now deduped vs db) ≡ some m
unfolding attach_units
attach_units-keeps_member job now deduped [] db j u m other h safe = h
attach_units-keeps_member job now deduped (v ∷ vs) db j u m other h safe =
    attach_units-keeps_member job now deduped vs _ j u m other
      (member_of-attach job now v (deduped v.work_unit_id) db j u m h safe)
      (attach_unit-IsUnfinishedFor job now v (deduped v.work_unit_id) db j u other safe)

pub insert_job-keeps_member :
    (job_id : String) (job : JobSubmit) (us : List WorkUnitSpec) (now : ℕ) (db : Db) (j u : String)
    (m : Membership)
    → j ≢ job_id
    → lookup membership_key (j, u) db.memberships ≡ some m
    → IsUnfinishedFor j u db
    → lookup membership_key (j, u) (insert_job job_id job us now db).memberships ≡ some m
unfolding insert_job recompute_job_state set_job_state
insert_job-keeps_member job_id job us now db j u m other h safe =
    attach_units-keeps_member job_id now _ us
      (record db { jobs = db.jobs ++ job_row job_id job now ∷ [] }) j u m other h safe

pub waiting_unit :
    (j u : String) (db : Db) (w : WorkUnit)
    → unit_of u db ≡ some w
    → (is_pending w.state || is_leased w.state) ≡ true
    → IsUnfinishedFor j u db
waiting_unit j u db w e f v at g =
    let same : w ≡ v = some-injective _ _ (sym e ∙ at) in absurd (split w.state f (rw same g))
  where
    split :
        (s : WorkUnitState)
        → (is_pending s || is_leased s) ≡ true
        → (is_done s || is_dead s) ≡ true
        → ⊥
    split s f g = ground (arith, f, g)
