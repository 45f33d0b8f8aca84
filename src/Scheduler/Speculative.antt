-- ===== src/Scheduler/Speculative.antt =====
-- scheduler/speculative.py. The churn model is an argument: what `survival` returns for a holder, the
-- hour, its idle age and a duration, in a type with an order (Python's floats without nan).
use fallow.Prelude.{
  ℕ, true, false, Option, none, some, String, List, [], ◌∷◌, ◌≡◌, refl, ap, sym, ◌∙◌, subst, inl,
  inr, arith, Bool-cases, Option-cases, cons_some, filter_map, All-filter_map, filter_map-All, All,
  if◌then◌else◌,
}
use fallow.Prelude.Rank.{
  Rank, by_text, by, followed_by, NotBefore, least, least_from, least-All, least-NotBefore,
  least-eq-none,
}
use fallow.Prelude.Members.{In, All-In, All_at}
use fallow.Protocol.{AgentSnapshot}

pub record TailUnit : Type 0 where
  pub work_unit_id : String
  pub holder_agent_id : String
  pub est_duration : Option ℕ

module _ {S : Type 0} (order : Rank S) (survival : String → ℕ → ℕ → ℕ → S)
    (holders : String → Option AgentSnapshot) (hour : ℕ) (threshold : S)
    (est_unit_duration : ℕ) where
  unfoldable pub horizon : TailUnit → ℕ
  horizon u = elim u.est_duration [ none ↦ est_unit_duration | some d ↦ d ]

  -- Python's order on (survival, work_unit_id).
  unfoldable pub risk_rank : Rank (S × String)
  risk_rank = followed_by (by order (λ c. c.0)) (by by_text (λ c. c.1))

  -- The unit's (survival, id), if its holder is known and its survival is below the threshold.
  unfoldable pub candidate : TailUnit → Option (S × String)
  unfolding horizon
  candidate u = elim (holders u.holder_agent_id) [
    | none ↦ none
    | some h ↦
        let s = survival h.agent_id hour h.user_idle (horizon u) in
        if order.before s threshold then some (s, u.work_unit_id) else none
  ]

  unfoldable pub better : Option (S × String) → S × String → S × String
  unfolding risk_rank
  better none c = c
  better (some best) c = if risk_rank.before c best then c else best

  unfoldable pub absorb : Option (S × String) → Option (S × String) → Option (S × String)
  unfolding better
  absorb best none = best
  absorb best (some c) = some (better best c)

  -- One turn of the loop, and the loop.
  unfoldable pub consider : Option (S × String) → TailUnit → Option (S × String)
  unfolding candidate absorb
  consider best u = absorb best (candidate u)

  unfoldable pub riskiest : Option (S × String) → List TailUnit → Option (S × String)
  unfolding consider
  riskiest best [] = best
  riskiest best (u ∷ us) = riskiest (consider best u) us

  unfoldable pub choose_backup_unit : List TailUnit → Option String
  unfolding riskiest
  choose_backup_unit units = elim (riskiest none units) [ none ↦ none | some c ↦ some (c.1) ]

  riskiest-least :
      (best : Option (S × String)) (us : List TailUnit)
      → riskiest best us ≡ least risk_rank (cons_some best (filter_map candidate us))
  unfolding riskiest consider absorb better least least_from
  riskiest-least none [] = refl
  riskiest-least (some b) [] = refl
  riskiest-least best (u ∷ us) = go (λ b. riskiest-least b us) (candidate u) best
    where
      go :
          ((b : Option (S × String))
            → riskiest b us ≡ least risk_rank (cons_some b (filter_map candidate us)))
          → (o b : Option (S × String))
          → riskiest (absorb b o) us
            ≡ least risk_rank (cons_some b (cons_some o (filter_map candidate us)))
      go ih none b = ih b
      go ih (some c) none = ih (some c)
      go ih (some c) (some b) = ih (some (better (some b) c))

  -- The unit's holder is known, s is its survival over the unit's runtime, and s is below the threshold.
  pub AtRisk : TailUnit → S → Type 0
  unfolding horizon
  AtRisk u s =
      (h : AgentSnapshot) × (holders u.holder_agent_id ≡ some h)
      × (survival h.agent_id hour h.user_idle (horizon u) ≡ s)
      × (order.before s threshold ≡ true)

  candidate-AtRisk :
      (u : TailUnit) {c : S × String}
      → candidate u ≡ some c
      → AtRisk u (c.0) × (u.work_unit_id ≡ c.1)
  unfolding candidate AtRisk
  candidate-AtRisk u {c = c} h = elim (Option-cases (holders u.holder_agent_id)) [
    | inl e ↦ absurd (ground (arith, e, h))
    | inr (x, e) ↦
        elim (Bool-cases
          (order.before (survival x.agent_id hour x.user_idle (horizon u)) threshold)) [
            | inl k ↦
                let q : (survival x.agent_id hour x.user_idle (horizon u), u.work_unit_id) ≡ c =
                  ground (arith, e, k, h) in
                (
                  (x, e, ap (λ p. p.0) q, subst (λ y. order.before (y.0) threshold ≡ true) q k),
                  ap (λ p. p.1) q,
                )
            | inr k ↦ absurd (ground (arith, e, k, h))
          ]
  ]

  AtRisk-candidate : (u : TailUnit) (s : S) → AtRisk u s → candidate u ≡ some (s, u.work_unit_id)
  unfolding candidate AtRisk
  AtRisk-candidate u s (h, e, f, k) = ground (arith, e, f, k)

  first_before :
      (s : S) (x : String) (t : S) (y : String)
      → NotBefore risk_rank (s, x) (t, y)
      → order.before t s ≡ false
  unfolding risk_rank followed_by by
  first_before s x t y h = ground arith

  -- The unit chosen for a backup is a tail unit at risk whose holder's survival is not above that of
  -- any other tail unit at risk.
  pub choose_backup_unit-riskiest :
      (units : List TailUnit) {id : String}
      → choose_backup_unit units ≡ some id
      → (u : TailUnit) × (s : S) × In u units
        × (u.work_unit_id ≡ id)
        × AtRisk u s
        × ((v : TailUnit) (t : S) → In v units → AtRisk v t → order.before t s ≡ false)
  unfolding choose_backup_unit
  choose_backup_unit-riskiest units h = elim (Option-cases (riskiest none units)) [
    | inl e ↦ absurd (ground (arith, e, h))
    | inr (c, e) ↦
        let found : least risk_rank (filter_map candidate units) ≡ some c =
          sym (riskiest-least none units) ∙ e in
        let source =
          least-All risk_rank (λ d. (u : TailUnit) × In u units × (candidate u ≡ some d))
            (filter_map candidate units) found
            (All-filter_map (λ u. In u units)
              (λ d. (u : TailUnit) × In u units × (candidate u ≡ some d)) candidate
              (λ u d m q. (u, m, q)) units (All-In units)) in
        let others =
          filter_map-All (NotBefore risk_rank c) candidate units
            (least-NotBefore risk_rank (filter_map candidate units) found) in
        let risk = candidate-AtRisk (source.0) (source.2) in
        (
          source.0,
          c.0,
          source.1,
          risk.1 ∙ ground (arith, e, h),
          risk.0,
          λ v t m r. first_before (c.0) (c.1) t (v.work_unit_id) (
              All_at (λ w. (d : S × String) → candidate w ≡ some d → NotBefore risk_rank c d) units
                others v m (t, v.work_unit_id) (AtRisk-candidate v t r)),
        )
  ]

  -- No unit is chosen only if none is at risk.
  choose_backup_unit-none :
      (units : List TailUnit)
      → choose_backup_unit units ≡ none
      → (u : TailUnit) (s : S) → In u units
      → ¬ AtRisk u s
  unfolding choose_backup_unit
  choose_backup_unit-none units h u s m r = elim (Option-cases (riskiest none units)) [
    | inl e ↦
        let empty : filter_map candidate units ≡ [] =
          least-eq-none risk_rank (filter_map candidate units)
            (sym (riskiest-least none units) ∙ e) in
        All_at (λ w. (d : S × String) → candidate w ≡ some d → ⊥) units
          (filter_map-All (λ d. ⊥) candidate units (subst (All (λ d. ⊥)) (sym empty) tt)) u m
          (s, u.work_unit_id) (AtRisk-candidate u s r)
    | inr (c, e) ↦ absurd (ground (arith, e, h))
  ]
