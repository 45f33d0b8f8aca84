-- ===== src/Registry/Revoked.antt =====
-- A revoked agent's rows, under the updates of a row and the addition of another.
use fallow.Prelude.{
  ℕ, true, false, Option, none, some, String, List, [], ◌∷◌, ◌++◌, ◌≡◌, refl, sym, ◌∙◌, subst,
  arith, is_some, or_else, map, Bool-cases, inl, inr, if◌then◌else◌, All, All-append, All-map,
}
use fallow.Prelude.Eq.{◌==◌, ==_iff, String_eq, ℕ_eq}
use fallow.Prelude.Table.{has, lookup-map, lookup-append}
use fallow.Registry.Rows.{AgentRow, agent_key, is_revoked}
use fallow.Registry.Presence.{revoke_row, newer}
use fallow.Registry.Agents.{
  RowUpdate, revoking, beating, setting, moving, bumping, updated, updated_for,
  updated_for-agent_id,
}

-- Every row of the agent is revoked.
abbrev pub AllRevoked : String → List AgentRow → Type 0
AllRevoked agent rows = All (λ a. a.agent_id ≡ agent → is_revoked a ≡ true) rows

abbrev pub IsGone : String → List AgentRow → Type 0
IsGone agent rows = (has agent_key agent rows ≡ true) × AllRevoked agent rows

or_else-keeps : (o : Option ℕ) (n : ℕ) → is_some o ≡ true → is_some (or_else o (some n)) ≡ true
or_else-keeps none n h = refl
or_else-keeps (some x) n h = refl

or_else-some : (o : Option ℕ) (n : ℕ) → is_some (or_else o (some n)) ≡ true
or_else-some none n = refl
or_else-some (some x) n = refl

pub AllRevoked-revoke_row :
    (agent : String) (now : ℕ) (rows : List AgentRow)
    → AllRevoked agent (map (λ a. if a.agent_id == agent then revoke_row now a else a) rows)
AllRevoked-revoke_row agent now [] = tt
AllRevoked-revoke_row agent now (a ∷ rows) = (
  elim (Bool-cases (a.agent_id == agent)) [
    | inl e ↦ rw e (λ q. or_else-some a.revoked_at now)
    | inr e ↦ rw e (λ q. absurd (ground (arith, e, q, ==_iff {A = String} a.agent_id agent)))
  ],
  AllRevoked-revoke_row agent now rows,
)

updated-is_revoked :
    (u : RowUpdate) (a : AgentRow) → is_revoked a ≡ true → is_revoked (updated u a) ≡ true
updated-is_revoked (revoking now) a h = or_else-keeps a.revoked_at now h
updated-is_revoked (beating b now) a h = h
updated-is_revoked (setting s now) a h = h
updated-is_revoked (moving kind n now) a h = elim (Bool-cases (newer a.presence_sequence n)) [
  | inl q ↦ rw q h
  | inr q ↦ rw q h
]
updated-is_revoked bumping a h = h

pub IsGone-update :
    (agent other : String) (u : RowUpdate) (rows : List AgentRow)
    → IsGone agent rows
    → IsGone agent (map (updated_for other u) rows)
IsGone-update agent other u rows h = (
  ground (
    arith,
    lookup-map agent_key (updated_for other u) (updated_for-agent_id other u) agent rows,
    h.0,
  ),
  All-map (λ a. a.agent_id ≡ agent → is_revoked a ≡ true)
      (λ a. a.agent_id ≡ agent → is_revoked a ≡ true) (updated_for other u) still rows h.1,
)
  where
    still :
        (a : AgentRow)
        → (a.agent_id ≡ agent → is_revoked a ≡ true)
        → (updated_for other u a).agent_id ≡ agent
        → is_revoked (updated_for other u a) ≡ true
    still a k q = elim (Bool-cases (a.agent_id == other)) [
      | inl e ↦ rw e (updated-is_revoked u a (k (sym (updated_for-agent_id other u a) ∙ q)))
      | inr e ↦ rw e (k (sym (updated_for-agent_id other u a) ∙ q))
    ]

pub IsGone-append :
    (agent : String) (a : AgentRow) (rows : List AgentRow)
    → has agent_key a.agent_id rows ≡ false
    → IsGone agent rows
    → IsGone agent (rows ++ a ∷ [])
IsGone-append agent a rows g h = (
  ground (arith, lookup-append agent_key agent rows (a ∷ []), h.0),
  All-append (λ x. x.agent_id ≡ agent → is_revoked x ≡ true) rows (a ∷ []) h.1
      (λ q. absurd (stranger q), tt),
)
  where
    stranger : a.agent_id ≡ agent → ⊥
    stranger q = ground (arith, subst (λ x. has agent_key x rows ≡ false) q g, h.0)
