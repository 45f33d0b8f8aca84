-- ===== src/Registry/Fence.antt =====
-- The presence fence of an agent: its generation and its sequence only grow.
use fallow.Prelude.{
  ℕ, ◌≤◌, true, false, Option, none, some, String, List, [], ◌∷◌, ◌++◌, ◌≡◌, refl, ap, ◌∙◌, arith,
  map, Bool-cases, inl, inr, or_else,
}
use mathlib.Core.Option
use fallow.Prelude.Eq.{◌==◌, String_eq}
use fallow.Prelude.Table.{lookup, has, lookup-map, lookup-append}
use fallow.Registry.Rows.{AgentRow, Tables, RegistryConfig, agent_key}
use fallow.Registry.Presence.{newer, max_sequence}
use fallow.Registry.Agents.{
  RowUpdate, revoking, beating, setting, moving, bumping, updated, updated_for,
  updated_for-agent_id, run-keeps,
}
use fallow.Registry.Calls.{Call, run}

abbrev IsAtMost : Option ℕ → Option ℕ → Type 0
IsAtMost none o = Unit
IsAtMost (some n) none = ⊥
IsAtMost (some n) (some m) = n ≤ m

-- A later row of the same enrolment.
pub record IsLater (r a : AgentRow) : Type 0 where
  pub generation : r.presence_generation ≤ a.presence_generation
  pub sequence : IsAtMost r.presence_sequence a.presence_sequence
  pub transport : a.transport ≡ r.transport
  pub device : a.device_token_hash ≡ r.device_token_hash

IsAtMost-refl : (o : Option ℕ) → IsAtMost o o
IsAtMost-refl none = tt
IsAtMost-refl (some n) = omega arith

IsAtMost-max_sequence : (o p : Option ℕ) (n : ℕ) → IsAtMost o p → IsAtMost o (max_sequence p n)
IsAtMost-max_sequence none p n h = tt
IsAtMost-max_sequence (some m) none n h = absurd h
IsAtMost-max_sequence (some m) (some k) n h = ground (arith, h)

IsAtMost-newer : (o p : Option ℕ) (n : ℕ) → newer p n ≡ true → IsAtMost o p → IsAtMost o (some n)
IsAtMost-newer none p n e h = tt
IsAtMost-newer (some m) none n e h = absurd h
IsAtMost-newer (some m) (some k) n e h = ground (arith, h, e)

IsLater-updated :
    (r : AgentRow) (u : RowUpdate) (a : AgentRow) → IsLater r a → IsLater r (updated u a)
IsLater-updated r (revoking now) a h = record {
  generation = h.generation;
  sequence = h.sequence;
  transport = h.transport;
  device = h.device;
}
IsLater-updated r (beating b now) a h = record {
  generation = h.generation;
  sequence = IsAtMost-max_sequence r.presence_sequence a.presence_sequence b.seq h.sequence;
  transport = h.transport;
  device = h.device;
}
IsLater-updated r (setting s now) a h = record {
  generation = h.generation;
  sequence = h.sequence;
  transport = h.transport;
  device = h.device;
}
IsLater-updated r (moving kind n now) a h = elim (Bool-cases (newer a.presence_sequence n)) [
  | inl e ↦ rw e (record {
    generation = ground (arith, h.generation);
    sequence = IsAtMost-newer r.presence_sequence a.presence_sequence n e h.sequence;
    transport = h.transport;
    device = h.device;
  })
  | inr e ↦ rw e h
]
IsLater-updated r bumping a h = record {
  generation = ground (arith, h.generation);
  sequence = h.sequence;
  transport = h.transport;
  device = h.device;
}

-- The agent's row is there, and later than `r`.
abbrev Follows : String → AgentRow → List AgentRow → Type 0
Follows agent r rows = (a : AgentRow) × (lookup agent_key agent rows ≡ some a) × IsLater r a

Follows-update :
    (agent : String) (r : AgentRow) (other : String) (u : RowUpdate) (rows : List AgentRow)
    → Follows agent r rows
    → Follows agent r (map (updated_for other u) rows)
Follows-update agent r other u rows h = (
  updated_for other u h.0,
  lookup-map agent_key (updated_for other u) (updated_for-agent_id other u) agent rows
      ∙ ap (Option.map (updated_for other u)) h.1,
  elim (Bool-cases ((h.0).agent_id == other)) [
    | inl e ↦ rw e (IsLater-updated r u h.0 h.2)
    | inr e ↦ rw e h.2
  ],
)

Follows-append :
    (agent : String) (r a : AgentRow) (rows : List AgentRow)
    → has agent_key a.agent_id rows ≡ false
    → Follows agent r rows
    → Follows agent r (rows ++ a ∷ [])
Follows-append agent r a rows g h = (
  h.0,
  lookup-append agent_key agent rows (a ∷ [])
      ∙ ap (λ o. or_else o (lookup agent_key agent (a ∷ []))) h.1,
  h.2,
)

-- In every run, an enrolled agent stays enrolled under its token and its transport, and neither the
-- generation of its presence nor its sequence ever falls: no heartbeat, event or sweep that comes late
-- lowers the fence.
pub run-IsLater :
    (hash prefix : String → String) (cfg : RegistryConfig) (agent : String) (cs : List Call)
    (db : Tables) {r : AgentRow}
    → lookup agent_key agent db.agents ≡ some r
    → (a : AgentRow) × (lookup agent_key agent (run hash prefix cfg cs db).0.agents ≡ some a)
      × IsLater r a
run-IsLater hash prefix cfg agent cs db {r = r} e =
    run-keeps (Follows agent r) (Follows-update agent r) (Follows-append agent r) hash prefix cfg cs
      db
      (
        r,
        e,
        record {
          generation = omega arith;
          sequence = IsAtMost-refl r.presence_sequence;
          transport = refl;
          device = refl;
        },
      )
