-- ===== src/Registry/Catalogue.antt =====
-- SqliteRegistry: the model catalogue, the assignments and the API keys.
use fallow.Prelude.{
  ℕ, Bool, true, false, not, ◌&&◌, ◌||◌, Option, none, some, String, List, [], ◌∷◌, ◌++◌, is_some,
  any, filter, map, ltb, if◌then◌else◌,
}
use fallow.Prelude.Eq.{◌==◌, String_eq}
use fallow.Prelude.Table.{lookup, has}
use fallow.Prelude.Rank.{insertion_sort, by, followed_by, by_text, ascending}
use fallow.Protocol.{ModelManifest}
use fallow.Registry.Rows.{
  ModelRow, Tables, RegistryConfig, value_error, integrity, Answer, gives, rejects, api_key,
  model_key, is_revoked,
}

-- UPSERT_MODEL keeps the row's created_at.
unfoldable pub put_model : ModelManifest → String → Bool → ℕ → Tables → Tables
put_model manifest blob_path enabled now db =
    if has model_key manifest.model_id db.models
    then record db {
      models =
          map
            (λ m.
              if m.model_id == manifest.model_id
              then record m { manifest = manifest; blob_path = blob_path; enabled = enabled }
              else m)
            db.models;
    }
    else record db {
      models =
          db.models
          ++ (record {
            model_id = manifest.model_id;
            manifest = manifest;
            blob_path = blob_path;
            enabled = enabled;
            created_at = now;
          })
            ∷ [];
    }

abbrev pub get_model : String → Tables → Option ModelRow
get_model model db = lookup model_key model db.models

unfoldable pub list_models : Tables → List ModelManifest
list_models db =
    map (λ m. m.manifest)
      (insertion_sort
        (followed_by (by ascending (λ m. m.created_at)) (by by_text (λ m. m.model_id))) db.models)

unfoldable pub desired_models : String → Tables → List String
desired_models agent db =
    insertion_sort by_text
      (map (λ a. a.model_id) (filter (λ a. a.agent_id == agent) db.assignments))

-- `NOT EXISTS (SELECT 1 FROM registry_agents WHERE agent_id = ? AND revoked_at IS NOT NULL)`, denied.
abbrev pub agent_revoked : String → Tables → Bool
agent_revoked agent db = any (λ a. a.agent_id == agent && is_revoked a) db.agents

-- INSERT OR IGNORE.
unfoldable pub insert_assignment : String → String → Tables → Tables
insert_assignment agent model db =
    if agent_revoked agent db
      || any (λ a. a.model_id == model && a.agent_id == agent) db.assignments
    then db
    else record db {
      assignments = db.assignments ++ (record { model_id = model; agent_id = agent }) ∷ [];
    }

unfoldable pub insert_assignments : String → List String → Tables → Tables
unfolding insert_assignment
insert_assignments agent [] db = db
insert_assignments agent (m ∷ ms) db = insert_assignments agent ms (insert_assignment agent m db)

unfoldable pub set_assignments : String → List String → Tables → Tables
unfolding insert_assignments
set_assignments agent models db =
    insert_assignments agent models
      (record db { assignments = filter (λ a. not (a.agent_id == agent)) db.assignments })

pub record ApiKeyInfo : Type 0 where
  pub name : String
  pub key_id : String
  pub model_allowlist : Option (List String)
  pub rpm_limit : Option ℕ
  pub daily_limit : Option ℕ
  pub is_admin : Bool

-- A limit is absent or positive.
abbrev pub valid_quota_limit : Option ℕ → Bool
valid_quota_limit none = true
valid_quota_limit (some n) = ltb 0 n

module _ (hash : String → String) where
  unfoldable pub create_api_key :
      String
      → Option (List String)
      → Option ℕ
      → Option ℕ
      → String
      → ℕ
      → Tables
      → Tables × Answer String
  create_api_key name allow rpm daily key now db =
      if not (valid_quota_limit rpm && valid_quota_limit daily)
      then (db, rejects value_error)
      else if has api_key (hash key) db.api_keys
      then (db, rejects integrity)
      else (
        record db {
          api_keys =
              db.api_keys
              ++ (record {
                key_hash = hash key;
                name = name;
                model_allowlist = allow;
                rpm_limit = rpm;
                daily_limit = daily;
                created_at = now;
                revoked_at = none;
              })
                ∷ [];
        },
        gives key,
      )

  unfoldable pub authenticate_api_key : RegistryConfig → String → Tables → Option ApiKeyInfo
  authenticate_api_key cfg bearer db =
      if hash bearer == hash cfg.admin_key
      then some (record {
        name = "admin";
        key_id = hash cfg.admin_key;
        model_allowlist = none;
        rpm_limit = none;
        daily_limit = none;
        is_admin = true;
      })
      else elim (lookup api_key (hash bearer)
          (filter (λ k. not (is_some k.revoked_at)) db.api_keys)) [
            | none ↦ none
            | some k ↦ some (record {
              name = k.name;
              key_id = k.key_hash;
              model_allowlist = k.model_allowlist;
              rpm_limit = k.rpm_limit;
              daily_limit = k.daily_limit;
              is_admin = false;
            })
          ]
