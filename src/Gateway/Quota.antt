-- ===== src/Gateway/Quota.antt =====
-- gateway/quota.py. Times are whole microseconds since the epoch, and a bucket counts sixty-millionths of
-- a token, in which a refill is whole; the rounding of floats is left out.
use fallow.Prelude.{
  ℕ, ◌+◌, ◌-◌, ◌*◌, ◌/◌, min, max, Bool, false, not, ◌&&◌, ◌||◌, Option, none, some, String, List,
  [], ◌∷◌, leb, ltb, is_some, if◌then◌else◌,
}
use fallow.Prelude.Eq.{◌==◌, String_eq}
use fallow.Prelude.Table.{lookup, delete}
use fallow.Registry.Catalogue.{ApiKeyInfo}

abbrev pub token_units : ℕ
token_units = 60000000

abbrev pub one_second : ℕ
one_second = 1000000

abbrev pub day_length : ℕ
day_length = 86400000000

pub record KeyState : Type 0 where
  pub key_id : String
  pub bucket_tokens : ℕ
  pub bucket_updated_at : ℕ
  pub day : ℕ
  pub daily_count : ℕ

abbrev pub state_key : KeyState → String
state_key s = s.key_id

-- `now.date()`.
abbrev pub date_of : ℕ → ℕ
date_of now = now / day_length

abbrev pub limit_or_zero : Option ℕ → ℕ
limit_or_zero none = 0
limit_or_zero (some n) = n

abbrev pub new_state : String → Option ℕ → ℕ → KeyState
new_state id rpm now = record {
  key_id = id;
  bucket_tokens = limit_or_zero rpm * token_units;
  bucket_updated_at = now;
  day = date_of now;
  daily_count = 0;
}

-- The bucket after `now - bucket_updated_at`, which counts as 0 when the clock went back.
abbrev pub refilled : Option ℕ → ℕ → KeyState → ℕ
refilled none now s = s.bucket_tokens
refilled (some r) now s = min (r * token_units) (s.bucket_tokens + (now - s.bucket_updated_at) * r)

unfoldable pub refresh : Option ℕ → ℕ → KeyState → KeyState
refresh rpm now s =
    let fresh = ltb s.day (date_of now) in
    record s {
      bucket_tokens = refilled rpm now s;
      bucket_updated_at = max s.bucket_updated_at now;
      day = if fresh then date_of now else s.day;
      daily_count = if fresh then 0 else s.daily_count;
    }

abbrev pub lacks_token : Option ℕ → KeyState → Bool
lacks_token none s = false
lacks_token (some r) s = ltb s.bucket_tokens token_units

abbrev pub at_daily_limit : Option ℕ → KeyState → Bool
at_daily_limit none s = false
at_daily_limit (some d) s = leb d s.daily_count

-- math.ceil of a quotient.
abbrev pub ceil_div : ℕ → ℕ → ℕ
ceil_div n d = (n + (d - 1)) / d

abbrev pub refill_delay : Option ℕ → KeyState → ℕ
refill_delay rpm s =
    max 1 (ceil_div (token_units - s.bucket_tokens) (limit_or_zero rpm * one_second))

abbrev pub next_day_delay : ℕ → ℕ
next_day_delay now = max 1 (ceil_div ((date_of now + 1) * day_length - now) one_second)

-- A delay of 0 stands for none: each is at least 1.
abbrev pub retry_after : Option ℕ → Option ℕ → ℕ → KeyState → ℕ
retry_after rpm daily now s =
    max (if lacks_token rpm s then refill_delay rpm s else 0)
      (if at_daily_limit daily s then next_day_delay now else 0)

-- One token and one request, each if there is a limit on it.
abbrev pub charged : Option ℕ → Option ℕ → KeyState → KeyState
charged rpm daily s = record s {
  bucket_tokens = if is_some rpm then s.bucket_tokens - token_units else s.bucket_tokens;
  daily_count = if is_some daily then s.daily_count + 1 else s.daily_count;
}

-- `consume` of a limited key, on its state; `some` is QuotaExceeded.
unfoldable pub charge : Option ℕ → Option ℕ → ℕ → KeyState → KeyState × Option ℕ
unfolding refresh
charge rpm daily now old =
    let s = refresh rpm now old in
    if lacks_token rpm s || at_daily_limit daily s
    then (s, some (retry_after rpm daily now s))
    else (charged rpm daily s, none)

abbrev pub state_of : String → Option ℕ → ℕ → List KeyState → KeyState
state_of id rpm now states = elim (lookup state_key id states) [
  | none ↦ new_state id rpm now
  | some s ↦ s
]

-- `key.key_id or key.name`.
abbrev pub quota_id : ApiKeyInfo → String
quota_id key = if key.key_id == "" then key.name else key.key_id

unfoldable pub consume : ApiKeyInfo → ℕ → List KeyState → List KeyState × Option ℕ
unfolding charge
consume key now states =
    if key.is_admin || (not (is_some key.rpm_limit) && not (is_some key.daily_limit))
    then (states, none)
    else (let r =
          charge key.rpm_limit key.daily_limit now
            (state_of (quota_id key) key.rpm_limit now states) in
        (r.0 ∷ delete state_key (quota_id key) states, r.1))

-- A key's requests at given times, and how many were let through.
unfoldable pub charges : Option ℕ → Option ℕ → List ℕ → KeyState → KeyState × ℕ
unfolding charge
charges rpm daily [] s = (s, 0)
charges rpm daily (now ∷ times) s =
    let r = charge rpm daily now s in
    let rest = charges rpm daily times (r.0) in (rest.0, (if is_some (r.1) then 0 else 1) + rest.1)
