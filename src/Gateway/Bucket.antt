-- ===== src/Gateway/Bucket.antt =====
-- How many requests a key's token bucket lets through.
use fallow.Prelude.{
  ℕ, ◌+◌, ◌-◌, ◌*◌, ◌≤◌, max, Option, some, List, [], ◌∷◌, ◌≡◌, sym, ap, ◌∙◌, arith, is_some,
  Bool-cases, inl, inr, ◌||◌, if◌then◌else◌,
}
use native.Mathlib.Nat.{add-mul}
use fallow.Gateway.Quota.{
  KeyState, token_units, refresh, lacks_token, at_daily_limit, charge, charges,
}

-- What the clock's advance adds.
advance : (u now r : ℕ) → (now - u) * r + u * r ≡ max u now * r
advance u now r =
    let reached : now - u + u ≡ max u now = ground arith in
    sym (add-mul (now - u) u r) ∙ ap (λ x. x * r) reached

charge-spends :
    (r : ℕ) (daily : Option ℕ) (now : ℕ) (s : KeyState)
    → (let c = charge (some r) daily now s in
        (if is_some (c.1) then 0 else 1) * token_units
          + (c.0).bucket_tokens
          + s.bucket_updated_at * r
        ≤ s.bucket_tokens + (c.0).bucket_updated_at * r)
unfolding charge refresh
charge-spends r daily now s =
    elim (Bool-cases (
      lacks_token (some r) (refresh (some r) now s)
      || at_daily_limit daily (refresh (some r) now s))) [
        | inl e ↦ rw (e, charge) (ground (arith, advance s.bucket_updated_at now r))
        | inr e ↦ rw (e, charge) (ground (arith, e, advance s.bucket_updated_at now r))
      ]

-- If a key has a limit of `r` requests a minute: the tokens of the requests that were let through and
-- what the bucket then holds come to no more than what it held and what `r` adds in the time by which
-- its clock advanced.
pub charges_bounded :
    (r : ℕ) (daily : Option ℕ) (times : List ℕ) (s : KeyState)
    → (let c = charges (some r) daily times s in
        c.1 * token_units + (c.0).bucket_tokens + s.bucket_updated_at * r
        ≤ s.bucket_tokens + (c.0).bucket_updated_at * r)
unfolding charges
charges_bounded r daily [] s = omega arith
charges_bounded r daily (now ∷ times) s =
    let c : KeyState × Option ℕ = charge (some r) daily now s in
    omega (arith, charge-spends r daily now s, charges_bounded r daily times (c.0))
