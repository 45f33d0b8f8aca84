-- ===== src/Registry/Spending.antt =====
-- What minting and spending do to the number of enrolments that a token is good for.
use fallow.Prelude.{
  subst, ℕ, ◌+◌, ◌≤◌, Bool, true, not, ◌&&◌, ◌||◌, Option, String, List, [], ◌∷◌, ◌++◌, ◌≡◌, refl,
  arith, is_some, any, filter, map, Bool-cases, inl, inr, if◌then◌else◌,
}
use fallow.Prelude.Eq.{==_refl, ◌==◌, ==_iff, String_eq, ℕ_eq}
use fallow.Prelude.Members.{In}
use fallow.Prelude.Table.{lookup, has}
use fallow.Registry.Rows.{EnrollmentToken, token_key, is_unused}
use fallow.Registry.Tokens.{spend_row}

abbrev pub is_minted : String → List EnrollmentToken → Bool
is_minted h ts = any (λ t. t.token_hash == h) ts

abbrev pub is_left : String → List EnrollmentToken → Bool
is_left h ts = any (λ t. t.token_hash == h && is_unused t) ts

-- 1 while a token can still enrol: it is unused, or not yet minted.
abbrev pub spendable : String → List EnrollmentToken → ℕ
spendable h ts = if is_left h ts || not (is_minted h ts) then 1 else 0

pub spendable-le : (h : String) (ts : List EnrollmentToken) → spendable h ts ≤ 1
spendable-le h ts = ground arith

pub has-is_minted : (h : String) (ts : List EnrollmentToken) → has token_key h ts ≡ is_minted h ts
unfolding lookup
has-is_minted h [] = refl
has-is_minted h (t ∷ ts) = ground (arith, has-is_minted h ts)

pub unused-is_left :
    (h : String) (ts : List EnrollmentToken)
    → is_some (lookup token_key h (filter is_unused ts)) ≡ is_left h ts
unfolding lookup
unused-is_left h [] = refl
unused-is_left h (t ∷ ts) = ground (arith, unused-is_left h ts)

pub is_minted-append :
    (h : String) (ts us : List EnrollmentToken)
    → is_minted h (ts ++ us) ≡ (is_minted h ts || is_minted h us)
is_minted-append h [] us = refl
is_minted-append h (t ∷ ts) us = ground (arith, is_minted-append h ts us)

pub is_left-append :
    (h : String) (ts us : List EnrollmentToken)
    → is_left h (ts ++ us) ≡ (is_left h ts || is_left h us)
is_left-append h [] us = refl
is_left-append h (t ∷ ts) us = ground (arith, is_left-append h ts us)

is_minted-spend :
    (h g : String) (now : ℕ) (r : Option ℕ) (ts : List EnrollmentToken)
    → is_minted h (map (spend_row g now r) ts) ≡ is_minted h ts
unfolding spend_row
is_minted-spend h g now r [] = refl
is_minted-spend h g now r (t ∷ ts) = ground (arith, is_minted-spend h g now r ts)

is_left-spend :
    (h g : String) (now : ℕ) (r : Option ℕ) (ts : List EnrollmentToken)
    → is_left h (map (spend_row g now r) ts) ≡ (is_left h ts && not (g == h))
unfolding spend_row
is_left-spend h g now r [] = refl
is_left-spend h g now r (t ∷ ts) = ground (
  arith,
  is_left-spend h g now r ts,
  ==_iff {A = String} t.token_hash g,
  ==_iff {A = String} t.token_hash h,
  ==_iff {A = String} g h,
)

pub spendable-spend :
    (h g : String) (now : ℕ) (r : Option ℕ) (ts : List EnrollmentToken)
    → spendable h (map (spend_row g now r) ts) ≤ spendable h ts
spendable-spend h g now r ts =
    ground (arith, is_left-spend h g now r ts, is_minted-spend h g now r ts)

is_left-is_minted :
    (h : String) (ts : List EnrollmentToken) → is_left h ts ≡ true → is_minted h ts ≡ true
is_left-is_minted h [] e = e
is_left-is_minted h (t ∷ ts) e = ground (arith, is_left-is_minted h ts, e)

pub spent_once :
    (h g : String) (now : ℕ) (r : Option ℕ) (ts : List EnrollmentToken)
    → is_left g ts ≡ true
    → (if g == h then 1 else 0) + spendable h (map (spend_row g now r) ts) ≤ spendable h ts
spent_once h g now r ts e = elim (Bool-cases (g == h)) [
  | inl q ↦ ground (
    arith,
    q,
    is_left-spend h g now r ts,
    is_minted-spend h g now r ts,
    subst (λ x. is_left x ts ≡ true) ((==_iff {A = String} g h).0 q) e,
    is_left-is_minted h ts (subst (λ x. is_left x ts ≡ true) ((==_iff {A = String} g h).0 q) e),
  )
  | inr q ↦ ground (arith, q, spendable-spend h g now r ts)
]

-- A token that was left is not good for any enrolment once it is spent.
pub spent_out :
    (h : String) (now : ℕ) (r : Option ℕ) (ts : List EnrollmentToken)
    → is_left h ts ≡ true
    → spendable h (map (spend_row h now r) ts) ≡ 0
spent_out h now r ts e = ground (
  arith,
  is_left-spend h h now r ts,
  is_minted-spend h h now r ts,
  is_left-is_minted h ts e,
  ==_refl {A = String} h,
)

pub left_here :
    (h : String) (ts : List EnrollmentToken)
    → is_left h ts ≡ true
    → (t : EnrollmentToken) × In t ts × (t.token_hash ≡ h) × (is_unused t ≡ true)
left_here h [] e = absurd (cc)
left_here h (t ∷ ts) e = elim (Bool-cases (t.token_hash == h && is_unused t)) [
  | inl f ↦ (t, inl refl, ground (arith, f, ==_iff {A = String} t.token_hash h), ground (arith, f))
  | inr f ↦ let (u, m, k, l) = left_here h ts (ground (arith, e, f)) in (u, inr m, k, l)
]
