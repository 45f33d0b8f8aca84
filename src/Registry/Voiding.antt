-- ===== src/Registry/Voiding.antt =====
-- What voiding an enrolment token does to the enrolments that it is good for.
use fallow.Prelude.{
  sym, false, ◌∙◌, ℕ, ◌≤◌, Bool, true, some, String, List, [], ◌∷◌, ◌≡◌, refl, ap, arith,
  Bool-cases, inl, inr,
}
use fallow.Prelude.Eq.{==_iff, String_eq, ℕ_eq}
use fallow.Prelude.Members.{filter-In, In}
use fallow.Registry.Rows.{rejects, gives, Answer, EnrollmentToken, Tables}
use fallow.Registry.Tokens.{spend, named, revoke_enrollment_token}
use fallow.Registry.Spending.{left_here, spent_out, is_minted, is_left, spendable, spendable-spend}

-- Whether a revocation says that it voided a token.
abbrev pub says_voided : Answer Bool → Bool
says_voided (gives b) = b
says_voided (rejects e) = false

module _ (hash prefix : String → String) where
  pub spendable-revoke_enrollment_token :
      (h id : String) (now : ℕ) (db : Tables)
      → spendable h (revoke_enrollment_token hash prefix id now db).0.tokens ≤ spendable h db.tokens
  unfolding revoke_enrollment_token spend
  spendable-revoke_enrollment_token h id now db = go (named hash prefix id db) refl
    where
      go :
          (ts : List EnrollmentToken)
          → named hash prefix id db ≡ ts
          → spendable h (revoke_enrollment_token hash prefix id now db).0.tokens
            ≤ spendable h db.tokens
      go [] e = rw (e, revoke_enrollment_token) (omega arith)
      go (t ∷ []) e =
          rw (e, revoke_enrollment_token) (spendable-spend h t.token_hash now (some now) db.tokens)
      go (t ∷ u ∷ us) e = rw (e, revoke_enrollment_token) (omega arith)

  -- A minted token with the id of a revocation that voided one is good for no enrolment any more.
  pub revoke_enrollment_token-voids :
      (h id : String) (now : ℕ) (db : Tables)
      → prefix h ≡ id
      → is_minted h db.tokens ≡ true
      → says_voided (revoke_enrollment_token hash prefix id now db).1 ≡ true
      → spendable h (revoke_enrollment_token hash prefix id now db).0.tokens ≡ 0
  unfolding revoke_enrollment_token named spend
  revoke_enrollment_token-voids h id now db p m v = elim (Bool-cases (is_left h db.tokens)) [
    | inr e ↦
        let none_left : spendable h db.tokens ≡ 0 = ground (arith, e, m) in
        omega (arith, spendable-revoke_enrollment_token h id now db, none_left)
    | inl e ↦
        let (t, i, k, l) = left_here h db.tokens e in
        go t (named hash prefix id db) refl
          (filter-In _ db.tokens t i
            (ground (arith, p, k, l, ==_iff {A = String} (prefix t.token_hash) id)))
          k e v
  ]
    where
      go :
          (s : EnrollmentToken) (ts : List EnrollmentToken)
          → named hash prefix id db ≡ ts
          → In s ts
          → s.token_hash ≡ h
          → is_left h db.tokens ≡ true
          → says_voided (revoke_enrollment_token hash prefix id now db).1 ≡ true
          → spendable h (revoke_enrollment_token hash prefix id now db).0.tokens ≡ 0
      go s [] e i k l v = absurd i
      go s (t ∷ []) e (inl q) k l v =
          let own : t.token_hash ≡ h = sym (ap (λ (x : EnrollmentToken). x.token_hash) q) ∙ k in
          rw (e, own, revoke_enrollment_token) (spent_out h now (some now) db.tokens l)
      go s (t ∷ []) e (inr i) k l v = absurd i
      go s (t ∷ u ∷ us) e i k l v = absurd (ground (arith, e, v))
