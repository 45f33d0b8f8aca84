-- ===== src/Prelude/Members.antt =====
-- Being an item of a list, and what filters, sorting and positions do to it.
use Prim.Native.Nat.{ℕ, zero, suc, ◌<◌}
use mathlib.Core.Path.{◌≡◌, refl, sym, subst, ap, ◌∙◌}
use mathlib.Core.Logic.{◌⊎◌, inl, inr}
use mathlib.Core.Bool.{Bool, true, false}
use mathlib.Core.Option.{some}
use mathlib.Core.List.{List, [], ◌∷◌, map}
use native.Mathlib.Omega.{arith}
use fallow.Prelude.Tests.{Bool-cases, if◌then◌else◌}
use fallow.Prelude.Lists.{All, All-mono, filter, head?, length, get_elem?}
use fallow.Prelude.Rank.{Rank, insert_sorted, insertion_sort}

module _ {A : Type 0} where
  abbrev pub In : A → List A → Type 0
  In a [] = ⊥
  In a (x ∷ xs) = (a ≡ x) ⊎ In a xs

  pub All-In : (xs : List A) → All (λ a. In a xs) xs
  All-In [] = tt
  All-In (x ∷ xs) =
      (inl refl, All-mono (λ a. In a xs) (λ a. In a (x ∷ xs)) (λ a h. inr h) xs (All-In xs))

  pub All_at {κ} : (P : A → Type κ) (xs : List A) → All P xs → (a : A) → In a xs → P a
  All_at P [] h a m = absurd m
  All_at P (x ∷ xs) h a (inl e) = subst P (sym e) h.0
  All_at P (x ∷ xs) h a (inr m) = All_at P xs h.1 a m

  pub In-filter : (p : A → Bool) (xs : List A) (a : A) → In a (filter p xs) → In a xs × (p a ≡ true)
  In-filter p [] a h = absurd h
  In-filter p (x ∷ xs) a h = go (In-filter p xs a) (p x) refl h
    where
      go :
          (In a (filter p xs) → In a xs × (p a ≡ true))
          → (b : Bool) → p x ≡ b
          → In a (if b then x ∷ filter p xs else filter p xs)
          → In a (x ∷ xs) × (p a ≡ true)
      go ih true e (inl q) = (inl q, ap p q ∙ e)
      go ih true e (inr m) = let r = ih m in (inr r.0, r.1)
      go ih false e m = let r = ih m in (inr r.0, r.1)

  pub filter-In : (p : A → Bool) (xs : List A) (a : A) → In a xs → p a ≡ true → In a (filter p xs)
  filter-In p [] a h k = h
  filter-In p (x ∷ xs) a (inl e) k = rw (sym e, k) (inl refl)
  filter-In p (x ∷ xs) a (inr m) k = elim (Bool-cases (p x)) [
    | inl e ↦ rw e (inr (filter-In p xs a m k))
    | inr e ↦ rw e (filter-In p xs a m k)
  ]

  pub filter-eq-nil :
      (p : A → Bool) (xs : List A) → ((a : A) → In a xs → p a ≡ false) → filter p xs ≡ []
  filter-eq-nil p [] h = refl
  filter-eq-nil p (x ∷ xs) h =
      ground (arith, h x (inl refl), filter-eq-nil p xs (λ a m. h a (inr m)))

  pub head?-filter :
      (p : A → Bool) (xs : List A) {a : A} → head? (filter p xs) ≡ some a → p a ≡ true
  head?-filter p [] h = absurd (cc)
  head?-filter p (x ∷ xs) {a = a} h = elim (Bool-cases (p x)) [
    | inl e ↦ let same : x ≡ a = ground (arith, e, h) in subst (λ y. p y ≡ true) same e
    | inr e ↦ head?-filter p xs (ground (arith, e, h))
  ]

  pub filter-head? :
      (p : A → Bool) (xs : List A) (a : A)
      → In a xs
      → p a ≡ true
      → (b : A) × (head? (filter p xs) ≡ some b)
  filter-head? p [] a h k = absurd h
  filter-head? p (x ∷ xs) a h k = elim (Bool-cases (p x)) [
    | inl e ↦ rw e (x, refl)
    | inr e ↦ rw e (filter-head? p xs a (later h e) k)
  ]
    where
      later : In a (x ∷ xs) → p x ≡ false → In a xs
      later (inl q) e = absurd (ground (arith, q, e, k))
      later (inr m) e = m

  -- An item stands at some position.
  pub In-position :
      (xs : List A) (a : A) → In a xs → (i : ℕ) × i < length xs × (get_elem? xs i ≡ some a)
  In-position [] a h = absurd h
  In-position (x ∷ xs) a (inl e) = (0, omega arith, ap some (sym e))
  In-position (x ∷ xs) a (inr m) = let r = In-position xs a m in (suc r.0, omega (arith, r.1), r.2)

  pub get_elem?-In : (xs : List A) (i : ℕ) {a : A} → get_elem? xs i ≡ some a → In a xs
  get_elem?-In [] i h = absurd (cc)
  get_elem?-In (x ∷ xs) zero h = inl (ground (arith, h))
  get_elem?-In (x ∷ xs) (suc i) h = inr (get_elem?-In xs i h)

  pub get_elem?-lt : (xs : List A) (i : ℕ) → i < length xs → (a : A) × (get_elem? xs i ≡ some a)
  get_elem?-lt [] i h = absurd (omega arith)
  get_elem?-lt (x ∷ xs) zero h = (x, refl)
  get_elem?-lt (x ∷ xs) (suc i) h = get_elem?-lt xs i (omega arith)

pub In-map : {A B : Type 0} (f : A → B) (xs : List A) (a : A) → In a xs → In (f a) (map f xs)
In-map f [] a h = h
In-map f (x ∷ xs) a (inl e) = inl (ap f e)
In-map f (x ∷ xs) a (inr m) = inr (In-map f xs a m)

module _ {A : Type 0} (r : Rank A) where
  In-insert_sorted : (x : A) (xs : List A) (a : A) → In a (x ∷ xs) → In a (insert_sorted r x xs)
  unfolding insert_sorted
  In-insert_sorted x [] a h = h
  In-insert_sorted x (y ∷ ys) a h = elim (Bool-cases (r.before y x)) [
    | inl e ↦ rw e (moved (In-insert_sorted x ys a) h)
    | inr e ↦ rw e h
  ]
    where
      moved :
          (In a (x ∷ ys) → In a (insert_sorted r x ys))
          → In a (x ∷ y ∷ ys)
          → In a (y ∷ insert_sorted r x ys)
      moved ih (inl q) = inr (ih (inl q))
      moved ih (inr (inl q)) = inl q
      moved ih (inr (inr m)) = inr (ih (inr m))

  pub In-insertion_sort : (xs : List A) (a : A) → In a xs → In a (insertion_sort r xs)
  unfolding insertion_sort
  In-insertion_sort [] a h = h
  In-insertion_sort (x ∷ xs) a (inl e) = In-insert_sorted x (insertion_sort r xs) a (inl e)
  In-insertion_sort (x ∷ xs) a (inr m) =
      In-insert_sorted x (insertion_sort r xs) a (inr (In-insertion_sort xs a m))
