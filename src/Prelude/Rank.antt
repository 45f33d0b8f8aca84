-- ===== src/Prelude/Rank.antt =====
-- Strict weak orders as an interface, and the first least item of a list: Python's `min` and
-- the first row of SQL's ORDER BY ... LIMIT 1.
use Prim.Native.Nat.{ℕ, suc}
use Prim.Native.Char.{code}
use Prim.Native.String.{String}
use mathlib.Core.Path.{◌≡◌, refl, subst}
use mathlib.Core.Logic.{◌⊎◌, inl, inr}
use mathlib.Core.Bool.{Bool, true, false, not, ◌&&◌, ◌||◌}
use mathlib.Core.Option.{Option, none, some, some-injective}
use mathlib.Core.List.{List, [], ◌∷◌}
use native.Mathlib.Omega.{arith}
use fallow.Prelude.Tests.{ltb, Bool-cases, if◌then◌else◌}
use fallow.Prelude.Lists.{All, All-mono, count, length}

pub record Rank (A : Type 0) : Type 0 where
  pub before : A → A → Bool
  pub asym : (a b : A) → before a b ≡ true → before b a ≡ false
  -- If a comes before c, every b lies after a or before c.
  pub split : (a b c : A) → before a c ≡ true → (before a b ≡ true) ⊎ (before b c ≡ true)

pub nat_split : (a b c : ℕ) → ltb a c ≡ true → (ltb a b ≡ true) ⊎ (ltb b c ≡ true)
nat_split a b c h = grind arith

pub nat_asym : (a b : ℕ) → ltb a b ≡ true → ltb b a ≡ false
nat_asym a b h = ground arith

unfoldable pub ascending : Rank ℕ
ascending = record { before = ltb; asym = nat_asym; split = nat_split }

abbrev pub bool_before : Bool → Bool → Bool
bool_before a b = not a && b

pub bool_split :
    (a b c : Bool) → bool_before a c ≡ true → (bool_before a b ≡ true) ⊎ (bool_before b c ≡ true)
bool_split a b c h = ground arith

pub bool_asym : (a b : Bool) → bool_before a b ≡ true → bool_before b a ≡ false
bool_asym a b h = ground arith

-- False before True.
unfoldable pub false_first : Rank Bool
false_first = record { before = bool_before; asym = bool_asym; split = bool_split }

-- Python's `<` on str: by code points, a prefix first.
pub str_before : String → String → Bool
str_before String.[] String.[] = false
str_before String.[] (String.◌∷◌ d t) = true
str_before (String.◌∷◌ c s) String.[] = false
str_before (String.◌∷◌ c s) (String.◌∷◌ d t) =
    let rest = str_before s t in
    if ltb (code c) (code d) then true else if ltb (code d) (code c) then false else rest

pub str_asym : (s t : String) → str_before s t ≡ true → str_before t s ≡ false
unfolding str_before
str_asym String.[] String.[] h = refl
str_asym String.[] (String.◌∷◌ d t) h = refl
str_asym (String.◌∷◌ c s) String.[] h = ground arith
str_asym (String.◌∷◌ c s) (String.◌∷◌ d t) h = ground (arith, str_asym s t)

pub str_split :
    (s t u : String) → str_before s u ≡ true → (str_before s t ≡ true) ⊎ (str_before t u ≡ true)
unfolding str_before
str_split String.[] String.[] u h = inr h
str_split String.[] (String.◌∷◌ d t) u h = inl refl
str_split (String.◌∷◌ c s) t String.[] h = ground arith
str_split (String.◌∷◌ c s) String.[] (String.◌∷◌ x u) h = inr refl
str_split (String.◌∷◌ c s) (String.◌∷◌ d t) (String.◌∷◌ x u) h = ground (arith, str_split s t u)

unfoldable pub by_text : Rank String
unfolding str_before
by_text = record { before = str_before; asym = str_asym; split = str_split }

module _ {A : Type 0} (r : Rank A) where
  pub descending_split :
      (a b c : A) → r.before c a ≡ true → (r.before b a ≡ true) ⊎ (r.before c b ≡ true)
  descending_split a b c h = ground (arith, r.split c b a)

  unfoldable pub descending : Rank A
  descending = record {
    before = λ a b. r.before b a;
    asym = λ a b. r.asym b a;
    split = descending_split;
  }

module _ {A B : Type 0} (r : Rank B) (f : A → B) where
  unfoldable pub by : Rank A
  by = record {
    before = λ a b. r.before (f a) (f b);
    asym = λ a b. r.asym (f a) (f b);
    split = λ a b c. r.split (f a) (f b) (f c);
  }

module _ {A : Type 0} (r s : Rank A) where
  abbrev pub then_before : A → A → Bool
  then_before a b = r.before a b || not (r.before b a) && s.before a b

  pub then_asym : (a b : A) → then_before a b ≡ true → then_before b a ≡ false
  then_asym a b h = ground (arith, r.asym a b, r.asym b a, s.asym a b)

  pub then_split :
      (a b c : A) → then_before a c ≡ true → (then_before a b ≡ true) ⊎ (then_before b c ≡ true)
  then_split a b c h = ground (
    arith,
    r.split a b c,
    r.split c b a,
    r.split b a c,
    r.split b c a,
    r.split c a b,
    r.split a c b,
    s.split a b c,
  )

  -- Compare by the first, then by the second: Python's tuples.
  unfoldable pub followed_by : Rank A
  followed_by = record { before = then_before; asym = then_asym; split = then_split }

module _ {A : Type 0} (r : Rank A) where
  unfoldable pub least_from : A → List A → A
  least_from best [] = best
  least_from best (x ∷ xs) = least_from (if r.before x best then x else best) xs

  -- `min(items, key=...)`: the first of the least items.
  unfoldable pub least : List A → Option A
  unfolding least_from
  least [] = none
  least (x ∷ xs) = some (least_from x xs)

  abbrev pub NotBefore : A → A → Type 0
  NotBefore m a = r.before a m ≡ false

  not_before_trans :
      (a b c : A) → r.before b a ≡ false → r.before c b ≡ false → r.before c a ≡ false
  not_before_trans a b c h k = ground (arith, r.split c b a)

  least_from-NotBefore :
      (best : A) (xs : List A)
      → (NotBefore (least_from best xs) best) × All (NotBefore (least_from best xs)) xs
  unfolding least_from
  least_from-NotBefore best [] = (ground (arith, r.asym best best), tt)
  least_from-NotBefore best (x ∷ xs) =
      let ih = least_from-NotBefore (if r.before x best then x else best) xs in
      ground (
        arith,
        ih,
        r.asym x best,
        not_before_trans (least_from x xs) x best,
        not_before_trans (least_from best xs) best x,
      )

  pub least-NotBefore : (xs : List A) {m : A} → least xs ≡ some m → All (NotBefore m) xs
  unfolding least
  least-NotBefore [] h = tt
  least-NotBefore (x ∷ xs) {m = m} h =
      let e : least_from x xs ≡ m = some-injective _ _ h in
      subst (λ y. All (NotBefore y) (x ∷ xs)) e (least_from-NotBefore x xs)

  least_from-All {κ} :
      (P : A → Type κ) (best : A) (xs : List A) → P best → All P xs → P (least_from best xs)
  unfolding least_from
  least_from-All P best [] h hs = h
  least_from-All P best (x ∷ xs) h hs = elim (Bool-cases (r.before x best)) [
    | inl e ↦ rw e (least_from-All P x xs hs.0 hs.1)
    | inr e ↦ rw e (least_from-All P best xs h hs.1)
  ]

  -- What holds of every item holds of the least one: it is one of them.
  pub least-All {κ} : (P : A → Type κ) (xs : List A) {m : A} → least xs ≡ some m → All P xs → P m
  unfolding least
  least-All P [] h hs = absurd (cc)
  least-All P (x ∷ xs) h hs = subst P (some-injective _ _ h) (least_from-All P x xs hs.0 hs.1)

  pub least-eq-none : (xs : List A) → least xs ≡ none → xs ≡ []
  unfolding least
  least-eq-none [] h = refl
  least-eq-none (x ∷ xs) h = cc

module _ {A : Type 0} (r : Rank A) where
  unfoldable pub insert_sorted : A → List A → List A
  insert_sorted x [] = x ∷ []
  insert_sorted x (y ∷ ys) =
      let rest = insert_sorted x ys in if r.before y x then y ∷ rest else x ∷ y ∷ ys

  -- Python's stable `sorted`.
  unfoldable pub insertion_sort : List A → List A
  unfolding insert_sorted
  insertion_sort [] = []
  insertion_sort (x ∷ xs) = insert_sorted x (insertion_sort xs)

  length-insert_sorted : (x : A) (xs : List A) → length (insert_sorted x xs) ≡ suc (length xs)
  unfolding insert_sorted
  length-insert_sorted x [] = refl
  length-insert_sorted x (y ∷ ys) = ground (arith, length-insert_sorted x ys)

  pub length-insertion_sort : (xs : List A) → length (insertion_sort xs) ≡ length xs
  unfolding insertion_sort
  length-insertion_sort [] = refl
  length-insertion_sort (x ∷ xs) =
      omega (arith, length-insertion_sort xs, length-insert_sorted x (insertion_sort xs))

  count-insert_sorted :
      (p : A → Bool) (x : A) (xs : List A) → count p (insert_sorted x xs) ≡ count p (x ∷ xs)
  unfolding insert_sorted
  count-insert_sorted p x [] = refl
  count-insert_sorted p x (y ∷ ys) = ground (arith, count-insert_sorted p x ys)

  pub count-insertion_sort : (p : A → Bool) (xs : List A) → count p (insertion_sort xs) ≡ count p xs
  unfolding insertion_sort
  count-insertion_sort p [] = refl
  count-insertion_sort p (x ∷ xs) =
      ground (arith, count-insertion_sort p xs, count-insert_sorted p x (insertion_sort xs))

  insert_sorted-All {κ} :
      (P : A → Type κ) (x : A) (xs : List A) → P x → All P xs → All P (insert_sorted x xs)
  unfolding insert_sorted
  insert_sorted-All P x [] h hs = (h, tt)
  insert_sorted-All P x (y ∷ ys) h hs = ground (arith, insert_sorted-All P x ys h hs.1)

  pub insertion_sort-All {κ} : (P : A → Type κ) (xs : List A) → All P xs → All P (insertion_sort xs)
  unfolding insertion_sort
  insertion_sort-All P [] h = tt
  insertion_sort-All P (x ∷ xs) h =
      insert_sorted-All P x (insertion_sort xs) h.0 (insertion_sort-All P xs h.1)

  -- Sorted: nothing comes before an item that stands ahead of it.
  abbrev pub IsSorted : List A → Type 0
  IsSorted [] = Unit
  IsSorted (x ∷ xs) = All (NotBefore r x) xs × IsSorted xs

  insert_sorted-IsSorted : (x : A) (xs : List A) → IsSorted xs → IsSorted (insert_sorted x xs)
  unfolding insert_sorted
  insert_sorted-IsSorted x [] h = (tt, tt)
  insert_sorted-IsSorted x (y ∷ ys) h = elim (Bool-cases (r.before y x)) [
    | inl e ↦
        rw e (
          insert_sorted-All (NotBefore r y) x ys (r.asym y x e) h.0,
          insert_sorted-IsSorted x ys h.1,
        )
    | inr e ↦ rw e (
      (e, All-mono (NotBefore r y) (NotBefore r x) (λ a k. not_before_trans r x y a e k) ys h.0),
      h,
    )
  ]

  pub insertion_sort-IsSorted : (xs : List A) → IsSorted (insertion_sort xs)
  unfolding insertion_sort
  insertion_sort-IsSorted [] = tt
  insertion_sort-IsSorted (x ∷ xs) =
      insert_sorted-IsSorted x (insertion_sort xs) (insertion_sort-IsSorted xs)
