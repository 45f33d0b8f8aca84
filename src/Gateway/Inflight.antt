-- ===== src/Gateway/Inflight.antt =====
-- gateway/inflight.py: the counts by (host, port), and a hold whose release counts once.
use fallow.Prelude.{
  ℕ, zero, suc, ◌+◌, ◌-◌, Bool, true, false, not, ◌&&◌, Option, none, some, String, List, [], ◌∷◌,
  ◌≡◌, refl, arith, leb, if◌then◌else◌,
}
use fallow.Prelude.Eq.{◌==◌, ℕ_eq, String_eq, Pair_eq, ==_iff}
use fallow.Prelude.Table.{lookup, delete, lookup-delete}

abbrev pub Key : Type 0
Key = String × ℕ

pub record Slot : Type 0 where
  pub key : Key
  pub requests : ℕ

abbrev pub slot_key : Slot → Key
slot_key s = s.key

abbrev pub requests_of : Option Slot → ℕ
requests_of none = 0
requests_of (some s) = s.requests

-- `self._counts.get(key, 0)`.
unfoldable pub count : Key → List Slot → ℕ
count k counts = requests_of (lookup slot_key k counts)

-- `self._counts[key] = n`; the place of a key in the dict is never read.
unfoldable pub assign : Key → ℕ → List Slot → List Slot
assign k n counts = (record { key = k; requests = n }) ∷ delete slot_key k counts

pub record InflightHold : Type 0 where
  pub key : Key
  pub released : Bool

unfoldable pub hold : Key → List Slot → List Slot × InflightHold
unfolding assign count
hold k counts = (assign k (count k counts + 1) counts, record { key = k; released = false })

-- `remaining <= 0` reads a count of 0 or 1.
unfoldable pub decrement : Key → List Slot → List Slot
unfolding assign count
decrement k counts =
    let n = count k counts in if leb n 1 then delete slot_key k counts else assign k (n - 1) counts

unfoldable pub release : InflightHold → List Slot → List Slot × InflightHold
unfolding decrement
release h counts =
    if h.released then (counts, h) else (decrement h.key counts, record h { released = true })

-- The requests in flight: each takes a hold, and may release it any number of times.
pub data Action : Type 0 where
  take : Key → Action
  give : ℕ → Action

pub record Traffic : Type 0 where
  pub counts : List Slot
  pub holds : List InflightHold

unfoldable pub release_nth : ℕ → List Slot → List InflightHold → List Slot × List InflightHold
unfolding release
release_nth i counts [] = (counts, [])
release_nth zero counts (h ∷ hs) = let r = release h counts in (r.0, r.1 ∷ hs)
release_nth (suc i) counts (h ∷ hs) = let r = release_nth i counts hs in (r.0, h ∷ r.1)

unfoldable pub act : Action → Traffic → Traffic
unfolding hold release_nth
act (take k) t = let r = hold k t.counts in record { counts = r.0; holds = (r.1) ∷ t.holds }
act (give i) t = let r = release_nth i t.counts t.holds in record { counts = r.0; holds = r.1 }

unfoldable pub acts : List Action → Traffic → Traffic
unfolding act
acts [] t = t
acts (a ∷ more) t = acts more (act a t)

-- The holds of a key that are not released.
abbrev pub live : Key → List InflightHold → ℕ
live k [] = 0
live k (h ∷ hs) = let rest = live k hs in if h.key == k && not h.released then suc rest else rest

count-delete :
    (k j : Key) (counts : List Slot)
    → count j (delete slot_key k counts) ≡ (if k == j then 0 else count j counts)
unfolding count
count-delete k j counts = ground (arith, lookup-delete slot_key k j counts)

count-assign :
    (k j : Key) (n : ℕ) (counts : List Slot)
    → count j (assign k n counts) ≡ (if k == j then n else count j counts)
unfolding count assign lookup
count-assign k j n counts = ground (arith, lookup-delete slot_key k j counts)

count-decrement :
    (k j : Key) (counts : List Slot)
    → count j (decrement k counts) ≡ (if k == j then count k counts - 1 else count j counts)
unfolding decrement
count-decrement k j counts =
    ground (arith, count-assign k j (count k counts - 1) counts, count-delete k j counts)

release_nth-count :
    (k : Key) (i a : ℕ) (counts : List Slot) (hs : List InflightHold)
    → count k counts ≡ a + live k hs
    → (let r = release_nth i counts hs in count k (r.0) ≡ a + live k (r.1))
unfolding release_nth release
release_nth-count k i a counts [] e = e
release_nth-count k zero a counts (h ∷ hs) e =
    ground (arith, e, count-decrement h.key k counts, ==_iff h.key k)
release_nth-count k (suc i) a counts (h ∷ hs) e =
    let b = if h.key == k && not h.released then suc a else a in
    ground (arith, e, release_nth-count k i b counts hs)

act-count :
    (k : Key) (a : Action) (t : Traffic)
    → count k t.counts ≡ live k t.holds
    → count k (act a t).counts ≡ live k (act a t).holds
unfolding act hold
act-count k (take j) t e =
    ground (arith, e, count-assign j k (count j t.counts + 1) t.counts, ==_iff j k)
act-count k (give i) t e =
    omega (arith, release_nth-count k i 0 t.counts t.holds (omega (arith, e)))

acts-count :
    (k : Key) (more : List Action) (t : Traffic)
    → count k t.counts ≡ live k t.holds
    → count k (acts more t).counts ≡ live k (acts more t).holds
unfolding acts
acts-count k [] t e = e
acts-count k (a ∷ more) t e = acts-count k more (act a t) (act-count k a t e)

abbrev pub quiet : Traffic
quiet = record { counts = []; holds = [] }

-- After any takes and releases, repeated releases among them, the count of each replica is the number
-- of its holds that are not released.
pub count-live :
    (k : Key) (more : List Action)
    → count k (acts more quiet).counts ≡ live k (acts more quiet).holds
unfolding count lookup
count-live k more = acts-count k more quiet refl
