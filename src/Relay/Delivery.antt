-- ===== src/Relay/Delivery.antt =====
-- What a reader of the stream gets: the chunks that were accepted, in order, within the buffer's bound.
use fallow.Prelude.{
  ℕ, ◌+◌, ◌≤◌, Bool, true, false, Option, none, some, String, List, [], ◌∷◌, ◌++◌, ◌≡◌, refl, sym,
  ap, ◌∙◌, arith, All, length, leb, Bool-cases, Option-cases, inl, inr, if◌then◌else◌,
}
use mathlib.Core.List.{append-nil, append_assoc}
use fallow.Mesh.Store.{Bytes}
use fallow.Relay.Stream.{
  max_response_chunk_bytes, ResponseStream, new_stream, Written, waits, accepted, late, ended,
  is_full, append, write_turn, Seen, chunk, closed, read_turn, at_end, close,
}

-- The turns that the producers, the reader and the broker take, in any order.
pub data Turn : Type 0 where
  write : Bytes → ℕ → ℕ → Turn
  read : Turn
  shut : String → Turn

-- A stream with what its writers got in and what its reader got out.
pub record Pipe : Type 0 where
  pub stream : ResponseStream
  pub sent : List Bytes
  pub got : List Bytes

abbrev taken : Written → Bytes → List Bytes
taken accepted c = c ∷ []
taken _ c = []

abbrev given : Seen → List Bytes
given (chunk c) = c ∷ []
given _ = []

unfoldable pub turn : Turn → Pipe → Pipe
unfolding write_turn read_turn close
turn (write c deadline now) p =
    let r = write_turn c deadline now p.stream in
    record p { stream = r.0; sent = p.sent ++ taken (r.1) c }
turn read p = let r = read_turn p.stream in record p { stream = r.0; got = p.got ++ given (r.1) }
turn (shut t) p = record p { stream = close t p.stream }

unfoldable pub turns : List Turn → Pipe → Pipe
unfolding turn
turns [] p = p
turns (t ∷ ts) p = turns ts (turn t p)

abbrev pub opened : ℕ → Pipe
opened max_bytes = record { stream = new_stream max_bytes; sent = []; got = [] }

unfoldable pub bytes : List Bytes → ℕ
bytes [] = 0
bytes (c ∷ cs) = length c + bytes cs

-- The broker refuses longer chunks before they come to the stream.
abbrev pub IsShort : Turn → Type 0
IsShort (write c deadline now) = length c ≤ max_response_chunk_bytes
IsShort _ = Unit {0}

-- What was sent is what was read and then what is buffered; the buffer is counted, and bounded.
pub record IsFaithful (p : Pipe) : Type 0 where
  pub in_order : p.sent ≡ p.got ++ p.stream.chunks
  pub counted : p.stream.buffered ≡ bytes p.stream.chunks
  pub bounded : p.stream.buffered ≤ p.stream.max_bytes
  pub roomy : max_response_chunk_bytes ≤ p.stream.max_bytes

bytes-append : (cs : List Bytes) (c : Bytes) → bytes (cs ++ c ∷ []) ≡ bytes cs + length c
unfolding bytes
bytes-append [] c = omega arith
bytes-append (x ∷ cs) c = omega (arith, bytes-append cs c)

append-IsFaithful :
    (c : Bytes) (p : Pipe)
    → length c ≤ max_response_chunk_bytes
    → is_full c p.stream ≡ false
    → p.stream.terminal ≡ none
    → IsFaithful p
    → IsFaithful (record p { stream = append c p.stream; sent = p.sent ++ c ∷ [] })
unfolding append is_full bytes
append-IsFaithful c p h f n v = record {
  in_order = ap (λ xs. xs ++ c ∷ []) v.in_order ∙ append_assoc p.got p.stream.chunks (c ∷ []);
  counted = omega (arith, v.counted, bytes-append p.stream.chunks c);
  bounded = room p.stream.chunks refl;
  roomy = v.roomy;
}
  where
    room :
        (cs : List Bytes) → p.stream.chunks ≡ cs → p.stream.buffered + length c ≤ p.stream.max_bytes
    room [] e =
        let z : bytes p.stream.chunks ≡ 0 = rw e refl in omega (arith, h, v.roomy, v.counted, z)
    room (x ∷ xs) e = ground (arith, e, f, n)

-- A write that does not wait, by what the stream is.
write-IsFaithful :
    (c : Bytes) (deadline now : ℕ) (p : Pipe)
    → length c ≤ max_response_chunk_bytes
    → IsFaithful p
    → IsFaithful (turn (write c deadline now) p)
unfolding turn write_turn
write-IsFaithful c deadline now p h v = elim (Bool-cases (is_full c p.stream)) [
  | inl f ↦ rw f (same (if leb deadline now then late else waits) (dull (leb deadline now)))
  | inr f ↦ rw f (elim (Option-cases p.stream.terminal) [
    | inr (t, e) ↦ rw e (same (ended t) refl)
    | inl e ↦ rw e (elim (Bool-cases (leb deadline now)) [
      | inl l ↦ rw l (same late refl)
      | inr l ↦ rw l (append-IsFaithful c p h f e v)
    ])
  ])
]
  where
    dull : (b : Bool) → taken (if b then late else waits) c ≡ []
    dull true = refl
    dull false = refl

    same : (w : Written) → taken w c ≡ [] → IsFaithful (record p { sent = p.sent ++ taken w c })
    same w e = rw (e, append-nil p.sent) v

given-at_end : (o : Option String) → given (at_end o) ≡ []
given-at_end none = refl
given-at_end (some t) = refl

read-IsFaithful : (p : Pipe) → IsFaithful p → IsFaithful (turn read p)
unfolding turn read_turn bytes
read-IsFaithful p v = go p.stream.chunks p.stream.buffered v.in_order v.counted v.bounded
  where
    go :
        (cs : List Bytes) (n : ℕ)
        → p.sent ≡ p.got ++ cs
        → n ≡ bytes cs
        → n ≤ p.stream.max_bytes
        → IsFaithful
            (turn read (record p { stream = record (p.stream) { chunks = cs; buffered = n } }))
    go [] n a b c = record {
      in_order = rw (given-at_end p.stream.terminal, append-nil p.got) a;
      counted = b;
      bounded = c;
      roomy = v.roomy;
    }
    go (x ∷ xs) n a b c = record {
      in_order = a ∙ sym (append_assoc p.got (x ∷ []) xs);
      counted = omega (arith, b);
      bounded = omega (arith, c);
      roomy = v.roomy;
    }

turn-IsFaithful : (t : Turn) (p : Pipe) → IsShort t → IsFaithful p → IsFaithful (turn t p)
unfolding turn close
turn-IsFaithful (write c deadline now) p h v = write-IsFaithful c deadline now p h v
turn-IsFaithful read p h v = read-IsFaithful p v
turn-IsFaithful (shut t) p h v = elim (Option-cases p.stream.terminal) [
  | inl e ↦
      rw (e, close)
        (record {
          in_order = v.in_order;
          counted = v.counted;
          bounded = v.bounded;
          roomy = v.roomy;
        })
  | inr (o, e) ↦ rw (e, close) v
]

opened-IsFaithful : (n : ℕ) → IsFaithful (opened n)
unfolding new_stream bytes
opened-IsFaithful n = record {
  in_order = refl;
  counted = refl;
  bounded = omega arith;
  roomy = omega arith;
}

turns-IsFaithful :
    (ts : List Turn) (p : Pipe) → All IsShort ts → IsFaithful p → IsFaithful (turns ts p)
unfolding turns
turns-IsFaithful [] p h v = v
turns-IsFaithful (t ∷ ts) p h v = turns-IsFaithful ts (turn t p) h.1 (turn-IsFaithful t p h.0 v)

-- Whatever turns the writers, the reader and the broker take: the chunks that were accepted are those
-- that were read and then those that are buffered, in order; and the bytes that are buffered are
-- counted exactly and never exceed the limit, if no chunk is longer than the broker admits.
pub turns-delivers : (n : ℕ) (ts : List Turn) → All IsShort ts → IsFaithful (turns ts (opened n))
turns-delivers n ts h = turns-IsFaithful ts (opened n) h (opened-IsFaithful n)

turn-ended :
    (u : Turn) (p : Pipe) {t : String}
    → p.stream.terminal ≡ some t
    → ((turn u p).sent ≡ p.sent) × ((turn u p).stream.terminal ≡ some t)
unfolding turn write_turn read_turn close
turn-ended (write c deadline now) p {t = t} e = elim (Bool-cases (is_full c p.stream)) [
  | inl f ↦ rw f (elim (Bool-cases (leb deadline now)) [
    | inl l ↦ rw l (append-nil p.sent, e)
    | inr l ↦ rw l (append-nil p.sent, e)
  ])
  | inr f ↦ rw (f, e) (append-nil p.sent, e)
]
turn-ended read p {t = t} e = go p.stream.chunks
  where
    go :
        (cs : List Bytes)
        → ((turn read (record p { stream = record (p.stream) { chunks = cs } })).sent ≡ p.sent)
          × ((turn read (record p { stream = record (p.stream) { chunks = cs } })).stream.terminal
              ≡ some t)
    go [] = (refl, e)
    go (x ∷ xs) = (refl, e)
turn-ended (shut u) p e = (refl, rw (e, close) e)

turns-ended :
    (us : List Turn) (p : Pipe) {t : String}
    → p.stream.terminal ≡ some t
    → ((turns us p).sent ≡ p.sent) × ((turns us p).stream.terminal ≡ some t)
unfolding turns
turns-ended [] p e = (refl, e)
turns-ended (u ∷ us) p e =
    let one = turn-ended u p e in
    let rest = turns-ended us (turn u p) (one.1) in (rest.0 ∙ one.0, rest.1)

read_turn-closed :
    (s : ResponseStream) (x : String)
    → (read_turn s).1 ≡ closed x
    → (s.chunks ≡ []) × (s.terminal ≡ some x)
unfolding read_turn
read_turn-closed s x r = go s.chunks s.terminal refl refl
  where
    go :
        (cs : List Bytes) (o : Option String)
        → s.chunks ≡ cs
        → s.terminal ≡ o
        → (s.chunks ≡ []) × (s.terminal ≡ some x)
    go [] none e f = absurd (ground (arith, e, f, r))
    go [] (some t) e f = (e, ground (arith, e, f, r))
    go (c ∷ cs) o e f = absurd (ground (arith, e, r))

-- A reader that is shown the end, whatever turns came after the stream was closed, is shown the end that
-- it was closed with, and has read all that was accepted before; nothing was accepted since.
pub turns_complete :
    (n : ℕ) (ts us : List Turn) {t x : String}
    → All IsShort ts
    → All IsShort us
    → (turns ts (opened n)).stream.terminal ≡ some t
    → (read_turn (turns us (turns ts (opened n))).stream).1 ≡ closed x
    → (x ≡ t)
      × ((turns us (turns ts (opened n))).got ≡ (turns ts (opened n)).sent)
      × ((turns us (turns ts (opened n))).sent ≡ (turns ts (opened n)).sent)
unfolding read_turn
turns_complete n ts us {t = t} {x = x} h k e r =
    let p : Pipe = turns ts (opened n) in
    let q : Pipe = turns us p in
    let stays = turns-ended us p e in
    let v = turns-IsFaithful us p k (turns-delivers n ts h) in
    let c = read_turn-closed q.stream x r in
    (
      ground (arith, c.1, stays.1),
      sym (append-nil q.got) ∙ ap (λ cs. q.got ++ cs) (sym c.0) ∙ sym v.in_order ∙ stays.0,
      stays.0,
    )
