-- ===== src/Relay/Stream.antt =====
-- site_relay/broker.py, `_ResponseStream`: a bounded byte stream that a terminal state ends. A call of
-- `write` waits while it would block; here each call is the turn of the condition's lock in which it
-- ends its wait, with the reading of the clock in that turn.
use fallow.Prelude.{
  ◌*◌, ℕ, ◌+◌, ◌-◌, max, Bool, true, false, not, ◌&&◌, Option, none, some, String, List, [], ◌∷◌,
  ◌++◌, length, ltb, leb, is_some, is_empty, if◌then◌else◌,
}
use fallow.Mesh.Store.{Bytes}

abbrev pub max_response_chunk_bytes : ℕ
max_response_chunk_bytes = 32 * 1024

abbrev pub max_response_buffer_bytes : ℕ
max_response_buffer_bytes = 256 * 1024

pub record ResponseStream : Type 0 where
  pub max_bytes : ℕ
  pub chunks : List Bytes
  pub buffered : ℕ
  pub terminal : Option String
  pub first_byte : Bool

unfoldable pub new_stream : ℕ → ResponseStream
new_stream max_bytes = record {
  max_bytes = max max_bytes max_response_chunk_bytes;
  chunks = [];
  buffered = 0;
  terminal = none;
  first_byte = false;
}

-- What a turn of `write` gives: the call waits on, returns True or False, or raises the terminal.
pub data Written : Type 0 where
  waits accepted late : Written
  ended : String → Written

-- The test of the `while`: open, not empty, and no room.
unfoldable pub is_full : Bytes → ResponseStream → Bool
is_full chunk s =
    not (is_some s.terminal)
    && not (is_empty s.chunks)
    && ltb s.max_bytes (s.buffered + length chunk)

unfoldable pub append : Bytes → ResponseStream → ResponseStream
append chunk s = record s {
  chunks = s.chunks ++ chunk ∷ [];
  buffered = s.buffered + length chunk;
  first_byte = true;
}

-- One turn of the loop of `write`, which finds the buffer full or goes on behind the loop. A wait that
-- times out just as the stream is closed answers False in the source, and `ended` here.
unfoldable pub write_turn : Bytes → ℕ → ℕ → ResponseStream → ResponseStream × Written
unfolding is_full append
write_turn chunk deadline now s =
    if is_full chunk s then (s, if leb deadline now then late else waits) else elim s.terminal [
      | some t ↦ (s, ended t)
      | none ↦ if leb deadline now then (s, late) else (append chunk s, accepted)
    ]

-- What a turn of `read` gives.
pub data Seen : Type 0 where
  nothing : Seen
  chunk : Bytes → Seen
  closed : String → Seen

-- A drained stream shows its terminal.
abbrev pub at_end : Option String → Seen
at_end none = nothing
at_end (some t) = closed t

unfoldable pub read_turn : ResponseStream → ResponseStream × Seen
read_turn s = elim s.chunks [
  | [] ↦ (s, at_end s.terminal)
  | c ∷ cs ↦ (record s { chunks = cs; buffered = s.buffered - length c }, chunk c)
]

unfoldable pub close : String → ResponseStream → ResponseStream
close t s = elim s.terminal [ some old ↦ s | none ↦ record s { terminal = some t } ]
