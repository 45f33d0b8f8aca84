-- ===== src/Mesh/Store.antt =====
-- store.py, delta.py, exchange.py and reconstruct.py. The digest of bytes is an argument, hashlib's
-- sha256 as a hex text; a peer index is the function PeerIndex.holders, a peer what `fetch` returns.
-- An exception is `raised` in the outcome; the store it leaves is returned beside it.
use fallow.Prelude.{
  ℕ, ◌+◌, ◌-◌, not, ◌||◌, Option, none, some, String, List, [], ◌∷◌, ◌++◌, length, any, ltb,
  if◌then◌else◌, is_some,
}
use fallow.Prelude.Eq.{◌==◌, String_eq, ℕ_eq}
use fallow.Prelude.Table.{lookup, delete}

abbrev pub Bytes : Type 0
Bytes = List ℕ

-- The pieces of a file, one after the other.
abbrev pub join : List Bytes → Bytes
join [] = []
join (p ∷ ps) = p ++ join ps

pub data Error : Type 0 where
  too_large chunk_not_found verification_error : Error

pub data Outcome (A : Type 0) : Type 0 where
  ok : A → Outcome A
  raised : Error → Outcome A

pub record Chunk : Type 0 where
  pub key : String
  pub content : Bytes

-- `chunks` is oldest first: the right end is the most recently used.
pub record ChunkStore : Type 0 where
  pub max_bytes : ℕ
  pub used : ℕ
  pub chunks : List Chunk

pub record Manifest : Type 0 where
  pub model_id : String
  pub total_size : ℕ
  pub chunk_size : ℕ
  pub whole_file_sha256 : String
  pub chunks : List String
  pub merkle_root : String

abbrev pub chunk_key : Chunk → String
chunk_key c = c.key

abbrev pub chunk_at : String → ChunkStore → Option Chunk
chunk_at key s = lookup chunk_key key s.chunks

-- OrderedDict.move_to_end.
unfoldable pub move_to_end : Chunk → ChunkStore → ChunkStore
move_to_end c s = record s { chunks = delete chunk_key c.key s.chunks ++ c ∷ [] }

unfoldable pub evict_until_fits : ℕ → ℕ → ℕ → List Chunk → ℕ × List Chunk
evict_until_fits incoming cap used [] = (used, [])
evict_until_fits incoming cap used (c ∷ cs) =
    let rest = evict_until_fits incoming cap (used - length c.content) cs in
    if ltb cap (used + incoming) then rest else (used, c ∷ cs)

unfoldable pub get : String → ChunkStore → ChunkStore × Outcome Bytes
unfolding move_to_end
get key s = elim (chunk_at key s) [
  | none ↦ (s, raised chunk_not_found)
  | some c ↦ (move_to_end c s, ok c.content)
]

unfoldable pub missing_after : List String → ChunkStore → List String → List String
missing_after seen s [] = []
missing_after seen s (h ∷ hs) =
    let skip = missing_after seen s hs in
    let take = missing_after (h ∷ seen) s hs in
    if is_some (chunk_at h s) || any (λ x. x == h) seen then skip else h ∷ take

unfoldable pub missing_chunks : Manifest → ChunkStore → List String
unfolding missing_after
missing_chunks m s = missing_after [] s m.chunks

-- The outcome of one fetched chunk put into the store and the rest fetched.
abbrev pub fetched :
    String → ChunkStore × Outcome (List String) → ChunkStore × Outcome (List String)
fetched h (s, ok hs) = (s, ok (h ∷ hs))
fetched h (s, raised e) = (s, raised e)

abbrev pub stored : ChunkStore × Outcome String → Option Error
stored (s, ok k) = none
stored (s, raised e) = some e

module _ (sha256 : Bytes → String) where
  unfoldable pub insert : Bytes → ChunkStore → ChunkStore
  unfolding evict_until_fits
  insert content s =
      let kept = evict_until_fits (length content) s.max_bytes s.used s.chunks in
      record s {
        used = kept.0 + length content;
        chunks = kept.1 ++ (record { key = sha256 content; content = content }) ∷ [];
      }

  unfoldable pub put : Bytes → ChunkStore → ChunkStore × Outcome String
  unfolding insert move_to_end
  put content s = if ltb s.max_bytes (length content) then (s, raised too_large) else (
    elim (chunk_at (sha256 content) s) [ some c ↦ move_to_end c s | none ↦ insert content s ],
    ok (sha256 content),
  )

  -- The loop of `fetch_delta` over the missing chunks. Every peer serves some bytes: one whose `fetch`
  -- raises is left out.
  unfoldable pub fetch_all :
      (String → List (String → Bytes))
      → List String
      → ChunkStore
      → ChunkStore × Outcome (List String)
  unfolding put
  fetch_all holders [] s = (s, ok [])
  fetch_all holders (h ∷ hs) s = elim (holders h) [
    | [] ↦ (s, raised chunk_not_found)
    | peer ∷ others ↦
        let p = put (peer h) s in
        let rest = fetch_all holders hs (p.0) in
        if sha256 (peer h) == h
        then (elim (stored p) [ none ↦ fetched h rest | some e ↦ (p.0, raised e) ])
        else (s, raised verification_error)
  ]

  unfoldable pub fetch_delta :
      Manifest → (String → List (String → Bytes)) → ChunkStore → ChunkStore × Outcome (List String)
  unfolding missing_chunks fetch_all
  fetch_delta m holders s = fetch_all holders (missing_chunks m s) s

  -- The loop of `reconstruct` over the chunks: the bytes written, or the exception.
  unfoldable pub read_chunks : List String → ChunkStore → ChunkStore × Outcome Bytes
  unfolding get
  read_chunks [] s = (s, ok [])
  read_chunks (h ∷ hs) s =
      let g = get h s in
      let rest = read_chunks hs (g.0) in
      elim (g.1) [
        | raised e ↦ (g.0, raised e)
        | ok content ↦
            if sha256 content == h
            then (rest.0, elim (rest.1) [ ok more ↦ ok (content ++ more) | raised e ↦ raised e ])
            else (g.0, raised verification_error)
      ]

  unfoldable pub verify : Manifest → Bytes → Outcome Bytes
  verify m content =
      if not (length content == m.total_size)
      then raised verification_error
      else if not (sha256 content == m.whole_file_sha256)
      then raised verification_error
      else ok content

  -- The file at `dest` when `reconstruct` returns.
  unfoldable pub reconstruct : Manifest → ChunkStore → ChunkStore × Outcome Bytes
  unfolding read_chunks verify
  reconstruct m s =
      let r = read_chunks m.chunks s in
      (r.0, elim (r.1) [ ok content ↦ verify m content | raised e ↦ raised e ])
