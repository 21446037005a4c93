-- ===== src/Nbd/Walk.antt =====
-- The walk over the block status: `_walk_block_status` and the filter of `fetch_dirty_extents`.
use zfs_live_xapi.Prelude.{
  ℕ, zero, suc, ◌+◌, ◌-◌, ◌*◌, ◌/◌, min, true, false, Option, none, some, List, [], ◌∷◌, ◌++◌, ltb,
  ◌==◌, if◌then◌else◌,
}

infixl 5 ◌>>=◌
abbrev pub ◌>>=◌ : {A B : Type 0} → Option A → (A → Option B) → Option B
none >>= f = none
some a >>= f = f a

-- A chunk of a structured reply, as it is unpacked: a block status has its context and its pairs of a length
-- and a status. `malformed` is a body that `struct.unpack` refuses.
pub data Chunk : Type 0 where
  none_chunk malformed : Chunk
  error_chunk other_chunk : ℕ → Chunk
  block_status : ℕ → List (ℕ × ℕ) → Chunk

-- An offset, a length and a status.
abbrev pub Status : Type 0
Status = ℕ × ℕ × ℕ

abbrev pub block_status_chunk : ℕ
block_status_chunk = 2 * 1024 * 1024 * 1024

-- The loop over the descriptors of a chunk, and the value of `cur` after it.
unfoldable pub statuses_from : ℕ → List (ℕ × ℕ) → List Status
statuses_from cur [] = []
statuses_from cur ((ext_len, status) ∷ descriptors) =
    (cur, ext_len, status) ∷ statuses_from (cur + ext_len) descriptors

unfoldable pub after : ℕ → List (ℕ × ℕ) → ℕ
after cur [] = cur
after cur ((ext_len, status) ∷ descriptors) = after (cur + ext_len) descriptors

-- The loop over the chunks of a reply; `none` is an exception, which loses what was yielded.
unfoldable pub walk_chunks : ℕ → ℕ → List Chunk → Option (List Status)
walk_chunks context_id cur [] = some []
walk_chunks context_id cur (none_chunk ∷ chunks) = walk_chunks context_id cur chunks
walk_chunks context_id cur (error_chunk code ∷ chunks) = none
walk_chunks context_id cur (malformed ∷ chunks) = none
walk_chunks context_id cur (other_chunk ctype ∷ chunks) = walk_chunks context_id cur chunks
walk_chunks context_id cur (block_status ctx descriptors ∷ chunks) = elim (ctx == context_id) [
  | true ↦ do
    rest ← walk_chunks context_id (after cur descriptors) chunks
    some (statuses_from cur descriptors ++ rest)
  | false ↦ walk_chunks context_id cur chunks
]

-- What the server answers to a request, by its handle, offset and length: the chunks up to the one that is
-- flagged as the last, or `none` where the reply cannot be read.
abbrev pub Server : Type 0
Server = ℕ → ℕ → ℕ → Option (List Chunk)

module _ (reply : Server) (context_id export_size chunk_size : ℕ) where
  unfoldable pub walk_from : ℕ → ℕ → ℕ → Option (List Status)
  walk_from zero handle offset = some []
  walk_from (suc fuel) handle offset = elim (ltb offset export_size) [
    | false ↦ some []
    | true ↦
        let len = min chunk_size (export_size - offset) in
        do
          chunks ← reply handle offset len
          here ← walk_chunks context_id offset chunks
          rest ← walk_from fuel (handle + 1) (offset + len)
          some (here ++ rest)
  ]

  -- As many rounds as there are chunks, and one.
  unfoldable pub walk_block_status : Option (List Status)
  walk_block_status = walk_from (export_size / chunk_size + 1) 0 0

-- `if status == 1: extents.append((offset, length))`
unfoldable pub dirty : List Status → List (ℕ × ℕ)
dirty [] = []
dirty ((offset, len, status) ∷ statuses) =
    let rest = dirty statuses in if status == 1 then (offset, len) ∷ rest else rest

-- `fetch_dirty_extents` after the negotiation, which gives the context and the size of the export.
unfoldable pub fetch_dirty_extents : Server → ℕ → ℕ → Option (List (ℕ × ℕ))
fetch_dirty_extents reply context_id export_size = do
  statuses ← walk_block_status reply context_id export_size block_status_chunk
  some (dirty statuses)
