-- ===== src/Nbd/Session.antt =====
-- The messages of the NBD protocol: the negotiation and the structured replies.
use Prim.Native.Nat.{bit_and}
use zfs_live_xapi.Prelude.{
  ℕ, zero, suc, ◌+◌, ◌-◌, ◌/◌, ◌^◌, min, Bool, true, false, not, ◌&&◌, Option, none, some, List, [],
  ◌∷◌, ◌++◌, ltb, leb, ◌==◌, if◌then◌else◌,
}
use zfs_live_xapi.Prelude.Lists.{length, take, drop}
use zfs_live_xapi.Nbd.Bytes.{big_endian, read_number, unpack}
use zfs_live_xapi.Nbd.Socket.{Session, give, fail, recv_exact, send_all, pending, ◌>>=◌, ◌>>◌}
use zfs_live_xapi.Nbd.Walk.{
  Chunk, none_chunk, malformed, error_chunk, other_chunk, block_status, block_status_chunk, Status,
  walk_chunks, dirty,
}

abbrev pub nbdmagic : ℕ
nbdmagic = 0x4E42444D41474943

abbrev pub ihaveopt : ℕ
ihaveopt = 0x49484156454F5054

abbrev pub nbd_option_reply_magic : ℕ
nbd_option_reply_magic = 0x3E889045565A9

abbrev pub nbd_request_magic : ℕ
nbd_request_magic = 0x25609513

abbrev pub nbd_structured_reply_magic : ℕ
nbd_structured_reply_magic = 0x668E33EF

abbrev pub nbd_opt_go : ℕ
nbd_opt_go = 7

abbrev pub nbd_opt_structured_reply : ℕ
nbd_opt_structured_reply = 8

abbrev pub nbd_opt_set_meta_context : ℕ
nbd_opt_set_meta_context = 10

-- A reply type with bit 31 set is an error.
abbrev pub is_error_reply : ℕ → Bool
is_error_reply rep = leb (2 ^ 31) rep

-- The header of an option's reply and the payload; the option and the type.
pub record OptionReply : Type 0 where
  pub option : ℕ
  pub reply_type : ℕ
  pub payload : List ℕ

unfoldable pub check_magics : List ℕ → Session (Unit {0})
check_magics (magic ∷ opts_magic ∷ server_flags ∷ []) =
    if magic == nbdmagic && opts_magic == ihaveopt then send_all (big_endian 4 1) else fail
check_magics _ = fail

unfoldable pub handshake : Session (Unit {0})
handshake = do bytes ← recv_exact 18; check_magics (unpack (8 ∷ 8 ∷ 2 ∷ []) bytes)

unfoldable pub send_option : ℕ → List ℕ → Session (Unit {0})
send_option opt payload =
    send_all (big_endian 8 ihaveopt ++ big_endian 4 opt ++ big_endian 4 (length payload) ++ payload)

unfoldable pub reply_with : List ℕ → Session OptionReply
reply_with (magic ∷ option ∷ reply_type ∷ len ∷ []) =
    if magic == nbd_option_reply_magic
    then (do
      payload ← recv_exact len
      give (record { option = option; reply_type = reply_type; payload = payload }))
    else fail
reply_with _ = fail

unfoldable pub recv_option_reply : Session OptionReply
recv_option_reply = do bytes ← recv_exact 20; reply_with (unpack (8 ∷ 4 ∷ 4 ∷ 4 ∷ []) bytes)

unfoldable pub opt_structured_reply : Session (Unit {0})
opt_structured_reply = do
  send_option nbd_opt_structured_reply []
  r ← recv_option_reply
  if r.option == nbd_opt_structured_reply && r.reply_type == 1 then give tt else fail

-- The replies to an option up to the acknowledgement, with what the informative ones of type `kind`
-- say: the last answer counts. A reply has 20 bytes at least, so the bytes that are pending are enough rounds.
unfoldable pub collect :
    ℕ → ℕ → (List ℕ → Option ℕ → Session (Option ℕ)) → ℕ → Option ℕ → Session (Option ℕ)
collect opt kind read zero found = fail
collect opt kind read (suc fuel) found = do
  r ← recv_option_reply
  if not (r.option == opt)
      then fail
      else if is_error_reply r.reply_type
      then fail
      else if r.reply_type == kind
      then (do now ← read r.payload found; collect opt kind read fuel now)
      else if r.reply_type == 1
      then give found
      else collect opt kind read fuel found

unfoldable pub all_replies : ℕ → ℕ → (List ℕ → Option ℕ → Session (Option ℕ)) → Session (Option ℕ)
all_replies opt kind read c = collect opt kind read (length (pending c.incoming) + 1) none c

-- The four bytes in front of a body, or an exception of `struct.unpack`.
unfoldable pub context_of : List ℕ → Option ℕ → Session (Option ℕ)
context_of body found =
    if ltb (length body) 4 then fail else give (some (read_number 0 (take 4 body)))

unfoldable pub found_or_fail : Option ℕ → Session ℕ
found_or_fail none = fail
found_or_fail (some n) = give n

unfoldable pub opt_set_meta_context : List ℕ → List ℕ → Session ℕ
opt_set_meta_context name context = do
  send_option nbd_opt_set_meta_context (
      big_endian 4 (length name)
      ++ name
      ++ big_endian 4 1
      ++ big_endian 4 (length context)
      ++ context)
  found ← all_replies nbd_opt_set_meta_context 4 context_of
  found_or_fail found

-- The size of the export in a reply of that type and length; another reply is passed over.
unfoldable pub size_of : List ℕ → Option ℕ → Session (Option ℕ)
size_of body found =
    if ltb (length body) 2
    then fail
    else if read_number 0 (take 2 body) == 0 && leb 12 (length body)
    then give (some (read_number 0 (take 8 (drop 2 body))))
    else give found

unfoldable pub opt_go : List ℕ → Session ℕ
opt_go name = do
  send_option nbd_opt_go (big_endian 4 (length name) ++ name ++ big_endian 2 0)
  found ← all_replies nbd_opt_go 3 size_of
  found_or_fail found

unfoldable pub request : ℕ → ℕ → ℕ → ℕ → Session (Unit {0})
request cmd handle offset len = send_all (
    big_endian 4 nbd_request_magic
    ++ big_endian 2 0
    ++ big_endian 2 cmd
    ++ big_endian 8 handle
    ++ big_endian 8 offset
    ++ big_endian 4 len)

-- The pairs of a length and a status; a rest of fewer than eight bytes is refused by `struct.unpack`.
unfoldable pub descriptors_of : ℕ → List ℕ → Option (List (ℕ × ℕ))
descriptors_of fuel [] = some []
descriptors_of zero (b ∷ bytes) = none
descriptors_of (suc fuel) (b ∷ bytes) =
    let rest = descriptors_of fuel (drop 8 (b ∷ bytes)) in
    if ltb (length (b ∷ bytes)) 8 then none else elim rest [
      | none ↦ none
      | some more ↦
          some (
            (read_number 0 (take 4 (b ∷ bytes)), read_number 0 (take 4 (drop 4 (b ∷ bytes))))
            ∷ more)
    ]

-- A status of another context is passed over, its descriptors unread.
unfoldable pub status_of : ℕ → ℕ → Option (List (ℕ × ℕ)) → Chunk
status_of context_id ctx none = if ctx == context_id then malformed else block_status ctx []
status_of context_id ctx (some descriptors) = block_status ctx descriptors

-- The body of a chunk by its type: nothing, an error, a block status, or another that is passed over.
unfoldable pub decode_chunk : ℕ → ℕ → List ℕ → Chunk
decode_chunk context_id ctype body =
    if ctype == 0
    then none_chunk
    else if ctype == 0x8001
    then (if ltb (length body) 4 then malformed else error_chunk (read_number 0 (take 4 body)))
    else if ctype == 5
    then (if ltb (length body) 4
        then malformed
        else status_of context_id (read_number 0 (take 4 body))
            (descriptors_of (length body) (drop 4 body)))
    else other_chunk ctype

-- A chunk with the flag that it is the last.
unfoldable pub chunk_with : ℕ → ℕ → List ℕ → Session (Chunk × Bool)
chunk_with context_id expected_handle (magic ∷ flags ∷ ctype ∷ handle ∷ len ∷ []) =
    if magic == nbd_structured_reply_magic && handle == expected_handle
    then (do
      body ← recv_exact len
      let chunk : Chunk × Bool = (decode_chunk context_id ctype body, bit_and flags 1 == 1)
      give chunk)
    else fail
chunk_with context_id expected_handle _ = fail

unfoldable pub read_chunk : ℕ → ℕ → Session (Chunk × Bool)
read_chunk context_id expected_handle = do
  bytes ← recv_exact 20
  chunk_with context_id expected_handle (unpack (4 ∷ 2 ∷ 2 ∷ 8 ∷ 4 ∷ []) bytes)

-- A chunk has 20 bytes at least.
unfoldable pub read_rounds : ℕ → ℕ → ℕ → Session (List Chunk)
read_rounds context_id handle zero = fail
read_rounds context_id handle (suc fuel) = do
  chunk ← read_chunk context_id handle
  if chunk.1
      then give (chunk.0 ∷ [])
      else (do rest ← read_rounds context_id handle fuel; give (chunk.0 ∷ rest))

unfoldable pub read_structured_chunks : ℕ → ℕ → Session (List Chunk)
read_structured_chunks context_id handle c =
    read_rounds context_id handle (length (pending c.incoming) + 1) c

-- An exception in the loop over the chunks.
unfoldable pub lift : Option (List Status) → Session (List Status)
lift none = fail
lift (some statuses) = give statuses

-- `_walk_block_status` on a connection, one round for each chunk of the export.
unfoldable pub walk_session : ℕ → ℕ → ℕ → ℕ → ℕ → ℕ → Session (List Status)
walk_session context_id export_size chunk_size zero handle offset = give []
walk_session context_id export_size chunk_size (suc fuel) handle offset =
    let len = min chunk_size (export_size - offset) in
    elim (ltb offset export_size) [
      | false ↦ give []
      | true ↦ do
        request 7 handle offset len
        chunks ← read_structured_chunks context_id handle
        here ← lift (walk_chunks context_id offset chunks)
        rest ← walk_session context_id export_size chunk_size fuel (handle + 1) (offset + len)
        give (here ++ rest)
    ]

-- The whole of `fetch_dirty_extents` on a connection, by the encoded names.
unfoldable pub fetch_session : List ℕ → List ℕ → Session (List (ℕ × ℕ))
fetch_session export_name bitmap_context = do
  handshake
  opt_structured_reply
  context_id ← opt_set_meta_context export_name bitmap_context
  export_size ← opt_go export_name
  statuses ←
      walk_session context_id export_size block_status_chunk (export_size / block_status_chunk + 1)
        0 0
  give (dirty statuses)
