-- ===== src/Tests/Wire.antt =====
-- The NBD client on a connection, on concrete bytes.
use zfs_live_xapi.Prelude.{
  ℕ, ◌≤◌, true, ◌&&◌, some, List, [], ◌∷◌, ◌++◌, ◌≡◌, refl, ltb, arith, inl,
}
use zfs_live_xapi.Prelude.Lists.{take, drop}
use zfs_live_xapi.Effects.Triple.{All}
use zfs_live_xapi.Nbd.Bytes.{big_endian, read_number}
use zfs_live_xapi.Nbd.Socket.{Connection, recv_exact, recv_rounds, recv, remainder, joined, pending}
use zfs_live_xapi.Nbd.SocketLaws.{HasBytes, Reads, recv_exact-Reads}
use zfs_live_xapi.Nbd.Session.{read_structured_chunks, fetch_session}
use zfs_live_xapi.Nbd.Decoding.{Gets}
use zfs_live_xapi.Nbd.Walk.{
  Chunk, block_status, none_chunk, block_status_chunk, fetch_dirty_extents, walk_block_status,
  walk_from, walk_chunks, statuses_from, after, dirty,
}
use zfs_live_xapi.Nbd.Coverage.{IsFaithful, covers}
use zfs_live_xapi.Nbd.Encoding.{IsWire, encode_chunk}
use zfs_live_xapi.Nbd.Refinement.{encode_reply, replies, reply_chunks, read_structured_chunks-Gets}
use zfs_live_xapi.Nbd.Negotiation.{reply_bytes, answer_bytes, heard, Informs}
use zfs_live_xapi.Nbd.Exchange.{requests, stream, fetch_session-Gets, fetch_session-covers}

abbrev pieces : Connection
pieces = record { incoming = (1 ∷ 2 ∷ []) ∷ (3 ∷ []) ∷ (4 ∷ []) ∷ []; outgoing = [] }

recv_exact-Reads_example : Reads 3 pieces (recv_exact 3 pieces)
recv_exact-Reads_example = recv_exact-Reads 3 pieces (omega arith, (omega arith, (omega arith, tt)))

three_bytes :
    recv_exact 3 pieces ≡ some (1 ∷ 2 ∷ 3 ∷ [], record { incoming = (4 ∷ []) ∷ []; outgoing = [] })
unfolding recv_exact recv_rounds recv remainder joined
three_bytes = refl

-- All that is asked for is dirty.
abbrev dirty_reply : ℕ → ℕ → ℕ → Chunk × List Chunk
dirty_reply handle offset len = (block_status 5 ((len, 1) ∷ []), none_chunk ∷ [])

dirty_reply-IsWire :
    (handle offset len : ℕ)
    → len ≤ block_status_chunk
    → IsWire (dirty_reply handle offset len).0 × All IsWire (dirty_reply handle offset len).1
unfolding big_endian
dirty_reply-IsWire handle offset len h =
    (((omega arith, ((omega arith, omega arith), tt)), omega arith), ((tt, omega arith), tt))

dirty_reply-IsFaithful : IsFaithful (λ x. true) 5 (reply_chunks dirty_reply)
unfolding after
dirty_reply-IsFaithful handle offset len h = (
  block_status 5 ((len, 1) ∷ []) ∷ none_chunk ∷ [],
  refl,
  inl (refl, ((λ x p q. refl), tt), refl),
)

abbrev metas : List (ℕ × List ℕ)
metas = (4, 0 ∷ 0 ∷ 0 ∷ 5 ∷ 99 ∷ []) ∷ []

-- The name of the export, which is passed over, and its size.
abbrev infos : List (ℕ × List ℕ)
infos = (3, 0 ∷ 1 ∷ 101 ∷ []) ∷ (3, 0 ∷ 0 ∷ 0 ∷ 0 ∷ 0 ∷ 0 ∷ 0 ∷ 0 ∷ 16 ∷ 0 ∷ 0 ∷ 1 ∷ []) ∷ []

abbrev bytes : List ℕ
bytes = stream 3 metas infos dirty_reply 4096

abbrev connection : Connection
connection = record { incoming = take 7 bytes ∷ drop 7 bytes ∷ []; outgoing = [] }

metas-Informs : All (Informs 4 4) metas
metas-Informs = ((omega arith, (λ e. absurd (omega arith)), omega arith, λ e. omega arith), tt)

infos-Informs : All (Informs 3 2) infos
infos-Informs = (
  (omega arith, (λ e. absurd (omega arith)), omega arith, λ e. omega arith),
  ((omega arith, (λ e. absurd (omega arith)), omega arith, λ e. omega arith), tt),
)

connection-HasBytes : All HasBytes connection.incoming
unfolding big_endian
connection-HasBytes = (omega arith, (omega arith, tt))

connection-pending : pending connection.incoming ≡ bytes ++ []
unfolding big_endian pending reply_bytes answer_bytes replies encode_reply encode_chunk
connection-pending = refl

fetch_session-Gets_example :
    Gets
      (fetch_session (118 ∷ []) (99 ∷ []))
      connection
      ((0, 4096) ∷ [])
      []
      (requests (118 ∷ []) (99 ∷ []) 4096 [])
unfolding heard fetch_dirty_extents walk_block_status walk_from walk_chunks statuses_from after
    dirty read_number
fetch_session-Gets_example =
    fetch_session-Gets (118 ∷ []) (99 ∷ []) 3 5 4096 metas infos dirty_reply ((0, 4096) ∷ [])
      connection [] (omega arith) (omega arith) metas-Informs infos-Informs refl refl
      dirty_reply-IsWire refl connection-HasBytes connection-pending

fetch_session-covers_example :
    (extents : List (ℕ × ℕ)) × Gets
      (fetch_session (118 ∷ []) (99 ∷ []))
      connection
      extents
      []
      (requests (118 ∷ []) (99 ∷ []) 4096 [])
    × (covers extents 70 ≡ (ltb 70 4096 && true))
unfolding heard read_number
fetch_session-covers_example =
    fetch_session-covers (λ x. true) (118 ∷ []) (99 ∷ []) 3 5 4096 70 metas infos dirty_reply
      connection [] (omega arith) (omega arith) metas-Informs infos-Informs refl refl
      dirty_reply-IsWire dirty_reply-IsFaithful connection-HasBytes connection-pending

abbrev one_reply : Connection
one_reply = record {
  incoming = encode_reply 0 (block_status 5 ((8, 1) ∷ [])) (none_chunk ∷ []) ∷ [];
  outgoing = [];
}

one_reply-HasBytes : All HasBytes one_reply.incoming
unfolding encode_reply encode_chunk big_endian
one_reply-HasBytes = (omega arith, tt)

one_reply-pending :
    pending one_reply.incoming
    ≡ encode_reply 0 (block_status 5 ((8, 1) ∷ [])) (none_chunk ∷ []) ++ []
unfolding pending
one_reply-pending = refl

read_structured_chunks-Gets_example :
    Gets
      (read_structured_chunks 5 0)
      one_reply
      (block_status 5 ((8, 1) ∷ []) ∷ none_chunk ∷ [])
      []
      []
read_structured_chunks-Gets_example =
    read_structured_chunks-Gets 5 0 (block_status 5 ((8, 1) ∷ [])) (none_chunk ∷ []) one_reply []
      (omega arith) (dirty_reply-IsWire 0 0 8 (omega arith)).0
      (dirty_reply-IsWire 0 0 8 (omega arith)).1 one_reply-HasBytes one_reply-pending
