-- ===== src/Nbd/Exchange.antt =====
-- A whole exchange with a server that follows the protocol, from the greeting to the dirty extents.
use zfs_live_xapi.Prelude.{
  ℕ, ◌+◌, ◌/◌, ◌^◌, ◌<◌, ◌≤◌, Bool, ◌&&◌, Option, none, some, List, [], ◌++◌, ◌≡◌, refl, subst,
  arith, ltb,
}
use zfs_live_xapi.Effects.Triple.{All}
use zfs_live_xapi.Nbd.Bytes.{big_endian}
use zfs_live_xapi.Prelude.Lists.{length}
use zfs_live_xapi.Nbd.Socket.{Connection, give, pending, ◌>>=◌}
use zfs_live_xapi.Nbd.Session.{
  context_of, size_of, handshake, opt_structured_reply, opt_set_meta_context, opt_go, walk_session,
  fetch_session,
}
use zfs_live_xapi.Nbd.Walk.{
  Chunk, Status, block_status_chunk, walk_block_status, dirty, fetch_dirty_extents,
  ◌>>=◌ as ◌or_none◌,
}
use zfs_live_xapi.Nbd.SocketLaws.{HasBytes}
use zfs_live_xapi.Nbd.Coverage.{IsFaithful, covers, fetch_dirty_extents-covers}
use zfs_live_xapi.Nbd.Decoding.{Talks, bind-Talks, give_of-Talks, Gets}
use zfs_live_xapi.Nbd.Negotiation.{
  client_flags, option_bytes, greeting, reply_bytes, answer_bytes, heard, Informs, handshake-Talks,
}
use zfs_live_xapi.Nbd.Encoding.{IsWire}
use zfs_live_xapi.Nbd.Refinement.{asked, replies, reply_chunks, walk_session-walk_from}
use zfs_live_xapi.Nbd.Options.{
  context_in, size_in, answered-Talks, context_of-Decodes, size_of-Decodes, structured_reply-Talks,
}

dirty-Talks :
    (context_id export_size : ℕ) (reply : ℕ → ℕ → ℕ → Chunk × List Chunk) (extents : List (ℕ × ℕ))
    → export_size < 2 ^ 64
    → ((handle offset len : ℕ)
        → len ≤ block_status_chunk
        → IsWire (reply handle offset len).0 × All IsWire (reply handle offset len).1)
    → (o : Option (List Status))
    → walk_block_status (reply_chunks reply) context_id export_size block_status_chunk ≡ o
    → (o or_none λ statuses. some (dirty statuses)) ≡ some extents
    → let rounds : ℕ = export_size / block_status_chunk + 1 in
      Talks
        (walk_session context_id export_size block_status_chunk rounds 0 0 >>= λ statuses.
          give (dirty statuses))
        (replies export_size block_status_chunk reply rounds 0 0)
        (asked export_size block_status_chunk rounds 0 0)
        extents
unfolding walk_block_status
dirty-Talks context_id export_size reply extents s wires none walk e = absurd cc
dirty-Talks context_id export_size reply extents s wires (some statuses) walk e =
    let rounds : ℕ = export_size / block_status_chunk + 1 in
    let same : dirty statuses ≡ extents = cc in
    subst
      (λ v.
        Talks
          (walk_session context_id export_size block_status_chunk rounds 0 0 >>= λ statuses'.
            give (dirty statuses'))
          (replies export_size block_status_chunk reply rounds 0 0)
          (asked export_size block_status_chunk rounds 0 0) v)
      same
      (give_of-Talks (walk_session context_id export_size block_status_chunk rounds 0 0) dirty
        (replies export_size block_status_chunk reply rounds 0 0)
        (asked export_size block_status_chunk rounds 0 0) statuses
        (walk_session-walk_from context_id export_size block_status_chunk reply rounds 0 0 statuses
          (omega arith) wires walk))

-- All that a server sends: its greeting, the replies to the three options, and to each request.
abbrev pub stream :
    ℕ → List (ℕ × List ℕ) → List (ℕ × List ℕ) → (ℕ → ℕ → ℕ → Chunk × List Chunk) → ℕ → List ℕ
stream flags metas infos reply export_size =
    greeting flags
    ++ (reply_bytes 8 (1, [])
        ++ (answer_bytes 10 metas
            ++ (answer_bytes 7 infos
                ++ (replies export_size block_status_chunk reply
                    (export_size / block_status_chunk + 1) 0 0))))

-- The data of the second and the third option: the name of the export with the context that is wanted, and with
-- no kind of information in particular.
abbrev pub meta_query : List ℕ → List ℕ → List ℕ
meta_query name context =
    big_endian 4 (length name) ++ name ++ big_endian 4 1 ++ big_endian 4 (length context) ++ context

abbrev pub go_query : List ℕ → List ℕ
go_query name = big_endian 4 (length name) ++ name ++ big_endian 2 0

-- All that a client sends, behind what was sent before: its flags, the three options, and a request for each
-- 2 GiB of the export.
abbrev pub requests : List ℕ → List ℕ → ℕ → List ℕ → List ℕ
requests name context export_size out =
    let options : List ℕ =
      out
      ++ client_flags
      ++ option_bytes 8 []
      ++ option_bytes 10 (meta_query name context)
      ++ option_bytes 7 (go_query name) in
    asked export_size block_status_chunk (export_size / block_status_chunk + 1) 0 0 options

fetch_session-Talks :
    (name context : List ℕ) (flags context_id export_size : ℕ) (metas infos : List (ℕ × List ℕ))
    (reply : ℕ → ℕ → ℕ → Chunk × List Chunk) (extents : List (ℕ × ℕ))
    → flags < 2 ^ 16
    → export_size < 2 ^ 64
    → All (Informs 4 4) metas
    → All (Informs 3 2) infos
    → heard 4 context_in none metas ≡ some context_id
    → heard 3 size_in none infos ≡ some export_size
    → ((handle offset len : ℕ)
        → len ≤ block_status_chunk
        → IsWire (reply handle offset len).0 × All IsWire (reply handle offset len).1)
    → fetch_dirty_extents (reply_chunks reply) context_id export_size ≡ some extents
    → Talks
        (fetch_session name context)
        (stream flags metas infos reply export_size)
        (requests name context export_size)
        extents
unfolding fetch_session opt_set_meta_context opt_go fetch_dirty_extents walk_block_status
fetch_session-Talks name context flags context_id export_size metas infos reply extents f s ms is m
      i wires e =
    let walk : List ℕ → List ℕ =
      asked export_size block_status_chunk (export_size / block_status_chunk + 1) 0 0 in
    let go : List ℕ → List ℕ = λ out. out ++ option_bytes 7 (go_query name) in
    let meta : List ℕ → List ℕ = λ out. out ++ option_bytes 10 (meta_query name context) in
    let structured : List ℕ → List ℕ = λ out. out ++ option_bytes 8 [] in
    bind-Talks handshake _ (greeting flags) _ (λ out. out ++ client_flags)
      (λ out. walk (go (meta (structured out)))) tt extents (handshake-Talks flags f)
      (bind-Talks opt_structured_reply _ (reply_bytes 8 (1, [])) _ structured
        (λ out. walk (go (meta out))) tt extents structured_reply-Talks
        (bind-Talks (opt_set_meta_context name context) _ (answer_bytes 10 metas) _ meta
          (λ out. walk (go out)) context_id extents
          (answered-Talks 10 4 4 context_of context_in _ metas context_id context_of-Decodes
            (omega arith) (omega arith) ms m)
          (bind-Talks (opt_go name) _ (answer_bytes 7 infos) _ go walk export_size extents
            (answered-Talks 7 3 2 size_of size_in _ infos export_size size_of-Decodes (omega arith)
              (omega arith) is i)
            (dirty-Talks context_id export_size reply extents s wires _ refl e))))

-- On a connection on which a server of the protocol sends its greeting, acknowledges the structured
-- replies, names the context and the size of the export among replies that inform, and answers
-- requests by their handle, offset and length, in whatever pieces, the client returns what the walk on the chunks
-- as they were meant returns, takes these bytes alone, and has sent its flags, the three options
-- with these names and one request for each 2 GiB of the export, those to which the replies are;
-- the fields fit their sizes and the walk does not fail.
pub fetch_session-Gets :
    (name context : List ℕ) (flags context_id export_size : ℕ) (metas infos : List (ℕ × List ℕ))
    (reply : ℕ → ℕ → ℕ → Chunk × List Chunk) (extents : List (ℕ × ℕ)) (c : Connection)
    (rest : List ℕ)
    → flags < 2 ^ 16
    → export_size < 2 ^ 64
    → All (Informs 4 4) metas
    → All (Informs 3 2) infos
    → heard 4 context_in none metas ≡ some context_id
    → heard 3 size_in none infos ≡ some export_size
    → ((handle offset len : ℕ)
        → len ≤ block_status_chunk
        → IsWire (reply handle offset len).0 × All IsWire (reply handle offset len).1)
    → fetch_dirty_extents (reply_chunks reply) context_id export_size ≡ some extents
    → All HasBytes c.incoming
    → pending c.incoming ≡ stream flags metas infos reply export_size ++ rest
    → Gets
        (fetch_session name context)
        c
        extents
        rest
        (requests name context export_size c.outgoing)
fetch_session-Gets name context flags context_id export_size metas infos reply extents c rest f s ms
      is m i wires e hs arrives =
    (fetch_session-Talks name context flags context_id export_size metas infos reply extents f s ms
        is m i wires e).gets
      c rest hs arrives

-- A client of such a server whose replies describe all the bytes of every request of at most 2 GiB returns; it has sent
-- its flags, the three options with these names and one request for each 2 GiB of the export, those to which
-- the replies are; and a byte is in an extent that it returns exactly when it is a dirty byte of the export.
pub fetch_session-covers :
    (is_dirty : ℕ → Bool) (name context : List ℕ) (flags context_id export_size x : ℕ)
    (metas infos : List (ℕ × List ℕ)) (reply : ℕ → ℕ → ℕ → Chunk × List Chunk) (c : Connection)
    (rest : List ℕ)
    → flags < 2 ^ 16
    → export_size < 2 ^ 64
    → All (Informs 4 4) metas
    → All (Informs 3 2) infos
    → heard 4 context_in none metas ≡ some context_id
    → heard 3 size_in none infos ≡ some export_size
    → ((handle offset len : ℕ)
        → len ≤ block_status_chunk
        → IsWire (reply handle offset len).0 × All IsWire (reply handle offset len).1)
    → IsFaithful is_dirty context_id (reply_chunks reply)
    → All HasBytes c.incoming
    → pending c.incoming ≡ stream flags metas infos reply export_size ++ rest
    → (extents : List (ℕ × ℕ)) × Gets
        (fetch_session name context)
        c
        extents
        rest
        (requests name context export_size c.outgoing)
      × (covers extents x ≡ (ltb x export_size && is_dirty x))
fetch_session-covers is_dirty name context flags context_id export_size x metas infos reply c rest f
      s ms is m i wires faithful hs arrives =
    let (extents, walked, covered) =
      fetch_dirty_extents-covers is_dirty (reply_chunks reply) context_id export_size x faithful in
    (
      extents,
      fetch_session-Gets name context flags context_id export_size metas infos reply extents c rest
          f s ms is m i wires walked hs arrives,
      covered,
    )
