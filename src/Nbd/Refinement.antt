-- ===== src/Nbd/Refinement.antt =====
-- The walk on a connection does what the walk on unpacked chunks does.
use zfs_live_xapi.Prelude.{
  ℕ, zero, suc, ◌+◌, ◌-◌, ◌^◌, ◌<◌, ◌≤◌, min, Bool, true, false, Option, none, some, List, [], ◌∷◌,
  ◌++◌, ◌≡◌, refl, sym, ap, subst, arith, ltb, append-nil,
}
use zfs_live_xapi.Prelude.Lists.{length, length-append}
use zfs_live_xapi.Effects.Triple.{All}
use zfs_live_xapi.Nbd.Bytes.{big_endian}
use zfs_live_xapi.Nbd.Socket.{Connection, Session, give, pending, ◌>>=◌, ◌>>◌}
use zfs_live_xapi.Nbd.Walk.{Chunk, Status, Server, walk_chunks, walk_from, ◌>>=◌ as ◌or_none◌}
use zfs_live_xapi.Nbd.Session.{
  read_chunk, read_rounds, read_structured_chunks, request, lift, walk_session,
}
use zfs_live_xapi.Nbd.SocketLaws.{HasBytes}
use zfs_live_xapi.Nbd.Decoding.{
  Gets, Decodes, give-Decodes, bind-Decodes, give_of-Decodes, Talks, bind-Talks, give_of-Talks,
  send_all-Talks,
}
use zfs_live_xapi.Nbd.Encoding.{
  encode_chunk, header_bytes, length-header_bytes, IsWire, read_chunk-encode,
}

-- A reply is a chunk and those that follow it; the last one is flagged.
unfoldable pub encode_reply : ℕ → Chunk → List Chunk → List ℕ
encode_reply handle chunk [] = encode_chunk handle true chunk
encode_reply handle chunk (next ∷ chunks) =
    encode_chunk handle false chunk ++ encode_reply handle next chunks

length-encode_chunk :
    (handle : ℕ) (last : Bool) (chunk : Chunk) → 20 ≤ length (encode_chunk handle last chunk)
unfolding encode_chunk
length-encode_chunk handle last chunk =
    omega (
      arith,
      length-header_bytes handle last chunk,
      length-append (header_bytes handle last chunk) _,
    )

length-encode_reply :
    (handle : ℕ) (chunk : Chunk) (chunks : List Chunk)
    → length chunks < length (encode_reply handle chunk chunks)
unfolding encode_reply
length-encode_reply handle chunk [] = omega (arith, length-encode_chunk handle true chunk)
length-encode_reply handle chunk (next ∷ chunks) = omega (
  arith,
  length-encode_chunk handle false chunk,
  length-encode_reply handle next chunks,
  length-append (encode_chunk handle false chunk) (encode_reply handle next chunks),
)

module _ (context_id handle : ℕ) (h : handle < 2 ^ 64) where
  read_rounds-encode :
      (fuel : ℕ) (chunk : Chunk) (chunks : List Chunk)
      → length chunks < fuel
      → IsWire chunk
      → All IsWire chunks
      → Decodes
          (read_rounds context_id handle fuel)
          (encode_reply handle chunk chunks)
          (chunk ∷ chunks)
  unfolding read_rounds encode_reply
  read_rounds-encode zero chunk chunks lt w ws = absurd (omega arith)
  read_rounds-encode (suc fuel) chunk [] lt w ws =
      subst (λ bytes. Decodes (read_rounds context_id handle (suc fuel)) bytes (chunk ∷ []))
        (append-nil (encode_chunk handle true chunk))
        (bind-Decodes (read_chunk context_id handle) _ (encode_chunk handle true chunk) []
          (chunk, true) (chunk ∷ []) (read_chunk-encode context_id handle true chunk h w)
          (give-Decodes (chunk ∷ [])))
  read_rounds-encode (suc fuel) chunk (next ∷ chunks) lt w (v, ws) =
      bind-Decodes (read_chunk context_id handle) _ (encode_chunk handle false chunk)
        (encode_reply handle next chunks) (chunk, false) (chunk ∷ next ∷ chunks)
        (read_chunk-encode context_id handle false chunk h w)
        (give_of-Decodes (read_rounds context_id handle fuel) (λ rest. chunk ∷ rest)
          (encode_reply handle next chunks) (next ∷ chunks)
          (read_rounds-encode fuel next chunks (omega arith) v ws))

  pub read_structured_chunks-encode :
      (chunk : Chunk) (chunks : List Chunk)
      → IsWire chunk
      → All IsWire chunks
      → Decodes
          (read_structured_chunks context_id handle)
          (encode_reply handle chunk chunks)
          (chunk ∷ chunks)
  unfolding read_structured_chunks
  read_structured_chunks-encode chunk chunks w ws = record {
    gets = λ c rest hs e.
        (read_rounds-encode (length (pending c.incoming) + 1) chunk chunks
            (omega (
              arith,
              length-encode_reply handle chunk chunks,
              ap (λ t. length t) e,
              length-append (encode_reply handle chunk chunks) rest,
            ))
            w ws).gets
          c rest hs e;
  }

the_same : {A : Type 0} {a b : A} → some a ≡ some b → a ≡ b
the_same e = cc

-- A reply of any number of chunks, each of fields that fit, is read back as those chunks, in whatever
-- pieces it arrives on a connection, and what follows it is left to be received; nothing
-- is sent.
pub read_structured_chunks-Gets :
    (context_id handle : ℕ) (chunk : Chunk) (chunks : List Chunk) (c : Connection) (rest : List ℕ)
    → handle < 2 ^ 64
    → IsWire chunk
    → All IsWire chunks
    → All HasBytes c.incoming
    → pending c.incoming ≡ encode_reply handle chunk chunks ++ rest
    → Gets (read_structured_chunks context_id handle) c (chunk ∷ chunks) rest c.outgoing
read_structured_chunks-Gets context_id handle chunk chunks c rest h w ws hs e =
    (read_structured_chunks-encode context_id handle h chunk chunks w ws).gets c rest hs e

module _ (export_size chunk_size : ℕ) (reply : ℕ → ℕ → ℕ → Chunk × List Chunk) where
  -- What the server sends to the requests of the walk.
  unfoldable pub replies : ℕ → ℕ → ℕ → List ℕ
  replies zero handle offset = []
  replies (suc fuel) handle offset =
      let len = min chunk_size (export_size - offset) in
      let rest = replies fuel (handle + 1) (offset + len) in
      let (first, others) = reply handle offset len in
      elim (ltb offset export_size) [ false ↦ [] | true ↦ encode_reply handle first others ++ rest ]

-- A request for the block status, and those of the walk behind what was sent before.
abbrev pub request_bytes : ℕ → ℕ → ℕ → List ℕ
request_bytes handle offset len =
    big_endian 4 0x25609513
    ++ big_endian 2 0
    ++ big_endian 2 7
    ++ big_endian 8 handle
    ++ big_endian 8 offset
    ++ big_endian 4 len

unfoldable pub asked : ℕ → ℕ → ℕ → ℕ → ℕ → List ℕ → List ℕ
asked export_size chunk_size zero handle offset out = out
asked export_size chunk_size (suc fuel) handle offset out =
    let len = min chunk_size (export_size - offset) in
    let more =
      asked export_size chunk_size fuel (handle + 1) (offset + len)
        (out ++ request_bytes handle offset len) in
    elim (ltb offset export_size) [ false ↦ out | true ↦ more ]

abbrev pub reply_chunks : (ℕ → ℕ → ℕ → Chunk × List Chunk) → Server
reply_chunks reply handle offset len =
    some ((reply handle offset len).0 ∷ (reply handle offset len).1)

module _ (context_id export_size chunk_size : ℕ) (reply : ℕ → ℕ → ℕ → Chunk × List Chunk) where
  -- One round: the request is answered, the chunks are walked and the rest follows.
  round-Talks :
      (handle offset len : ℕ) (bytes : List ℕ) (more : Session (List Status)) (s : List ℕ → List ℕ)
      (here : Option (List Status)) (rest : Option (List Status)) (statuses : List Status)
      → handle < 2 ^ 64
      → IsWire (reply handle offset len).0
      → All IsWire (reply handle offset len).1
      → walk_chunks context_id offset ((reply handle offset len).0 ∷ (reply handle offset len).1)
        ≡ here
      → ((statuses' : List Status) → rest ≡ some statuses' → Talks more bytes s statuses')
      → (here or_none λ xs. rest or_none λ ys. some (xs ++ ys)) ≡ some statuses
      → Talks
          (request 7 handle offset len
            >> (read_structured_chunks context_id handle >>= λ chunks.
                lift (walk_chunks context_id offset chunks) >>= λ xs.
                more >>= λ ys. give (xs ++ ys)))
          (encode_reply handle (reply handle offset len).0 (reply handle offset len).1 ++ bytes)
          (λ out. s (out ++ request_bytes handle offset len))
          statuses
  unfolding request lift
  round-Talks handle offset len bytes more s none rest statuses h w ws walk next e = absurd cc
  round-Talks handle offset len bytes more s (some xs) none statuses h w ws walk next e = absurd cc
  round-Talks handle offset len bytes more s (some xs) (some ys) statuses h w ws walk next e =
      let first : Chunk = (reply handle offset len).0 in
      let others : List Chunk = (reply handle offset len).1 in
      let finish : List Status → Session (List Status) = λ zs. more >>= λ ys'. give (zs ++ ys') in
      let same : xs ++ ys ≡ statuses = cc in
      let walked : Talks (lift (walk_chunks context_id offset (first ∷ others)) >>= finish) bytes s
          statuses =
        subst (λ o. Talks (lift o >>= finish) bytes s statuses) (sym walk)
          (subst (λ v. Talks (finish xs) bytes s v) same
            (give_of-Talks more (λ ys'. xs ++ ys') bytes s ys (next ys refl))) in
      bind-Talks (request 7 handle offset len) _ [] (encode_reply handle first others ++ bytes)
        (λ out. out ++ request_bytes handle offset len) s tt statuses (send_all-Talks _)
        (bind-Talks (read_structured_chunks context_id handle) _ (encode_reply handle first others)
          bytes (λ out. out) s (first ∷ others) statuses
          (read_structured_chunks-encode context_id handle h first others w ws) walked)

  pub walk_session-walk_from :
      (fuel handle offset : ℕ) (statuses : List Status)
      → handle + fuel ≤ 2 ^ 64
      → ((handle' offset' len : ℕ)
          → len ≤ chunk_size
          → IsWire (reply handle' offset' len).0 × All IsWire (reply handle' offset' len).1)
      → walk_from (reply_chunks reply) context_id export_size chunk_size fuel handle offset
        ≡ some statuses
      → Talks
          (walk_session context_id export_size chunk_size fuel handle offset)
          (replies export_size chunk_size reply fuel handle offset)
          (asked export_size chunk_size fuel handle offset)
          statuses
  unfolding walk_session walk_from replies asked
  walk_session-walk_from zero handle offset statuses h wires e =
      subst (λ v. Decodes (give []) [] v) (the_same e) (give-Decodes [])
  walk_session-walk_from (suc fuel) handle offset statuses h wires e =
      let len : ℕ = min chunk_size (export_size - offset) in
      by_test
        (λ statuses' e'.
          walk_session-walk_from fuel (handle + 1) (offset + len) statuses' (omega arith) wires e')
        (ltb offset export_size) e
    where
      by_test :
          ((statuses' : List Status)
            → walk_from
                (reply_chunks reply)
                context_id
                export_size
                chunk_size
                fuel
                (handle + 1)
                (offset + min chunk_size (export_size - offset))
              ≡ some statuses'
            → Talks
                (walk_session context_id export_size chunk_size fuel
                  (handle + 1)
                  (offset + min chunk_size (export_size - offset)))
                (replies export_size chunk_size reply fuel
                  (handle + 1)
                  (offset + min chunk_size (export_size - offset)))
                (asked export_size chunk_size fuel
                  (handle + 1)
                  (offset + min chunk_size (export_size - offset)))
                statuses')
          → (b : Bool)
          → let len = min chunk_size (export_size - offset) in
            (elim b as (λ _. Option (List Status)) [
              | false ↦ some []
              | true ↦
                  some ((reply handle offset len).0 ∷ (reply handle offset len).1) or_none λ chunks.
                  walk_chunks context_id offset chunks or_none λ here.
                  walk_from
                    (reply_chunks reply)
                    context_id
                    export_size
                    chunk_size
                    fuel
                    (handle + 1)
                    (offset + len)
                  or_none λ rest. some (here ++ rest)
            ])
              ≡ some statuses
            → Talks
                (elim b as (λ _. Session (List Status)) [
                  | false ↦ give []
                  | true ↦
                      request 7 handle offset len
                      >> (read_structured_chunks context_id handle >>= λ chunks.
                          lift (walk_chunks context_id offset chunks) >>= λ here.
                          walk_session context_id export_size chunk_size fuel
                            (handle + 1)
                            (offset + len)
                          >>= λ rest. give (here ++ rest))
                ])
                (elim b as (λ _. List ℕ) [
                  | false ↦ []
                  | true ↦
                      encode_reply handle (reply handle offset len).0 (reply handle offset len).1
                      ++ replies export_size chunk_size reply fuel (handle + 1) (offset + len)
                ])
                (λ out. elim b as (λ _. List ℕ) [
                  | false ↦ out
                  | true ↦
                      asked export_size chunk_size fuel
                        (handle + 1)
                        (offset + len)
                        (out ++ request_bytes handle offset len)
                ])
                statuses
      by_test next false e' = subst (λ v. Decodes (give []) [] v) (the_same e') (give-Decodes [])
      by_test next true e' =
          let len : ℕ = min chunk_size (export_size - offset) in
          let (w, ws) = wires handle offset len (ground arith) in
          round-Talks handle offset len
            (replies export_size chunk_size reply fuel (handle + 1) (offset + len)) _
            (asked export_size chunk_size fuel (handle + 1) (offset + len)) _ _ statuses
            (omega arith) w ws refl next e'
