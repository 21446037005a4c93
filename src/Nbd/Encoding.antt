-- ===== src/Nbd/Encoding.antt =====
-- How a server writes structured replies, by the protocol, and that the client reads them back.
use Prim.Native.Nat.{bit_and}
use zfs_live_xapi.Prelude.{
  ℕ, zero, suc, ◌^◌, ◌<◌, ◌≤◌, Bool, true, false, some, List, [], ◌∷◌, ◌++◌, ◌≡◌, ◌≢◌, refl, sym,
  ap, ◌∙◌, subst, arith, ◌==◌, if◌then◌else◌, ==_iff,
}
use zfs_live_xapi.Prelude.Lists.{length, take, drop, length-append}
use zfs_live_xapi.Effects.Triple.{All}
use zfs_live_xapi.Nbd.Bytes.{
  big_endian, read_number, unpack, length-big_endian, read_number-big_endian, take-append_at,
  drop-append_at, unpack-big_endian,
}
use zfs_live_xapi.Nbd.Socket.{Session, give, fail, recv_exact, ◌>>=◌}
use zfs_live_xapi.Nbd.Walk.{Chunk, none_chunk, malformed, error_chunk, other_chunk, block_status}
use zfs_live_xapi.Nbd.Session.{
  nbd_structured_reply_magic, descriptors_of, status_of, decode_chunk, chunk_with, read_chunk,
}
use zfs_live_xapi.Nbd.Decoding.{Decodes, give-Decodes, bind-Decodes, recv_exact-Decodes}

abbrev pub descriptor_bytes : List (ℕ × ℕ) → List ℕ
descriptor_bytes [] = []
descriptor_bytes ((len, status) ∷ descriptors) =
    big_endian 4 len ++ (big_endian 4 status ++ descriptor_bytes descriptors)

abbrev pub chunk_type : Chunk → ℕ
chunk_type none_chunk = 0
chunk_type malformed = 0x8001
chunk_type (error_chunk code) = 0x8001
chunk_type (other_chunk ctype) = ctype
chunk_type (block_status ctx descriptors) = 5

-- An error has its code and an empty message.
abbrev pub chunk_body : Chunk → List ℕ
chunk_body none_chunk = []
chunk_body malformed = []
chunk_body (error_chunk code) = big_endian 4 code ++ big_endian 2 0
chunk_body (other_chunk ctype) = []
chunk_body (block_status ctx descriptors) = big_endian 4 ctx ++ descriptor_bytes descriptors

abbrev pub flag_bit : Bool → ℕ
flag_bit true = 1
flag_bit false = 0

abbrev pub header_bytes : ℕ → Bool → Chunk → List ℕ
header_bytes handle last chunk =
    big_endian 4 nbd_structured_reply_magic
    ++ (big_endian 2 (flag_bit last)
        ++ (big_endian 2 (chunk_type chunk)
            ++ (big_endian 8 handle ++ (big_endian 4 (length (chunk_body chunk)) ++ []))))

-- A chunk as a server sends it, with the flag that it is the last.
unfoldable pub encode_chunk : ℕ → Bool → Chunk → List ℕ
encode_chunk handle last chunk = header_bytes handle last chunk ++ (chunk_body chunk ++ [])

-- The fields fit their sizes, and a type that is passed over is none of those that are read.
abbrev pub Fits32 : ℕ × ℕ → Type 0
Fits32 (len, status) = (len < 2 ^ 32) × (status < 2 ^ 32)

abbrev pub HasFields : Chunk → Type 0
HasFields none_chunk = Unit
HasFields malformed = Unit
HasFields (error_chunk code) = code < 2 ^ 32
HasFields (other_chunk ctype) = (ctype < 2 ^ 16) × (ctype ≢ 0) × (ctype ≢ 5) × (ctype ≢ 0x8001)
HasFields (block_status ctx descriptors) = (ctx < 2 ^ 32) × All Fits32 descriptors

abbrev pub IsWire : Chunk → Type 0
IsWire chunk = HasFields chunk × (length (chunk_body chunk) < 2 ^ 32)

number_at :
    (k v : ℕ) (rest : List ℕ)
    → v < 256 ^ k
    → (read_number 0 (take k (big_endian k v ++ rest)) ≡ v)
      × (drop k (big_endian k v ++ rest) ≡ rest)
number_at k v rest h = (
  ap (λ t. read_number 0 t) (take-append_at k (big_endian k v) rest (length-big_endian k v))
      ∙ read_number-big_endian k v h,
  drop-append_at k (big_endian k v) rest (length-big_endian k v),
)

descriptors_of-cons :
    (fuel : ℕ) (bytes : List ℕ) (more : List (ℕ × ℕ))
    → 8 ≤ length bytes
    → descriptors_of fuel (drop 8 bytes) ≡ some more
    → descriptors_of (suc fuel) bytes
      ≡ some ((read_number 0 (take 4 bytes), read_number 0 (take 4 (drop 4 bytes))) ∷ more)
unfolding descriptors_of
descriptors_of-cons fuel [] more h e = absurd (omega arith)
descriptors_of-cons fuel (b ∷ bytes) more h e = ground arith

-- The eight bytes of a pair.
pair_bytes :
    (len status : ℕ) (rest : List ℕ)
    → len < 2 ^ 32
    → status < 2 ^ 32
    → let bytes : List ℕ = big_endian 4 len ++ (big_endian 4 status ++ rest) in
      (8 ≤ length bytes)
      × (read_number 0 (take 4 bytes) ≡ len)
      × (read_number 0 (take 4 (drop 4 bytes)) ≡ status)
      × (drop 8 bytes ≡ rest)
unfolding big_endian read_number
pair_bytes len status rest p q = (omega arith, omega arith, omega arith, refl)

descriptors_of-bytes :
    (fuel : ℕ) (ds : List (ℕ × ℕ))
    → length ds ≤ fuel
    → All Fits32 ds
    → descriptors_of fuel (descriptor_bytes ds) ≡ some ds
unfolding descriptors_of
descriptors_of-bytes fuel [] h p = refl
descriptors_of-bytes zero (d ∷ ds) h p = absurd (omega arith)
descriptors_of-bytes (suc fuel) ((len, status) ∷ ds) h ((p, q), ps) =
    let (enough, first, second, left) = pair_bytes len status (descriptor_bytes ds) p q in
    descriptors_of-cons fuel _ ds enough
      (ap (λ t. descriptors_of fuel t) left ∙ descriptors_of-bytes fuel ds (omega arith) ps)
    ∙ ap (λ a. some (a ∷ ds)) (pair first second)
  where
    pair : {a b c d : ℕ} → a ≡ b → c ≡ d → Path (ℕ × ℕ) (a, c) (b, d)
    pair e f i = (e i, f i)

length-descriptor_bytes : (ds : List (ℕ × ℕ)) → length ds ≤ length (descriptor_bytes ds)
length-descriptor_bytes [] = omega arith
length-descriptor_bytes ((len, status) ∷ ds) =
    let bytes : List ℕ = big_endian 4 status ++ descriptor_bytes ds in
    omega (
      arith,
      length-descriptor_bytes ds,
      length-append (big_endian 4 len) bytes,
      length-append (big_endian 4 status) (descriptor_bytes ds),
      length-big_endian 4 len,
    )

decode-body :
    (context_id : ℕ) (chunk : Chunk)
    → IsWire chunk
    → decode_chunk context_id (chunk_type chunk) (chunk_body chunk) ≡ chunk
unfolding decode_chunk status_of
decode-body context_id none_chunk (p, q) = refl
decode-body context_id malformed (p, q) = refl
decode-body context_id (error_chunk code) (p, q) =
    let (value, left) = number_at 4 code (big_endian 2 0) p in
    let enough = length-append (big_endian 4 code) (big_endian 2 0) in
    let four = length-big_endian 4 code in ground arith
decode-body context_id (other_chunk ctype) ((a, b, c, d), q) = ground arith
decode-body context_id (block_status ctx ds) ((p, ps), q) =
    let (value, left) = number_at 4 ctx (descriptor_bytes ds) p in
    let enough = length-append (big_endian 4 ctx) (descriptor_bytes ds) in
    let four = length-big_endian 4 ctx in
    let fuel : ℕ = length (big_endian 4 ctx ++ descriptor_bytes ds) in
    let read =
      ap (λ t. descriptors_of fuel t) left
      ∙ descriptors_of-bytes fuel ds (omega (arith, length-descriptor_bytes ds)) ps in
    ground arith

flag_bit-lt : (b : Bool) → flag_bit b < 2 ^ 16
flag_bit-lt true = omega arith
flag_bit-lt false = omega arith

flag_bit-bit : (b : Bool) → (bit_and (flag_bit b) 1 == 1) ≡ b
flag_bit-bit true = refl
flag_bit-bit false = refl

chunk_type-lt : (chunk : Chunk) → HasFields chunk → chunk_type chunk < 2 ^ 16
chunk_type-lt none_chunk p = omega arith
chunk_type-lt malformed p = omega arith
chunk_type-lt (error_chunk code) p = omega arith
chunk_type-lt (other_chunk ctype) p = p.0
chunk_type-lt (block_status ctx ds) p = omega arith

pub length-header_bytes :
    (handle : ℕ) (last : Bool) (chunk : Chunk) → length (header_bytes handle last chunk) ≡ 20
unfolding big_endian
length-header_bytes handle last chunk = refl

-- The fields of the header are unpacked in their order.
header-unpack :
    (handle : ℕ) (last : Bool) (chunk : Chunk)
    → handle < 2 ^ 64
    → IsWire chunk
    → unpack (4 ∷ 2 ∷ 2 ∷ 8 ∷ 4 ∷ []) (header_bytes handle last chunk)
      ≡ nbd_structured_reply_magic
        ∷ flag_bit last
        ∷ chunk_type chunk
        ∷ handle
        ∷ length (chunk_body chunk)
        ∷ []
unfolding unpack
header-unpack handle last chunk h (p, q) =
    unpack-big_endian 4 nbd_structured_reply_magic (2 ∷ 2 ∷ 8 ∷ 4 ∷ []) _ (omega arith)
    ∙ ap (λ t. nbd_structured_reply_magic ∷ t)
        (unpack-big_endian 2 (flag_bit last) (2 ∷ 8 ∷ 4 ∷ []) _ (flag_bit-lt last)
          ∙ ap (λ t. flag_bit last ∷ t)
              (unpack-big_endian 2 (chunk_type chunk) (8 ∷ 4 ∷ []) _ (chunk_type-lt chunk p)
                ∙ ap (λ t. chunk_type chunk ∷ t)
                    (unpack-big_endian 8 handle (4 ∷ []) _ h
                      ∙ ap (λ t. handle ∷ t)
                          (unpack-big_endian 4 (length (chunk_body chunk)) [] [] q))))

chunk_with-Decodes :
    (context_id handle : ℕ) (last : Bool) (chunk : Chunk)
    → IsWire chunk
    → Decodes
        (chunk_with context_id handle (
          nbd_structured_reply_magic
          ∷ flag_bit last
          ∷ chunk_type chunk
          ∷ handle
          ∷ length (chunk_body chunk)
          ∷ []))
        (chunk_body chunk ++ [])
        (chunk, last)
unfolding chunk_with
chunk_with-Decodes context_id handle last chunk w =
    let body : List ℕ = chunk_body chunk in
    let finish : List ℕ → Session (Chunk × Bool) = λ bytes.
      give (decode_chunk context_id (chunk_type chunk) bytes, bit_and (flag_bit last) 1 == 1) in
    let whole : Session (Chunk × Bool) = recv_exact (length body) >>= finish in
    let same : Path (Chunk × Bool)
        (decode_chunk context_id (chunk_type chunk) body, bit_and (flag_bit last) 1 == 1)
        (chunk, last) =
      λ i. (decode-body context_id chunk w i, flag_bit-bit last i) in
    subst (λ b. Decodes (if b then whole else fail) (body ++ []) (chunk, last))
      (sym ((==_iff handle handle).1 refl))
      (bind-Decodes (recv_exact (length body)) finish body [] body (chunk, last)
        (recv_exact-Decodes (length body) body refl)
        (subst (λ v. Decodes (finish body) [] v) same (give-Decodes _)))

-- The client reads a chunk back, and takes its bytes alone.
pub read_chunk-encode :
    (context_id handle : ℕ) (last : Bool) (chunk : Chunk)
    → handle < 2 ^ 64
    → IsWire chunk
    → Decodes (read_chunk context_id handle) (encode_chunk handle last chunk) (chunk, last)
unfolding read_chunk encode_chunk
read_chunk-encode context_id handle last chunk h w =
    bind-Decodes (recv_exact 20) _ (header_bytes handle last chunk) (chunk_body chunk ++ [])
      (header_bytes handle last chunk) (chunk, last)
      (recv_exact-Decodes 20 (header_bytes handle last chunk)
        (length-header_bytes handle last chunk))
      (subst
        (λ fields.
          Decodes (chunk_with context_id handle fields) (chunk_body chunk ++ []) (chunk, last))
        (sym (header-unpack handle last chunk h w))
        (chunk_with-Decodes context_id handle last chunk w))
