-- ===== src/Nbd/Options.antt =====
-- How the client hears the answers to its three options.
use zfs_live_xapi.Prelude.{
  ℕ, ◌++◌, ◌+◌, ◌^◌, ◌<◌, ◌≤◌, Bool, true, false, ◌&&◌, Option, none, some, List, [], ◌∷◌, ◌≡◌, ◌≢◌,
  ap, subst, arith, ◌==◌, ltb, leb, if◌then◌else◌, append-nil,
}
use zfs_live_xapi.Prelude.Lists.{length, take, drop, length-append}
use zfs_live_xapi.Effects.Triple.{All}
use zfs_live_xapi.Nbd.Bytes.{read_number}
use zfs_live_xapi.Nbd.Socket.{Session, give, fail, pending, ◌>>=◌, ◌>>◌}
use zfs_live_xapi.Nbd.Session.{
  all_replies, context_of, size_of, found_or_fail, opt_structured_reply, send_option,
  recv_option_reply,
}
use zfs_live_xapi.Nbd.Decoding.{
  Decodes, give-Decodes, bind-Decodes, Talks, bind-Talks, send_all-Talks,
}
use zfs_live_xapi.Nbd.Negotiation.{
  option_bytes, reply_header, length-reply_header, reply_bytes, answer_bytes, heard, Informs,
  recv_option_reply-Decodes, collect-Decodes,
}

-- What a reply says: the context that the server assigned, and the size of the export.
abbrev pub context_in : List ℕ → Option ℕ → Option ℕ
context_in payload found = some (read_number 0 (take 4 payload))

abbrev pub size_in : List ℕ → Option ℕ → Option ℕ
size_in payload found =
    if read_number 0 (take 2 payload) == 0 && leb 12 (length payload)
    then some (read_number 0 (take 8 (drop 2 payload)))
    else found

length-reply_bytes : (opt : ℕ) (reply : ℕ × List ℕ) → 20 ≤ length (reply_bytes opt reply)
unfolding reply_bytes
length-reply_bytes opt (kind, payload) = omega (
  arith,
  length-reply_header opt kind (length payload),
  length-append (reply_header opt kind (length payload)) payload,
)

length-answer_bytes : (opt : ℕ) (rs : List (ℕ × List ℕ)) → length rs < length (answer_bytes opt rs)
unfolding answer_bytes
length-answer_bytes opt [] = omega (arith, length-reply_bytes opt (1, []))
length-answer_bytes opt (r ∷ rs) = omega (
  arith,
  length-reply_bytes opt r,
  length-answer_bytes opt rs,
  length-append (reply_bytes opt r) (answer_bytes opt rs),
)

all_replies-Decodes :
    (opt kind n : ℕ) (read : List ℕ → Option ℕ → Session (Option ℕ))
    (told : List ℕ → Option ℕ → Option ℕ) (rs : List (ℕ × List ℕ))
    → ((body : List ℕ) (found : Option ℕ)
        → n ≤ length body
        → Decodes (read body found) [] (told body found))
    → opt < 2 ^ 32
    → kind ≢ 1
    → All (Informs kind n) rs
    → Decodes (all_replies opt kind read) (answer_bytes opt rs) (heard kind told none rs)
unfolding all_replies
all_replies-Decodes opt kind n read told rs reads o k ps = record {
  gets = λ c rest hs e.
      (collect-Decodes opt kind n read told (length (pending c.incoming) + 1) none rs reads o k
          (omega (
            arith,
            length-answer_bytes opt rs,
            ap (λ t. length t) e,
            length-append (answer_bytes opt rs) rest,
          ))
          ps).gets
        c rest hs e;
}

-- The answer to an option is read whole, and what is found in it is returned.
pub answered-Talks :
    (opt kind n : ℕ) (read : List ℕ → Option ℕ → Session (Option ℕ))
    (told : List ℕ → Option ℕ → Option ℕ) (payload : List ℕ) (rs : List (ℕ × List ℕ)) (v : ℕ)
    → ((body : List ℕ) (found : Option ℕ)
        → n ≤ length body
        → Decodes (read body found) [] (told body found))
    → opt < 2 ^ 32
    → kind ≢ 1
    → All (Informs kind n) rs
    → heard kind told none rs ≡ some v
    → Talks
        (send_option opt payload >> (all_replies opt kind read >>= found_or_fail))
        (answer_bytes opt rs)
        (λ out. out ++ option_bytes opt payload)
        v
unfolding send_option found_or_fail
answered-Talks opt kind n read told payload rs v reads o k ps e =
    bind-Talks (send_option opt payload) _ [] (answer_bytes opt rs)
      (λ out. out ++ option_bytes opt payload) (λ out. out) tt v (send_all-Talks _)
      (subst (λ bytes. Decodes (all_replies opt kind read >>= found_or_fail) bytes v)
        (append-nil (answer_bytes opt rs))
        (bind-Decodes (all_replies opt kind read) found_or_fail (answer_bytes opt rs) [] (some v) v
          (subst (λ a. Decodes (all_replies opt kind read) (answer_bytes opt rs) a) e
            (all_replies-Decodes opt kind n read told rs reads o k ps))
          (give-Decodes v)))

pub context_of-Decodes :
    (body : List ℕ) (found : Option ℕ)
    → 4 ≤ length body
    → Decodes (context_of body found) [] (context_in body found)
unfolding context_of
context_of-Decodes body found h = by_length (ltb (length body) 4) (ground arith)
  where
    by_length :
        (b : Bool)
        → b ≡ false
        → Decodes
            (if b then fail else give (some (read_number 0 (take 4 body))))
            []
            (context_in body found)
    by_length true e = absurd cc
    by_length false e = give-Decodes (context_in body found)

pub size_of-Decodes :
    (body : List ℕ) (found : Option ℕ)
    → 2 ≤ length body
    → Decodes (size_of body found) [] (size_in body found)
unfolding size_of
size_of-Decodes body found h =
    by_length (ltb (length body) 2) (read_number 0 (take 2 body) == 0 && leb 12 (length body))
      (ground arith)
  where
    by_length :
        (b c : Bool)
        → b ≡ false
        → let size : Option ℕ = some (read_number 0 (take 8 (drop 2 body))) in
          Decodes
            (if b then fail else if c then give size else give found)
            []
            (if c then size else found)
    by_length true c e = absurd cc
    by_length false true e = give-Decodes _
    by_length false false e = give-Decodes found

pub structured_reply-Talks :
    Talks opt_structured_reply (reply_bytes 8 (1, [])) (λ out. out ++ option_bytes 8 []) tt
unfolding opt_structured_reply send_option
structured_reply-Talks =
    bind-Talks (send_option 8 []) _ [] (reply_bytes 8 (1, [])) (λ out. out ++ option_bytes 8 [])
      (λ out. out) tt tt (send_all-Talks _)
      (subst
        (λ bytes.
          Decodes
            (recv_option_reply >>= λ r.
              if r.option == 8 && r.reply_type == 1 then give tt else fail)
            bytes tt)
        (append-nil (reply_bytes 8 (1, [])))
        (bind-Decodes recv_option_reply _ (reply_bytes 8 (1, [])) [] _ tt
          (recv_option_reply-Decodes 8 1 [] (omega arith) (omega arith) (omega arith))
          (give-Decodes tt)))
