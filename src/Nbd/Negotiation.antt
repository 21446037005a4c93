-- ===== src/Nbd/Negotiation.antt =====
-- What a server says while the options are negotiated, by the protocol, and how the client hears it.
use zfs_live_xapi.Prelude.{
  ℕ, zero, suc, ◌^◌, ◌<◌, ◌≤◌, Bool, true, false, not, Option, List, [], ◌∷◌, ◌++◌, ◌≡◌, ◌≢◌, refl,
  sym, ap, ◌∙◌, subst, arith, ◌==◌, if◌then◌else◌, append-nil, ==_iff,
}
use zfs_live_xapi.Prelude.Lists.{length}
use zfs_live_xapi.Effects.Triple.{All}
use zfs_live_xapi.Nbd.Bytes.{big_endian, unpack, unpack-big_endian}
use zfs_live_xapi.Nbd.Socket.{Session, give, fail, recv_exact, ◌>>=◌}
use zfs_live_xapi.Nbd.Session.{
  nbdmagic, ihaveopt, nbd_option_reply_magic, reply_with, recv_option_reply, is_error_reply,
  collect, check_magics, handshake,
}
use zfs_live_xapi.Nbd.Decoding.{
  Decodes, give-Decodes, bind-Decodes, give_of-Decodes, Talks, bind-Talks, send_all-Talks,
  recv_exact-Decodes,
}

abbrev pub greeting : ℕ → List ℕ
greeting flags = big_endian 8 nbdmagic ++ (big_endian 8 ihaveopt ++ (big_endian 2 flags ++ []))

abbrev pub reply_header : ℕ → ℕ → ℕ → List ℕ
reply_header opt kind len =
    big_endian 8 nbd_option_reply_magic
    ++ (big_endian 4 opt ++ (big_endian 4 kind ++ (big_endian 4 len ++ [])))

-- A reply to an option.
unfoldable pub reply_bytes : ℕ → ℕ × List ℕ → List ℕ
reply_bytes opt (kind, payload) = reply_header opt kind (length payload) ++ payload

-- Replies that inform, and the acknowledgement.
unfoldable pub answer_bytes : ℕ → List (ℕ × List ℕ) → List ℕ
answer_bytes opt [] = reply_bytes opt (1, [])
answer_bytes opt (reply ∷ replies) = reply_bytes opt reply ++ answer_bytes opt replies

-- What is known after the replies of a kind.
unfoldable pub heard : ℕ → (List ℕ → Option ℕ → Option ℕ) → Option ℕ → List (ℕ × List ℕ) → Option ℕ
heard kind told found [] = found
heard kind told found ((reply_type, payload) ∷ replies) =
    heard kind told (if reply_type == kind then told payload found else found) replies

-- Neither an error nor the acknowledgement, and of a kind that is read, at least `n` bytes.
abbrev pub Informs : ℕ → ℕ → ℕ × List ℕ → Type 0
Informs kind n (reply_type, payload) =
    (reply_type < 2 ^ 31)
    × (reply_type ≢ 1)
    × (length payload < 2 ^ 32)
    × (reply_type ≡ kind → n ≤ length payload)

length-greeting : (flags : ℕ) → length (greeting flags) ≡ 18
unfolding big_endian
length-greeting flags = refl

-- The client's flags, and an option with its data.
abbrev pub client_flags : List ℕ
client_flags = big_endian 4 1

abbrev pub option_bytes : ℕ → List ℕ → List ℕ
option_bytes opt payload =
    big_endian 8 0x49484156454F5054 ++ big_endian 4 opt ++ big_endian 4 (length payload) ++ payload

pub handshake-Talks :
    (flags : ℕ) → flags < 2 ^ 16 → Talks handshake (greeting flags) (λ out. out ++ client_flags) tt
unfolding handshake check_magics unpack
handshake-Talks flags h =
    subst (λ bytes. Talks handshake bytes (λ out. out ++ client_flags) tt)
      (append-nil (greeting flags))
      (bind-Talks (recv_exact 18) _ (greeting flags) [] (λ out. out) (λ out. out ++ client_flags)
        (greeting flags) tt (recv_exact-Decodes 18 (greeting flags) (length-greeting flags))
        (subst (λ fields. Talks (check_magics fields) [] (λ out. out ++ client_flags) tt)
          (sym fields_read) (send_all-Talks client_flags)))
  where
    fields_read : unpack (8 ∷ 8 ∷ 2 ∷ []) (greeting flags) ≡ nbdmagic ∷ ihaveopt ∷ flags ∷ []
    fields_read =
        unpack-big_endian 8 nbdmagic (8 ∷ 2 ∷ []) _ (omega arith)
        ∙ ap (λ t. nbdmagic ∷ t)
            (unpack-big_endian 8 ihaveopt (2 ∷ []) _ (omega arith)
              ∙ ap (λ t. ihaveopt ∷ t) (unpack-big_endian 2 flags [] [] h))

pub length-reply_header : (opt kind len : ℕ) → length (reply_header opt kind len) ≡ 20
unfolding big_endian
length-reply_header opt kind len = refl

pub recv_option_reply-Decodes :
    (opt kind : ℕ) (payload : List ℕ)
    → opt < 2 ^ 32
    → kind < 2 ^ 32
    → length payload < 2 ^ 32
    → Decodes recv_option_reply
        (reply_bytes opt (kind, payload))
        (record { option = opt; reply_type = kind; payload = payload })
unfolding recv_option_reply reply_bytes reply_with unpack
recv_option_reply-Decodes opt kind payload o k l =
    let len : ℕ = length payload in
    bind-Decodes (recv_exact 20) _ (reply_header opt kind len) payload (reply_header opt kind len) _
      (recv_exact-Decodes 20 (reply_header opt kind len) (length-reply_header opt kind len))
      (subst
        (λ fields.
          Decodes (reply_with fields) payload
            (record { option = opt; reply_type = kind; payload = payload }))
        (sym fields_read)
        (give_of-Decodes (recv_exact len)
          (λ bytes. record { option = opt; reply_type = kind; payload = bytes }) payload payload
          (recv_exact-Decodes len payload refl)))
  where
    fields_read :
        unpack (8 ∷ 4 ∷ 4 ∷ 4 ∷ []) (reply_header opt kind (length payload))
        ≡ nbd_option_reply_magic ∷ opt ∷ kind ∷ length payload ∷ []
    fields_read =
        unpack-big_endian 8 nbd_option_reply_magic (4 ∷ 4 ∷ 4 ∷ []) _ (omega arith)
        ∙ ap (λ t. nbd_option_reply_magic ∷ t)
            (unpack-big_endian 4 opt (4 ∷ 4 ∷ []) _ o
              ∙ ap (λ t. opt ∷ t)
                  (unpack-big_endian 4 kind (4 ∷ []) _ k
                    ∙ ap (λ t. kind ∷ t) (unpack-big_endian 4 (length payload) [] [] l)))

-- A reply to the option asked for that is no error.
accepted-Decodes :
    {A : Type 0} (same failed : Bool) (m : Session A) (bytes : List ℕ) (v : A)
    → same ≡ true
    → failed ≡ false
    → Decodes m bytes v
    → Decodes (if not same then fail else if failed then fail else m) bytes v
accepted-Decodes true false m bytes v p q d = d
accepted-Decodes true true m bytes v p q d = absurd cc
accepted-Decodes false failed m bytes v p q d = absurd cc

module _ (opt kind n : ℕ) (read : List ℕ → Option ℕ → Session (Option ℕ))
    (told : List ℕ → Option ℕ → Option ℕ) where
  pub collect-Decodes :
      (fuel : ℕ) (found : Option ℕ) (replies : List (ℕ × List ℕ))
      → ((payload : List ℕ) (found' : Option ℕ)
          → n ≤ length payload
          → Decodes (read payload found') [] (told payload found'))
      → opt < 2 ^ 32
      → kind ≢ 1
      → length replies < fuel
      → All (Informs kind n) replies
      → Decodes
          (collect opt kind read fuel found)
          (answer_bytes opt replies)
          (heard kind told found replies)
  unfolding collect answer_bytes heard
  collect-Decodes zero found replies reads o k lt ps = absurd (omega arith)
  collect-Decodes (suc fuel) found [] reads o k lt ps =
      subst (λ bytes. Decodes (collect opt kind read (suc fuel) found) bytes found)
        (append-nil (reply_bytes opt (1, [])))
        (bind-Decodes recv_option_reply _ (reply_bytes opt (1, [])) [] _ found
          (recv_option_reply-Decodes opt 1 [] o (omega arith) (omega arith))
          (accepted-Decodes (opt == opt) (is_error_reply 1) _ [] found ((==_iff opt opt).1 refl)
            refl (by_kind (1 == kind) (ground arith))))
    where
      by_kind :
          (c : Bool)
          → c ≡ false
          → Decodes
              (if c then (read [] found >>= λ now. collect opt kind read fuel now) else give found)
              []
              found
      by_kind true e = absurd cc
      by_kind false e = give-Decodes found
  collect-Decodes (suc fuel) found ((rt, payload) ∷ replies) reads o k lt ((p, q, r, s), ps) =
      bind-Decodes recv_option_reply _ (reply_bytes opt (rt, payload)) (answer_bytes opt replies) _
        _ (recv_option_reply-Decodes opt rt payload o (omega arith) r)
        (accepted-Decodes (opt == opt) (is_error_reply rt) _ (answer_bytes opt replies) _
          ((==_iff opt opt).1 refl) (ground arith)
          (by_kind (rt == kind) (rt == 1) refl (ground arith)
            (λ found'. collect-Decodes fuel found' replies reads o k (omega arith) ps)))
    where
      by_kind :
          (c d : Bool)
          → (rt == kind) ≡ c
          → d ≡ false
          → ((found' : Option ℕ)
              → Decodes
                  (collect opt kind read fuel found')
                  (answer_bytes opt replies)
                  (heard kind told found' replies))
          → Decodes
              (if c
                then (read payload found >>= λ now. collect opt kind read fuel now)
                else if d
                then give found
                else collect opt kind read fuel found)
              (answer_bytes opt replies)
              (heard kind told (if c then told payload found else found) replies)
      by_kind true d e f next =
          bind-Decodes (read payload found) _ [] (answer_bytes opt replies) (told payload found) _
            (reads payload found (s ((==_iff rt kind).0 e))) (next (told payload found))
      by_kind false true e f next = absurd cc
      by_kind false false e f next = next found
