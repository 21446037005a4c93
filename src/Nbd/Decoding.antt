-- ===== src/Nbd/Decoding.antt =====
-- Reading back what was encoded, by the bytes that a session takes off a connection.
use zfs_live_xapi.Prelude.{
  ℕ, Option, none, some, List, [], ◌++◌, ◌≡◌, refl, sym, ap, ◌∙◌, subst, arith, inl, inr,
  append_assoc, append-nil,
}
use zfs_live_xapi.Prelude.Lists.{length, take, drop, length-append}
use zfs_live_xapi.Effects.Triple.{All}
use zfs_live_xapi.Nbd.Bytes.{take-append_at, drop-append_at}
use zfs_live_xapi.Nbd.Socket.{Connection, Session, give, recv_exact, send_all, pending, ◌>>=◌}
use zfs_live_xapi.Nbd.SocketLaws.{HasBytes, Reads, recv_exact-Reads}

-- The session returns `v`, and leaves `rest` to be received; all that was sent is `out`.
abbrev pub Gets : {A : Type 0} → Session A → Connection → A → List ℕ → List ℕ → Type 0
Gets m c v rest out =
    (c' : Connection) × (m c ≡ some (v, c'))
    × (pending c'.incoming ≡ rest)
    × (c'.outgoing ≡ out)
    × All HasBytes c'.incoming

-- From any connection on which `bytes` arrive first, in any pieces, the session returns `v`, takes
-- exactly these bytes, and sends what `sent` adds.
pub record Talks {A : Type 0} (m : Session A) (bytes : List ℕ) (sent : List ℕ → List ℕ) (v : A)
    : Type 0 where
  pub gets :
      (c : Connection) (rest : List ℕ)
      → All HasBytes c.incoming
      → pending c.incoming ≡ bytes ++ rest
      → Gets m c v rest (sent c.outgoing)

-- Sends nothing.
abbrev pub Decodes : {A : Type 0} → Session A → List ℕ → A → Type 0
Decodes m bytes v = Talks m bytes (λ out. out) v

pub give-Decodes : {A : Type 0} (v : A) → Decodes (give v) [] v
give-Decodes v = record { gets = λ c rest hs e. (c, refl, e, refl, hs) }

pub bind-Talks :
    {A B : Type 0} (m : Session A) (f : A → Session B) (xs ys : List ℕ) (s t : List ℕ → List ℕ)
    (a : A) (b : B)
    → Talks m xs s a
    → Talks (f a) ys t b
    → Talks (m >>= f) (xs ++ ys) (λ out. t (s out)) b
bind-Talks {A} {B} m f xs ys s t a b d k = record {
  gets = λ c rest hs e.
      let (c', run, left, out, hs') = d.gets c (ys ++ rest) hs (e ∙ append_assoc xs ys rest) in
      let (c'', run', left', out', hs'') = k.gets c' rest hs' left in
      (
        c'',
        ap (λ o. elim o as (λ _. Option (B × Connection)) [ none ↦ none | some (x, u) ↦ f x u ]) run
            ∙ run',
        left',
        out' ∙ ap t out,
        hs'',
      );
}

pub bind-Decodes :
    {A B : Type 0} (m : Session A) (f : A → Session B) (xs ys : List ℕ) (a : A) (b : B)
    → Decodes m xs a
    → Decodes (f a) ys b
    → Decodes (m >>= f) (xs ++ ys) b
bind-Decodes m f xs ys a b d k = bind-Talks m f xs ys (λ out. out) (λ out. out) a b d k

-- What is read goes through a function.
pub give_of-Talks :
    {A B : Type 0} (m : Session A) (g : A → B) (xs : List ℕ) (s : List ℕ → List ℕ) (a : A)
    → Talks m xs s a
    → Talks (m >>= λ x. give (g x)) xs s (g a)
give_of-Talks m g xs s a d =
    subst (λ bytes. Talks (m >>= λ x. give (g x)) bytes s (g a)) (append-nil xs)
      (bind-Talks m (λ x. give (g x)) xs [] s (λ out. out) a (g a) d (give-Decodes (g a)))

pub give_of-Decodes :
    {A B : Type 0} (m : Session A) (g : A → B) (xs : List ℕ) (a : A)
    → Decodes m xs a
    → Decodes (m >>= λ x. give (g x)) xs (g a)
give_of-Decodes m g xs a d = give_of-Talks m g xs (λ out. out) a d

pub send_all-Talks : (bytes : List ℕ) → Talks (send_all bytes) [] (λ out. out ++ bytes) tt
unfolding send_all
send_all-Talks bytes = record {
  gets = λ c rest hs e.
      (record { incoming = c.incoming; outgoing = c.outgoing ++ bytes }, refl, e, refl, hs);
}

pub recv_exact-Decodes : (n : ℕ) (xs : List ℕ) → length xs ≡ n → Decodes (recv_exact n) xs xs
recv_exact-Decodes n xs len = record {
  gets = λ c rest hs e. by_outcome c rest e (recv_exact-Reads n c hs);
}
  where
    by_outcome :
        (c : Connection) (rest : List ℕ)
        → pending c.incoming ≡ xs ++ rest
        → Reads n c (recv_exact n c)
        → Gets (recv_exact n) c xs rest c.outgoing
    by_outcome c rest e (inr (short, fails)) =
        absurd (omega (arith, short, len, length-append xs rest, ap (λ t. length t) e))
    by_outcome c rest e (inl (bytes, c', run, len', split, same, hs')) =
        let both : bytes ++ pending c'.incoming ≡ xs ++ rest = sym split ∙ e in
        let front : bytes ≡ xs =
          sym (take-append_at n bytes (pending c'.incoming) len')
          ∙ ap (λ t. take n t) both
          ∙ take-append_at n xs rest len in
        let back : pending c'.incoming ≡ rest =
          sym (drop-append_at n bytes (pending c'.incoming) len')
          ∙ ap (λ t. drop n t) both
          ∙ drop-append_at n xs rest len in
        (c', run ∙ ap (λ t. some (t, c')) front, back, same, hs')
