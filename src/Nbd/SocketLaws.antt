-- ===== src/Nbd/SocketLaws.antt =====
-- Reading does not depend on the pieces in which the bytes arrive.
use zfs_live_xapi.Prelude.{
  ℕ, zero, suc, ◌-◌, ◌<◌, ◌≤◌, Bool, true, false, Option, none, some, List, [], ◌∷◌, ◌++◌, ◌≡◌,
  refl, sym, ap, ◌∙◌, ltb, arith, ◌⊎◌, inl, inr, if◌then◌else◌, append_assoc,
}
use zfs_live_xapi.Prelude.Lists.{length, take, drop, length-append}
use zfs_live_xapi.Effects.Triple.{All}
use zfs_live_xapi.Nbd.Socket.{Connection, remainder, recv, joined, recv_rounds, recv_exact, pending}

-- `recv` returns no bytes only at the end of the file.
abbrev pub HasBytes : List ℕ → Type 0
HasBytes piece = 0 < length piece

-- Bytes that are taken off the front of the pieces.
abbrev pub Received : ℕ → List (List ℕ) → Option (List ℕ × List (List ℕ)) → Type 0
Received n pieces r =
    ((left : List (List ℕ)) × (bytes : List ℕ) × (r ≡ some (bytes, left))
      × (length bytes ≡ n)
      × (pending pieces ≡ bytes ++ pending left)
      × All HasBytes left)
    ⊎ ((length (pending pieces) < n) × (r ≡ none))

module _ {A : Type 0} where
  take-drop : (n : ℕ) (xs : List A) → take n xs ++ drop n xs ≡ xs
  take-drop zero xs = refl
  take-drop (suc n) [] = refl
  take-drop (suc n) (x ∷ xs) = ap (λ t. x ∷ t) (take-drop n xs)

  length-take_lt : (n : ℕ) (xs : List A) → n ≤ length xs → length (take n xs) ≡ n
  length-take_lt zero xs h = refl
  length-take_lt (suc n) [] h = absurd (omega arith)
  length-take_lt (suc n) (x ∷ xs) h = omega (arith, length-take_lt n xs (omega arith))

  length-drop : (n : ℕ) (xs : List A) → length (drop n xs) ≡ length xs - n
  length-drop zero xs = omega arith
  length-drop (suc n) [] = omega arith
  length-drop (suc n) (x ∷ xs) = omega (arith, length-drop n xs)

  take_all : (n : ℕ) (xs : List A) → length xs ≤ n → take n xs ≡ xs
  take_all zero [] h = refl
  take_all zero (x ∷ xs) h = absurd (omega arith)
  take_all (suc n) [] h = refl
  take_all (suc n) (x ∷ xs) h = ap (λ t. x ∷ t) (take_all n xs (omega arith))

-- One call of `recv` takes the bytes off the front of the first piece, at least one and at most as
-- many as are wanted.
recv-front :
    (n : ℕ) (piece : List ℕ) (pieces : List (List ℕ))
    → HasBytes piece
    → All HasBytes pieces
    → let r : List ℕ × List (List ℕ) = recv (suc n) (piece ∷ pieces) in
      (0 < length r.0)
      × (length r.0 ≤ suc n)
      × (piece ++ pending pieces ≡ r.0 ++ pending r.1)
      × All HasBytes r.1
unfolding recv remainder pending
recv-front n piece pieces h hs = by_length (ltb (suc n) (length piece)) refl
  where
    by_length :
        (b : Bool)
        → ltb (suc n) (length piece) ≡ b
        → let left : List (List ℕ) = if b then drop (suc n) piece ∷ pieces else pieces in
          (0 < length (take (suc n) piece))
          × (length (take (suc n) piece) ≤ suc n)
          × (piece ++ pending pieces ≡ take (suc n) piece ++ pending left)
          × All HasBytes left
    by_length true e =
        let lt : suc n < length piece = ground arith in
        let len = length-take_lt (suc n) piece (omega arith) in
        (
          omega (arith, len),
          omega (arith, len),
          ap (λ t. t ++ pending pieces) (sym (take-drop (suc n) piece))
              ∙ append_assoc (take (suc n) piece) (drop (suc n) piece) (pending pieces),
          (omega (arith, length-drop (suc n) piece), hs),
        )
    by_length false e =
        let le : length piece ≤ suc n = ground arith in
        let same = take_all (suc n) piece le in
        let len = ap (λ t. length t) same in
        (omega (arith, len), omega (arith, len), ap (λ t. t ++ pending pieces) (sym same), hs)

joined-Received :
    (n : ℕ) (chunk : List ℕ) (pieces left : List (List ℕ)) (r : Option (List ℕ × List (List ℕ)))
    → 0 < length chunk
    → length chunk ≤ n
    → pending pieces ≡ chunk ++ pending left
    → Received (n - length chunk) left r
    → Received n pieces (joined chunk r)
unfolding joined
joined-Received n [] pieces left r h le split got = absurd (omega arith)
joined-Received n (b ∷ bytes) pieces left r h le split (inl (left', more, e, len, split', hs)) =
    inl (
      left',
      b ∷ (bytes ++ more),
      ap (λ t. joined (b ∷ bytes) t) e,
      omega (arith, len, length-append bytes more),
      split
          ∙ ap (λ t. b ∷ (bytes ++ t)) split'
          ∙ ap (λ t. b ∷ t) (sym (append_assoc bytes more (pending left'))),
      hs,
    )
joined-Received n (b ∷ bytes) pieces left r h le split (inr (short, e)) = inr (
  omega (arith, short, ap (λ t. length t) split, length-append bytes (pending left)),
  ap (λ t. joined (b ∷ bytes) t) e,
)

recv_rounds-Received :
    (fuel n : ℕ) (pieces : List (List ℕ))
    → n ≤ fuel
    → All HasBytes pieces
    → Received n pieces (recv_rounds fuel n pieces)
unfolding recv_rounds recv pending joined
recv_rounds-Received fuel zero pieces h hs = inl (pieces, [], refl, refl, refl, hs)
recv_rounds-Received zero (suc n) pieces h hs = absurd (omega arith)
recv_rounds-Received (suc fuel) (suc n) [] h hs = inr (omega arith, refl)
recv_rounds-Received (suc fuel) (suc n) (piece ∷ pieces) h (p, hs) =
    let (some_bytes, le, split, hs') = recv-front n piece pieces p hs in
    let got = recv (suc n) (piece ∷ pieces) in
    joined-Received (suc n) got.0 (piece ∷ pieces) got.1
      (recv_rounds fuel (suc n - length got.0) got.1) some_bytes le split
      (recv_rounds-Received fuel (suc n - length got.0) got.1 (omega arith) hs')

-- What a read of `n` bytes does to a connection.
abbrev pub Reads : ℕ → Connection → Option (List ℕ × Connection) → Type 0
Reads n c r =
    ((bytes : List ℕ) × (c' : Connection) × (r ≡ some (bytes, c'))
      × (length bytes ≡ n)
      × (pending c.incoming ≡ bytes ++ pending c'.incoming)
      × (c'.outgoing ≡ c.outgoing)
      × All HasBytes c'.incoming)
    ⊎ ((length (pending c.incoming) < n) × (r ≡ none))

-- Where no piece is empty, a read of `n` bytes takes the first `n` of the bytes that arrive, whatever
-- the pieces in which they do, and sends nothing, or there are fewer and it raises.
pub recv_exact-Reads :
    (n : ℕ) (c : Connection) → All HasBytes c.incoming → Reads n c (recv_exact n c)
unfolding recv_exact
recv_exact-Reads n c hs =
    by_rounds (recv_rounds n n c.incoming) (recv_rounds-Received n n c.incoming (omega arith) hs)
  where
    by_rounds :
        (r : Option (List ℕ × List (List ℕ)))
        → Received n c.incoming r
        → Reads n c (
            let r' : Option (List ℕ × Connection) = elim r [
              | none ↦ none
              | some (bytes, left) ↦ some (bytes, record { incoming = left; outgoing = c.outgoing })
            ] in
            r')
    by_rounds (some (bytes, left)) (inl (left', bytes', e, len, split, hs')) = inl (
      bytes',
      record { incoming = left'; outgoing = c.outgoing },
      ap
          (λ o. elim o as (λ _. Option (List ℕ × Connection)) [
            | none ↦ none
            | some (bs, l) ↦ some (bs, record { incoming = l; outgoing = c.outgoing })
          ])
          e,
      len,
      split,
      refl,
      hs',
    )
    by_rounds (some (bytes, left)) (inr (short, e)) = absurd cc
    by_rounds none (inl (left', bytes', e, len, split, hs')) = absurd cc
    by_rounds none (inr (short, e)) = inr (short, refl)
