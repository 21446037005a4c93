-- ===== src/Nbd/Socket.antt =====
-- A connection: what the server sends, in the pieces that `recv` sees, and what the client has sent.
use zfs_live_xapi.Prelude.{
  ℕ, zero, suc, ◌-◌, Option, none, some, List, [], ◌∷◌, ◌++◌, ltb, if◌then◌else◌,
}
use zfs_live_xapi.Prelude.Lists.{length, take, drop}

pub record Connection : Type 0 where
  pub incoming : List (List ℕ)
  pub outgoing : List ℕ

-- An action on a connection; `none` is an exception, which closes it.
abbrev pub Session : Type 0 → Type 0
Session A = Connection → Option (A × Connection)

abbrev pub give : {A : Type 0} → A → Session A
give a c = some (a, c)

abbrev pub fail : {A : Type 0} → Session A
fail c = none

infixl 5 ◌>>=◌ ◌>>◌
abbrev pub ◌>>=◌ : {A B : Type 0} → Session A → (A → Session B) → Session B
◌>>=◌ m f c = elim (m c) [ none ↦ none | some (a, c') ↦ f a c' ]

abbrev pub ◌>>◌ : {A B : Type 0} → Session A → Session B → Session B
m >> k = m >>= λ _. k

-- What `sock.recv(n)` leaves of the first piece.
unfoldable pub remainder : ℕ → List ℕ → List (List ℕ) → List (List ℕ)
remainder n piece pieces = if ltb n (length piece) then drop n piece ∷ pieces else pieces

unfoldable pub recv : ℕ → List (List ℕ) → List ℕ × List (List ℕ)
recv n [] = ([], [])
recv n (piece ∷ pieces) = (take n piece, remainder n piece pieces)

-- A piece with what follows it; an empty piece is the end of the file.
unfoldable pub joined : List ℕ → Option (List ℕ × List (List ℕ)) → Option (List ℕ × List (List ℕ))
joined [] rest = none
joined (b ∷ bytes) none = none
joined (b ∷ bytes) (some (more, left)) = some (b ∷ (bytes ++ more), left)

-- The loop of `_recv_exact` with `n` bytes to go; each
-- round receives a byte at least, so that `n` rounds are enough.
unfoldable pub recv_rounds : ℕ → ℕ → List (List ℕ) → Option (List ℕ × List (List ℕ))
recv_rounds fuel zero pieces = some ([], pieces)
recv_rounds zero (suc n) pieces = none
recv_rounds (suc fuel) (suc n) pieces =
    let (chunk, left) = recv (suc n) pieces in
    let rest = recv_rounds fuel (suc n - length chunk) left in joined chunk rest

unfoldable pub recv_exact : ℕ → Session (List ℕ)
recv_exact n c = elim (recv_rounds n n c.incoming) [
  | none ↦ none
  | some (bytes, left) ↦ some (bytes, record { incoming = left; outgoing = c.outgoing })
]

unfoldable pub send_all : List ℕ → Session (Unit {0})
send_all bytes c = some (tt, record { incoming = c.incoming; outgoing = c.outgoing ++ bytes })

-- All bytes that are still to be received.
unfoldable pub pending : List (List ℕ) → List ℕ
pending [] = []
pending (piece ∷ pieces) = piece ++ pending pieces
