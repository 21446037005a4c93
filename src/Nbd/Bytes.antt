-- ===== src/Nbd/Bytes.antt =====
-- Big-endian fields, as `struct.pack` and `struct.unpack` have them with "!".
use native.Mathlib.Nat.{div-add-mod}
use native.Mathlib.Numerals.{unary_clauses}
use zfs_live_xapi.Prelude.{
  ℕ, zero, suc, ◌+◌, ◌*◌, ◌/◌, ◌%◌, ◌^◌, ◌<◌, List, [], ◌∷◌, ◌++◌, ◌≡◌, refl, ap, ◌∙◌, sym, arith,
}
use zfs_live_xapi.Prelude.Lists.{length, take, drop, length-append}

-- The last `n` bytes of a number.
unfoldable pub big_endian : ℕ → ℕ → List ℕ
big_endian zero v = []
big_endian (suc n) v = big_endian n (v / 256) ++ (v % 256 ∷ [])

unfoldable pub read_number : ℕ → List ℕ → ℕ
read_number acc [] = acc
read_number acc (b ∷ bytes) = read_number (acc * 256 + b) bytes

-- The fields of the sizes, one after another.
unfoldable pub unpack : List ℕ → List ℕ → List ℕ
unpack [] bytes = []
unpack (k ∷ sizes) bytes = read_number 0 (take k bytes) ∷ unpack sizes (drop k bytes)

pub length-big_endian : (n v : ℕ) → length (big_endian n v) ≡ n
unfolding big_endian
length-big_endian zero v = refl
length-big_endian (suc n) v =
    omega
      (arith, length-append (big_endian n (v / 256)) (v % 256 ∷ []), length-big_endian n (v / 256))

read_number-append :
    (acc : ℕ) (xs ys : List ℕ) → read_number acc (xs ++ ys) ≡ read_number (read_number acc xs) ys
unfolding read_number
read_number-append acc [] ys = refl
read_number-append acc (x ∷ xs) ys = read_number-append (acc * 256 + x) xs ys

div-lt_power : (n v : ℕ) → v < 256 ^ suc n → v / 256 < 256 ^ n
div-lt_power n v h =
    let p : 256 ^ suc n ≡ 256 * 256 ^ n = simp unary_clauses (omega arith) in omega arith

pub read_number-big_endian : (n v : ℕ) → v < 256 ^ n → read_number 0 (big_endian n v) ≡ v
unfolding big_endian read_number
read_number-big_endian zero v h = omega arith
read_number-big_endian (suc n) v h =
    let below = div-lt_power n v h in
    read_number-append 0 (big_endian n (v / 256)) (v % 256 ∷ [])
    ∙ omega (arith, read_number-big_endian n (v / 256) below, div-add-mod v 256)

module _ {A : Type 0} where
  pub take-append : (xs ys : List A) → take (length xs) (xs ++ ys) ≡ xs
  take-append [] ys = refl
  take-append (x ∷ xs) ys = ap (λ t. x ∷ t) (take-append xs ys)

  pub drop-append : (xs ys : List A) → drop (length xs) (xs ++ ys) ≡ ys
  drop-append [] ys = refl
  drop-append (x ∷ xs) ys = drop-append xs ys

  pub take-append_at : (k : ℕ) (xs ys : List A) → length xs ≡ k → take k (xs ++ ys) ≡ xs
  take-append_at k xs ys e = ap (λ n. take n (xs ++ ys)) (sym e) ∙ take-append xs ys

  pub drop-append_at : (k : ℕ) (xs ys : List A) → length xs ≡ k → drop k (xs ++ ys) ≡ ys
  drop-append_at k xs ys e = ap (λ n. drop n (xs ++ ys)) (sym e) ∙ drop-append xs ys

-- A field in front is read back.
pub unpack-big_endian :
    (k v : ℕ) (sizes rest : List ℕ)
    → v < 256 ^ k
    → unpack (k ∷ sizes) (big_endian k v ++ rest) ≡ v ∷ unpack sizes rest
unfolding unpack
unpack-big_endian k v sizes rest h =
    ap (λ t. read_number 0 t ∷ unpack sizes (drop k (big_endian k v ++ rest)))
      (take-append_at k (big_endian k v) rest (length-big_endian k v))
    ∙ ap (λ t. read_number 0 (big_endian k v) ∷ unpack sizes t)
        (drop-append_at k (big_endian k v) rest (length-big_endian k v))
    ∙ ap (λ t. t ∷ unpack sizes rest) (read_number-big_endian k v h)
