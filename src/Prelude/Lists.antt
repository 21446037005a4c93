-- ===== src/Prelude/Lists.antt =====
-- Lists measured by the native numbers, and the membership tests that Python writes `in`.
use Prim.Native.Nat.{ℕ, zero, suc, ◌+◌, ◌<◌}
use Prim.Native.String.{String}
use mathlib.Core.Path.{◌≡◌, refl}
use mathlib.Core.Bool.{Bool, false, ◌||◌}
use mathlib.Core.List.{List, [], ◌∷◌, ◌++◌}
use native.Mathlib.Omega.{arith}
use zfs_live_xapi.Prelude.Tests.{str_eq, if◌then◌else◌, ◌==◌}

module _ {ℓ} {A : Type ℓ} where
  abbrev pub length : List A → ℕ
  length [] = 0
  length (x ∷ xs) = suc (length xs)

  abbrev pub get_or : A → List A → ℕ → A
  get_or d [] i = d
  get_or d (x ∷ xs) zero = x
  get_or d (x ∷ xs) (suc i) = get_or d xs i

  -- A write out of bounds changes nothing.
  abbrev pub set : List A → ℕ → A → List A
  set [] i v = []
  set (x ∷ xs) zero v = v ∷ xs
  set (x ∷ xs) (suc i) v = x ∷ set xs i v

  abbrev pub take : ℕ → List A → List A
  take zero xs = []
  take (suc n) [] = []
  take (suc n) (x ∷ xs) = x ∷ take n xs

  abbrev pub drop : ℕ → List A → List A
  drop zero xs = xs
  drop (suc n) [] = []
  drop (suc n) (x ∷ xs) = drop n xs

  abbrev pub replicate : ℕ → A → List A
  replicate zero x = []
  replicate (suc n) x = x ∷ replicate n x

  pub length-append : (xs ys : List A) → length (xs ++ ys) ≡ length xs + length ys
  length-append [] ys = omega arith
  length-append (x ∷ xs) ys = omega (arith, length-append xs ys)

  pub length-set : (xs : List A) (i : ℕ) (v : A) → length (set xs i v) ≡ length xs
  length-set [] i v = refl
  length-set (x ∷ xs) zero v = refl
  length-set (x ∷ xs) (suc i) v = omega (arith, length-set xs i v)

  pub length-replicate : (n : ℕ) (x : A) → length (replicate n x) ≡ n
  length-replicate zero x = refl
  length-replicate (suc n) x = omega (arith, length-replicate n x)

  pub get_or-set :
      (d : A) (xs : List A) (i j : ℕ) (v : A)
      → i < length xs
      → get_or d (set xs i v) j ≡ (if i == j then v else get_or d xs j)
  get_or-set d [] i j v h = absurd (omega arith)
  get_or-set d (x ∷ xs) zero zero v h = refl
  get_or-set d (x ∷ xs) zero (suc j) v h = ground arith
  get_or-set d (x ∷ xs) (suc i) zero v h = ground arith
  get_or-set d (x ∷ xs) (suc i) (suc j) v h = ground (arith, get_or-set d xs i j v)

  pub get_or-replicate : (n : ℕ) (x : A) (j : ℕ) → get_or x (replicate n x) j ≡ x
  get_or-replicate zero x j = refl
  get_or-replicate (suc n) x zero = refl
  get_or-replicate (suc n) x (suc j) = get_or-replicate n x j

abbrev pub contains : List String → String → Bool
contains [] s = false
contains (t ∷ ts) s = str_eq s t || contains ts s
