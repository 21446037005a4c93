-- ===== src/Prelude/Base64.antt =====
-- The standard library's `base64.b64encode`, as code points, and the decoding that reads it back.
use Prim.Native.Nat.{ℕ, ◌+◌, ◌-◌, ◌*◌, ◌/◌, ◌%◌, ◌<◌}
use mathlib.Core.Path.{◌≡◌, refl}
use mathlib.Core.Bool.{Bool, true}
use mathlib.Core.Option.{Option, none, some}
use mathlib.Core.Option
use mathlib.Core.List.{List, [], ◌∷◌}
use native.Mathlib.Omega.{arith}
use zfs_live_xapi.Prelude.Tests.{ltb, ◌==◌, ==_iff, if◌then◌else◌}
use zfs_live_xapi.Prelude.Tables.{every_below, every_below-at}

-- `A` to `Z`, `a` to `z`, `0` to `9`, `+` and `/`.
unfoldable pub sextet_char : ℕ → ℕ
sextet_char n =
    if ltb n 26
    then n + 65
    else if ltb n 52
    then n + 71
    else if ltb n 62
    then n - 4
    else if n == 62
    then 43
    else 47

unfoldable pub char_sextet : ℕ → ℕ
char_sextet c =
    if c == 43
    then 62
    else if c == 47
    then 63
    else if ltb c 58
    then c + 4
    else if ltb c 91
    then c - 65
    else c - 71

abbrev padding : ℕ
padding = 61

unfoldable pub b64encode : List ℕ → List ℕ
b64encode [] = []
b64encode (a ∷ []) = sextet_char (a / 4) ∷ sextet_char (a % 4 * 16) ∷ padding ∷ padding ∷ []
b64encode (a ∷ b ∷ []) =
    sextet_char (a / 4)
    ∷ sextet_char (a % 4 * 16 + b / 16)
    ∷ sextet_char (b % 16 * 4)
    ∷ padding
    ∷ []
b64encode (a ∷ b ∷ c ∷ rest) =
    sextet_char (a / 4)
    ∷ sextet_char (a % 4 * 16 + b / 16)
    ∷ sextet_char (b % 16 * 4 + c / 64)
    ∷ sextet_char (c % 64)
    ∷ b64encode rest

first_byte : ℕ → ℕ → ℕ
first_byte p q = p * 4 + q / 16

second_byte : ℕ → ℕ → ℕ
second_byte q r = q % 16 * 16 + r / 4

third_byte : ℕ → ℕ → ℕ
third_byte r s = r % 4 * 64 + s

-- The bytes of a text in groups of four; `none` when the last group is cut short.
unfoldable pub b64decode : List ℕ → Option (List ℕ)
unfolding first_byte second_byte third_byte
b64decode [] = some []
b64decode (p ∷ q ∷ r ∷ s ∷ rest) =
    let more = b64decode rest in
    let a = first_byte (char_sextet p) (char_sextet q) in
    let b = second_byte (char_sextet q) (char_sextet r) in
    let c = third_byte (char_sextet r) (char_sextet s) in
    if r == padding
    then some (a ∷ [])
    else if s == padding
    then some (a ∷ b ∷ [])
    else Option.map (λ bytes. a ∷ b ∷ c ∷ bytes) more
b64decode _ = none

abbrev pub AllBytes : List ℕ → Type 0
AllBytes [] = Unit
AllBytes (x ∷ xs) = (x < 256) × AllBytes xs

sextet_table : every_below (λ n. char_sextet (sextet_char n) == n) 64 ≡ true
unfolding every_below char_sextet sextet_char
sextet_table = refl

char_sextet-sextet_char : (n : ℕ) → n < 64 → char_sextet (sextet_char n) ≡ n
char_sextet-sextet_char n h = (==_iff _ n).0 (every_below-at _ n 64 h sextet_table)

sextet_char-eq_padding : (n : ℕ) → n < 64 → (sextet_char n == padding) ≡ mathlib.Core.Bool.false
unfolding sextet_char
sextet_char-eq_padding n h = ground arith

-- Decoding gives the encoded bytes back.
pub b64decode-b64encode : (xs : List ℕ) → AllBytes xs → b64decode (b64encode xs) ≡ some xs
unfolding b64decode b64encode
b64decode-b64encode [] h = refl
b64decode-b64encode (a ∷ []) (ha, _) = ground (
  arith,
  char_sextet-sextet_char (a / 4) (omega arith),
  char_sextet-sextet_char (a % 4 * 16) (omega arith),
)
b64decode-b64encode (a ∷ b ∷ []) (ha, (hb, _)) = ground (
  arith,
  sextet_char-eq_padding (b % 16 * 4) (omega arith),
  char_sextet-sextet_char (a / 4) (omega arith),
  char_sextet-sextet_char (a % 4 * 16 + b / 16) (omega arith),
  char_sextet-sextet_char (b % 16 * 4) (omega arith),
)
b64decode-b64encode (a ∷ b ∷ c ∷ rest) (ha, (hb, (hc, h))) =
    rw
      (
        sextet_char-eq_padding (b % 16 * 4 + c / 64) (omega arith),
        sextet_char-eq_padding (c % 64) (omega arith),
        char_sextet-sextet_char (a / 4) (omega arith),
        char_sextet-sextet_char (a % 4 * 16 + b / 16) (omega arith),
        char_sextet-sextet_char (b % 16 * 4 + c / 64) (omega arith),
        char_sextet-sextet_char (c % 64) (omega arith),
        b64decode-b64encode rest h,
      )
      (ground arith)
