-- ===== src/Prelude/Text.antt =====
-- The methods of Python's `str` that the driver uses, on native texts.
use Prim.Native.Nat.{ℕ, ◌+◌, ◌-◌, ◌*◌}
use Prim.Native.Char.{Char, code}
use Prim.Native.String.{String, ◌++◌ as ◌<>◌, find, len}
use mathlib.Core.Path.{◌≡◌, refl}
use mathlib.Core.Bool.{Bool, ◌||◌, ◌&&◌}
use mathlib.Core.Option.{Option, none, some}
use mathlib.Core.List.{List, [], ◌∷◌}
use zfs_live_xapi.Prelude.Lists.{get_or}
use zfs_live_xapi.Prelude.Tests.{leb, ◌==◌, if◌then◌else◌, str_eq}

-- `t in s`
abbrev pub contains_text : String → String → Bool
contains_text t s = leb (find s t) (len s)

-- Puts a character in front of the first piece.
abbrev pub cons_first : Char → List String → List String
cons_first c [] = String.◌∷◌ c String.[] ∷ []
cons_first c (piece ∷ pieces) = String.◌∷◌ c piece ∷ pieces

-- `s.split(sep)` for a separator of one character.
unfoldable pub split : ℕ → String → List String
split sep String.[] = String.[] ∷ []
split sep (String.◌∷◌ c s) =
    let rest = split sep s in if code c == sep then String.[] ∷ rest else cons_first c rest

-- `s.split(sep, 1)` as the part before the first separator, and the part after it if there is one.
unfoldable pub partition : ℕ → String → String × Option String
partition sep String.[] = (String.[], none)
partition sep (String.◌∷◌ c s) =
    let rest = partition sep s in
    if code c == sep then (String.[], some s) else (String.◌∷◌ c rest.0, rest.1)

abbrev pub first_or : String → List String → String
first_or d [] = d
first_or d (x ∷ xs) = x

unfoldable pub last_or : String → List String → String
last_or d [] = d
last_or d (x ∷ xs) = last_or x xs

-- `sep.join(pieces)`
unfoldable pub join : String → List String → String
join sep [] = ""
join sep (s ∷ []) = s
join sep (s ∷ t ∷ ts) = s <> (sep <> join sep (t ∷ ts))

abbrev pub is_space : ℕ → Bool
is_space c = (leb 9 c && leb c 13) || c == 32

unfoldable pub lstrip : String → String
lstrip String.[] = String.[]
lstrip (String.◌∷◌ c s) = let rest = lstrip s in if is_space (code c) then rest else String.◌∷◌ c s

-- A character stays if it is no space or if something stays behind it.
unfoldable pub rstrip : String → String
rstrip String.[] = String.[]
rstrip (String.◌∷◌ c s) =
    let rest = rstrip s in
    if is_space (code c) && str_eq rest String.[] then String.[] else String.◌∷◌ c rest

unfoldable pub strip : String → String
strip s = rstrip (lstrip s)

-- A letter between the codes `low` and `low + 25` becomes the one at the same place of `letters`.
shift_letter : ℕ → List Char → Char → Char
shift_letter low letters c = if leb low (code c) then get_or c letters (code c - low) else c

map_text : (Char → Char) → String → String
map_text f String.[] = String.[]
map_text f (String.◌∷◌ c s) = String.◌∷◌ (f c) (map_text f s)

letters_of : String → List Char
letters_of String.[] = []
letters_of (String.◌∷◌ c s) = c ∷ letters_of s

-- `s.lower()` and `s.upper()` on ASCII letters.
unfoldable pub lower : String → String
unfolding map_text shift_letter letters_of
lower s = map_text (shift_letter 65 (letters_of "abcdefghijklmnopqrstuvwxyz")) s

unfoldable pub upper : String → String
unfolding map_text shift_letter letters_of
upper s = map_text (shift_letter 97 (letters_of "ABCDEFGHIJKLMNOPQRSTUVWXYZ")) s

-- `s.strip("/")`
strip_left : ℕ → String → String
strip_left sep String.[] = String.[]
strip_left sep (String.◌∷◌ c s) =
    let rest = strip_left sep s in if code c == sep then rest else String.◌∷◌ c s

strip_right : ℕ → String → String
strip_right sep String.[] = String.[]
strip_right sep (String.◌∷◌ c s) =
    let rest = strip_right sep s in
    if code c == sep && str_eq rest String.[] then String.[] else String.◌∷◌ c rest

unfoldable pub strip_char : ℕ → String → String
unfolding strip_left strip_right
strip_char sep s = strip_right sep (strip_left sep s)

-- `s.splitlines()` of Python 2: line feed, carriage return, or both; no last empty line.
unfoldable pub splitlines : String → List String
splitlines String.[] = []
splitlines (String.◌∷◌ c String.[]) =
    if code c == 10 || code c == 13 then String.[] ∷ [] else String.◌∷◌ c String.[] ∷ []
splitlines (String.◌∷◌ c (String.◌∷◌ d s)) =
    let rest = splitlines (String.◌∷◌ d s) in
    if code c == 13 && code d == 10
    then rest
    else if code c == 10 || code c == 13
    then String.[] ∷ rest
    else cons_first c rest

digits_value : ℕ → String → Option ℕ
digits_value acc String.[] = some acc
digits_value acc (String.◌∷◌ c s) =
    let rest = digits_value (acc * 10 + (code c - 48)) s in
    if leb 48 (code c) && leb (code c) 57 then rest else none

-- `int(s)` on a decimal text without a sign; `none` is a `ValueError`.
unfoldable pub parse_int : String → Option ℕ
unfolding digits_value strip
parse_int s = if str_eq (strip s) String.[] then none else digits_value 0 (strip s)

abbrev sample : String
sample = "pool/sr@a"

lower_test : lower "Gzip-9Z" ≡ "gzip-9z"
unfolding lower
lower_test = refl

upper_test : upper "128k" ≡ "128K"
unfolding upper
upper_test = refl

strip_char_test : strip_char 47 "/pool/sr//" ≡ "pool/sr"
unfolding strip_char
strip_char_test = refl

split_test : split 64 sample ≡ "pool/sr" ∷ "a" ∷ []
unfolding split
split_test = refl

splitlines_test : splitlines "ab\ncd\n" ≡ "ab" ∷ "cd" ∷ []
unfolding splitlines
splitlines_test = refl

strip_test : strip " ab \n" ≡ "ab"
unfolding strip lstrip rstrip
strip_test = refl

parse_int_test : parse_int "4096\n" ≡ some 4096
unfolding parse_int lstrip rstrip
parse_int_test = refl

partition_test : partition 64 "a@b@c" ≡ ("a", some "b@c")
unfolding partition
partition_test = refl
