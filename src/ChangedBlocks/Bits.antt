-- ===== src/ChangedBlocks/Bits.antt =====
-- Bits of a byte array, the most significant bit of each byte first.
use Prim.Native.Nat.{bit_or}
use zfs_live_xapi.Prelude.{
  ℕ, zero, suc, ◌+◌, ◌-◌, ◌*◌, ◌/◌, ◌%◌, ◌^◌, ◌<◌, ◌≤◌, ◌≡◌, refl, Bool, true, false, ◌||◌, ◌&&◌,
  List, [], ◌∷◌, arith, ◌==◌, ltb, leb,
}
use zfs_live_xapi.Prelude.Lists.{length, get_or, set, length-set, get_or-set}
use zfs_live_xapi.Prelude.Tables.{every_below, every_below-at}
use zfs_live_xapi.Prelude.Base64.{AllBytes}
use zfs_live_xapi.ChangedBlocks.Pack.{mark_block, mark_blocks}

-- Bit `k` of a byte.
abbrev pub byte_bit : ℕ → ℕ → Bool
byte_bit x k = x / 2 ^ (7 - k) % 2 == 1

-- Whether the bit of block `i` is set.
unfoldable pub bit_at : List ℕ → ℕ → Bool
bit_at bits i = byte_bit (get_or 0 bits (i / 8)) (i % 8)

bool_eq : Bool → Bool → Bool
bool_eq true b = b
bool_eq false true = false
bool_eq false false = true

bool_eq→eq : (a b : Bool) → bool_eq a b ≡ true → a ≡ b
unfolding bool_eq
bool_eq→eq a b h = ground arith

or_row : ℕ → ℕ → ℕ → Bool
or_row x k j = bool_eq (byte_bit (bit_or x (0x80 / 2 ^ k)) j) (j == k || byte_bit x j)

or_table :
    every_below
      (λ x. every_below (λ k. ltb (bit_or x (0x80 / 2 ^ k)) 256 && every_below (or_row x k) 8) 8)
      256
    ≡ true
unfolding every_below or_row bool_eq
or_table = refl

or_laws :
    (x k j : ℕ)
    → x < 256
    → k < 8
    → j < 8
    → (ltb (bit_or x (0x80 / 2 ^ k)) 256 && or_row x k j) ≡ true
or_laws x k j hx hk hj =
    let row = every_below-at _ k 8 hk (every_below-at _ x 256 hx or_table) in
    ground (arith, every_below-at (or_row x k) j 8 hj (ground arith))

bit_or-bound : (x k : ℕ) → x < 256 → k < 8 → bit_or x (0x80 / 2 ^ k) < 256
bit_or-bound x k hx hk = ground (arith, or_laws x k 0 hx hk (omega arith))

byte_bit-or :
    (x k j : ℕ)
    → x < 256
    → k < 8
    → j < 8
    → byte_bit (bit_or x (0x80 / 2 ^ k)) j ≡ (j == k || byte_bit x j)
unfolding or_row
byte_bit-or x k j hx hk hj = bool_eq→eq _ _ (ground (arith, or_laws x k j hx hk hj))

pub get_or-AllBytes : (bits : List ℕ) (i : ℕ) → AllBytes bits → get_or 0 bits i < 256
get_or-AllBytes [] i h = omega arith
get_or-AllBytes (x ∷ bits) zero h = h.0
get_or-AllBytes (x ∷ bits) (suc i) h = get_or-AllBytes bits i h.1

set-AllBytes : (bits : List ℕ) (i v : ℕ) → v < 256 → AllBytes bits → AllBytes (set bits i v)
set-AllBytes [] i v hv h = tt
set-AllBytes (x ∷ bits) zero v hv h = (hv, h.1)
set-AllBytes (x ∷ bits) (suc i) v hv h = (h.0, set-AllBytes bits i v hv h.1)

pub mark_block-AllBytes : (b : ℕ) (bits : List ℕ) → AllBytes bits → AllBytes (mark_block b bits)
unfolding mark_block
mark_block-AllBytes b bits h =
    set-AllBytes bits _ _ (bit_or-bound _ _ (get_or-AllBytes bits _ h) (omega arith)) h

pub length-mark_block : (b : ℕ) (bits : List ℕ) → length (mark_block b bits) ≡ length bits
unfolding mark_block
length-mark_block b bits = length-set bits _ _

-- Marking a block sets its bit and no other.
pub bit_at-mark_block :
    (b : ℕ) (bits : List ℕ) (i : ℕ)
    → AllBytes bits
    → b < 8 * length bits
    → bit_at (mark_block b bits) i ≡ (i == b || bit_at bits i)
unfolding mark_block bit_at
bit_at-mark_block b bits i h hb = rw (get_or-set 0 bits (b / 8) (i / 8) _ (omega arith)) (
    ground (
      arith,
      byte_bit-or (get_or 0 bits (b / 8)) (b % 8) (i % 8) (get_or-AllBytes bits _ h) (omega arith)
          (omega arith),
    ))

pub mark_blocks-AllBytes :
    (n b : ℕ) (bits : List ℕ) → AllBytes bits → AllBytes (mark_blocks n b bits)
unfolding mark_blocks
mark_blocks-AllBytes zero b bits h = h
mark_blocks-AllBytes (suc n) b bits h = mark_blocks-AllBytes n _ _ (mark_block-AllBytes b bits h)

pub length-mark_blocks : (n b : ℕ) (bits : List ℕ) → length (mark_blocks n b bits) ≡ length bits
unfolding mark_blocks
length-mark_blocks zero b bits = refl
length-mark_blocks (suc n) b bits =
    omega (arith, length-mark_blocks n (b + 1) (mark_block b bits), length-mark_block b bits)

-- The loop sets the bits of the blocks from `b` up to `b + n`, and no other.
pub bit_at-mark_blocks :
    (n b : ℕ) (bits : List ℕ) (i : ℕ)
    → AllBytes bits
    → b + n ≤ 8 * length bits
    → bit_at (mark_blocks n b bits) i ≡ (leb b i && ltb i (b + n) || bit_at bits i)
unfolding mark_blocks
bit_at-mark_blocks zero b bits i h hb = ground arith
bit_at-mark_blocks (suc n) b bits i h hb =
    let len = length-mark_block b bits in
    ground (
      arith,
      bit_at-mark_blocks n (b + 1) (mark_block b bits) i (mark_block-AllBytes b bits h)
          (omega arith),
      bit_at-mark_block b bits i h (omega arith),
    )
