-- ===== src/ChangedBlocks/Pack.antt =====
-- The bitmap's arithmetic: the rounded span and the loops of `_pack_extents_to_bitmap`.
use zfs_live_xapi.Prelude.{
  ℕ, zero, suc, ◌+◌, ◌-◌, ◌*◌, ◌/◌, ◌%◌, ◌^◌, min, max, List, [], ◌∷◌, leb, ◌==◌, if◌then◌else◌,
}
use zfs_live_xapi.Prelude.Lists.{get_or, set, replicate}
use zfs_live_xapi.Prelude.Base64.{b64encode}
use Prim.Native.Nat.{bit_or}

abbrev pub default_cbt_granularity : ℕ
default_cbt_granularity = 65536

-- `-(-x // granularity)`: Python's `//` rounds down, also for a negative dividend.
unfoldable pub negated_floor_div : ℕ → ℕ → ℕ
negated_floor_div x granularity =
    if x % granularity == 0 then x / granularity else x / granularity + 1

-- The rounded span, in bytes, and its number of blocks.
unfoldable pub aligned_start : ℕ → ℕ → ℕ
aligned_start offset granularity = offset / granularity * granularity

unfoldable pub aligned_end : ℕ → ℕ → ℕ → ℕ
unfolding negated_floor_div
aligned_end offset length granularity =
    negated_floor_div (offset + length) granularity * granularity

unfoldable pub block_count : ℕ → ℕ → ℕ → ℕ
block_count offset length granularity =
    (aligned_end offset length granularity - aligned_start offset granularity) / granularity

-- `bits[b // 8] |= 0x80 >> (b % 8)`
unfoldable pub mark_block : ℕ → List ℕ → List ℕ
mark_block b bits = set bits (b / 8) (bit_or (get_or 0 bits (b / 8)) (0x80 / 2 ^ (b % 8)))

-- The loop over `range(b, b + n)`.
unfoldable pub mark_blocks : ℕ → ℕ → List ℕ → List ℕ
mark_blocks zero b bits = bits
mark_blocks (suc n) b bits = mark_blocks n (b + 1) (mark_block b bits)

-- One round of the loop over the extents.
unfoldable pub mark_extent : ℕ → ℕ → ℕ → ℕ → ℕ → List ℕ → List ℕ
mark_extent start end granularity ext_off ext_len bits =
    let clip_start = max ext_off start in
    let clip_end = min (ext_off + ext_len) end in
    let first_block = (clip_start - start) / granularity in
    let last_block = (clip_end - 1 - start) / granularity in
    if leb clip_end clip_start
    then bits
    else mark_blocks (last_block + 1 - first_block) first_block bits

-- An extent is its offset and its length, in bytes.
abbrev pub Extent : Type 0
Extent = ℕ × ℕ

unfoldable pub mark_extents : ℕ → ℕ → ℕ → List Extent → List ℕ → List ℕ
mark_extents start end granularity [] bits = bits
mark_extents start end granularity ((ext_off, ext_len) ∷ extents) bits =
    mark_extents start end granularity extents
      (mark_extent start end granularity ext_off ext_len bits)

-- `_pack_extents_to_bitmap` up to the encoding.
unfoldable pub pack_bits : List Extent → ℕ → ℕ → ℕ → List ℕ
pack_bits extents offset length granularity =
    mark_extents (aligned_start offset granularity) (aligned_end offset length granularity)
      granularity extents (replicate ((block_count offset length granularity + 7) / 8) 0)

unfoldable pub pack_extents_to_bitmap : List Extent → ℕ → ℕ → ℕ → List ℕ
pack_extents_to_bitmap extents offset length granularity =
    b64encode (pack_bits extents offset length granularity)

pub record ChangedBlocks : Type 0 where
  pub granularity : ℕ
  pub bitmap : List ℕ

-- `_empty_changed_blocks_result`
unfoldable pub empty_changed_blocks_result : ℕ → ℕ → ℕ → ChangedBlocks
empty_changed_blocks_result offset length granularity = record {
  granularity = granularity;
  bitmap = b64encode (replicate ((block_count offset length granularity + 7) / 8) 0);
}
