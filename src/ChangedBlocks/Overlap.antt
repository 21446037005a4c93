-- ===== src/ChangedBlocks/Overlap.antt =====
-- Which blocks an extent marks.
use native.Mathlib.Nat.{div-add-mod, mul-div_cancel}
use zfs_live_xapi.Prelude.{
  ℕ, zero, suc, ap, ◌∙◌, ◌+◌, ◌-◌, ◌*◌, ◌/◌, ◌%◌, ◌<◌, ◌≤◌, ◌≡◌, ◌↔◌, ◌⊎◌, inl, inr, refl, Bool,
  true, false, ◌||◌, ◌&&◌, List, [], ◌∷◌, arith, ◌==◌, ltb, leb, max, min, Bool-cases, some,
}
use zfs_live_xapi.Prelude.Lists.{length, replicate, length-replicate, get_or-replicate}
use zfs_live_xapi.Prelude.Base64.{AllBytes, b64decode, b64decode-b64encode}
use zfs_live_xapi.ChangedBlocks.Pack.{
  Extent, negated_floor_div, aligned_start, aligned_end, block_count, mark_extent, mark_extents,
  pack_bits, pack_extents_to_bitmap,
}
use zfs_live_xapi.ChangedBlocks.Bits.{
  bit_at, mark_blocks-AllBytes, length-mark_blocks, bit_at-mark_blocks,
}

div-le_iff : (x g i : ℕ) → 0 < g → (x / g ≤ i) ↔ (x < (i + 1) * g)
div-le_iff x g i h = (λ p. grind arith, λ p. grind arith)

le-div_iff : (x g i : ℕ) → 0 < g → (i ≤ x / g) ↔ (i * g ≤ x)
le-div_iff x g i h = (λ p. grind arith, λ p. grind arith)

-- The extent shares a byte with the block of `g` bytes at `from`.
abbrev overlaps : ℕ → ℕ → ℕ → ℕ → Bool
overlaps from g ext_off ext_len = ltb (max ext_off from) (min (ext_off + ext_len) (from + g))

module _ (start g n : ℕ) (g_pos : 0 < g) where
  abbrev clip_start : ℕ → ℕ
  clip_start o = max o start

  abbrev clip_end : ℕ → ℕ → ℕ
  clip_end o l = min (o + l) (start + n * g)

  -- The blocks of the loop, for an extent that is not clipped away.
  in_range :
      (o l i : ℕ)
      → i < n
      → clip_start o < clip_end o l
      → (leb ((clip_start o - start) / g) i && ltb i ((clip_end o l - 1 - start) / g + 1))
        ≡ overlaps (start + i * g) g o l
  in_range o l i hi hc =
      let p = div-le_iff (clip_start o - start) g i g_pos in
      let q = le-div_iff (clip_end o l - 1 - start) g i g_pos in
      let k : (i + 1) * g ≤ n * g = grind arith in ground (arith, p.0, p.1, q.0, q.1)

  last_block-lt : (o l : ℕ) → clip_start o < clip_end o l → (clip_end o l - 1 - start) / g + 1 ≤ n
  last_block-lt o l hc =
      let q = le-div_iff (clip_end o l - 1 - start) g n g_pos in ground (arith, q.0)

  clipped :
      (o l i : ℕ) → i < n → clip_end o l ≤ clip_start o → overlaps (start + i * g) g o l ≡ false
  clipped o l i hi hc = let k : (i + 1) * g ≤ n * g = grind arith in ground arith

  first_block-le :
      (o l : ℕ)
      → clip_start o < clip_end o l
      → (clip_start o - start) / g ≤ (clip_end o l - 1 - start) / g
  first_block-le o l hc =
      let q = le-div_iff (clip_end o l - 1 - start) g ((clip_start o - start) / g) g_pos in
      let p = le-div_iff (clip_start o - start) g ((clip_start o - start) / g) g_pos in
      ground (arith, q.1, p.0)

  module _ (bits : List ℕ) (bytes : AllBytes bits) where
    mark_extent-AllBytes : (o l : ℕ) → AllBytes (mark_extent start (start + n * g) g o l bits)
    unfolding mark_extent
    mark_extent-AllBytes o l = ground (
      arith,
      mark_blocks-AllBytes ((clip_end o l - 1 - start) / g + 1 - (clip_start o - start) / g)
          ((clip_start o - start) / g) bits bytes,
    )

    length-mark_extent :
        (o l : ℕ) → length (mark_extent start (start + n * g) g o l bits) ≡ length bits
    unfolding mark_extent
    length-mark_extent o l = ground (
      arith,
      length-mark_blocks ((clip_end o l - 1 - start) / g + 1 - (clip_start o - start) / g)
          ((clip_start o - start) / g) bits,
    )

    bit_at-mark_extent :
        (o l i : ℕ)
        → n ≤ 8 * length bits
        → i < n
        → bit_at (mark_extent start (start + n * g) g o l bits) i
          ≡ (overlaps (start + i * g) g o l || bit_at bits i)
    unfolding mark_extent
    bit_at-mark_extent o l i room hi = elim (Bool-cases (leb (clip_end o l) (clip_start o))) [
      | inl out ↦ rw (out, clipped o l i hi (ground arith))
      | inr inside ↦
          let hc : clip_start o < clip_end o l = ground arith in
          let first = first_block-le o l hc in
          let last = last_block-lt o l hc in
          let first_block = (clip_start o - start) / g in
          let last_block = (clip_end o l - 1 - start) / g in
          rw
            (
              inside,
              bit_at-mark_blocks (last_block + 1 - first_block) first_block bits i bytes
                  (omega arith),
              ← in_range o l i hi hc,
            )
            (ground arith)
    ]

  any_overlap : List Extent → ℕ → Bool
  any_overlap [] i = false
  any_overlap ((o, l) ∷ extents) i = overlaps (start + i * g) g o l || any_overlap extents i

  bit_at-mark_extents :
      (extents : List Extent) (bits : List ℕ) (i : ℕ)
      → AllBytes bits
      → n ≤ 8 * length bits
      → i < n
      → bit_at (mark_extents start (start + n * g) g extents bits) i
        ≡ (any_overlap extents i || bit_at bits i)
  unfolding mark_extents any_overlap
  bit_at-mark_extents [] bits i bytes room hi = refl
  bit_at-mark_extents ((o, l) ∷ extents) bits i bytes room hi =
      rw
        (
          bit_at-mark_extents extents (mark_extent start (start + n * g) g o l bits) i
              (mark_extent-AllBytes bits bytes o l)
              (omega (arith, length-mark_extent bits bytes o l)) hi,
          bit_at-mark_extent bits bytes o l i room hi,
        )
        (ground arith)

  mark_extents-AllBytes :
      (extents : List Extent) (bits : List ℕ)
      → AllBytes bits
      → AllBytes (mark_extents start (start + n * g) g extents bits)
  unfolding mark_extents
  mark_extents-AllBytes [] bits bytes = bytes
  mark_extents-AllBytes ((o, l) ∷ extents) bits bytes =
      mark_extents-AllBytes extents _ (mark_extent-AllBytes bits bytes o l)

  length-mark_extents :
      (extents : List Extent) (bits : List ℕ)
      → AllBytes bits
      → length (mark_extents start (start + n * g) g extents bits) ≡ length bits
  unfolding mark_extents
  length-mark_extents [] bits bytes = refl
  length-mark_extents ((o, l) ∷ extents) bits bytes = omega (
    arith,
    length-mark_extents extents (mark_extent start (start + n * g) g o l bits)
        (mark_extent-AllBytes bits bytes o l),
    length-mark_extent bits bytes o l,
  )

-- Some byte of some extent lies in the `g` bytes at `from`.
abbrev pub IsTouched : List Extent → ℕ → ℕ → Type 0
IsTouched [] from g = ⊥
IsTouched ((o, l) ∷ extents) from g =
    ((x : ℕ) × (o ≤ x) × (x < o + l) × (from ≤ x) × (x < from + g)) ⊎ IsTouched extents from g

overlaps_iff :
    (o l from g : ℕ)
    → (overlaps from g o l ≡ true) ↔ ((x : ℕ) × (o ≤ x) × (x < o + l) × (from ≤ x) × (x < from + g))
overlaps_iff o l from g =
    (λ h. (max o from, ground arith, ground arith, ground arith, ground arith), λ h. ground arith)

any_overlap_iff :
    (start g n : ℕ) (g_pos : 0 < g) (extents : List Extent) (i : ℕ)
    → (any_overlap start g n g_pos extents i ≡ true) ↔ IsTouched extents (start + i * g) g
unfolding any_overlap
any_overlap_iff start g n p [] i = (λ h. cc, λ h. elim h [ ])
any_overlap_iff start g n p ((o, l) ∷ extents) i =
    let here = overlaps_iff o l (start + i * g) g in
    let more = any_overlap_iff start g n p extents i in
    (
      λ h. elim (Bool-cases (overlaps (start + i * g) g o l)) [
        | inl e ↦ inl (here.0 e)
        | inr e ↦ inr (more.0 (ground arith))
      ],
      elim [ inl e ↦ ground (arith, here.1 e) | inr e ↦ ground (arith, more.1 e) ],
    )

floor_bounds : (x g : ℕ) → 0 < g → (x / g * g ≤ x) × (x < x / g * g + g)
floor_bounds x g h = ground (arith, (div-le_iff x g (x / g) h).0, (le-div_iff x g (x / g) h).0)

ceiling_bounds :
    (x g : ℕ) → 0 < g → (x ≤ negated_floor_div x g * g) × (negated_floor_div x g * g < x + g)
unfolding negated_floor_div
ceiling_bounds x g h =
    let floor = floor_bounds x g h in
    let parts = div-add-mod x g in
    elim (Bool-cases (x % g == 0)) [ inl e ↦ rw e (ground arith) | inr e ↦ rw e (ground arith) ]

-- Two multiples of `g` are a whole number of blocks apart.
blocks_between : (a b g : ℕ) → 0 < g → a * g ≤ b * g → b * g ≡ a * g + (b * g - a * g) / g * g
blocks_between a b g h le =
    let ordered : a ≤ b = grind arith in
    let sum : a + (b - a) ≡ b = omega arith in
    let parts : a * g + (b - a) * g ≡ b * g = omega (arith, ap (λ (t : ℕ). t * g) sum) in
    let gap : b * g - a * g ≡ (b - a) * g = omega arith in
    rw (gap, mul-div_cancel (b - a) h) (omega arith)

-- For a positive granularity the rounded span is a whole number of blocks that covers the request, with less than a block to
-- spare on either side.
pub rounded_span :
    (offset length granularity : ℕ)
    → 0 < granularity
    → let start = aligned_start offset granularity in
      let end = aligned_end offset length granularity in
      (start ≤ offset)
      × (offset < start + granularity)
      × (offset + length ≤ end)
      × (end < offset + length + granularity)
      × (end ≡ start + block_count offset length granularity * granularity)
unfolding aligned_start aligned_end block_count negated_floor_div
rounded_span offset length g h =
    let (below, above) = floor_bounds offset g h in
    let (below', above') = ceiling_bounds (offset + length) g h in
    (
      below,
      above,
      below',
      above',
      blocks_between (offset / g) (negated_floor_div (offset + length) g) g h (omega arith),
    )

replicate-AllBytes : (n : ℕ) → AllBytes (replicate n 0)
replicate-AllBytes zero = tt
replicate-AllBytes (suc n) = (omega arith, replicate-AllBytes n)

bit_at-replicate : (n i : ℕ) → bit_at (replicate n 0) i ≡ false
unfolding bit_at
bit_at-replicate n i = rw (get_or-replicate {A = ℕ} n 0 (i / 8)) (ground arith)

-- For a positive granularity the packed bitmap is base64 of bytes that hold one bit for each block of the rounded span, rounded
-- up to whole bytes, and the bit of block `i` is set exactly when a byte of some extent lies in
-- that block.
pub pack_extents_to_bitmap_lem :
    (extents : List Extent) (offset len granularity i : ℕ)
    → 0 < granularity
    → i < block_count offset len granularity
    → (bits : List ℕ) × (b64decode (pack_extents_to_bitmap extents offset len granularity)
        ≡ some bits)
      × (length bits ≡ (block_count offset len granularity + 7) / 8)
      × ((bit_at bits i ≡ true)
          ↔ IsTouched extents (aligned_start offset granularity + i * granularity) granularity)
unfolding pack_extents_to_bitmap pack_bits
pack_extents_to_bitmap_lem extents offset len g i h hi =
    let start = aligned_start offset g in
    let n = block_count offset len g in
    let blank : List ℕ = replicate ((n + 7) / 8) 0 in
    let bytes : AllBytes blank = replicate-AllBytes ((n + 7) / 8) in
    let size : length blank ≡ (n + 7) / 8 = length-replicate {A = ℕ} ((n + 7) / 8) 0 in
    let end : aligned_end offset len g ≡ start + n * g = (rounded_span offset len g h).4 in
    let any = any_overlap_iff start g n h extents in
    rw end (
      mark_extents start (start + n * g) g extents blank,
      b64decode-b64encode _ (mark_extents-AllBytes start g n h extents blank bytes),
      length-mark_extents start g n h extents blank bytes ∙ size,
      rw
          (
            bit_at-mark_extents start g n h extents blank i bytes (omega arith) hi,
            bit_at-replicate ((n + 7) / 8) i,
          )
          (λ t. (any i).0 (ground arith), λ t. ground (arith, (any i).1 t)),
    )
