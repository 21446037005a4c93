-- ===== src/ChangedBlocks/Complete.antt =====
-- No changed byte is missed by `list_changed_blocks`.
use zfs_live_xapi.Prelude.{
  ℕ, ◌+◌, ◌-◌, ◌*◌, ◌/◌, ◌<◌, ◌≤◌, ◌≡◌, refl, ap, ◌∙◌, max, String, Bool, true, ◌&&◌, ◌||◌, Option,
  none, some, List, [], ◌∷◌, ◌++◌, ltb, leb, arith, ◌⊎◌, inl, inr, Bool-cases, Option-cases,
  if◌then◌else◌,
}
use native.Mathlib.Nat.{div-add-mod, mod-lt}
use zfs_live_xapi.Prelude.Base64.{b64decode}
use zfs_live_xapi.Nbd.Walk.{Server}
use zfs_live_xapi.Nbd.Coverage.{covers, IsFaithful, fetch_dirty_extents-covers, bind-some}
use zfs_live_xapi.ChangedBlocks.Pack.{Extent, ChangedBlocks, aligned_start, block_count}
use zfs_live_xapi.ChangedBlocks.Bits.{bit_at}
use zfs_live_xapi.ChangedBlocks.Overlap.{IsTouched, pack_extents_to_bitmap_lem, rounded_span}
use zfs_live_xapi.ChangedBlocks.Listing.{
  descriptor, BitmapPayload, payload, not_dict, bitmaps, Sockets, extract_dirty_extents,
  extract_each, extract_dirty_extents_for, all_extents, granularities, max_of, max_or_default,
  resolve_changed_blocks_granularity, changed_blocks, list_changed_blocks,
}

covers-++ : (a b : List Extent) (x : ℕ) → covers (a ++ b) x ≡ (covers a x || covers b x)
covers-++ [] b x = refl
covers-++ ((o, l) ∷ a) b x = ground (arith, covers-++ a b x)

covers-IsTouched :
    (extents : List Extent) (x from g : ℕ)
    → covers extents x ≡ true
    → from ≤ x
    → x < from + g
    → IsTouched extents from g
covers-IsTouched [] x from g c p q = cc
covers-IsTouched ((o, l) ∷ extents) x from g c p q = elim (Bool-cases (leb o x && ltb x (o + l))) [
  | inl e ↦ inl (x, ground arith, ground arith, p, q)
  | inr e ↦ inr (covers-IsTouched extents x from g (ground arith) p q)
]

-- An entry of the dictionary.
abbrev pub IsIn : String → BitmapPayload → List (String × BitmapPayload) → Type 0
IsIn name single [] = ⊥
IsIn name single ((name', single') ∷ multi) =
    ((name' ≡ name) × (single' ≡ single)) ⊎ IsIn name single multi

module _ (sockets : Sockets) (x : ℕ) where
  all_extents-here :
      (name : String) (single : BitmapPayload) (multi : List (String × BitmapPayload))
      (extents : List Extent)
      → extract_dirty_extents sockets single ≡ some extents
      → all_extents (extract_each sockets ((name, single) ∷ multi))
        ≡ extents ++ all_extents (extract_each sockets multi)
  unfolding all_extents extract_each
  all_extents-here name single multi extents e =
      ap
        (λ o. all_extents (elim o as (λ _. List (String × List Extent)) [
          | none ↦ extract_each sockets multi
          | some es ↦ (name, es) ∷ extract_each sockets multi
        ]))
        e

  all_extents-none :
      (name : String) (single : BitmapPayload) (multi : List (String × BitmapPayload))
      → extract_dirty_extents sockets single ≡ none
      → all_extents (extract_each sockets ((name, single) ∷ multi))
        ≡ all_extents (extract_each sockets multi)
  unfolding all_extents extract_each
  all_extents-none name single multi e =
      ap
        (λ o. all_extents (elim o as (λ _. List (String × List Extent)) [
          | none ↦ extract_each sockets multi
          | some es ↦ (name, es) ∷ extract_each sockets multi
        ]))
        e

  extracted-covers :
      (name : String) (single : BitmapPayload) (extents : List Extent)
      (multi : List (String × BitmapPayload))
      → extract_dirty_extents sockets single ≡ some extents
      → covers extents x ≡ true
      → IsIn name single multi
      → covers (all_extents (extract_each sockets multi)) x ≡ true
  extracted-covers name single extents [] e c i = absurd i
  extracted-covers name single extents ((name', single') ∷ multi) e c (inl (same_name, same)) =
      let here =
        all_extents-here name' single' multi extents
          (ap (extract_dirty_extents sockets) same ∙ e) in
      rw (here, covers-++ extents (all_extents (extract_each sockets multi)) x) (ground arith)
  extracted-covers name single extents ((name', single') ∷ multi) e c (inr later) =
      let rest = extracted-covers name single extents multi e c later in
      elim (Option-cases (extract_dirty_extents sockets single')) [
        | inl failed ↦ rw (all_extents-none name' single' multi failed) rest
        | inr (es, found) ↦
            rw
              (
                all_extents-here name' single' multi es found,
                covers-++ es (all_extents (extract_each sockets multi)) x,
              )
              (ground arith)
      ]

max_of-le : (g : ℕ) (gs : List ℕ) → g ≤ max_of g gs
unfolding max_of
max_of-le g [] = omega arith
max_of-le g (g' ∷ gs) = omega (arith, max_of-le (max g g') gs)

picked-positive :
    (g : ℕ) (gs : List ℕ)
    → 0 < max_or_default gs
    → 0 < max_or_default (if ltb 0 g then g ∷ gs else gs)
unfolding max_or_default
picked-positive g gs h = elim (Bool-cases (ltb 0 g)) [
  | inl e ↦ let le = max_of-le g gs in rw e (ground arith)
  | inr e ↦ rw e h
]

default-positive : 0 < max_or_default []
unfolding max_or_default
default-positive = omega arith

granularity-positive :
    (multi : List (String × BitmapPayload)) → 0 < max_or_default (granularities multi)
unfolding granularities
granularity-positive [] = default-positive
granularity-positive ((name, not_dict) ∷ multi) = granularity-positive multi
granularity-positive ((name, payload none export) ∷ multi) = granularity-positive multi
granularity-positive ((name, payload (some g) export) ∷ multi) =
    picked-positive g (granularities multi) (granularity-positive multi)

block_of :
    (x start g n : ℕ)
    → 0 < g
    → start ≤ x
    → x < start + n * g
    → ((x - start) / g < n)
      × (start + (x - start) / g * g ≤ x)
      × (x < start + (x - start) / g * g + g)
block_of x start g n g_pos above below =
    let parts = div-add-mod (x - start) g in
    let rest = mod-lt (x - start) g_pos in (grind arith, omega arith, omega arith)

-- A byte of the requested extent that one persisted bitmap of the second VDI has as dirty is reported: the
-- call returns, with a positive granularity, and the bit of the block that holds the byte is set; where
-- that bitmap's server is reached and describes all the bytes that it is asked about, whatever the other
-- bitmaps' servers do, and the file is not changed between its two readings.
pub list_changed_blocks_complete :
    (sockets : Sockets) (multi : List (String × BitmapPayload))
    (name socket export_name bitmap_context : String) (g : Option ℕ) (reply : Server)
    (context_id export_size offset len x : ℕ) (is_dirty : ℕ → Bool)
    → IsIn name (payload g (descriptor socket export_name bitmap_context)) multi
    → sockets socket export_name bitmap_context ≡ some (reply, context_id, export_size)
    → IsFaithful is_dirty context_id reply
    → offset ≤ x
    → x < offset + len
    → x < export_size
    → is_dirty x ≡ true
    → (r : ChangedBlocks) × (bits : List ℕ) × (list_changed_blocks true sockets
          (bitmaps multi)
          (bitmaps multi)
          offset
          len
        ≡ some r)
      × (0 < r.granularity)
      × (b64decode r.bitmap ≡ some bits)
      × (bit_at bits ((x - aligned_start offset r.granularity) / r.granularity) ≡ true)
unfolding list_changed_blocks extract_dirty_extents_for resolve_changed_blocks_granularity
    changed_blocks extract_dirty_extents
list_changed_blocks_complete sockets multi name socket export_name bitmap_context g reply context_id
      export_size offset len x is_dirty present reached faithful above below inside marked =
    let gr = max_or_default (granularities multi) in
    let pos = granularity-positive multi in
    let start = aligned_start offset gr in
    let (lower, _, upper, _, whole) = rounded_span offset len gr pos in
    let (at_most, from, to) =
      block_of x start gr (block_count offset len gr) pos (omega arith) (omega arith) in
    let (extents, fetched, covered) =
      fetch_dirty_extents-covers is_dirty reply context_id export_size x faithful in
    let all = all_extents (extract_each sockets multi) in
    let found =
      extracted-covers sockets x name (payload g (descriptor socket export_name bitmap_context))
        extents multi (bind-some _ reached ∙ fetched) (ground arith) present in
    let (bits, decoded, _, bit) =
      pack_extents_to_bitmap_lem all offset len gr ((x - start) / gr) pos at_most in
    (
      changed_blocks all offset len gr,
      bits,
      refl,
      pos,
      decoded,
      bit.1 (covers-IsTouched all x _ gr found from to),
    )
