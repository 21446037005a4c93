-- ===== src/Tests/Bitmaps.antt =====
-- Changed blocks of a VDI with one bitmap that can be fetched and one that cannot.
use zfs_live_xapi.Prelude.{
  ℕ, ◌-◌, ◌/◌, ◌<◌, ◌≡◌, refl, String, true, ◌&&◌, none, some, List, [], ◌∷◌, ltb, inl, inr, arith,
}
use zfs_live_xapi.Prelude.Base64.{b64decode}
use zfs_live_xapi.Nbd.Walk.{
  Server, block_status, none_chunk, fetch_dirty_extents, after, walk_block_status, walk_from,
  walk_chunks, statuses_from, dirty,
}
use zfs_live_xapi.Nbd.Coverage.{IsFaithful, covers, fetch_dirty_extents-covers}
use zfs_live_xapi.ChangedBlocks.Pack.{ChangedBlocks, aligned_start}
use zfs_live_xapi.ChangedBlocks.Bits.{bit_at}
use zfs_live_xapi.ChangedBlocks.Listing.{
  BitmapPayload, payload, descriptor, incomplete, bitmaps, Sockets, list_changed_blocks,
}
use zfs_live_xapi.ChangedBlocks.Complete.{list_changed_blocks_complete}

-- Everything is dirty; the status and the end of the reply are two chunks.
abbrev all_dirty : Server
all_dirty = λ handle offset len. some (block_status 5 ((len, 1) ∷ []) ∷ none_chunk ∷ [])

all_dirty-IsFaithful : IsFaithful (λ x. true) 5 all_dirty
unfolding after
all_dirty-IsFaithful handle offset len le = (
  block_status 5 ((len, 1) ∷ []) ∷ none_chunk ∷ [],
  refl,
  inl (refl, ((λ x p q. refl), tt), refl),
)

abbrev sockets : Sockets
sockets = λ socket export_name bitmap_context. some (all_dirty, 5, 1048576)

abbrev multi : List (String × BitmapPayload)
multi =
    ("cbt-snap-0", payload none incomplete)
    ∷ (
      "cbt-active",
      payload (some 131072) (descriptor "/run/nbd" "vdi" "qemu:dirty-bitmap:cbt-active"),
    )
    ∷ []

fetch_dirty_extents-covers_example :
    (extents : List (ℕ × ℕ)) × (fetch_dirty_extents all_dirty 5 1048576 ≡ some extents)
    × (covers extents 70000 ≡ (ltb 70000 1048576 && true))
fetch_dirty_extents-covers_example =
    fetch_dirty_extents-covers (λ x. true) all_dirty 5 1048576 70000 all_dirty-IsFaithful

list_changed_blocks_complete_example :
    (r : ChangedBlocks) × (bits : List ℕ) × (list_changed_blocks true sockets
        (bitmaps multi)
        (bitmaps multi)
        65536
        200000
      ≡ some r)
    × (0 < r.granularity)
    × (b64decode r.bitmap ≡ some bits)
    × (bit_at bits ((70000 - aligned_start 65536 r.granularity) / r.granularity) ≡ true)
list_changed_blocks_complete_example =
    list_changed_blocks_complete sockets multi "cbt-active" "/run/nbd" "vdi"
      "qemu:dirty-bitmap:cbt-active" (some 131072) all_dirty 5 1048576 65536 200000 70000
      (λ x. true) (inr (inl (refl, refl))) refl all_dirty-IsFaithful (omega arith) (omega arith)
      (omega arith) refl

two_chunks :
    fetch_dirty_extents all_dirty 5 2147483650 ≡ some ((0, 2147483648) ∷ (2147483648, 2) ∷ [])
unfolding fetch_dirty_extents walk_block_status walk_from walk_chunks statuses_from dirty after
two_chunks = refl
