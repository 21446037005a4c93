-- ===== src/ChangedBlocks/Listing.antt =====
-- `Volume.list_changed_blocks` of src/volume/volume.py, with `_resolve_changed_blocks_granularity` and the
-- extents that src/datapath/cbt_consumer.py collects.
use zfs_live_xapi.Prelude.{
  ℕ, max, String, Bool, Option, none, some, List, [], ◌∷◌, ◌++◌, ltb, if◌then◌else◌,
}
use zfs_live_xapi.Nbd.Walk.{Server, fetch_dirty_extents, ◌>>=◌}
use zfs_live_xapi.ChangedBlocks.Pack.{
  Extent, ChangedBlocks, default_cbt_granularity, pack_extents_to_bitmap,
  empty_changed_blocks_result,
}

-- `payload["nbd_export"]`: missing or empty, without one of its keys, or whole: the socket, the name of the
-- export and the context of the bitmap.
pub data NbdExport : Type 0 where
  absent incomplete : NbdExport
  descriptor : String → String → String → NbdExport

-- What was persisted of one bitmap; the granularity is `none` unless it is a natural number.
pub data BitmapPayload : Type 0 where
  not_dict : BitmapPayload
  payload : Option ℕ → NbdExport → BitmapPayload

-- What `load_cbt_metadata` gives: an exception, no dictionary, or the bitmaps by name.
pub data Stored : Type 0 where
  unreadable nothing : Stored
  bitmaps : List (String × BitmapPayload) → Stored

-- The server behind a socket after the negotiation, with the context's number and the size of the
-- export; `none` where it cannot be reached or the negotiation fails.
abbrev pub Sockets : Type 0
Sockets = String → String → String → Option (Server × ℕ × ℕ)

unfoldable pub extract_dirty_extents : Sockets → BitmapPayload → Option (List Extent)
extract_dirty_extents sockets not_dict = some []
extract_dirty_extents sockets (payload g absent) = some []
extract_dirty_extents sockets (payload g incomplete) = none
extract_dirty_extents sockets (payload g (descriptor socket export_name bitmap_context)) = do
  session ← sockets socket export_name bitmap_context
  fetch_dirty_extents session.0 session.1 session.2

-- A bitmap that cannot be fetched is left out.
unfoldable pub extract_each : Sockets → List (String × BitmapPayload) → List (String × List Extent)
extract_each sockets [] = []
extract_each sockets ((name, single) ∷ multi) = elim (extract_dirty_extents sockets single) [
  | none ↦ extract_each sockets multi
  | some extents ↦ (name, extents) ∷ extract_each sockets multi
]

unfoldable pub extract_dirty_extents_for : Sockets → Stored → Option (List (String × List Extent))
extract_dirty_extents_for sockets unreadable = none
extract_dirty_extents_for sockets nothing = some []
extract_dirty_extents_for sockets (bitmaps multi) = some (extract_each sockets multi)

-- `all_extents`
unfoldable pub all_extents : List (String × List Extent) → List Extent
all_extents [] = []
all_extents ((name, extents) ∷ result) = extents ++ all_extents result

unfoldable pub granularities : List (String × BitmapPayload) → List ℕ
granularities [] = []
granularities ((name, not_dict) ∷ multi) = granularities multi
granularities ((name, payload none export) ∷ multi) = granularities multi
granularities ((name, payload (some g) export) ∷ multi) =
    let rest = granularities multi in if ltb 0 g then g ∷ rest else rest

unfoldable pub max_of : ℕ → List ℕ → ℕ
max_of g [] = g
max_of g (g' ∷ gs) = max_of (max g g') gs

unfoldable pub max_or_default : List ℕ → ℕ
max_or_default [] = default_cbt_granularity
max_or_default (g ∷ gs) = max_of g gs

unfoldable pub resolve_changed_blocks_granularity : Stored → Option ℕ
resolve_changed_blocks_granularity unreadable = none
resolve_changed_blocks_granularity nothing = some default_cbt_granularity
resolve_changed_blocks_granularity (bitmaps multi) = some (max_or_default (granularities multi))

unfoldable pub changed_blocks : List Extent → ℕ → ℕ → ℕ → ChangedBlocks
changed_blocks extents offset len granularity = record {
  granularity = granularity;
  bitmap = pack_extents_to_bitmap extents offset len granularity;
}

-- The file of the second VDI is read twice, for the extents and for the granularity. The first VDI's is
-- not read. `is_installed` says whether the datapath plugin can be imported.
unfoldable pub list_changed_blocks : Bool → Sockets → Stored → Stored → ℕ → ℕ → Option ChangedBlocks
list_changed_blocks is_installed sockets stored stored_later offset len =
    if is_installed
    then elim (extract_dirty_extents_for sockets stored) [
      | none ↦ some (empty_changed_blocks_result offset len default_cbt_granularity)
      | some result ↦ do
        granularity ← resolve_changed_blocks_granularity stored_later
        some (changed_blocks (all_extents result) offset len granularity)
    ]
    else some (empty_changed_blocks_result offset len default_cbt_granularity)
