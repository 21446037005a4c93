-- ===== src/Volume/Clones.antt =====
-- `stat`, `snapshot` and `clone`.
use zfs_live_xapi.Prelude.{
  ℕ, String, ◌<>◌, true, false, not, Option, none, some, List, [], ◌∷◌, ◌++◌, ltb, if◌then◌else◌,
}
use zfs_live_xapi.Prelude.Text.{split, first_or}
use zfs_live_xapi.Effects.{
  World, storage_error, type_error, insert_child_volume, insert_vdi, volume_context, db_context,
  Vdi, M, pure, raise, try_except, within, mint_uuid, ◌>>=◌, ◌>>◌,
}
use zfs_live_xapi.Zfs.{
  format_zvol_name, format_snap_name, at_sign, vol_set_property, get_zvol_used_bytes, take_snapshot,
  clone_snapshot, find_snapshot_by_uuid, vol_get_refreservation, vol_set_thick_refreservation,
  vol_get_zfs_properties_dict,
}
use zfs_live_xapi.Volume.Metabase.{
  SrMeta, sr_dataset, get_volume_uri_prefix, get_format, VdiInfo, db_get_vdi, db_get_vdi_for_volume,
  db_insert_volume, db_do, db_custom_keys, locked, recover_vdi_vsize,
}
use zfs_live_xapi.Volume.Datapath.{Datapath}

-- What `stat` reads of the metabase: the VDI, its size, its name in ZFS and the URI's prefix.
pub record Looked : Type 0 where
  pub vdi : Vdi
  pub vsize : ℕ
  pub uri_prefix : String
  pub vol_name : String
  pub custom_keys : List (String × String)

-- A new clone or snapshot: the VDI that it is of, its size, and its name in ZFS.
pub record Taken : Type 0 where
  pub vdi : Vdi
  pub vsize : ℕ
  pub uri_prefix : String
  pub snap_name : String
  pub parent : String

module _ (w : World) where
  -- The snapshot or the zvol behind a VDI.
  unfoldable pub found_snapshot : String → Option String → M String
  found_snapshot uuid none =
      raise (storage_error "SR_BACKEND_FAILURE_110" ("Snapshot not found" ∷ uuid ∷ []))
  found_snapshot uuid (some name) = pure name

  unfoldable pub backing_name : String → Vdi → M String
  backing_name dataset vdi =
      if vdi.volume.snap
      then find_snapshot_by_uuid w dataset vdi.uuid >>= found_snapshot vdi.uuid
      else pure (format_zvol_name dataset vdi.uuid)

  unfoldable pub stat_rows : String → String → M Looked
  stat_rows dataset key = do
    vdi ← db_get_vdi w key
    vsize ← recover_vdi_vsize w vdi dataset
    uri_prefix ← get_format w vdi.image_type
    vol_name ← backing_name dataset vdi
    custom_keys ← db_custom_keys w vdi.uuid
    pure (record {
      vdi = vdi;
      vsize = vsize;
      uri_prefix = uri_prefix;
      vol_name = vol_name;
      custom_keys = custom_keys;
    })

  -- The parent of a snapshot is the VDI of its parent volume, or itself where there is none.
  unfoldable pub parent_uuid : Vdi → Option Vdi → String
  parent_uuid vdi none = vdi.uuid
  parent_uuid vdi (some parent) = parent.uuid

  unfoldable pub snapshot_base : Vdi → M (String × Option ℕ)
  snapshot_base vdi =
      if vdi.volume.snap
      then (do
        parent ← db_get_vdi_for_volume w vdi.volume.parent_id
        let base : String × Option ℕ = (parent_uuid vdi parent, vdi.volume.parent_id)
        pure base)
      else (let base : String × Option ℕ = (vdi.uuid, some vdi.volume.id) in pure base)

  unfoldable pub stat_in_context : String → SrMeta → String → M Looked
  stat_in_context sr meta key = within w (db_context sr) (stat_rows (sr_dataset meta) key)

  -- A custom key wins over a property of the same name that ZFS reports.
  unfoldable pub stat : String → SrMeta → String → M VdiInfo
  stat sr meta key = do
    l ← within w (volume_context sr "r") (stat_in_context sr meta key)
    reported ← vol_get_zfs_properties_dict w l.vol_name
    used ← get_zvol_used_bytes w l.vol_name
    pure (record {
      uuid = l.vdi.uuid;
      name = l.vdi.name;
      description = l.vdi.description;
      read_write = not l.vdi.volume.snap;
      virtual_size = l.vsize;
      physical_utilisation = used;
      uri = l.uri_prefix <> (get_volume_uri_prefix meta <> l.vdi.uuid);
      keys = l.custom_keys ++ reported;
      sharable = false;
    })

  unfoldable pub snapshot_rows : String → String → String → M Taken
  snapshot_rows dataset key snap_uuid = do
    vdi ← db_get_vdi w key
    vsize ← recover_vdi_vsize w vdi dataset
    uri_prefix ← get_format w vdi.image_type
    base ← snapshot_base vdi
    id ← db_insert_volume w (insert_child_volume base.1 (some vsize) true)
    let snap_name = format_snap_name dataset base.0 snap_uuid
    let clone_path = format_zvol_name dataset snap_uuid
    take_snapshot w snap_name
    clone_snapshot w snap_name clone_path
    vol_set_property w clone_path "readonly" "on"
    db_do w (insert_vdi vdi.name vdi.description snap_uuid id vdi.sharable)
    pure (record {
      vdi = vdi;
      vsize = vsize;
      uri_prefix = uri_prefix;
      snap_name = snap_name;
      parent = base.0;
    })

  -- The change tracking at the end is best effort.
  unfoldable pub snapshot_in_context : Datapath → String → SrMeta → String → String → M Taken
  snapshot_in_context dp sr meta key snap_uuid = do
    t ← locked w sr (snapshot_rows (sr_dataset meta) key snap_uuid)
    try_except (dp.capture_at_snapshot (sr_dataset meta) t.parent snap_uuid) (λ e. pure tt)
    pure t

  unfoldable pub snapshot : Datapath → String → SrMeta → String → M VdiInfo
  snapshot dp sr meta key = do
    snap_uuid ← mint_uuid w
    t ← within w (volume_context sr "w") (snapshot_in_context dp sr meta key snap_uuid)
    used ← get_zvol_used_bytes w t.snap_name
    pure (record {
      uuid = snap_uuid;
      name = t.vdi.name;
      description = t.vdi.description;
      read_write = false;
      virtual_size = t.vsize;
      physical_utilisation = used;
      uri = t.uri_prefix <> (get_volume_uri_prefix meta <> snap_uuid);
      keys = [];
      sharable = false;
    })

  -- The snapshot to clone from and the volume row that it stands for: an implicit one is taken
  -- of a VDI that is no snapshot. Of a snapshot that ZFS does not list there is no name.
  unfoldable pub clone_source : String → Vdi → ℕ → M (Option String × ℕ)
  clone_source dataset vdi vsize =
      if vdi.volume.snap
      then (do
        found ← find_snapshot_by_uuid w dataset vdi.uuid
        let source : Option String × ℕ = (found, vdi.volume.id)
        pure source)
      else (do
        auto_snap_uuid ← mint_uuid w
        auto_snap ← db_insert_volume w (insert_child_volume (some vdi.volume.id) (some vsize) true)
        let snap_name = format_snap_name dataset vdi.uuid auto_snap_uuid
        take_snapshot w snap_name
        let source : Option String × ℕ = (some snap_name, auto_snap)
        pure source)

  -- A thick source gives a thick clone.
  unfoldable pub keep_thick : String → String → M (Unit {0})
  keep_thick source_zvol clone_path = do
    refreservation ← vol_get_refreservation w source_zvol
    if ltb 0 refreservation then vol_set_thick_refreservation w clone_path else pure tt

  -- `None` for a name fails in the command, or in the encoding of the ioctl's argument.
  unfoldable pub name_or_raise : Option String → M String
  name_or_raise none = raise type_error
  name_or_raise (some name) = pure name

  unfoldable pub clone_rows : String → String → String → M Taken
  clone_rows dataset key clone_uuid = do
    vdi ← db_get_vdi w key
    vsize ← recover_vdi_vsize w vdi dataset
    uri_prefix ← get_format w vdi.image_type
    source ← clone_source dataset vdi vsize
    id ← db_insert_volume w (insert_child_volume (some source.1) (some vsize) false)
    snap_name ← name_or_raise source.0
    let clone_path = format_zvol_name dataset clone_uuid
    clone_snapshot w snap_name clone_path
    keep_thick (first_or "" (split at_sign snap_name)) clone_path
    db_do w (insert_vdi vdi.name vdi.description clone_uuid id vdi.sharable)
    pure (record {
      vdi = vdi;
      vsize = vsize;
      uri_prefix = uri_prefix;
      snap_name = snap_name;
      parent = vdi.uuid;
    })

  unfoldable pub clone : String → SrMeta → String → M VdiInfo
  clone sr meta key = do
    clone_uuid ← mint_uuid w
    t ← within w (volume_context sr "w") (locked w sr (clone_rows (sr_dataset meta) key clone_uuid))
    used ← get_zvol_used_bytes w t.snap_name
    pure (record {
      uuid = clone_uuid;
      name = t.vdi.name;
      description = t.vdi.description;
      read_write = true;
      virtual_size = t.vsize;
      physical_utilisation = used;
      uri = t.uri_prefix <> (get_volume_uri_prefix meta <> clone_uuid);
      keys = [];
      sharable = false;
    })
