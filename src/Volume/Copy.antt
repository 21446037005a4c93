-- ===== src/Volume/Copy.antt =====
-- `copy`, in four phases.
use zfs_live_xapi.Prelude.{
  ℕ, String, ◌<>◌, Bool, true, false, Option, none, some, [], ltb, str_eq, if◌then◌else◌,
}
use zfs_live_xapi.Prelude.Text.{split, first_or}
use zfs_live_xapi.Effects.{
  World, insert_new_volume, insert_vdi, update_volume_vsize, volume_context, poll_lock, db_context,
  unimplemented, Vdi, M, pure, raise, try_except, within, mint_uuid, ◌>>=◌, ◌>>◌,
}
use zfs_live_xapi.Zfs.{
  format_zvol_name, format_snap_name, at_sign, vol_exists, get_zvol_used_bytes, destroy_zvol,
  take_snapshot, clone_snapshot, vol_get_refreservation, vol_send_receive,
  vol_set_thick_refreservation,
}
use zfs_live_xapi.Volume.Metabase.{
  SrMeta, sr_dataset, get_volume_uri_prefix, get_format, VdiInfo, db_get_vdi, db_insert_volume,
  db_do, locked, recover_vdi_vsize,
}

-- The source's snapshot for the copy, the two volumes, and what the metabase says of the source.
pub record CopyNames : Type 0 where
  pub snap_name : String
  pub src_vol : String
  pub dest_vol : String
  pub recv_snap : String
  pub dest_uuid : String
  pub same_pool : Bool

module _ (w : World) where
  -- `try: m except Exception: pass`
  unfoldable pub swallow : M (Unit {0}) → M (Unit {0})
  swallow m = try_except m (λ e. pure tt)

  -- `except Exception: cleanup; raise`
  unfoldable pub on_error : M (Unit {0}) → M (Unit {0}) → M (Unit {0})
  on_error m cleanup = try_except m (λ e. cleanup >> raise e)

  unfoldable pub remove_if_exists : String → M (Unit {0})
  remove_if_exists path = do
    found ← vol_exists w path
    if found then destroy_zvol w path else pure tt

  -- Phase 1: the source's row, and its snapshot under the source's lock.
  unfoldable pub copy_source_row : String → String → M (Vdi × ℕ)
  copy_source_row dataset key = do
    vdi ← db_get_vdi w key
    vsize ← recover_vdi_vsize w vdi dataset
    let row : Vdi × ℕ = (vdi, vsize)
    pure row

  unfoldable pub copy_take : String → SrMeta → String → String → M (Vdi × ℕ)
  copy_take sr meta key snap_name = do
    row ← within w (db_context sr) (copy_source_row (sr_dataset meta) key)
    take_snapshot w snap_name
    pure row

  -- Phase 2: the replica, thick if the source is.
  unfoldable pub replicate_volume : CopyNames → Bool → M (Unit {0})
  replicate_volume n src_thick = do
    if n.same_pool
        then clone_snapshot w n.snap_name n.dest_vol
        else vol_send_receive w n.snap_name n.dest_vol
    if src_thick then vol_set_thick_refreservation w n.dest_vol else pure tt

  unfoldable pub undo_replicate : CopyNames → M (Unit {0})
  undo_replicate n = swallow (remove_if_exists n.dest_vol) >> swallow (destroy_zvol w n.snap_name)

  -- Phase 3: across pools no snapshot may remain.
  unfoldable pub drop_snapshots : CopyNames → M (Unit {0})
  drop_snapshots n = destroy_zvol w n.snap_name >> destroy_zvol w n.recv_snap

  unfoldable pub destroy_if_parent : String → String → M (Unit {0})
  destroy_if_parent parent snap = do
    found ← vol_exists w parent
    if found then destroy_zvol w snap else pure tt

  unfoldable pub undo_drop : CopyNames → M (Unit {0})
  undo_drop n = do
    swallow (remove_if_exists n.dest_vol)
    swallow (destroy_if_parent (first_or "" (split at_sign n.snap_name)) n.snap_name)
    swallow (destroy_if_parent (first_or "" (split at_sign n.recv_snap)) n.recv_snap)

  unfoldable pub clean_up : CopyNames → M (Unit {0})
  clean_up n = if n.same_pool then pure tt else on_error (drop_snapshots n) (undo_drop n)

  -- Phase 4: the rows of the destination.
  unfoldable pub register_copy : String → Vdi → ℕ → M (Unit {0})
  register_copy dest_uuid vdi vsize = do
    id ← db_insert_volume w (insert_new_volume vsize vdi.image_type)
    db_do w (insert_vdi vdi.name vdi.description dest_uuid id vdi.sharable)
    db_do w (update_volume_vsize id (some vsize))

  unfoldable pub copy_names : SrMeta → SrMeta → String → String → String → CopyNames
  copy_names src_meta dest_meta key dest_uuid snap_token =
      let dest_vol = format_zvol_name (sr_dataset dest_meta) dest_uuid in
      record {
        snap_name = format_snap_name (sr_dataset src_meta) key snap_token;
        src_vol = format_zvol_name (sr_dataset src_meta) key;
        dest_vol = dest_vol;
        recv_snap = dest_vol <> ("@" <> snap_token);
        dest_uuid = dest_uuid;
        same_pool = str_eq src_meta.zpool dest_meta.zpool;
      }

  unfoldable pub is_thick : String → M Bool
  is_thick vol_name = do
    refreservation ← vol_get_refreservation w vol_name
    pure (ltb 0 refreservation)

  unfoldable pub copy_between : String → String → SrMeta → SrMeta → String → CopyNames → M VdiInfo
  copy_between sr dest_sr src_meta dest_meta key n = do
    row ←
        within w (volume_context sr "w")
          (within w (poll_lock sr) (copy_take sr src_meta key n.snap_name))
    src_thick ← is_thick n.src_vol
    on_error (replicate_volume n src_thick) (undo_replicate n)
    clean_up n
    within w (volume_context dest_sr "w") (locked w dest_sr (register_copy n.dest_uuid row.0 row.1))
    uri_prefix ← get_format w row.0.image_type
    used ← get_zvol_used_bytes w n.dest_vol
    pure (record {
      uuid = n.dest_uuid;
      name = row.0.name;
      description = row.0.description;
      read_write = true;
      virtual_size = row.1;
      physical_utilisation = used;
      uri = uri_prefix <> (get_volume_uri_prefix dest_meta <> n.dest_uuid);
      keys = [];
      sharable = false;
    })

  -- `none` where the destination's metadata cannot be read or is not that of a zfs-live SR.
  unfoldable pub copy : String → String → SrMeta → Option SrMeta → String → M VdiInfo
  copy sr dest_sr src_meta none key = raise unimplemented
  copy sr dest_sr src_meta (some dest_meta) key = do
    dest_uuid ← mint_uuid w
    snap_token ← mint_uuid w
    copy_between sr dest_sr src_meta dest_meta key
        (copy_names src_meta dest_meta key dest_uuid snap_token)
