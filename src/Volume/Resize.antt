-- ===== src/Volume/Resize.antt =====
-- `resize`, in two metabase contexts.
use zfs_live_xapi.Prelude.{ℕ, String, none, some, [], ◌∷◌, ltb, if◌then◌else◌}
use zfs_live_xapi.Effects.{
  World, storage_error, update_volume_vsize, volume_context, db_context, Vdi, M, pure, raise,
  within, ◌>>=◌, ◌>>◌,
}
use zfs_live_xapi.Zfs.{
  format_zvol_name, get_zvol_size_bytes, resize_zvol, vol_sync_thick_refreservation,
}
use zfs_live_xapi.Volume.Metabase.{SrMeta, sr_dataset, db_get_vdi, db_do, recover_vdi_vsize}

module _ (w : World) where
  unfoldable pub no_shrinking : ℕ → ℕ → M (Unit {0})
  no_shrinking vsize new_size =
      if ltb new_size vsize
      then raise (
          storage_error "SR_BACKEND_FAILURE_79" ("VDI Invalid size" ∷ "shrinking not allowed" ∷ []))
      else pure tt

  -- The first metabase context of `resize`: the new size may not be smaller, and the row's size is
  -- cleared before ZFS is asked.
  unfoldable pub resize_check : String → String → ℕ → M Vdi
  resize_check dataset key new_size = do
    vdi ← db_get_vdi w key
    vsize ← recover_vdi_vsize w vdi dataset
    no_shrinking vsize new_size
    db_do w (update_volume_vsize vdi.volume.id none)
    pure vdi

  unfoldable pub resize_apply : String → Vdi → ℕ → M (Unit {0})
  resize_apply dataset vdi new_size = do
    let vol_name = format_zvol_name dataset vdi.uuid
    resize_zvol w vol_name new_size
    vsize ← get_zvol_size_bytes w vol_name
    db_do w (update_volume_vsize vdi.volume.id (some vsize))
    vol_sync_thick_refreservation w vol_name

  unfoldable pub resize_in_context : String → SrMeta → String → ℕ → M (Unit {0})
  resize_in_context sr meta key new_size = do
    vdi ← within w (db_context sr) (resize_check (sr_dataset meta) key new_size)
    within w (db_context sr) (resize_apply (sr_dataset meta) vdi new_size)

  unfoldable pub resize : String → SrMeta → String → ℕ → M (Unit {0})
  resize sr meta key new_size =
      within w (volume_context sr "r") (resize_in_context sr meta key new_size)
