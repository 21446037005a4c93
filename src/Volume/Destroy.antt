-- ===== src/Volume/Destroy.antt =====
-- `destroy`, for a snapshot and for a volume with snapshots of its own.
use zfs_live_xapi.Prelude.{
  ℕ, String, ◌<>◌, false, Option, none, some, List, [], ◌∷◌, str_eq, if◌then◌else◌,
}
use zfs_live_xapi.Effects.{
  World, storage_error, insert_child_volume, insert_vdi, delete_vdi, volume_destroy, delete_volume,
  volume_context, Vdi, M, pure, raise, try_except, within, mint_uuid, ◌>>=◌, ◌>>◌,
}
use zfs_live_xapi.Zfs.{
  format_zvol_name, vol_exists, destroy_zvol, promote_clone, clone_snapshot, find_snapshot_by_uuid,
  list_zvol_snapshots, find_snapshot_clones, log_pool_tree,
}
use zfs_live_xapi.Volume.Metabase.{
  SrMeta, sr_dataset, db_get_vdi, db_insert_volume, db_do, locked, recover_vdi_vsize,
}
use zfs_live_xapi.Volume.Datapath.{Datapath}

module _ (w : World) where
  -- The clones of a snapshot but its own materialised one.
  unfoldable pub without : String → List String → List String
  without path [] = []
  without path (dep ∷ deps) =
      let rest = without path deps in if str_eq dep path then rest else dep ∷ rest

  unfoldable pub no_dependents : String → List String → M (Unit {0})
  no_dependents snap_name [] = pure tt
  no_dependents snap_name (dep ∷ deps) =
      raise (
        storage_error "SR_BACKEND_FAILURE_111" ("Snapshot has dependents" ∷ snap_name ∷ dep ∷ deps))

  unfoldable pub destroy_if_exists : String → M (Unit {0})
  destroy_if_exists path = do
    found ← vol_exists w path
    if found then destroy_zvol w path else pure tt

  unfoldable pub destroy_snapshot_named : String → String → Option String → M (Unit {0})
  destroy_snapshot_named dataset uuid none =
      raise (storage_error "SR_BACKEND_FAILURE_110" ("Snapshot not found" ∷ dataset ∷ uuid ∷ []))
  destroy_snapshot_named dataset uuid (some snap_name) = do
    let clone_path = format_zvol_name dataset uuid
    deps ← find_snapshot_clones w snap_name
    no_dependents snap_name (without clone_path deps)
    destroy_if_exists clone_path
    destroy_zvol w snap_name

  unfoldable pub destroy_snapshot : String → String → M (Unit {0})
  destroy_snapshot dataset uuid = do
    snap_name ← find_snapshot_by_uuid w dataset uuid
    log_pool_tree w dataset
    destroy_snapshot_named dataset uuid snap_name

  -- A clone of the snapshot: the first that there is, or a new one, registered as a VDI.
  unfoldable pub clone_for : String → Vdi → ℕ → String → List String → M String
  clone_for dataset vdi vsize vol_snap (dep ∷ deps) = pure dep
  clone_for dataset vdi vsize vol_snap [] = do
    id ← db_insert_volume w (insert_child_volume (some vdi.volume.id) (some vsize) false)
    clone_uuid ← mint_uuid w
    db_do w (insert_vdi "clone" "" clone_uuid id false)
    let clone_path = format_zvol_name dataset clone_uuid
    clone_snapshot w vol_snap clone_path
    pure clone_path

  unfoldable pub clone_each : String → Vdi → ℕ → List String → M (List String)
  clone_each dataset vdi vsize [] = pure []
  clone_each dataset vdi vsize (vol_snap ∷ vol_snaps) = do
    deps ← find_snapshot_clones w vol_snap
    dep ← clone_for dataset vdi vsize vol_snap deps
    rest ← clone_each dataset vdi vsize vol_snaps
    pure (dep ∷ rest)

  unfoldable pub promote_each : List String → M (Unit {0})
  promote_each [] = pure tt
  promote_each (dep ∷ deps) = promote_clone w dep >> promote_each deps

  unfoldable pub promote_all : String → List String → M (Unit {0})
  promote_all dataset [] = pure tt
  promote_all dataset (dep ∷ deps) = promote_each (dep ∷ deps) >> log_pool_tree w dataset

  unfoldable pub destroy_volume : String → Vdi → ℕ → M (Unit {0})
  destroy_volume dataset vdi vsize = do
    let vol_name = format_zvol_name dataset vdi.uuid
    log_pool_tree w dataset
    snaps ← list_zvol_snapshots w vol_name
    deps ← clone_each dataset vdi vsize snaps
    promote_all dataset deps
    destroy_zvol w vol_name

  unfoldable pub destroy_rows : String → String → M (Unit {0})
  destroy_rows dataset key = do
    vdi ← db_get_vdi w key
    vsize ← recover_vdi_vsize w vdi dataset
    if vdi.volume.snap then destroy_snapshot dataset vdi.uuid else destroy_volume dataset vdi vsize
    db_do w (delete_vdi key)
    db_do w (volume_destroy vdi.volume.id)
    db_do w (delete_volume vdi.volume.id)

  -- The file of the legacy key goes too; a failure there is logged only.
  unfoldable pub remove_cbt : Datapath → String → String → String → M (Unit {0})
  remove_cbt dp sr dataset key =
      if dp.is_installed
      then (do
        dp.remove_cbt_metadata ("file://" <> sr) key
        try_except
            (dp.remove_cbt_metadata ("file://" <> sr)
              (dp.device_key ("/dev/zvol/" <> (dataset <> ("/" <> key)))))
            (λ e. pure tt))
      else pure tt

  unfoldable pub destroy : Datapath → String → SrMeta → String → M (Unit {0})
  destroy dp sr meta key = do
    within w (volume_context sr "w") (locked w sr (destroy_rows (sr_dataset meta) key))
    remove_cbt dp sr (sr_dataset meta) key
