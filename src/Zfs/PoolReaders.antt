-- ===== src/Zfs/PoolReaders.antt =====
-- The helpers on pools, datasets and the SR marker that only ask.
use zfs_live_xapi.Prelude.{String, Bool, List, [], ◌∷◌, refl}
use zfs_live_xapi.Effects.{World, M}
use zfs_live_xapi.Effects.Kinds.{IsRead}
use zfs_live_xapi.Effects.Triple.{Anything, raise-Does, then-Does, try_any-Does, if_any-Does}
use zfs_live_xapi.Zfs.Kinds.{
  run_zfs-Does, run_zfs_command_once, stdout_of-Does, int_of-Does, int_or_raise-Does,
}
use zfs_live_xapi.Zfs.Readers.{IsReader, pure-IsReader}
use zfs_live_xapi.Zfs.Datasets.{dataset_exists, false_on_internal_error}
use zfs_live_xapi.Zfs.Zvols.{dataset_get_available}
use zfs_live_xapi.Zfs.Orphans.{none_on_internal_error}
use zfs_live_xapi.Zfs.Pools.{
  get_dataset_mountpoint, pool_is_imported, importable_pool, pool_exists, dataset_get_used,
  dataset_get_quota, dataset_get_sr_marker, dataset_is_sr, srs_below, dataset_find_child_srs,
  pool_get_ashift,
}

module _ (w : World) where
  false_on_internal_error-IsReader :
      (m : M Bool) → IsReader m → IsReader (false_on_internal_error w m)
  unfolding false_on_internal_error
  false_on_internal_error-IsReader m d =
      try_any-Does IsRead _ _ d
        λ e. if_any-Does IsRead Anything _ _ _ (pure-IsReader _) (raise-Does IsRead Anything e)

  none_on_internal_error-IsReader :
      (m : M (List String)) → IsReader m → IsReader (none_on_internal_error w m)
  unfolding none_on_internal_error
  none_on_internal_error-IsReader m d =
      try_any-Does IsRead _ _ d
        λ e. if_any-Does IsRead Anything _ _ _ (pure-IsReader _) (raise-Does IsRead Anything e)

  pub dataset_exists-IsReader : (name : String) → IsReader (dataset_exists w name)
  unfolding dataset_exists
  dataset_exists-IsReader name =
      false_on_internal_error-IsReader _
        (then-Does IsRead Anything _ _ (run_zfs-Does IsRead w _ refl) (λ out. pure-IsReader _))

  pub pool_is_imported-IsReader : (name : String) → IsReader (pool_is_imported w name)
  unfolding pool_is_imported
  pool_is_imported-IsReader name =
      false_on_internal_error-IsReader _
        (then-Does IsRead Anything _ _ (run_zfs-Does IsRead w _ refl) (λ out. pure-IsReader _))

  importable_pool-IsReader : (name : String) → IsReader (importable_pool w name)
  unfolding importable_pool
  importable_pool-IsReader name = false_on_internal_error-IsReader _ (
      then-Does IsRead Anything _ _ (run_zfs_command_once IsRead w _ _ _ refl)
        λ r. then-Does IsRead Anything _ _ (stdout_of-Does IsRead w r) (λ out. pure-IsReader _))

  pub pool_exists-IsReader : (name : String) → IsReader (pool_exists w name)
  unfolding pool_exists
  pool_exists-IsReader name =
      then-Does IsRead Anything _ _ (pool_is_imported-IsReader name)
        λ b. if_any-Does IsRead Anything _ _ _ (pure-IsReader _) (importable_pool-IsReader name)

  pub get_dataset_mountpoint-IsReader : (name : String) → IsReader (get_dataset_mountpoint w name)
  unfolding get_dataset_mountpoint
  get_dataset_mountpoint-IsReader name =
      then-Does IsRead Anything _ _ (run_zfs-Does IsRead w _ refl) (λ out. pure-IsReader _)

  pub dataset_get_available-IsReader : (name : String) → IsReader (dataset_get_available w name)
  unfolding dataset_get_available
  dataset_get_available-IsReader name = int_of-Does IsRead w _ refl

  pub dataset_get_used-IsReader : (name : String) → IsReader (dataset_get_used w name)
  unfolding dataset_get_used
  dataset_get_used-IsReader name = int_of-Does IsRead w _ refl

  pub pool_get_ashift-IsReader : (name : String) → IsReader (pool_get_ashift w name)
  unfolding pool_get_ashift
  pool_get_ashift-IsReader name = int_of-Does IsRead w _ refl

  pub dataset_get_quota-IsReader : (name : String) → IsReader (dataset_get_quota w name)
  unfolding dataset_get_quota
  dataset_get_quota-IsReader name =
      then-Does IsRead Anything _ _ (run_zfs-Does IsRead w _ refl)
        λ out. if_any-Does IsRead Anything _ _ _ (pure-IsReader _) (int_or_raise-Does IsRead w _)

  pub dataset_get_sr_marker-IsReader : (name : String) → IsReader (dataset_get_sr_marker w name)
  unfolding dataset_get_sr_marker
  dataset_get_sr_marker-IsReader name =
      try_any-Does IsRead _ _
        (then-Does IsRead Anything _ _ (run_zfs-Does IsRead w _ refl) (λ out. pure-IsReader _))
        λ e. if_any-Does IsRead Anything _ _ _ (pure-IsReader _) (raise-Does IsRead Anything e)

  pub dataset_is_sr-IsReader : (name : String) → IsReader (dataset_is_sr w name)
  unfolding dataset_is_sr
  dataset_is_sr-IsReader name =
      then-Does IsRead Anything _ _ (dataset_get_sr_marker-IsReader name) (λ m. pure-IsReader _)

  srs_below-IsReader :
      (prefix : String) (datasets : List String) → IsReader (srs_below w prefix datasets)
  unfolding srs_below
  srs_below-IsReader prefix [] = pure-IsReader _
  srs_below-IsReader prefix (ds ∷ datasets) =
      then-Does IsRead Anything _ _
        (if_any-Does IsRead Anything _ _ _ (dataset_is_sr-IsReader ds) (pure-IsReader _))
        λ marked.
          then-Does IsRead Anything _ _ (srs_below-IsReader prefix datasets)
            (λ rest. pure-IsReader _)

  pub dataset_find_child_srs-IsReader :
      (pool path : String) → IsReader (dataset_find_child_srs w pool path)
  unfolding dataset_find_child_srs
  dataset_find_child_srs-IsReader pool path =
      none_on_internal_error-IsReader _ (
        then-Does IsRead Anything _ _ (run_zfs-Does IsRead w _ refl)
          (λ out. srs_below-IsReader _ _))
