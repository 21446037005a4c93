-- ===== src/Sr/Attach.antt =====
-- `SR.attach`, `SR.detach`, `SR.destroy` and `SR.stat`.
use zfs_live_xapi.Prelude.{
  ℕ, ◌+◌, String, true, Option, none, some, List, [], ◌∷◌, ltb, str_eq, if◌then◌else◌,
}
use zfs_live_xapi.Effects.{
  World, sr_not_attached, rmdir, ok, M, pure, raise, try_except, look, write_file, ◌>>=◌, ◌>>◌,
}
use zfs_live_xapi.Zfs.{
  dataset_path, dataset_exists, dataset_destroy, dataset_is_mounted, dataset_unmount,
  dataset_get_available, dataset_list_zvols, vol_get_zfs_properties_dict, get_dataset_mountpoint,
  pool_is_imported, dataset_get_used, dataset_get_quota, dataset_get_sr_marker,
}
use zfs_live_xapi.Sr.Config.{Dict, lookup}
use zfs_live_xapi.Sr.Metadata.{get_default, get_sr_metadata, or_key_error, get_sr_dataset_path}
use zfs_live_xapi.Sr.Features.{
  probe_features, cache_features, drop_features, format_capability_summary,
}
use zfs_live_xapi.Sr.Create.{refuse, ensure_mounted}

-- The dictionary that `stat` returns, without its constant fields; `health` is its detail.
pub record SrStat : Type 0 where
  pub sr : String
  pub name : String
  pub description : String
  pub total_space : ℕ
  pub free_space : ℕ
  pub uuid : String
  pub health : String

-- A quota is the total where there is one.
unfoldable pub total_of : ℕ → ℕ → ℕ → ℕ
total_of quota used_space free_space = if ltb 0 quota then quota else used_space + free_space

module _ (w : World) where
  -- `except Exception`: what fails in here is logged only.
  unfoldable pub best_effort : M (Unit {0}) → M (Unit {0})
  best_effort m = try_except m (λ e. pure tt)

  unfoldable pub log_properties : List String → M (Unit {0})
  log_properties [] = pure tt
  log_properties (zvol_name ∷ zvols) =
      vol_get_zfs_properties_dict w zvol_name >> log_properties zvols

  unfoldable pub scan_properties : String → M (Unit {0})
  scan_properties dataset = best_effort (dataset_list_zvols w dataset >>= log_properties)

  unfoldable pub cache_probe : String → Option String → M (Unit {0})
  cache_probe pool_name none = pure tt
  cache_probe pool_name (some sr_uuid) = do
    features ← probe_features w pool_name
    cache_features w sr_uuid features

  unfoldable pub require_attachable : String → String → M (Unit {0})
  require_attachable pool_name dataset = do
    imported ← pool_is_imported w pool_name
    if imported
        then pure tt
        else refuse w "SR_BACKEND_FAILURE_107" ("ZFS pool not imported" ∷ pool_name ∷ [])
    found ← dataset_exists w dataset
    if found
        then pure tt
        else refuse w "SR_BACKEND_FAILURE_107" ("Dataset not found" ∷ dataset ∷ [])

  unfoldable pub attach : Dict → M String
  attach configuration = do
    pool_name ← or_key_error w (lookup "zpool" configuration)
    dataset_name ← or_key_error w (lookup "dataset" configuration)
    let dataset = dataset_path pool_name dataset_name
    require_attachable pool_name dataset
    mountpoint ← get_dataset_mountpoint w dataset
    ensure_mounted w dataset
    scan_properties dataset
    best_effort (dataset_get_sr_marker w dataset >>= cache_probe pool_name)
    pure mountpoint

  unfoldable pub drop_marked : Option String → M (Unit {0})
  drop_marked none = pure tt
  drop_marked (some sr_uuid) = drop_features w sr_uuid

  unfoldable pub detach : String → M (Unit {0})
  detach sr = do
    meta ← get_sr_metadata w sr
    dataset ← get_sr_dataset_path w meta
    best_effort (dataset_get_sr_marker w dataset >>= drop_marked)
    mounted ← dataset_is_mounted w dataset
    if mounted then dataset_unmount w dataset >> pure tt else pure tt

  -- An empty directory that is left goes too.
  unfoldable pub remove_mount_point : String → M (Unit {0})
  remove_mount_point sr = do
    there ← look w sr (λ h. ok (w.is_dir h sr))
    if there
        then (do
          empty ← look w sr (λ h. ok (w.is_empty_dir h sr))
          if empty then write_file w (rmdir sr) else pure tt)
        else pure tt

  unfoldable pub destroy_dataset : String → String → String → M (Unit {0})
  destroy_dataset sr pool_name dataset_name =
      if str_eq dataset_name ""
      then refuse w "SR_BACKEND_FAILURE_109" ("Cannot destroy a pool-root SR" ∷ pool_name ∷ [])
      else (dataset_destroy w (dataset_path pool_name dataset_name) true >> remove_mount_point sr)

  unfoldable pub destroy : String → M (Unit {0})
  destroy sr = do
    meta ← get_sr_metadata w sr
    pool_name ← or_key_error w (lookup "zpool" meta)
    destroy_dataset sr pool_name (get_default (lookup "dataset" meta) "")

  unfoldable pub stat_attached : String → M SrStat
  stat_attached sr = do
    meta ← get_sr_metadata w sr
    dataset ← get_sr_dataset_path w meta
    used_space ← dataset_get_used w dataset
    free_space ← dataset_get_available w dataset
    quota ← dataset_get_quota w dataset
    health ← format_capability_summary w (get_default (lookup "uuid" meta) "")
    name ← or_key_error w (lookup "name" meta)
    description ← or_key_error w (lookup "description" meta)
    uuid ← or_key_error w (lookup "uuid" meta)
    pure (record {
      sr = sr;
      name = name;
      description = description;
      total_space = total_of quota used_space free_space;
      free_space = free_space;
      uuid = uuid;
      health = health;
    })

  unfoldable pub stat : String → M SrStat
  stat sr = do
    attached ← look w sr (λ h. ok (w.is_dir h sr))
    if attached then stat_attached sr else raise (sr_not_attached sr)
