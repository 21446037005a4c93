-- ===== src/Sr/Create.antt =====
-- `SR.create`: the checks, the dataset, the metadata, and the adoption of zvols that are there.
use zfs_live_xapi.Prelude.{
  ℕ, String, ◌<>◌, Bool, true, false, ◌||◌, none, some, List, [], ◌∷◌, ◌++◌, str_eq, if◌then◌else◌,
}
use zfs_live_xapi.Prelude.Lists.{length, drop}
use zfs_live_xapi.Prelude.Text.{split, join, first_or, last_or, lower, strip_char}
use zfs_live_xapi.Effects.{
  World, storage_error, update_sr_metadata, create_database, insert_new_volume, insert_vdi,
  update_volume_vsize, volume_context, db_context, M, pure, raise, try_except, within, write_file,
  ◌>>=◌, ◌>>◌,
}
use zfs_live_xapi.Zfs.{
  slash, show, dataset_path, dataset_get_parents, dataset_exists, dataset_create,
  dataset_is_mounted, dataset_list_zvols, get_zvol_size_bytes, pool_is_imported, pool_exists,
  dataset_is_sr, dataset_find_child_srs, dataset_set_properties, dataset_set_sr_marker,
  dataset_set_mountpoint, dataset_mount, sr_mount_path,
}
use zfs_live_xapi.Volume.{db_insert_volume, db_do, image_raw_qdisk}
use zfs_live_xapi.Sr.Config.{Dict, lookup, ZfsConfig, parse_zfs_config}
use zfs_live_xapi.Sr.Metadata.{get_default}

-- Where the SR goes: its pool, the name of its dataset in that, and the path of both.
pub record Target : Type 0 where
  pub pool_name : String
  pub dataset_name : String
  pub sr_dataset : String

-- The components of `path`: the pool, and the parent below it.
unfoldable pub path_parts : String → List String
path_parts path = split slash (strip_char slash path)

unfoldable pub pool_of : String → String
pool_of path = first_or "" (path_parts path)

unfoldable pub parent_of : String → String
parent_of path = join "/" (drop 1 (path_parts path))

unfoldable pub adopts : Dict → Bool
adopts configuration = str_eq (lower (get_default (lookup "adopt" configuration) "")) "true"

-- The dataset that is adopted, and the one that is made for an SR.
unfoldable pub adopted_target : String → Target
adopted_target path = record {
  pool_name = pool_of path;
  dataset_name = parent_of path;
  sr_dataset = dataset_path (pool_of path) (parent_of path);
}

unfoldable pub new_name : String → String → String
new_name parent sr_uuid = if str_eq parent "" then sr_uuid else parent <> ("/" <> sr_uuid)

unfoldable pub new_target : String → String → Target
new_target path sr_uuid = record {
  pool_name = pool_of path;
  dataset_name = new_name (parent_of path) sr_uuid;
  sr_dataset = dataset_path (pool_of path) (new_name (parent_of path) sr_uuid);
}

-- The entries that every SR's metadata has.
unfoldable pub basic_entries : Target → String → String → String → String → Dict
basic_entries t sr_uuid name description datapath =
    ("name", name)
    ∷ ("description", description)
    ∷ ("uuid", sr_uuid)
    ∷ ("zpool", t.pool_name)
    ∷ ("dataset", t.dataset_name)
    ∷ ("datapath", datapath)
    ∷ []

module _ (w : World) where
  abbrev pub refuse : {A : Type 0} → String → List String → M A
  refuse code values = raise (storage_error code values)

  unfoldable pub required_path : Dict → M String
  required_path configuration = elim (lookup "path" configuration) [
    | none ↦ refuse "SR_BACKEND_FAILURE_109" ("Invalid configuration" ∷ [])
    | some path ↦ pure path
  ]

  unfoldable pub require_pool : String → M (Unit {0})
  require_pool pool_name = do
    imported ← pool_is_imported w pool_name
    if imported then pure tt else (do
      found ← pool_exists w pool_name
      if found
          then refuse "SR_BACKEND_FAILURE_107" ("ZFS pool not imported" ∷ pool_name ∷ [])
          else refuse "SR_BACKEND_FAILURE_107" ("ZFS pool not found" ∷ pool_name ∷ []))

  unfoldable pub is_marked_parent : String → M Bool
  is_marked_parent parent = do
    found ← dataset_exists w parent
    if found then dataset_is_sr w parent else pure false

  unfoldable pub no_sr_above : List String → M (Unit {0})
  no_sr_above [] = pure tt
  no_sr_above (parent ∷ parents) = do
    marked ← is_marked_parent parent
    let more = no_sr_above parents
    if marked
        then refuse "SR_BACKEND_FAILURE_109" ("Cannot create SR inside another SR" ∷ parent ∷ [])
        else more

  unfoldable pub no_child_srs : List String → M (Unit {0})
  no_child_srs [] = pure tt
  no_child_srs (child ∷ children) =
      refuse "SR_BACKEND_FAILURE_109"
        ("Cannot create SR that contains another SR" ∷ child ∷ children)

  unfoldable pub adopt_target : String → M Target
  adopt_target path = do
    let t = adopted_target path
    found ← dataset_exists w t.sr_dataset
    if found
        then pure t
        else refuse "SR_BACKEND_FAILURE_109" ("Dataset not found for adopt" ∷ t.sr_dataset ∷ [])

  unfoldable pub fresh_target : String → String → M Target
  fresh_target path sr_uuid = do
    let t = new_target path sr_uuid
    found ← dataset_exists w t.sr_dataset
    if found
        then refuse "SR_BACKEND_FAILURE_109"
            ("Dataset already exists" ∷ t.dataset_name ∷ t.pool_name ∷ [])
        else pure tt
    no_sr_above (dataset_get_parents t.sr_dataset)
    child_srs ← dataset_find_child_srs w t.pool_name t.sr_dataset
    no_child_srs child_srs
    pure t

  unfoldable pub no_config_errors : List String → M (Unit {0})
  no_config_errors [] = pure tt
  no_config_errors (e ∷ errors) =
      refuse "SR_BACKEND_FAILURE_109" ("Invalid ZFS configuration" ∷ join "; " (e ∷ errors) ∷ [])

  -- All that is checked before anything is changed: the target and the configuration.
  unfoldable pub create_checks : String → Dict → M (Target × ZfsConfig)
  create_checks sr_uuid configuration = do
    path ← required_path configuration
    require_pool (pool_of path)
    t ← if adopts configuration then adopt_target path else fresh_target path sr_uuid
    config ← parse_zfs_config w configuration t.pool_name
    no_config_errors config.errors
    let checked : Target × ZfsConfig = (t, config)
    pure checked

  unfoldable pub ensure_mounted : String → M (Unit {0})
  ensure_mounted dataset = do
    mounted ← dataset_is_mounted w dataset
    if mounted then pure tt else (dataset_mount w dataset >> pure tt)

  unfoldable pub prepare_dataset : Bool → String → Target → Dict → M (Unit {0})
  prepare_dataset adopt sr_uuid t props = do
    if adopt then pure tt else dataset_create w t.sr_dataset true
    dataset_set_properties w t.sr_dataset props
    dataset_set_sr_marker w t.sr_dataset sr_uuid
    dataset_set_mountpoint w t.sr_dataset (sr_mount_path sr_uuid)
    ensure_mounted t.sr_dataset
    write_file w (create_database (sr_mount_path sr_uuid))

  unfoldable pub check_datapath : String → M (Unit {0})
  check_datapath datapath =
      if str_eq datapath "tapdisk" || str_eq datapath "raw-qdisk"
      then pure tt
      else refuse "SR_BACKEND_FAILURE_109" ("Invalid configuration" ∷ datapath ∷ [])

  -- One zvol is registered under its own name, with the size that it has.
  unfoldable pub register_zvol : String → String → M (Unit {0})
  register_zvol mountpoint zvol_name = do
    let vdi_uuid = last_or zvol_name (split slash zvol_name)
    vdi_size ← get_zvol_size_bytes w zvol_name
    within w (volume_context mountpoint "w") (
        within w (db_context mountpoint) (do
          id ← db_insert_volume w (insert_new_volume vdi_size image_raw_qdisk)
          db_do w (insert_vdi vdi_uuid "" vdi_uuid id false)
          db_do w (update_volume_vsize id (some vdi_size))))

  -- The zvols that could not be registered.
  unfoldable pub adopt_each : String → List String → M (List String)
  adopt_each mountpoint [] = pure []
  adopt_each mountpoint (zvol_name ∷ zvols) = do
    failed ← try_except (register_zvol mountpoint zvol_name >> pure []) (λ e. pure (zvol_name ∷ []))
    rest ← adopt_each mountpoint zvols
    pure (failed ++ rest)

  unfoldable pub none_failed : ℕ → List String → M (Unit {0})
  none_failed n [] = pure tt
  none_failed n (zvol_name ∷ failed) =
      refuse "SR_BACKEND_FAILURE_109"
        ("Adopt incomplete" ∷ show (length (zvol_name ∷ failed)) ∷ show n ∷ zvol_name ∷ failed)

  unfoldable pub adopt_zvols : String → String → M (Unit {0})
  adopt_zvols mountpoint dataset = do
    zvols ← dataset_list_zvols w dataset
    failed ← adopt_each mountpoint zvols
    none_failed (length zvols) failed

  -- What follows the checks. The configuration that is returned has the pool and the dataset in it.
  unfoldable pub create_checked : String → Dict → String → String → Target × ZfsConfig → M Dict
  create_checked sr_uuid configuration name description (t, config) = do
    prepare_dataset (adopts configuration) sr_uuid t config.dataset_props
    let datapath = get_default (lookup "datapath" configuration) "raw-qdisk"
    check_datapath datapath
    write_file w (
        update_sr_metadata ("file://" <> sr_mount_path sr_uuid)
          (basic_entries t sr_uuid name description datapath ++ config.sr_settings)
          config.vdi_defaults)
    if adopts configuration then adopt_zvols (sr_mount_path sr_uuid) t.sr_dataset else pure tt
    pure (("dataset", t.dataset_name) ∷ ("zpool", t.pool_name) ∷ configuration)

  unfoldable pub create : String → Dict → String → String → M Dict
  create sr_uuid configuration name description =
      create_checks sr_uuid configuration >>= create_checked sr_uuid configuration name description
