-- ===== src/Zfs/Pools.antt =====
-- Pools, the marker and the mountpoint of an SR's dataset, and its space.
use text.Mathlib.Text.{starts_with}
use zfs_live_xapi.Prelude.{
  ℕ, String, ◌<>◌, Bool, true, false, ◌&&◌, ◌||◌, Option, none, some, List, [], ◌∷◌, str_eq,
  if◌then◌else◌,
}
use zfs_live_xapi.Prelude.Text.{strip, splitlines, parse_int, partition}
use zfs_live_xapi.Effects.{World, is_internal_error, M, pure, raise, try_except, ◌>>=◌, ◌>>◌}
use zfs_live_xapi.Zfs.Command.{run_zfs, run_zfs_command, stdout_of, int_of, int_or_raise}
use zfs_live_xapi.Zfs.Datasets.{false_on_internal_error}
use zfs_live_xapi.Zfs.Zvols.{is_some}
use zfs_live_xapi.Zfs.Orphans.{none_on_internal_error}

abbrev pub colon : ℕ
colon = 58

-- A line of `zpool import` that names the pool.
unfoldable pub names_pool : String → String → Bool
names_pool pool_name line =
    starts_with (strip line) "pool:" && elim (partition colon (strip line)).1 [
      | none ↦ false
      | some rest ↦ str_eq (strip rest) pool_name
    ]

unfoldable pub any_names_pool : String → List String → Bool
any_names_pool pool_name [] = false
any_names_pool pool_name (line ∷ lines) =
    names_pool pool_name line || any_names_pool pool_name lines

-- The user property that marks a dataset as an SR.
abbrev pub sr_property : String
sr_property = "xcp:sr"

-- A value of the marker; ZFS prints "-" for one that is not set.
unfoldable pub marker_of : String → Option String
marker_of out = if str_eq (strip out) "" || str_eq (strip out) "-" then none else some (strip out)

unfoldable pub sr_mount_path : String → String
sr_mount_path sr_uuid = "/var/run/sr-mount/" <> sr_uuid

module _ (w : World) where
  unfoldable pub get_dataset_mountpoint : String → M String
  get_dataset_mountpoint name = do
    out ← run_zfs w ("zfs" ∷ "get" ∷ "mountpoint" ∷ "-H" ∷ "-o" ∷ "value" ∷ name ∷ [])
    pure (strip out)

  unfoldable pub pool_is_imported : String → M Bool
  pool_is_imported pool_name =
      false_on_internal_error w
        (run_zfs w ("zpool" ∷ "list" ∷ "-H" ∷ "-o" ∷ "name" ∷ pool_name ∷ []) >> pure true)

  -- The importable pools, where the exit status of `zpool import` is not looked at.
  unfoldable pub importable_pool : String → M Bool
  importable_pool pool_name = false_on_internal_error w do
    r ← run_zfs_command w false 0 1 ("zpool" ∷ "import" ∷ [])
    out ← stdout_of w r
    pure (any_names_pool pool_name (splitlines (strip out)))

  unfoldable pub pool_exists : String → M Bool
  pool_exists pool_name = do
    imported ← pool_is_imported pool_name
    if imported then pure true else importable_pool pool_name

  unfoldable pub dataset_set_mountpoint : String → String → M String
  dataset_set_mountpoint name mount_path =
      run_zfs w ("zfs" ∷ "set" ∷ ("mountpoint=" <> mount_path) ∷ name ∷ [])

  unfoldable pub dataset_mount : String → M String
  dataset_mount name = run_zfs w ("zfs" ∷ "mount" ∷ name ∷ [])

  unfoldable pub dataset_get_used : String → M ℕ
  dataset_get_used name = int_of w ("zfs" ∷ "get" ∷ "-Hp" ∷ "-o" ∷ "value" ∷ "used" ∷ name ∷ [])

  -- 0 where there is no quota.
  unfoldable pub dataset_get_quota : String → M ℕ
  dataset_get_quota name = do
    out ← run_zfs w ("zfs" ∷ "get" ∷ "-Hp" ∷ "-o" ∷ "value" ∷ "quota" ∷ name ∷ [])
    if str_eq (strip out) "0" || str_eq (strip out) "none"
        then pure 0
        else int_or_raise w (parse_int (strip out))

  unfoldable pub dataset_set_sr_marker : String → String → M String
  dataset_set_sr_marker name sr_uuid =
      run_zfs w ("zfs" ∷ "set" ∷ (sr_property <> ("=" <> sr_uuid)) ∷ name ∷ [])

  unfoldable pub dataset_get_sr_marker : String → M (Option String)
  dataset_get_sr_marker name =
      try_except
        (do
          out ← run_zfs w ("zfs" ∷ "get" ∷ "-Hp" ∷ "-o" ∷ "value" ∷ sr_property ∷ name ∷ [])
          pure (marker_of out))
        (λ e. if is_internal_error e then pure none else raise e)

  unfoldable pub dataset_is_sr : String → M Bool
  dataset_is_sr name = do marker ← dataset_get_sr_marker name; pure (is_some marker)

  -- The datasets below the prefix that are marked.
  unfoldable pub srs_below : String → List String → M (List String)
  srs_below prefix [] = pure []
  srs_below prefix (ds ∷ datasets) = do
    marked ← if starts_with ds prefix then dataset_is_sr ds else pure false
    child_srs ← srs_below prefix datasets
    pure (if marked then ds ∷ child_srs else child_srs)

  -- The names that are found before an `InternalError` are kept in the source too: only the listing
  -- raises one here.
  unfoldable pub dataset_find_child_srs : String → String → M (List String)
  dataset_find_child_srs pool_name path = none_on_internal_error w do
    out ← run_zfs w ("zfs" ∷ "list" ∷ "-Hr" ∷ "-o" ∷ "name" ∷ "-t" ∷ "filesystem" ∷ pool_name ∷ [])
    srs_below (path <> "/") (splitlines (strip out))

  unfoldable pub pool_get_ashift : String → M ℕ
  pool_get_ashift pool_name =
      int_of w ("zpool" ∷ "get" ∷ "-Hp" ∷ "-o" ∷ "value" ∷ "ashift" ∷ pool_name ∷ [])

  -- A dictionary without `None` values.
  unfoldable pub dataset_set_properties : String → List (String × String) → M (Unit {0})
  dataset_set_properties name [] = pure tt
  dataset_set_properties name ((prop, value) ∷ properties) = do
    run_zfs w ("zfs" ∷ "set" ∷ (prop <> ("=" <> value)) ∷ name ∷ [])
    dataset_set_properties name properties
