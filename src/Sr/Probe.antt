-- ===== src/Sr/Probe.antt =====
-- `SR.probe`: what a device configuration points at.
use zfs_live_xapi.Prelude.{
  ℕ, String, ◌<>◌, Bool, true, false, Option, none, some, List, [], ◌∷◌, ◌++◌, str_eq,
  if◌then◌else◌,
}
use zfs_live_xapi.Prelude.Lists.{drop}
use zfs_live_xapi.Prelude.Text.{split, strip, strip_char, join}
use zfs_live_xapi.Effects.{World, ok, M, pure, try_except, look, ◌>>=◌}
use zfs_live_xapi.Zfs.{
  slash, dataset_path, dataset_exists, dataset_get_parents, dataset_get_available,
  get_dataset_mountpoint, pool_is_imported, pool_exists, dataset_get_used, dataset_get_quota,
  dataset_get_sr_marker, dataset_is_sr, dataset_find_child_srs,
}
use zfs_live_xapi.Sr.Config.{Dict, lookup}
use zfs_live_xapi.Sr.Metadata.{get_default, get_sr_metadata}
use zfs_live_xapi.Sr.Create.{pool_of, parent_of, is_marked_parent}
use zfs_live_xapi.Sr.Attach.{SrStat, total_of}

-- An entry of the result.
pub record ProbeResult : Type 0 where
  pub configuration : Dict
  pub complete : Bool
  pub sr : Option SrStat
  pub extra_info : Dict

unfoldable pub incomplete : Dict → String → String → List ProbeResult
incomplete configuration key text =
    record {
      configuration = configuration;
      complete = false;
      sr = none;
      extra_info = (key, text) ∷ [];
    }
    ∷ []

-- All components but the last.
unfoldable pub drop_last : List String → List String
drop_last [] = []
drop_last (x ∷ []) = []
drop_last (x ∷ y ∷ xs) = x ∷ drop_last (y ∷ xs)

unfoldable pub marker_text : Option String → String
marker_text none = ""
marker_text (some uuid) = uuid

-- The entry on an SR that is there: `path` leads to its parent.
unfoldable pub existing_entry : Dict → String → String → Option SrStat → ProbeResult
existing_entry configuration pool_name sr_dataset info = record {
  configuration =
      ("dataset", join "/" (drop 1 (split slash sr_dataset)))
      ∷ ("zpool", pool_name)
      ∷ ("path", join "/" (drop_last (split slash sr_dataset)))
      ∷ configuration;
  complete = true;
  sr = info;
  extra_info = ("dataset", sr_dataset) ∷ [];
}

module _ (w : World) where
  -- The name and the description of an SR that is mounted.
  unfoldable pub texts_in : Bool → String → M (String × String)
  texts_in false mountpoint = let nothing : String × String = ("", "") in pure nothing
  texts_in true mountpoint = do
    meta ← get_sr_metadata w mountpoint
    let texts : String × String =
        (get_default (lookup "name" meta) "", get_default (lookup "description" meta) "")
    pure texts

  unfoldable pub is_mount_dir : String → M Bool
  is_mount_dir mountpoint =
      if str_eq mountpoint ""
      then pure false
      else look w mountpoint (λ h. ok (w.is_dir h mountpoint))

  unfoldable pub probe_texts : String → M (String × String)
  probe_texts sr_dataset =
      try_except
        (do
          mountpoint ← get_dataset_mountpoint w sr_dataset
          there ← is_mount_dir mountpoint
          texts_in there mountpoint)
        (λ e. let nothing : String × String = ("", "") in pure nothing)

  -- The total and the free space, or none where ZFS fails.
  unfoldable pub probe_space : String → M (Option (ℕ × ℕ))
  probe_space sr_dataset =
      try_except
        (do
          free_space ← dataset_get_available w sr_dataset
          used_space ← dataset_get_used w sr_dataset
          quota ← dataset_get_quota w sr_dataset
          let space : ℕ × ℕ = (total_of quota used_space free_space, free_space)
          pure (some space))
        (λ e. pure none)

  unfoldable pub info_with : String → Option String → Option (ℕ × ℕ) → M (Option SrStat)
  info_with sr_dataset sr_uuid none = pure none
  info_with sr_dataset sr_uuid (some (total_space, free_space)) = do
    texts ← probe_texts sr_dataset
    pure (
        some (record {
          sr = sr_dataset;
          name = texts.0;
          description = texts.1;
          total_space = total_space;
          free_space = free_space;
          uuid = marker_text sr_uuid;
          health = "";
        }))

  unfoldable pub probe_sr_info : String → Option String → M (Option SrStat)
  probe_sr_info sr_dataset sr_uuid = probe_space sr_dataset >>= info_with sr_dataset sr_uuid

  unfoldable pub existing_srs : String → String → M (List String)
  existing_srs pool_name location = do
    found ← dataset_exists w location
    if found
        then (do
          itself ← dataset_is_sr w location
          children ← dataset_find_child_srs w pool_name location
          pure (if itself then location ∷ children else children))
        else pure []

  unfoldable pub probe_each : Dict → String → List String → M (List ProbeResult)
  probe_each configuration pool_name [] = pure []
  probe_each configuration pool_name (sr_dataset ∷ datasets) = do
    sr_uuid ← dataset_get_sr_marker w sr_dataset
    info ← probe_sr_info sr_dataset sr_uuid
    rest ← probe_each configuration pool_name datasets
    pure (existing_entry configuration pool_name sr_dataset info ∷ rest)

  -- Why no SR can be made at the location, or nothing where one can.
  unfoldable pub ancestor_error : List String → M Dict
  ancestor_error [] = pure []
  ancestor_error (parent ∷ parents) = do
    marked ← is_marked_parent w parent
    let more = ancestor_error parents
    if marked
        then pure (("error", "ancestor dataset '" <> (parent <> "' is already an SR")) ∷ [])
        else more

  unfoldable pub location_error : String → Dict → M Dict
  location_error location (e ∷ errors) = pure (e ∷ errors)
  location_error location [] = do
    marked ← dataset_is_sr w location
    pure (if marked then ("error", "dataset '" <> (location <> "' is already an SR")) ∷ [] else [])

  -- The source looks for the location only where it has a parent path.
  unfoldable pub lacks_parent : String → String → M Bool
  lacks_parent parent_path location =
      if str_eq parent_path ""
      then pure false
      else (do found ← dataset_exists w location; pure (if found then false else true))

  unfoldable pub create_error : String → String → M Dict
  create_error parent_path location = do
    lacking ← lacks_parent parent_path location
    if lacking
        then pure (("error", "parent dataset '" <> (location <> "' does not exist")) ∷ [])
        else ancestor_error (dataset_get_parents location) >>= location_error location

  unfoldable pub is_empty_dict : Dict → Bool
  is_empty_dict [] = true
  is_empty_dict (e ∷ entries) = false

  unfoldable pub probe_pool : Dict → String → String → M (List ProbeResult)
  probe_pool configuration pool_name parent_path = do
    let location = dataset_path pool_name parent_path
    srs ← existing_srs pool_name location
    entries ← probe_each configuration pool_name srs
    extra ← create_error parent_path location
    pure (
        entries
        ++ (record {
          configuration = configuration;
          complete = is_empty_dict extra;
          sr = none;
          extra_info = extra;
        }
            ∷ []))

  unfoldable pub probe_path : Dict → String → M (List ProbeResult)
  probe_path configuration path = do
    imported ← pool_is_imported w (pool_of path)
    if imported then probe_pool configuration (pool_of path) (parent_of path) else (do
      found ← pool_exists w (pool_of path)
      pure (
          incomplete configuration "error" (
            "pool '"
            <> (pool_of path
                <> (if found then "' exists but is not imported" else "' does not exist")))))

  unfoldable pub probe : Dict → M (List ProbeResult)
  probe configuration = elim (lookup "path" configuration) [
    | none ↦ pure (incomplete configuration "hint" "supply 'path' as <pool>[/<parent-dataset>]")
    | some path ↦
        if str_eq (strip_char slash (strip path)) ""
        then pure (incomplete configuration "error" "'path' is empty")
        else probe_path configuration (strip path)
  ]
