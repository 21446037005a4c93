-- ===== src/Sr/ProbeLaws.antt =====
-- `SR.probe` only looks.
use zfs_live_xapi.Prelude.{
  ℕ, String, Bool, true, false, List, [], ◌∷◌, Option, some, none, refl, str_eq, if◌then◌else◌,
}
use zfs_live_xapi.Prelude.Text.{strip, strip_char}
use zfs_live_xapi.Zfs.{slash}
use zfs_live_xapi.Effects.{World, M, pure, look, ok, History}
use zfs_live_xapi.Effects.Kinds.{IsRead}
use zfs_live_xapi.Effects.Triple.{
  Anything, Adds, Does-Adds, then-Does, try_any-Does, if_any-Does, look-Does,
}
use zfs_live_xapi.Zfs.Readers.{IsReader, pure-IsReader}
use zfs_live_xapi.Zfs.PoolReaders.{
  dataset_exists-IsReader, pool_is_imported-IsReader, pool_exists-IsReader,
  get_dataset_mountpoint-IsReader, dataset_get_available-IsReader, dataset_get_used-IsReader,
  dataset_get_quota-IsReader, dataset_get_sr_marker-IsReader, dataset_is_sr-IsReader,
  dataset_find_child_srs-IsReader,
}
use zfs_live_xapi.Sr.Config.{Dict, lookup}
use zfs_live_xapi.Sr.Create.{is_marked_parent}
use zfs_live_xapi.Sr.Readers.{get_sr_metadata-IsReader}
use zfs_live_xapi.Sr.Probe.{
  ProbeResult, texts_in, is_mount_dir, probe_texts, probe_space, info_with, probe_sr_info,
  existing_srs, probe_each, ancestor_error, location_error, lacks_parent, create_error, probe_pool,
  probe_path, probe, incomplete,
}

module _ (w : World) where
  pub is_marked_parent-IsReader : (parent : String) → IsReader (is_marked_parent w parent)
  unfolding is_marked_parent
  is_marked_parent-IsReader parent =
      then-Does IsRead Anything _ _ (dataset_exists-IsReader w parent)
        λ b. if_any-Does IsRead Anything _ _ _ (dataset_is_sr-IsReader w parent) (pure-IsReader _)

  texts_in-IsReader : (there : Bool) (mountpoint : String) → IsReader (texts_in w there mountpoint)
  unfolding texts_in
  texts_in-IsReader false mountpoint = pure-IsReader _
  texts_in-IsReader true mountpoint =
      then-Does IsRead Anything _ _ (get_sr_metadata-IsReader w mountpoint)
        (λ meta. pure-IsReader _)

  is_mount_dir-IsReader : (mountpoint : String) → IsReader (is_mount_dir w mountpoint)
  unfolding is_mount_dir
  is_mount_dir-IsReader mountpoint =
      if_any-Does IsRead Anything (str_eq mountpoint "") (pure false)
        (look w mountpoint (λ h. ok (w.is_dir h mountpoint))) (pure-IsReader false)
        (look-Does IsRead w mountpoint (λ h. ok (w.is_dir h mountpoint)) refl)

  probe_texts-IsReader : (ds : String) → IsReader (probe_texts w ds)
  unfolding probe_texts
  probe_texts-IsReader ds =
      try_any-Does IsRead _ _
        (then-Does IsRead Anything _ _ (get_dataset_mountpoint-IsReader w ds) λ mountpoint.
          then-Does IsRead Anything _ _ (is_mount_dir-IsReader mountpoint)
            (λ there. texts_in-IsReader there mountpoint))
        (λ e. pure-IsReader _)

  probe_space-IsReader : (ds : String) → IsReader (probe_space w ds)
  unfolding probe_space
  probe_space-IsReader ds =
      try_any-Does IsRead _ _
        (then-Does IsRead Anything _ _ (dataset_get_available-IsReader w ds) λ free.
          then-Does IsRead Anything _ _ (dataset_get_used-IsReader w ds) λ used.
            then-Does IsRead Anything _ _ (dataset_get_quota-IsReader w ds)
              (λ quota. pure-IsReader _))
        (λ e. pure-IsReader _)

  info_with-IsReader :
      (ds : String) (uuid : Option String) (space : Option (ℕ × ℕ))
      → IsReader (info_with w ds uuid space)
  unfolding info_with
  info_with-IsReader ds uuid none = pure-IsReader _
  info_with-IsReader ds uuid (some (total, free)) =
      then-Does IsRead Anything _ _ (probe_texts-IsReader ds) (λ texts. pure-IsReader _)

  existing_srs-IsReader : (pool location : String) → IsReader (existing_srs w pool location)
  unfolding existing_srs
  existing_srs-IsReader pool location =
      then-Does IsRead Anything _ _ (dataset_exists-IsReader w location) λ found.
        if_any-Does IsRead Anything _ _ _
          (then-Does IsRead Anything _ _ (dataset_is_sr-IsReader w location) λ itself.
            then-Does IsRead Anything _ _ (dataset_find_child_srs-IsReader w pool location)
              (λ children. pure-IsReader _))
          (pure-IsReader _)

  probe_each-IsReader :
      (c : Dict) (pool : String) (datasets : List String) → IsReader (probe_each w c pool datasets)
  unfolding probe_each probe_sr_info
  probe_each-IsReader c pool [] = pure-IsReader _
  probe_each-IsReader c pool (ds ∷ datasets) =
      then-Does IsRead Anything _ _ (dataset_get_sr_marker-IsReader w ds) λ uuid.
        then-Does IsRead Anything _ _
          (then-Does IsRead Anything _ _ (probe_space-IsReader ds) (info_with-IsReader ds uuid))
          λ info.
            then-Does IsRead Anything _ _ (probe_each-IsReader c pool datasets)
              (λ rest. pure-IsReader _)

  ancestor_error-IsReader : (parents : List String) → IsReader (ancestor_error w parents)
  unfolding ancestor_error
  ancestor_error-IsReader [] = pure-IsReader _
  ancestor_error-IsReader (parent ∷ parents) =
      then-Does IsRead Anything _ _ (is_marked_parent-IsReader parent)
        λ b. if_any-Does IsRead Anything _ _ _ (pure-IsReader _) (ancestor_error-IsReader parents)

  location_error-IsReader : (location : String) (d : Dict) → IsReader (location_error w location d)
  unfolding location_error
  location_error-IsReader location (e ∷ errors) = pure-IsReader _
  location_error-IsReader location [] =
      then-Does IsRead Anything _ _ (dataset_is_sr-IsReader w location) (λ b. pure-IsReader _)

  lacks_parent-IsReader : (parent location : String) → IsReader (lacks_parent w parent location)
  unfolding lacks_parent
  lacks_parent-IsReader parent location = if_any-Does IsRead Anything _ _ _ (pure-IsReader _) (
      then-Does IsRead Anything _ _ (dataset_exists-IsReader w location) (λ found. pure-IsReader _))

  create_error-IsReader : (parent location : String) → IsReader (create_error w parent location)
  unfolding create_error
  create_error-IsReader parent location =
      then-Does IsRead Anything _ _ (lacks_parent-IsReader parent location) λ lacking.
        if_any-Does IsRead Anything _ _ _ (pure-IsReader _) (
          then-Does IsRead Anything _ _ (ancestor_error-IsReader _)
            (location_error-IsReader location))

  probe_path-IsReader : (c : Dict) (path : String) → IsReader (probe_path w c path)
  unfolding probe_path probe_pool
  probe_path-IsReader c path =
      then-Does IsRead Anything _ _ (pool_is_imported-IsReader w _) λ imported.
        if_any-Does IsRead Anything _ _ _
          (then-Does IsRead Anything _ _ (existing_srs-IsReader _ _) λ srs.
            then-Does IsRead Anything _ _ (probe_each-IsReader c _ srs) λ entries.
              then-Does IsRead Anything _ _ (create_error-IsReader _ _) (λ extra. pure-IsReader _))
          (then-Does IsRead Anything _ _ (pool_exists-IsReader w _) (λ found. pure-IsReader _))

  probe-IsReader : (c : Dict) → IsReader (probe w c)
  unfolding probe
  probe-IsReader c = at_path (lookup "path" c)
    where
      at_path :
          (o : Option String)
          → IsReader (
              let m : M (List ProbeResult) = elim o [
                | none ↦ pure (incomplete c "hint" "supply 'path' as <pool>[/<parent-dataset>]")
                | some path ↦
                    if str_eq (strip_char slash (strip path)) ""
                    then pure (incomplete c "error" "'path' is empty")
                    else probe_path w c (strip path)
              ] in
              m)
      at_path none = pure-IsReader _
      at_path (some path) =
          if_any-Does IsRead Anything _ _ _ (pure-IsReader _) (probe_path-IsReader c (strip path))

  -- A probe only reads, whatever it is given.
  pub probe-IsRead : (configuration : Dict) (h : History) → Adds IsRead h (probe w configuration h)
  probe-IsRead configuration h =
      Does-Adds IsRead Anything (probe w configuration) (probe-IsReader configuration) h
