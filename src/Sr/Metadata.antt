-- ===== src/Sr/Metadata.antt =====
-- The metadata of an SR, and what the operations read of it.
use zfs_live_xapi.Prelude.{String, ◌<>◌, Option, none, some, [], ◌∷◌}
use zfs_live_xapi.Effects.{
  World, key_error, update_sr_metadata, M, pure, raise, look, write_file, ◌>>=◌,
}
use zfs_live_xapi.Zfs.{dataset_path}
use zfs_live_xapi.Sr.Config.{Dict, lookup}

-- `d.get(key, default)`
unfoldable pub get_default : Option String → String → String
get_default none default = default
get_default (some value) default = value

module _ (w : World) where
  -- `util.get_sr_metadata(dbg, "file://" + sr)`
  unfoldable pub get_sr_metadata : String → M Dict
  get_sr_metadata sr = look w ("file://" <> sr) (λ h. w.sr_metadata h sr)

  -- `d[key]`
  unfoldable pub or_key_error : Option String → M String
  or_key_error none = raise key_error
  or_key_error (some value) = pure value

  unfoldable pub get_sr_dataset_path : Dict → M String
  get_sr_dataset_path meta = do
    zpool ← or_key_error (lookup "zpool" meta)
    dataset ← or_key_error (lookup "dataset" meta)
    pure (dataset_path zpool dataset)

  -- `Callbacks.getVolumeUriPrefix`, which reads the metadata anew.
  unfoldable pub uri_prefix_of : String → M String
  uri_prefix_of sr = do
    meta ← get_sr_metadata sr
    dataset ← get_sr_dataset_path meta
    pure ("zfs-live//dev/zvol/" <> (dataset <> "/"))

  unfoldable pub set_name : String → String → M (Unit {0})
  set_name sr new_name =
      write_file w (update_sr_metadata ("file://" <> sr) (("name", new_name) ∷ []) [])

  unfoldable pub set_description : String → String → M (Unit {0})
  set_description sr new_description =
      write_file w (update_sr_metadata ("file://" <> sr) (("description", new_description) ∷ []) [])
