-- ===== src/Sr/Readers.antt =====
-- The parts of the SR's operations that only look.
use zfs_live_xapi.Prelude.{ℕ, String, Option, none, some, List, [], ◌∷◌, refl}
use zfs_live_xapi.Effects.{World, Vdi, value_error, M, pure, raise}
use zfs_live_xapi.Effects.Kinds.{IsRead}
use zfs_live_xapi.Effects.Triple.{
  Anything, pure-Does, raise-Does, then-Does, if_any-Does, look-Does, spawn-Does,
}
use zfs_live_xapi.Zfs.{vol_exists}
use zfs_live_xapi.Zfs.Readers.{
  IsReader, get_zvol_used_bytes-IsReader, find_snapshot_by_uuid-IsReader,
  vol_get_zfs_properties_dict-IsReader,
}
use zfs_live_xapi.Volume.{get_format}
use zfs_live_xapi.Sr.Config.{Dict}
use zfs_live_xapi.Sr.Metadata.{get_sr_metadata, or_key_error, get_sr_dataset_path, uri_prefix_of}
use zfs_live_xapi.Sr.Listing.{existing_zvol, stored_name, entry_of, list_vdis}

module _ (w : World) where
  pub get_sr_metadata-IsReader : (sr : String) → IsReader (get_sr_metadata w sr)
  unfolding get_sr_metadata
  get_sr_metadata-IsReader sr = look-Does IsRead w _ _ refl

  pub or_key_error-IsReader : (o : Option String) → IsReader (or_key_error w o)
  unfolding or_key_error
  or_key_error-IsReader none = raise-Does IsRead Anything _
  or_key_error-IsReader (some s) = pure-Does IsRead Anything s tt

  pub get_sr_dataset_path-IsReader : (meta : Dict) → IsReader (get_sr_dataset_path w meta)
  unfolding get_sr_dataset_path
  get_sr_dataset_path-IsReader meta =
      then-Does IsRead Anything _ _ (or_key_error-IsReader _) λ zpool.
        then-Does IsRead Anything _ _ (or_key_error-IsReader _)
          λ dataset. pure-Does IsRead Anything _ tt

  pub uri_prefix_of-IsReader : (sr : String) → IsReader (uri_prefix_of w sr)
  unfolding uri_prefix_of
  uri_prefix_of-IsReader sr = then-Does IsRead Anything _ _ (get_sr_metadata-IsReader sr) λ meta.
      then-Does IsRead Anything _ _ (get_sr_dataset_path-IsReader meta)
        λ dataset. pure-Does IsRead Anything _ tt

  pub stored_name-IsReader : (dataset : String) (vdi : Vdi) → IsReader (stored_name w dataset vdi)
  unfolding stored_name existing_zvol vol_exists
  stored_name-IsReader dataset vdi =
      if_any-Does IsRead Anything _ _ _ (find_snapshot_by_uuid-IsReader w _ _) (
        then-Does IsRead Anything _ _
          (then-Does IsRead Anything _ _ (spawn-Does IsRead w _ refl)
            (λ proc. pure-Does IsRead Anything _ tt))
          (λ found. pure-Does IsRead Anything _ tt))

  pub get_format-IsReader : (t : ℕ) → IsReader (get_format w t)
  unfolding get_format
  get_format-IsReader t =
      if_any-Does IsRead Anything _ _ _ (pure-Does IsRead Anything _ tt) (known (w.base_format t))
    where
      known :
          (o : Option String)
          → IsReader (let m : M String = elim o [ none ↦ raise value_error | some p ↦ pure p ] in m)
      known none = raise-Does IsRead Anything _
      known (some p) = pure-Does IsRead Anything p tt

  pub entry_of-IsReader :
      (sr : String) (keys : List (String × Dict)) (prefix : String) (vdi : Vdi) (vsize : ℕ)
      (o : Option String)
      → IsReader (entry_of w sr keys prefix vdi vsize o)
  unfolding entry_of
  entry_of-IsReader sr keys prefix vdi vsize none = pure-Does IsRead Anything _ tt
  entry_of-IsReader sr keys prefix vdi vsize (some name) =
      then-Does IsRead Anything _ _ (get_zvol_used_bytes-IsReader w name) λ psize.
        then-Does IsRead Anything _ _ (uri_prefix_of-IsReader sr) λ uri.
          then-Does IsRead Anything _ _ (vol_get_zfs_properties_dict-IsReader w name)
            λ zfs_keys. pure-Does IsRead Anything _ tt

  pub list_vdis-IsReader :
      (sr dataset : String) (keys : List (String × Dict)) (vdis : List (Vdi × ℕ))
      → IsReader (list_vdis w sr dataset keys vdis)
  unfolding list_vdis
  list_vdis-IsReader sr dataset keys [] = pure-Does IsRead Anything _ tt
  list_vdis-IsReader sr dataset keys ((vdi, vsize) ∷ vdis) =
      then-Does IsRead Anything _ _ (get_format-IsReader _) λ prefix.
        then-Does IsRead Anything _ _ (stored_name-IsReader dataset vdi) λ name.
          then-Does IsRead Anything _ _ (entry_of-IsReader sr keys prefix vdi vsize name) λ entry.
            then-Does IsRead Anything _ _ (list_vdis-IsReader sr dataset keys vdis)
              λ rest. pure-Does IsRead Anything _ tt
