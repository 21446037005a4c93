-- ===== src/Zfs/Readers.antt =====
-- The helpers that only ask ZFS.
use zfs_live_xapi.Prelude.{String, Option, none, some, List, [], ◌∷◌, refl}
use zfs_live_xapi.Effects.{World, M, pure, ◌>>=◌}
use zfs_live_xapi.Effects.Triple.{
  Does, Anything, pure-Does, raise-Does, then-Does, try_any-Does, if_any-Does, widen-Does,
}
use zfs_live_xapi.Effects.Kinds.{IsRead, ChangesNothing, read-ChangesNothing}
use zfs_live_xapi.Zfs.Kinds.{run_zfs-Does, lines_of-Does, int_of-Does, int_or_raise-Does}
use zfs_live_xapi.Zfs.Zvols.{
  vol_get_property, get_zvol_used_bytes, unpack_two, find_by_id, find_snapshot_by_uuid, clones_in,
  find_snapshot_clones, log_pool_tree,
}
use zfs_live_xapi.Zfs.Reported.{
  vol_get_properties_batch, volblocksize_key, keys_of, vol_get_zfs_properties_dict,
}
use zfs_live_xapi.Zfs.Reservation.{vol_get_refreservation}

abbrev pub IsReader : {A : Type 0} → M A → Type 0
IsReader m = Does IsRead Anything m

-- A reader changes nothing.
pub reader-ChangesNothing : {A : Type 0} (m : M A) → IsReader m → Does ChangesNothing Anything m
reader-ChangesNothing m d = widen-Does IsRead ChangesNothing Anything m read-ChangesNothing d

pub pure-IsReader : {A : Type 0} (a : A) → IsReader (pure a)
pure-IsReader a = pure-Does IsRead Anything a tt

pub then-IsReader :
    {A B : Type 0} (m : M A) (f : A → M B)
    → IsReader m
    → ((a : A) → IsReader (f a))
    → IsReader (m >>= f)
then-IsReader m f = then-Does IsRead Anything m f

module _ (w : World) where
  pub vol_get_property-IsReader : (name prop : String) → IsReader (vol_get_property w name prop)
  unfolding vol_get_property
  vol_get_property-IsReader name prop =
      then-IsReader _ _ (run_zfs-Does IsRead w _ refl) (λ out. pure-IsReader _)

  pub get_zvol_used_bytes-IsReader : (name : String) → IsReader (get_zvol_used_bytes w name)
  unfolding get_zvol_used_bytes
  get_zvol_used_bytes-IsReader name = int_of-Does IsRead w _ refl

  pub vol_get_refreservation-IsReader : (name : String) → IsReader (vol_get_refreservation w name)
  unfolding vol_get_refreservation
  vol_get_refreservation-IsReader name =
      then-IsReader _ _ (vol_get_property-IsReader name _)
        λ text. if_any-Does IsRead Anything _ _ _ (pure-IsReader 0) (int_or_raise-Does IsRead w _)

  unpack_two-IsReader : (fields : List String) → IsReader (unpack_two w fields)
  unfolding unpack_two
  unpack_two-IsReader (a ∷ b ∷ []) = pure-IsReader _
  unpack_two-IsReader _ = raise-Does IsRead Anything _

  find_by_id-IsReader : (id : String) (names : List String) → IsReader (find_by_id w id names)
  unfolding find_by_id
  find_by_id-IsReader id [] = pure-IsReader none
  find_by_id-IsReader id (name ∷ names) =
      then-IsReader _ _ (unpack_two-IsReader _)
        λ fields. if_any-Does IsRead Anything _ _ _ (pure-IsReader _) (find_by_id-IsReader id names)

  pub find_snapshot_by_uuid-IsReader :
      (pool id : String) → IsReader (find_snapshot_by_uuid w pool id)
  unfolding find_snapshot_by_uuid
  find_snapshot_by_uuid-IsReader pool id =
      then-IsReader _ _ (lines_of-Does IsRead w _ refl) (find_by_id-IsReader id)

  clones_in-IsReader : (snap : String) (lines : List String) → IsReader (clones_in w snap lines)
  unfolding clones_in
  clones_in-IsReader snap [] = pure-IsReader _
  clones_in-IsReader snap (line ∷ lines) =
      then-IsReader _ _ (unpack_two-IsReader _)
        λ fields. then-IsReader _ _ (clones_in-IsReader snap lines) (λ found. pure-IsReader _)

  pub find_snapshot_clones-IsReader : (snap : String) → IsReader (find_snapshot_clones w snap)
  unfolding find_snapshot_clones
  find_snapshot_clones-IsReader snap =
      then-IsReader _ _ (lines_of-Does IsRead w _ refl) (clones_in-IsReader snap)

  pub log_pool_tree-IsReader : (pool : String) → IsReader (log_pool_tree w pool)
  unfolding log_pool_tree
  log_pool_tree-IsReader pool =
      then-IsReader _ _ (run_zfs-Does IsRead w _ refl) (λ out. pure-IsReader tt)

  volblocksize_key-IsReader : (o : Option (String × String)) → IsReader (volblocksize_key w o)
  unfolding volblocksize_key
  volblocksize_key-IsReader none = pure-IsReader _
  volblocksize_key-IsReader (some (value, source)) =
      then-IsReader _ _ (int_or_raise-Does IsRead w _) (λ bytes. pure-IsReader _)

  pub vol_get_zfs_properties_dict-IsReader :
      (name : String) → IsReader (vol_get_zfs_properties_dict w name)
  unfolding vol_get_zfs_properties_dict vol_get_properties_batch keys_of
  vol_get_zfs_properties_dict-IsReader name =
      try_any-Does IsRead _ _
        (then-IsReader _ _
          (then-IsReader _ _ (run_zfs-Does IsRead w _ refl) (λ out. pure-IsReader _))
          λ props.
            try_any-Does IsRead _ _
              (then-IsReader _ _ (volblocksize_key-IsReader _) (λ block. pure-IsReader _))
              (λ e. pure-IsReader _))
        (λ e. pure-IsReader _)
