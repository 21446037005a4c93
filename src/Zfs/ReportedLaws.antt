-- ===== src/Zfs/ReportedLaws.antt =====
-- `stat` and `ls` get a dictionary of properties whatever ZFS answers.
use zfs_live_xapi.Prelude.{String, ◌≡◌, refl, List, [], ◌∷◌}
use zfs_live_xapi.Effects.{World, History, Result, ok, err, M, pure, try_except, ◌>>=◌}
use zfs_live_xapi.Effects.Triple.{Adds, Anything, Does-Adds}
use zfs_live_xapi.Effects.Kinds.{IsRead}
use zfs_live_xapi.Zfs.Reported.{
  vol_get_properties_batch, mutable_zfs_properties, keys_of, vol_get_zfs_properties_dict,
}
use zfs_live_xapi.Zfs.Readers.{vol_get_zfs_properties_dict-IsReader}

-- An action whose every exception is answered by a value returns.
caught :
    {A : Type 0} (m : M A) (a : A) (h : History)
    → (b : A) × ((try_except m (λ e. pure a) h).0 ≡ ok b)
caught {A} m a h = result (m h).0
  where
    result :
        (r : Result A)
        → (b : A) × ((elim r as (λ _. Result A × History) [
          | ok b ↦ (ok b, (m h).1)
          | err e ↦ (ok a, (m h).1)
        ]).0
            ≡ ok b)
    result (ok b) = (b, refl)
    result (err e) = (a, refl)

-- Reading the properties of a zvol for `stat` returns whatever ZFS answers, and only queries ZFS.
pub vol_get_zfs_properties_dict_returns :
    (w : World) (vol_name : String) (h : History)
    → (keys : List (String × String)) × ((vol_get_zfs_properties_dict w vol_name h).0 ≡ ok keys)
      × Adds IsRead h (vol_get_zfs_properties_dict w vol_name h)
unfolding vol_get_zfs_properties_dict
vol_get_zfs_properties_dict_returns w vol_name h =
    let (keys, e) =
      caught
        (vol_get_properties_batch w vol_name
            ("refreservation" ∷ "volblocksize" ∷ mutable_zfs_properties)
          >>= keys_of w)
        [] h in
    (keys, e, Does-Adds IsRead Anything _ (vol_get_zfs_properties_dict-IsReader w vol_name) h)
