-- ===== src/Zfs/Outside.antt =====
-- The helpers of zfs_operations.py and lzc.py reach ZFS alone: no metabase, no scope.
use zfs_live_xapi.Prelude.{ℕ, String, Bool, Option, none, some, List, [], ◌∷◌, refl, if◌then◌else◌}
use zfs_live_xapi.Effects.{
  World, Event, spawned, slept, ioctl, LzcCall, M, ReturnCode, piped, Error, pure, raise,
  try_except, ◌>>=◌,
}
use zfs_live_xapi.Effects.Triple.{
  Does, Anything, pure-Does, raise-Does, then-Does, try_any-Does, if_any-Does, spawn-Does,
  call_lzc-Does,
}
use zfs_live_xapi.Effects.Kinds.{IsOutside}
use zfs_live_xapi.Lzc.{
  with_retry, destroy_one, snapshot_one, clone_one, create_one, destroy_with_retry,
  snapshot_with_retry, clone_with_retry, create_zvol_with_retry,
}
use zfs_live_xapi.Lzc.Kinds.{with_retry-Does as lzc_retry}
use zfs_live_xapi.Zfs.Command.{run_zfs_command_with_retry}
use zfs_live_xapi.Zfs.Kinds.{
  run_zfs-Does, lines_of-Does, int_of-Does, int_or_raise-Does, with_retry-Does,
}
use zfs_live_xapi.Zfs.Zvols.{
  check_lzc, run_quietly, vol_exists, vol_get_property, vol_set_property, vol_inherit_property,
  get_zvol_size_bytes, get_zvol_used_bytes, dataset_get_available, set_refreservation, copies_of,
  reserve_thick, create_zvol_by_command, create_zvol, Overrides, destroy_zvol, promote_clone,
  resize_zvol, take_snapshot, clone_snapshot, vol_send_receive, unpack_two, find_by_id,
  find_snapshot_by_uuid, list_zvol_snapshots, clones_in, find_snapshot_clones, log_pool_tree,
}
use zfs_live_xapi.Zfs.Reported.{
  vol_get_properties_batch, volblocksize_key, keys_of, vol_get_zfs_properties_dict,
}
use zfs_live_xapi.Zfs.Reservation.{
  vol_get_refreservation, thick_reservation, vol_sync_thick_refreservation,
  vol_set_thick_refreservation,
}

abbrev pub IsZfsOnly : {A : Type 0} → M A → Type 0
IsZfsOnly m = Does IsOutside Anything m

-- The rules at this kind of events, for `search`.
pub pure-IsZfsOnly : {A : Type 0} (a : A) → IsZfsOnly (pure a)
pure-IsZfsOnly a = pure-Does IsOutside Anything a tt

pub raise-IsZfsOnly : {A : Type 0} (e : Error) → IsZfsOnly (raise {A = A} e)
raise-IsZfsOnly e = raise-Does IsOutside Anything e

pub then-IsZfsOnly :
    {A B : Type 0} (m : M A) (f : A → M B)
    → IsZfsOnly m
    → ((a : A) → IsZfsOnly (f a))
    → IsZfsOnly (m >>= f)
then-IsZfsOnly m f = then-Does IsOutside Anything m f

pub if-IsZfsOnly :
    {A : Type 0} (b : Bool) (m n : M A) → IsZfsOnly m → IsZfsOnly n → IsZfsOnly (if b then m else n)
if-IsZfsOnly b m n = if_any-Does IsOutside Anything b m n

pub try-IsZfsOnly :
    {A : Type 0} (m : M A) (f : Error → M A)
    → IsZfsOnly m
    → ((e : Error) → IsZfsOnly (f e))
    → IsZfsOnly (try_except m f)
try-IsZfsOnly m f = try_any-Does IsOutside m f

pub ruleset zfs_rules =
    (pure-IsZfsOnly, raise-IsZfsOnly, then-IsZfsOnly, if-IsZfsOnly, try-IsZfsOnly)

module _ (w : World) where
  with_retry-IsZfsOnly :
      (n : ℕ) (attempt : M ℕ) → IsZfsOnly attempt → IsZfsOnly (with_retry w n attempt)
  with_retry-IsZfsOnly n attempt d = lzc_retry IsOutside w n attempt refl d

  ioctl-IsZfsOnly : (c : LzcCall) → IsZfsOnly (zfs_live_xapi.Effects.call_lzc w c)
  ioctl-IsZfsOnly c = call_lzc-Does IsOutside w c refl

  destroy_with_retry-IsZfsOnly : (name : String) → IsZfsOnly (destroy_with_retry w name)
  unfolding destroy_with_retry destroy_one
  destroy_with_retry-IsZfsOnly name = search (zfs_rules, with_retry-IsZfsOnly, ioctl-IsZfsOnly)

  snapshot_with_retry-IsZfsOnly : (name : String) → IsZfsOnly (snapshot_with_retry w name)
  unfolding snapshot_with_retry snapshot_one
  snapshot_with_retry-IsZfsOnly name = search (zfs_rules, with_retry-IsZfsOnly, ioctl-IsZfsOnly)

  clone_with_retry-IsZfsOnly :
      (fsname origin : String) → IsZfsOnly (clone_with_retry w fsname origin)
  unfolding clone_with_retry clone_one
  clone_with_retry-IsZfsOnly fsname origin =
      search (zfs_rules, with_retry-IsZfsOnly, ioctl-IsZfsOnly)

  create_zvol_with_retry-IsZfsOnly :
      (name : String) (size block : ℕ) → IsZfsOnly (create_zvol_with_retry w name size block)
  unfolding create_zvol_with_retry create_one
  create_zvol_with_retry-IsZfsOnly name size block =
      search (zfs_rules, with_retry-IsZfsOnly, ioctl-IsZfsOnly)

  check_lzc-IsZfsOnly : (c : LzcCall) (rc : ℕ) → IsZfsOnly (check_lzc w c rc)
  unfolding check_lzc
  check_lzc-IsZfsOnly c rc = search zfs_rules

  pub run_quietly-IsZfsOnly : (cmd : List String) → IsZfsOnly (run_quietly w cmd)
  unfolding run_quietly
  run_quietly-IsZfsOnly cmd =
      then-IsZfsOnly _ _ (with_retry-Does IsOutside w cmd refl refl) (λ out. pure-IsZfsOnly _)

  pub vol_exists-IsZfsOnly : (name : String) → IsZfsOnly (vol_exists w name)
  unfolding vol_exists
  vol_exists-IsZfsOnly name =
      then-IsZfsOnly _ _ (spawn-Does IsOutside w _ refl) (λ proc. pure-IsZfsOnly _)

  pub vol_get_property-IsZfsOnly : (name prop : String) → IsZfsOnly (vol_get_property w name prop)
  unfolding vol_get_property
  vol_get_property-IsZfsOnly name prop =
      then-IsZfsOnly _ _ (run_zfs-Does IsOutside w _ refl) (λ out. pure-IsZfsOnly _)

  pub get_zvol_size_bytes-IsZfsOnly : (name : String) → IsZfsOnly (get_zvol_size_bytes w name)
  unfolding get_zvol_size_bytes
  get_zvol_size_bytes-IsZfsOnly name = int_of-Does IsOutside w _ refl

  pub get_zvol_used_bytes-IsZfsOnly : (name : String) → IsZfsOnly (get_zvol_used_bytes w name)
  unfolding get_zvol_used_bytes
  get_zvol_used_bytes-IsZfsOnly name = int_of-Does IsOutside w _ refl

  pub dataset_get_available-IsZfsOnly : (name : String) → IsZfsOnly (dataset_get_available w name)
  unfolding dataset_get_available
  dataset_get_available-IsZfsOnly name = int_of-Does IsOutside w _ refl

  pub int_or_raise-IsZfsOnly :
      (o : Option ℕ) → IsZfsOnly (zfs_live_xapi.Zfs.Command.int_or_raise w o)
  int_or_raise-IsZfsOnly o = int_or_raise-Does IsOutside w o

  set_refreservation-IsZfsOnly : (n : ℕ) (name : String) → IsZfsOnly (set_refreservation w n name)
  unfolding set_refreservation
  set_refreservation-IsZfsOnly n name = run_quietly-IsZfsOnly _

  copies_of-IsZfsOnly : (path : String) (o : Option String) → IsZfsOnly (copies_of w path o)
  unfolding copies_of
  copies_of-IsZfsOnly path none =
      search (zfs_rules, vol_get_property-IsZfsOnly, int_or_raise-IsZfsOnly)
  copies_of-IsZfsOnly path (some copies) = int_or_raise-IsZfsOnly _

  pub create_zvol-IsZfsOnly :
      (path : String) (size : ℕ) (thin : Bool) (block : ℕ) (o : Overrides)
      → IsZfsOnly (create_zvol w path size thin block o)
  unfolding create_zvol create_zvol_by_command reserve_thick
  create_zvol-IsZfsOnly path size thin block o = search (
    zfs_rules, create_zvol_with_retry-IsZfsOnly, check_lzc-IsZfsOnly, run_quietly-IsZfsOnly,
    copies_of-IsZfsOnly, set_refreservation-IsZfsOnly,
  )

  pub destroy_zvol-IsZfsOnly : (name : String) → IsZfsOnly (destroy_zvol w name)
  unfolding destroy_zvol
  destroy_zvol-IsZfsOnly name =
      search (zfs_rules, destroy_with_retry-IsZfsOnly, check_lzc-IsZfsOnly, run_quietly-IsZfsOnly)

  pub take_snapshot-IsZfsOnly : (name : String) → IsZfsOnly (take_snapshot w name)
  unfolding take_snapshot
  take_snapshot-IsZfsOnly name =
      search (zfs_rules, snapshot_with_retry-IsZfsOnly, check_lzc-IsZfsOnly, run_quietly-IsZfsOnly)

  pub clone_snapshot-IsZfsOnly : (snap name : String) → IsZfsOnly (clone_snapshot w snap name)
  unfolding clone_snapshot
  clone_snapshot-IsZfsOnly snap name =
      search (zfs_rules, clone_with_retry-IsZfsOnly, check_lzc-IsZfsOnly, run_quietly-IsZfsOnly)

  pub promote_clone-IsZfsOnly : (name : String) → IsZfsOnly (promote_clone w name)
  unfolding promote_clone
  promote_clone-IsZfsOnly name = run_quietly-IsZfsOnly _

  pub resize_zvol-IsZfsOnly : (name : String) (size : ℕ) → IsZfsOnly (resize_zvol w name size)
  unfolding resize_zvol
  resize_zvol-IsZfsOnly name size = run_quietly-IsZfsOnly _

  pub vol_set_property-IsZfsOnly :
      (name prop value : String) → IsZfsOnly (vol_set_property w name prop value)
  unfolding vol_set_property
  vol_set_property-IsZfsOnly name prop value = run_quietly-IsZfsOnly _

  pub vol_inherit_property-IsZfsOnly :
      (name prop : String) → IsZfsOnly (vol_inherit_property w name prop)
  unfolding vol_inherit_property
  vol_inherit_property-IsZfsOnly name prop = run_quietly-IsZfsOnly _

  pub vol_send_receive-IsZfsOnly : (snap vol : String) → IsZfsOnly (vol_send_receive w snap vol)
  unfolding vol_send_receive
  vol_send_receive-IsZfsOnly snap vol = record {
    ends = λ h. (piped _ _ ∷ [], refl, (refl, tt), λ a e. tt);
  }

  unpack_two-IsZfsOnly : (fields : List String) → IsZfsOnly (unpack_two w fields)
  unfolding unpack_two
  unpack_two-IsZfsOnly (a ∷ b ∷ []) = pure-IsZfsOnly _
  unpack_two-IsZfsOnly _ = raise-IsZfsOnly _

  find_by_id-IsZfsOnly : (id : String) (names : List String) → IsZfsOnly (find_by_id w id names)
  unfolding find_by_id
  find_by_id-IsZfsOnly id [] = pure-IsZfsOnly none
  find_by_id-IsZfsOnly id (name ∷ names) =
      then-IsZfsOnly _ _ (unpack_two-IsZfsOnly _)
        λ fields. if-IsZfsOnly _ _ _ (pure-IsZfsOnly _) (find_by_id-IsZfsOnly id names)

  clones_in-IsZfsOnly : (snap : String) (lines : List String) → IsZfsOnly (clones_in w snap lines)
  unfolding clones_in
  clones_in-IsZfsOnly snap [] = pure-IsZfsOnly _
  clones_in-IsZfsOnly snap (line ∷ lines) =
      then-IsZfsOnly _ _ (unpack_two-IsZfsOnly _)
        λ fields. then-IsZfsOnly _ _ (clones_in-IsZfsOnly snap lines) (λ found. pure-IsZfsOnly _)

  pub find_snapshot_by_uuid-IsZfsOnly :
      (pool id : String) → IsZfsOnly (find_snapshot_by_uuid w pool id)
  unfolding find_snapshot_by_uuid
  find_snapshot_by_uuid-IsZfsOnly pool id =
      then-IsZfsOnly _ _ (lines_of-Does IsOutside w _ refl) (find_by_id-IsZfsOnly id)

  pub list_zvol_snapshots-IsZfsOnly : (name : String) → IsZfsOnly (list_zvol_snapshots w name)
  unfolding list_zvol_snapshots
  list_zvol_snapshots-IsZfsOnly name = lines_of-Does IsOutside w _ refl

  pub find_snapshot_clones-IsZfsOnly : (snap : String) → IsZfsOnly (find_snapshot_clones w snap)
  unfolding find_snapshot_clones
  find_snapshot_clones-IsZfsOnly snap =
      then-IsZfsOnly _ _ (lines_of-Does IsOutside w _ refl) (clones_in-IsZfsOnly snap)

  pub log_pool_tree-IsZfsOnly : (pool : String) → IsZfsOnly (log_pool_tree w pool)
  unfolding log_pool_tree
  log_pool_tree-IsZfsOnly pool =
      then-IsZfsOnly _ _ (run_zfs-Does IsOutside w _ refl) (λ out. pure-IsZfsOnly tt)

  pub vol_get_refreservation-IsZfsOnly : (name : String) → IsZfsOnly (vol_get_refreservation w name)
  unfolding vol_get_refreservation
  vol_get_refreservation-IsZfsOnly name =
      search (zfs_rules, vol_get_property-IsZfsOnly, int_or_raise-IsZfsOnly)

  thick_reservation-IsZfsOnly : (name : String) → IsZfsOnly (thick_reservation w name)
  unfolding thick_reservation
  thick_reservation-IsZfsOnly name =
      search (
        zfs_rules, get_zvol_size_bytes-IsZfsOnly, vol_get_property-IsZfsOnly,
        int_or_raise-IsZfsOnly,
      )

  pub vol_sync_thick_refreservation-IsZfsOnly :
      (name : String) → IsZfsOnly (vol_sync_thick_refreservation w name)
  unfolding vol_sync_thick_refreservation
  vol_sync_thick_refreservation-IsZfsOnly name = search (
    zfs_rules, vol_get_refreservation-IsZfsOnly, thick_reservation-IsZfsOnly,
    set_refreservation-IsZfsOnly,
  )

  pub vol_set_thick_refreservation-IsZfsOnly :
      (name : String) → IsZfsOnly (vol_set_thick_refreservation w name)
  unfolding vol_set_thick_refreservation
  vol_set_thick_refreservation-IsZfsOnly name =
      search (zfs_rules, thick_reservation-IsZfsOnly, set_refreservation-IsZfsOnly)

  batch-IsZfsOnly :
      (name : String) (props : List String) → IsZfsOnly (vol_get_properties_batch w name props)
  unfolding vol_get_properties_batch
  batch-IsZfsOnly name props =
      then-IsZfsOnly _ _ (run_zfs-Does IsOutside w _ refl) (λ out. pure-IsZfsOnly _)

  volblocksize_key-IsZfsOnly : (o : Option (String × String)) → IsZfsOnly (volblocksize_key w o)
  unfolding volblocksize_key
  volblocksize_key-IsZfsOnly none = pure-IsZfsOnly _
  volblocksize_key-IsZfsOnly (some (value, source)) =
      then-IsZfsOnly _ _ (int_or_raise-IsZfsOnly _) (λ bytes. pure-IsZfsOnly _)

  pub vol_get_zfs_properties_dict-IsZfsOnly :
      (name : String) → IsZfsOnly (vol_get_zfs_properties_dict w name)
  unfolding vol_get_zfs_properties_dict keys_of
  vol_get_zfs_properties_dict-IsZfsOnly name =
      search (zfs_rules, batch-IsZfsOnly, volblocksize_key-IsZfsOnly) depth 8
