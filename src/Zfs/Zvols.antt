-- ===== src/Zfs/Zvols.antt =====
-- Zvols, snapshots and clones: creation, destruction and listing.
use zfs_live_xapi.Prelude.{
  ℕ, zero, suc, ◌+◌, ◌*◌, ◌/◌, ◌%◌, String, ◌<>◌, Bool, true, false, not, ◌&&◌, ◌||◌, Option, none,
  some, List, [], ◌∷◌, ◌++◌, ◌==◌, str_eq, if◌then◌else◌,
}
use zfs_live_xapi.Prelude.Text.{split, strip, parse_int, first_or}
use zfs_live_xapi.Effects.{
  World, is_code, LzcCall, destroy, snapshot, clone, create, lzc_failed, value_error, M, pure,
  raise, spawn, piped, os_error, called_process_error, ok, err, Result, ReturnCode, ◌>>=◌, ◌>>◌,
}
use zfs_live_xapi.Lzc.{
  available, nvlist_available, clone_available, create_zvol_available, destroy_with_retry,
  snapshot_with_retry, clone_with_retry, create_zvol_with_retry,
}
use zfs_live_xapi.Zfs.Command.{run_zfs, run_zfs_command_with_retry, lines_of, int_of, int_or_raise}
use zfs_live_xapi.Zfs.Datasets.{slash}

abbrev digit : ℕ → String
digit n =
    if n == 0
    then "0"
    else if n == 1
    then "1"
    else if n == 2
    then "2"
    else if n == 3
    then "3"
    else if n == 4
    then "4"
    else if n == 5
    then "5"
    else if n == 6
    then "6"
    else if n == 7
    then "7"
    else if n == 8
    then "8"
    else "9"

show_digits : ℕ → ℕ → String → String
show_digits zero n acc = acc
show_digits (suc fuel) n acc =
    let more = show_digits fuel (n / 10) (digit (n % 10) <> acc) in
    if n / 10 == 0 then digit (n % 10) <> acc else more

-- `str(n)`; a number has no more digits than its value plus one.
unfoldable pub show : ℕ → String
unfolding show_digits
show n = show_digits (n + 1) n ""

unfoldable pub format_zvol_name : String → String → String
format_zvol_name pool_name vol_id = pool_name <> ("/" <> vol_id)

unfoldable pub format_snap_name : String → String → String → String
format_snap_name pool_name vol_id snap_id = pool_name <> ("/" <> (vol_id <> ("@" <> snap_id)))

abbrev pub at_sign : ℕ
at_sign = 64

abbrev pub tab : ℕ
tab = 9

-- `-o name=value`, or nothing for `None`.
unfoldable pub option_args : String → Option String → List String
option_args name none = []
option_args name (some value) = "-o" ∷ (name <> ("=" <> value)) ∷ []

-- The per-zvol overrides of `create_zvol`; `none` inherits from the parent dataset.
pub record Overrides : Type 0 where
  pub copies : Option String
  pub compression : Option String
  pub sync : Option String
  pub primarycache : Option String
  pub logbias : Option String

abbrev pub no_overrides : Overrides
no_overrides = record {
  copies = none;
  compression = none;
  sync = none;
  primarycache = none;
  logbias = none;
}

abbrev pub is_some {ℓ} : {A : Type ℓ} → Option A → Bool
is_some none = false
is_some (some a) = true

unfoldable pub has_extra_props : Overrides → Bool
has_extra_props o =
    is_some o.copies
    || (is_some o.compression || (is_some o.sync || (is_some o.primarycache || is_some o.logbias)))

unfoldable pub create_zvol_args : String → ℕ → Bool → ℕ → Overrides → List String
create_zvol_args path size thin volblocksize o =
    "zfs"
    ∷ "create"
    ∷ ((if thin then "-s" ∷ [] else [])
        ++ ("-o" ∷ ("volblocksize=" <> show volblocksize) ∷ [])
        ++ option_args "copies" o.copies
        ++ option_args "compression" o.compression
        ++ option_args "sync" o.sync
        ++ option_args "primarycache" o.primarycache
        ++ option_args "logbias" o.logbias
        ++ ("-V" ∷ show size ∷ path ∷ []))

module _ (w : World) where
  -- `None` on an errno of 0, an `InternalError` on another.
  unfoldable pub check_lzc : LzcCall → ℕ → M (Unit {0})
  check_lzc call rc = if rc == 0 then pure tt else raise (lzc_failed call rc)

  unfoldable pub run_quietly : List String → M (Unit {0})
  run_quietly cmd = do run_zfs_command_with_retry w cmd; pure tt

  -- `subprocess.check_call`: a non-zero exit is `False`.
  unfoldable pub vol_exists : String → M Bool
  vol_exists zvol_path = do
    proc ← spawn w ("zfs" ∷ "list" ∷ "-H" ∷ zvol_path ∷ [])
    pure (is_code 0 proc.returncode)

  unfoldable pub vol_get_property : String → String → M String
  vol_get_property vol_name prop = do
    out ← run_zfs w ("zfs" ∷ "get" ∷ "-Hp" ∷ "-o" ∷ "value" ∷ prop ∷ vol_name ∷ [])
    pure (strip out)

  unfoldable pub vol_set_property : String → String → String → M (Unit {0})
  vol_set_property vol_name prop value =
      run_quietly ("zfs" ∷ "set" ∷ (prop <> ("=" <> value)) ∷ vol_name ∷ [])

  unfoldable pub vol_inherit_property : String → String → M (Unit {0})
  vol_inherit_property vol_name prop = run_quietly ("zfs" ∷ "inherit" ∷ prop ∷ vol_name ∷ [])

  unfoldable pub get_zvol_size_bytes : String → M ℕ
  get_zvol_size_bytes name =
      int_of w ("zfs" ∷ "get" ∷ "-Hp" ∷ "-o" ∷ "value" ∷ "volsize" ∷ name ∷ [])

  unfoldable pub get_zvol_used_bytes : String → M ℕ
  get_zvol_used_bytes name = int_of w ("zfs" ∷ "get" ∷ "-Hp" ∷ "-o" ∷ "value" ∷ "used" ∷ name ∷ [])

  unfoldable pub dataset_get_available : String → M ℕ
  dataset_get_available name =
      int_of w ("zfs" ∷ "get" ∷ "-Hp" ∷ "-o" ∷ "value" ∷ "available" ∷ name ∷ [])

  unfoldable pub set_refreservation : ℕ → String → M (Unit {0})
  set_refreservation reservation path =
      run_quietly ("zfs" ∷ "set" ∷ ("refreservation=" <> show reservation) ∷ path ∷ [])

  -- `int(copies)` of the explicit or of the effective value.
  unfoldable pub copies_of : String → Option String → M ℕ
  copies_of path (some copies) = int_or_raise w (parse_int copies)
  copies_of path none = do
    effective ← vol_get_property path "copies"
    int_or_raise w (parse_int effective)

  unfoldable pub reserve_thick : String → ℕ → Option String → M (Unit {0})
  reserve_thick path size copies = do
    copies_val ← copies_of path copies
    set_refreservation (size * copies_val) path

  unfoldable pub create_zvol_by_command : String → ℕ → Bool → ℕ → Overrides → M (Unit {0})
  create_zvol_by_command path size thin volblocksize o = do
    run_quietly (create_zvol_args path size thin volblocksize o)
    if thin then pure tt else reserve_thick path size o.copies

  unfoldable pub create_zvol : String → ℕ → Bool → ℕ → Overrides → M (Unit {0})
  create_zvol path size thin volblocksize o =
      if thin && not (has_extra_props o) && create_zvol_available w
      then create_zvol_with_retry w path size volblocksize
        >>= check_lzc (create path size volblocksize)
      else create_zvol_by_command path size thin volblocksize o

  unfoldable pub destroy_zvol : String → M (Unit {0})
  destroy_zvol path =
      if available w
      then destroy_with_retry w path >>= check_lzc (destroy path)
      else run_quietly ("zfs" ∷ "destroy" ∷ path ∷ [])

  unfoldable pub promote_clone : String → M (Unit {0})
  promote_clone path = run_quietly ("zfs" ∷ "promote" ∷ path ∷ [])

  unfoldable pub resize_zvol : String → ℕ → M (Unit {0})
  resize_zvol path new_size =
      run_quietly ("zfs" ∷ "set" ∷ ("volsize=" <> show new_size) ∷ path ∷ [])

  unfoldable pub take_snapshot : String → M (Unit {0})
  take_snapshot name =
      if nvlist_available w
      then snapshot_with_retry w name >>= check_lzc (snapshot name)
      else run_quietly ("zfs" ∷ "snapshot" ∷ name ∷ [])

  unfoldable pub clone_snapshot : String → String → M (Unit {0})
  clone_snapshot snap_name clone_name =
      if clone_available w
      then clone_with_retry w clone_name snap_name >>= check_lzc (clone clone_name snap_name)
      else run_quietly ("zfs" ∷ "clone" ∷ snap_name ∷ clone_name ∷ [])

  -- `zfs send -c | zfs receive`; the sender's status is looked at first.
  unfoldable pub pipe_result :
      List String → List String → Option (ReturnCode × ReturnCode) → Result (Unit {0})
  pipe_result send recv none = err os_error
  pipe_result send recv (some (sent, received)) =
      if not (is_code 0 sent)
      then err (called_process_error send sent)
      else if not (is_code 0 received)
      then err (called_process_error recv received)
      else ok tt

  unfoldable pub vol_send_receive : String → String → M (Unit {0})
  vol_send_receive src_snap dest_vol h =
      let send : List String = "zfs" ∷ "send" ∷ "-c" ∷ src_snap ∷ [] in
      let recv : List String = "zfs" ∷ "receive" ∷ dest_vol ∷ [] in
      (pipe_result send recv (w.pipe h send recv), piped send recv ∷ h)

  -- Unpacking into two names raises for any other number of fields.
  unfoldable pub unpack_two : List String → M (String × String)
  unpack_two (a ∷ b ∷ []) = let fields : String × String = (a, b) in pure fields
  unpack_two _ = raise value_error

  -- The first snapshot whose name has the id behind its `@`.
  unfoldable pub find_by_id : String → List String → M (Option String)
  find_by_id snap_id [] = pure none
  find_by_id snap_id (name ∷ names) = do
    fields ← unpack_two (split at_sign name)
    let more = find_by_id snap_id names
    if str_eq fields.1 snap_id then pure (some name) else more

  unfoldable pub find_snapshot_by_uuid : String → String → M (Option String)
  find_snapshot_by_uuid pool_name snap_id = do
    names ←
        lines_of w
          ("zfs" ∷ "list" ∷ "-t" ∷ "snapshot" ∷ "-Hp" ∷ "-o" ∷ "name" ∷ "-r" ∷ pool_name ∷ [])
    find_by_id snap_id names

  unfoldable pub list_zvol_snapshots : String → M (List String)
  list_zvol_snapshots name =
      lines_of w ("zfs" ∷ "list" ∷ "-Hp" ∷ "-t" ∷ "snapshot" ∷ "-o" ∷ "name" ∷ name ∷ [])

  -- The datasets whose origin is the snapshot, from lines of a name and an origin.
  unfoldable pub clones_in : String → List String → M (List String)
  clones_in snap_name [] = pure []
  clones_in snap_name (line ∷ lines) = do
    fields ← unpack_two (split tab line)
    found ← clones_in snap_name lines
    pure (if str_eq fields.1 snap_name then fields.0 ∷ found else found)

  unfoldable pub find_snapshot_clones : String → M (List String)
  find_snapshot_clones snap_name = do
    let pool_name = first_or "" (split at_sign (first_or "" (split slash snap_name)))
    lines ← lines_of w ("zfs" ∷ "list" ∷ "-Hp" ∷ "-r" ∷ "-o" ∷ "name,origin" ∷ pool_name ∷ [])
    clones_in snap_name lines

  unfoldable pub log_pool_tree : String → M (Unit {0})
  log_pool_tree pool_name = do
    run_zfs w ("zfs" ∷ "list" ∷ "-t" ∷ "all" ∷ "-Hp" ∷ "-r" ∷ "-o" ∷ "name,origin" ∷ pool_name ∷ [])
    pure tt
