-- ===== src/Zfs/Orphans.antt =====
-- Zvols and snapshots that the metabase does not know: `zvol_find_orphans`, `zsnap_find_orphans` and
-- their clean-up, with the listings and the signs of use that they consult.
use zfs_live_xapi.Prelude.{
  ℕ, zero, suc, ◌+◌, String, ◌<>◌, Bool, true, false, Option, none, some, List, [], ◌∷◌, ◌==◌, ltb,
  str_eq, if◌then◌else◌,
}
use zfs_live_xapi.Prelude.Lists.{contains, drop}
use zfs_live_xapi.Prelude.Text.{split, partition, strip, splitlines, last_or, parse_int}
use zfs_live_xapi.Effects.{
  World, DpMetadata, no_metadata, unreadable, with_pid, Error, is_internal_error, os_error,
  eof_error, unpickling_error, key_error, is_code, called_process_error, M, pure, raise, try_except,
  look, ok, err, spawn, ◌>>=◌, ◌>>◌,
}
use zfs_live_xapi.Zfs.Command.{run_zfs}
use zfs_live_xapi.Zfs.Datasets.{slash}
use zfs_live_xapi.Zfs.Zvols.{at_sign, show, destroy_zvol}
use zfs_live_xapi.Zfs.Reported.{find_prop, vol_get_properties_batch}

-- A tuple `(zvol_name, volsize, creation)` or `(snap_name, used, creation)`.
pub record Orphan : Type 0 where
  pub name : String
  pub size : String
  pub creation : String

-- `props.get(name, ("?",))[0]`
unfoldable pub value_or_unknown : Option (String × String) → String
value_or_unknown none = "?"
value_or_unknown (some (value, source)) = value

unfoldable pub nonempty_lines : List String → List String
nonempty_lines [] = []
nonempty_lines (line ∷ lines) =
    let rest = nonempty_lines lines in if str_eq line "" then rest else line ∷ rest

-- The exceptions that `_zvol_has_active_datapath` takes for an idle zvol.
abbrev pub is_stale : Error → Bool
is_stale os_error = true
is_stale eof_error = true
is_stale unpickling_error = true
is_stale key_error = true
is_stale _ = false

unfoldable pub dev_path : String → String
dev_path zvol_path = "/dev/zvol/" <> zvol_path

module _ (w : World) where
  -- `except xapi.InternalError: return []`
  unfoldable pub none_on_internal_error : M (List String) → M (List String)
  none_on_internal_error m = try_except m λ e. if is_internal_error e then pure [] else raise e

  unfoldable pub dataset_list_children : String → M (List String)
  dataset_list_children name = none_on_internal_error do
    out ← run_zfs w ("zfs" ∷ "list" ∷ "-Hr" ∷ "-o" ∷ "name" ∷ "-t" ∷ "filesystem" ∷ name ∷ [])
    pure (drop 1 (splitlines (strip out)))

  unfoldable pub dataset_list_zvols : String → M (List String)
  dataset_list_zvols name = none_on_internal_error do
    out ← run_zfs w ("zfs" ∷ "list" ∷ "-Hd1" ∷ "-t" ∷ "volume" ∷ "-o" ∷ "name" ∷ name ∷ [])
    pure (nonempty_lines (splitlines (strip out)))

  unfoldable pub dataset_list_snapshots : String → M (List String)
  dataset_list_snapshots name = none_on_internal_error do
    out ← run_zfs w ("zfs" ∷ "list" ∷ "-Hd2" ∷ "-t" ∷ "snapshot" ∷ "-o" ∷ "name" ∷ name ∷ [])
    pure (nonempty_lines (splitlines (strip out)))

  -- `subprocess.check_call`, which raises for another status than 0; a failure to run fuser counts as
  -- a device that is not in use.
  unfoldable pub zvol_device_is_open : String → M Bool
  zvol_device_is_open zvol_path =
      try_except
        (do
          proc ← spawn w ("fuser" ∷ "-s" ∷ dev_path zvol_path ∷ [])
          if is_code 0 proc.returncode
              then pure true
              else raise
                  (called_process_error ("fuser" ∷ "-s" ∷ dev_path zvol_path ∷ []) proc.returncode))
        (λ e. pure false)

  -- `os.kill(pid, 0)`, which raises an `OSError` where there is no such process.
  unfoldable pub kill_0 : ℕ → M (Unit {0})
  kill_0 pid =
      look w (show pid) λ h. elim (w.is_alive h pid) [ true ↦ ok tt | false ↦ err os_error ]

  -- A pid of 0 counts as none.
  unfoldable pub serves : Option ℕ → M Bool
  serves none = pure false
  serves (some pid) = if pid == 0 then pure false else kill_0 pid >> pure true

  unfoldable pub load_metadata : DpMetadata → M Bool
  load_metadata no_metadata = pure false
  load_metadata (unreadable e) = raise e
  load_metadata (with_pid pid) = serves pid

  unfoldable pub metadata_file : String → String
  metadata_file zvol_path =
      "/var/run/nonpersistent/dp-raw-qdisk/"
      <> (w.sha256_16 (dev_path zvol_path) <> "/qemu-dp-raw.pickle")

  unfoldable pub zvol_has_active_datapath : String → M Bool
  zvol_has_active_datapath zvol_path =
      try_except
        (look w (metadata_file zvol_path) (λ h. ok (w.dp_metadata h (metadata_file zvol_path)))
          >>= load_metadata)
        (λ e. if is_stale e then pure false else raise e)

  -- The size, under the property's name `field`, and the creation; "?" for both where ZFS fails.
  unfoldable pub describe : String → String → M Orphan
  describe name field =
      try_except
        (do
          props ← vol_get_properties_batch w name (field ∷ "creation" ∷ [])
          pure (record {
            name = name;
            size = value_or_unknown (find_prop field props);
            creation = value_or_unknown (find_prop "creation" props);
          }))
        (λ e. pure (record { name = name; size = "?"; creation = "?" }))

  -- The checks of one name against use: those of the zvol `zvol`, which is the parent of a snapshot.
  unfoldable pub unless_in_use : String → String → String → M (Option Orphan)
  unless_in_use zvol name field = do
    opened ← zvol_device_is_open zvol
    if opened then pure none else (do
      active ← zvol_has_active_datapath zvol
      if active then pure none else (do o ← describe name field; pure (some o)))

  unfoldable pub zvol_orphan : List String → String → M (Option Orphan)
  zvol_orphan known name =
      if contains known (last_or name (split slash name))
      then pure none
      else unless_in_use name name "volsize"

  unfoldable pub snapshot_orphan : List String → String → Option String → String → M (Option Orphan)
  snapshot_orphan known parent none name = pure none
  snapshot_orphan known parent (some uuid) name =
      if contains known uuid then pure none else unless_in_use parent name "used"

  unfoldable pub zsnap_orphan : List String → String → M (Option Orphan)
  zsnap_orphan known name =
      let (parent, uuid) = partition at_sign name in snapshot_orphan known parent uuid name

  unfoldable pub add_orphan : Option Orphan → List Orphan → List Orphan
  add_orphan none orphans = orphans
  add_orphan (some o) orphans = o ∷ orphans

  -- The loop over the names, with the check of one of them.
  unfoldable pub find_orphans : (String → M (Option Orphan)) → List String → M (List Orphan)
  find_orphans check [] = pure []
  find_orphans check (name ∷ names) = do
    found ← check name
    orphans ← find_orphans check names
    pure (add_orphan found orphans)

  unfoldable pub zvol_find_orphans : String → List String → M (List Orphan)
  zvol_find_orphans dataset known = do
    all_zvols ← dataset_list_zvols dataset
    find_orphans (zvol_orphan known) all_zvols

  unfoldable pub zsnap_find_orphans : String → List String → M (List Orphan)
  zsnap_find_orphans dataset known = do
    all_snaps ← dataset_list_snapshots dataset
    find_orphans (zsnap_orphan known) all_snaps

  -- A failure is logged only.
  unfoldable pub destroy_orphan : String → M (Unit {0})
  destroy_orphan name = try_except (destroy_zvol w name) (λ e. pure tt)

  -- Old enough: without a grace period always, and never with a creation that is no number. The
  -- age of `now - creation` may be negative, so the creation is on the other side.
  unfoldable pub is_ripe : ℕ → ℕ → String → Bool
  is_ripe now zero creation = true
  is_ripe now (suc grace) creation = elim (parse_int creation) [
    | none ↦ false
    | some ts ↦ if ltb now (ts + suc grace) then false else true
  ]

  unfoldable pub destroy_each : ℕ → ℕ → List Orphan → M (Unit {0})
  destroy_each now grace [] = pure tt
  destroy_each now grace (o ∷ orphans) = do
    if is_ripe now grace o.creation then destroy_orphan o.name else pure tt
    destroy_each now grace orphans

  -- The clock is read once, before the loop.
  unfoldable pub destroy_orphans : List Orphan → ℕ → M (Unit {0})
  destroy_orphans orphans grace h = destroy_each (w.now h) grace orphans h

  -- The two differ in what they log.
  unfoldable pub zvol_destroy_orphans : List Orphan → ℕ → M (Unit {0})
  zvol_destroy_orphans orphans grace_period_seconds = destroy_orphans orphans grace_period_seconds

  unfoldable pub zsnap_destroy_orphans : List Orphan → ℕ → M (Unit {0})
  zsnap_destroy_orphans orphans grace_period_seconds = destroy_orphans orphans grace_period_seconds
