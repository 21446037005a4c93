-- ===== src/Tests/Worlds.antt =====
-- Outside worlds for the tests.
use zfs_live_xapi.Prelude.{String, true, false, Option, none, some, List, [], ◌∷◌, if◌then◌else◌}
use zfs_live_xapi.Prelude.Lists.{contains}
use zfs_live_xapi.Effects.{World, no_metadata, Vdi, Completed, exited, ok}
use zfs_live_xapi.Lzc.{required_symbols, nvpair_required_symbols}

-- A snapshot of 1 MiB, `s1` of volume `p`.
abbrev pub snapshot_row : Vdi
snapshot_row = record {
  uuid = "s1";
  name = "disk";
  description = "";
  image_type = 3;
  sharable = false;
  volume = record { id = 7; parent_id = some 4; vsize = some 1048576; snap = true };
}

abbrev pub answers : String → Option Completed
answers out = some (record { stdout = out; stderr = ""; returncode = exited 0 })

-- The pool has the volume `p`, its snapshot `s1` and a clone `other` of that.
abbrev pub lists_pool : List String → Option Completed
lists_pool cmd =
    if contains cmd "snapshot"
    then answers "tank/vols/p@s1\n"
    else if contains cmd "name,origin"
    then answers "tank/vols/p\t-\ntank/vols/other\ttank/vols/p@s1\n"
    else answers "0"

abbrev pub lab_metadata : List (String × String)
lab_metadata =
    ("zpool", "tank")
    ∷ ("dataset", "vols")
    ∷ ("uuid", "sr-1")
    ∷ ("name", "disks")
    ∷ ("description", "")
    ∷ ("auto_cleanup_orphans", "true")
    ∷ ("orphan_grace_period_seconds", "3600")
    ∷ []

-- Nothing is refused, and every ioctl answers EBUSY.
abbrev pub lab : World
lab = record {
  run = λ h cmd. lists_pool cmd;
  pipe = λ h send recv. none;
  lzc = λ h c. 16;
  refuses = λ h c. none;
  blocks = λ h s. none;
  spoils = λ h s. none;
  volume_id = λ h c. 9;
  vdi = λ h key. snapshot_row;
  vdi_of_volume = λ h id. none;
  custom_keys = λ h uuid. [];
  uuid4 = λ h. "u";
  image_raw = 1;
  base_format = λ t. none;
  zfs_core = none ∷ some ("lzc_snapshot" ∷ "lzc_clone" ∷ "lzc_create" ∷ required_symbols) ∷ [];
  nvpair = some ("fnvlist_add_uint64" ∷ nvpair_required_symbols) ∷ [];
  init_rc = 0;
  sha256_16 = λ s. "0123456789abcdef";
  dp_metadata = λ h path. no_metadata;
  is_alive = λ h pid. true;
  now = λ h. 100000;
  all_vdis = λ h. snapshot_row ∷ [];
  all_custom_keys = λ h. [];
  is_dir = λ h path. true;
  is_empty_dir = λ h path. false;
  sr_metadata = λ h path. ok lab_metadata;
  sidecar = λ h uuid. none;
  fails = λ h c. none;
}

abbrev pub out_of_space : Completed
out_of_space = record { stdout = ""; stderr = "out of space"; returncode = exited 1 }
