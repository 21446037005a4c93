-- ===== src/Tests.antt =====
-- Runs at concrete inputs, and an instance of each theorem whose statement has conditions.
mod Worlds
mod Bitmaps
mod Wire
mod Wrapper
mod Srs
use zfs_live_xapi.Prelude.{
  ℕ, ◌<◌, String, true, false, Option, none, some, List, [], ◌∷◌, refl, ◌≡◌, ◌↔◌, ◌/◌, arith,
  if◌then◌else◌, ◌⊎◌, inl, inr, ◌≤◌, ◌+◌, ◌*◌, ◌%◌,
}
use zfs_live_xapi.Prelude.Lists.{contains, length}
use zfs_live_xapi.Prelude.Base64.{b64decode}
use zfs_live_xapi.Prelude.Text.{splitlines, strip, rstrip, lstrip, split}
use zfs_live_xapi.ChangedBlocks.Bits.{bit_at}
use zfs_live_xapi.Effects.{
  World, no_metadata, Vdi, Completed, exited, pure, command_failed, storage_error, err, ok, spawned,
  spawn,
}
use zfs_live_xapi.Effects.Kinds.{IsRead, ChangesNothing, IsOutside}
use zfs_live_xapi.Effects.Triple.{Raises, Adds, Anything, pure-Does}
use zfs_live_xapi.Effects.Scopes.{open_scopes, IsDisciplined}
use zfs_live_xapi.Lzc.{
  required_symbols, nvpair_required_symbols, clone_available, op_available, available,
}
use zfs_live_xapi.Volume.{
  SrMeta, sr_dataset, CopyNames, resize, stat, destroy, without, on_error, replicate_volume,
  undo_replicate, remove_if_exists, drop_snapshots, clean_up, destroy_if_parent,
}
use zfs_live_xapi.Zfs.{
  vol_get_zfs_properties_dict, find_snapshot_by_uuid, find_by_id, unpack_two, find_snapshot_clones,
  clones_in, lines_of, run_zfs, run_zfs_command, stdout_of, is_busy_error, destroy_zvol,
  clone_snapshot, format_zvol_name, dataset_path, run_quietly, run_zfs_command_with_retry,
}
use zfs_live_xapi.Tests.Worlds.{snapshot_row, lab, out_of_space}
use zfs_live_xapi.Volume.Datapath.{Datapath}
use zfs_live_xapi.Volume.SnapshotLaws.{destroy-dependents}
use zfs_live_xapi.Volume.KeyLaws.{immutable-refused}
use zfs_live_xapi.Volume.{set, unset, key_kind, valid_mutable_values, strip_prefix}
use zfs_live_xapi.Volume.Dispatch.{Request, serve}
use zfs_live_xapi.Volume.Discipline.Handlers.{IsSeparate}
use zfs_live_xapi.Volume.Discipline.Commands.{serve-IsDisciplined}
use zfs_live_xapi.Zfs.ReportedLaws.{vol_get_zfs_properties_dict_returns}
use zfs_live_xapi.Zfs.RetryLaws.{RunOutcome, run_zfs_command_lem}
use zfs_live_xapi.Lzc.RetryLaws.{rounded_volsize_lem}
use zfs_live_xapi.Lzc.GateLaws.{IsOpen, op_available-IsOpen}
use zfs_live_xapi.Lzc.{rounded_volsize, op_create_zvol}
use zfs_live_xapi.ChangedBlocks.Overlap.{pack_extents_to_bitmap_lem, rounded_span, IsTouched}
use zfs_live_xapi.ChangedBlocks.Pack.{
  aligned_start, aligned_end, block_count, negated_floor_div, pack_bits, mark_extents, mark_extent,
  mark_blocks, mark_block, pack_extents_to_bitmap, Extent,
}
use zfs_live_xapi.Volume.Refusals.{resize-shrink, stat-read_only}

-- No shared library, and every command fails.
abbrev down : World
down = record lab { run = λ h cmd. some out_of_space; zfs_core = [] }

abbrev meta : SrMeta
meta = record {
  zpool = "tank";
  dataset = "vols";
  datapath = "qdisk";
  volblocksize = "";
  provisioning = "thin";
}

abbrev no_datapath : Datapath
no_datapath = record {
  is_installed = false;
  remove_cbt_metadata = λ uri key. pure tt;
  capture_at_snapshot = λ dataset parent snap. pure tt;
  device_key = λ path. path;
}

resize-shrink_example : Raises ChangesNothing [] (resize lab "sr" meta "s1" 4096 [])
resize-shrink_example = resize-shrink lab "sr" meta "s1" 1048576 4096 [] (λ h. refl) (omega arith)

stat-read_only_example : Adds ChangesNothing [] (stat lab "sr" meta "s1" [])
stat-read_only_example = stat-read_only lab "sr" meta "s1" 1048576 [] (λ h. refl)

destroy-dependents_example : Raises ChangesNothing [] (destroy lab no_datapath "sr" meta "s1" [])
unfolding find_snapshot_by_uuid find_by_id unpack_two find_snapshot_clones clones_in lines_of
    run_zfs run_zfs_command stdout_of spawn without splitlines strip rstrip lstrip split
    format_zvol_name sr_dataset dataset_path
destroy-dependents_example =
    destroy-dependents lab no_datapath "sr" meta "s1" "s1" "tank/vols/p@s1" "tank/vols/other"
      1048576 [] ("tank/vols/other" ∷ []) [] (λ h. (refl, refl, refl)) (λ h. refl) (λ h. refl) refl

-- Every command fails as busy.
abbrev busy : World
busy = record down {
  run = λ h cmd. some (record { stdout = ""; stderr = "dataset is busy"; returncode = exited 1 });
}

run_zfs_command_lem_example :
    RunOutcome busy 0
      ("zfs" ∷ "destroy" ∷ "tank/p" ∷ [])
      9
      []
      (run_zfs_command busy true 0 10 ("zfs" ∷ "destroy" ∷ "tank/p" ∷ []) [])
run_zfs_command_lem_example = run_zfs_command_lem busy 0 ("zfs" ∷ "destroy" ∷ "tank/p" ∷ []) 9 []

rounded_volsize_lem_example :
    (50000 ≤ rounded_volsize 50000 16384)
    × (rounded_volsize 50000 16384 < 50000 + 16384)
    × (rounded_volsize 50000 16384 % 16384 ≡ 0)
rounded_volsize_lem_example = rounded_volsize_lem 50000 16384 (omega arith)

immutable-refused_example :
    Raises ChangesNothing [] (set lab (λ v. v) "sr" meta "s1" "_sm_config_volblocksize" "8K" [])
    × Raises ChangesNothing [] (unset lab (λ v. v) "sr" meta "s1" "_sm_config_volblocksize" [])
immutable-refused_example =
    immutable-refused lab (λ v. v) "sr" meta "s1" "_sm_config_volblocksize" "8K" []
      (inr (inr (inl refl)))

rounded_span_example :
    (65536 ≤ 70000)
    × (70000 < 65536 + 65536)
    × (70000 + 10 ≤ 131072)
    × (131072 < 70000 + 10 + 65536)
    × (131072 ≡ 65536 + 1 * 65536)
unfolding aligned_start aligned_end block_count negated_floor_div
rounded_span_example = rounded_span 70000 10 65536 (omega arith)

no_datapath-IsSeparate : IsSeparate no_datapath
no_datapath-IsSeparate = record {
  remove = λ uri key. pure-Does IsOutside Anything tt tt;
  capture = λ dataset parent snap. pure-Does IsOutside Anything tt tt;
}

-- A snapshot's destruction, a resize and a request of an unknown name.
abbrev requests : List (String × Request)
requests =
    ("sr", Request.destroy meta "s1")
    ∷ ("sr", Request.resize meta "s1" 2097152)
    ∷ ("sr", Request.unknown "Volume.compose")
    ∷ []

serve-IsDisciplined_example :
    (open_scopes (serve lab (λ v. v) no_datapath requests []) ≡ [])
    × IsDisciplined (serve lab (λ v. v) no_datapath requests [])
serve-IsDisciplined_example =
    serve-IsDisciplined lab (λ v. v) no_datapath no_datapath-IsSeparate requests

-- 4 MiB at 64 KiB, with one extent across the first two blocks.
abbrev extents : List Extent
extents = (65000, 1000) ∷ []

pack_extents_to_bitmap_lem_example :
    (bits : List ℕ) × (b64decode (pack_extents_to_bitmap extents 0 4194304 65536) ≡ some bits)
    × (length bits ≡ (block_count 0 4194304 65536 + 7) / 8)
    × ((bit_at bits 1 ≡ true) ↔ IsTouched extents (aligned_start 0 65536 + 1 * 65536) 65536)
unfolding block_count aligned_start aligned_end negated_floor_div
pack_extents_to_bitmap_lem_example =
    pack_extents_to_bitmap_lem extents 0 4194304 65536 1 (omega arith) (omega arith)

pack_bits_two_blocks : pack_bits extents 0 1048576 65536 ≡ 192 ∷ 0 ∷ []
unfolding pack_bits mark_extents mark_extent mark_blocks mark_block block_count aligned_start
    aligned_end negated_floor_div
pack_bits_two_blocks = refl

op_available-IsOpen_example :
    (op_available lab op_create_zvol ("fnvlist_add_uint64" ∷ []) ≡ true)
    ↔ IsOpen lab op_create_zvol ("fnvlist_add_uint64" ∷ [])
op_available-IsOpen_example = op_available-IsOpen lab op_create_zvol ("fnvlist_add_uint64" ∷ [])

vol_get_zfs_properties_dict_returns_example :
    (keys : List (String × String)) × ((vol_get_zfs_properties_dict down "tank/vols/p" []).0
      ≡ ok keys)
    × Adds IsRead [] (vol_get_zfs_properties_dict down "tank/vols/p" [])
vol_get_zfs_properties_dict_returns_example =
    vol_get_zfs_properties_dict_returns down "tank/vols/p" []
