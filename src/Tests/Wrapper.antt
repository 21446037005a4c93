-- ===== src/Tests/Wrapper.antt =====
-- The wrapper of xe on a concrete host.
use zfs_live_xapi.Prelude.{
  String, true, Option, none, some, List, [], ◌∷◌, ◌≡◌, refl, str_eq, if◌then◌else◌,
}
use zfs_live_xapi.Prelude.Text.{partition, strip, lstrip, rstrip, split}
use zfs_live_xapi.Shim.Host.{
  Host, find_xe_real, xe_real, ssh, sr_type, vdi_sr, host_of_pbd, sr_host_uuid, host_address,
  invoke_volume_copy,
}
use zfs_live_xapi.Shim.Wrapper.{
  finished, crashed, main, try_fast_path, parse_kv_args, value_of, is_basic_vdi_copy, no_extraneous,
  route_of, from_sr, to_sr, by_types, by_host, take_route, copy_with, announce, scan, verify,
  passthrough,
}
use zfs_live_xapi.Shim.WrapperLaws.{IsSound, main-IsSound}

-- One host, one SR, and a plugin that copies.
abbrev answer : List String → Option String
answer (command ∷ what ∷ param ∷ []) =
    if str_eq command "sr-param-get"
    then some "zfs-live"
    else if str_eq command "pbd-param-get"
    then some "h1"
    else if str_eq param "param-name=uuid"
    then some "new"
    else some "sr"
answer args = some "p1"

abbrev host : Host
host = record {
  is_executable = λ path. true;
  xe_output = λ t args. answer args;
  ssh_output = λ t dest_host command. none;
  local_host_uuid = some "h1";
  plugin_dir = some "/plugins/zfs-live";
  has_gap = none;
  copy_here = λ t dir src_sr src_vdi dest_sr. some "new";
  copy_across = λ t src_sr src_vdi dest_sr dest_host. none;
}

abbrev argv : List String
argv = "xe" ∷ "vdi-copy" ∷ "uuid=v" ∷ "sr-uuid=d" ∷ []

main-IsSound_example : IsSound host argv (main host argv []).0 (main host argv []).1
main-IsSound_example = main-IsSound host argv

copied_once : (main host argv []).0 ≡ finished 0 ("new" ∷ [])
unfolding main try_fast_path parse_kv_args value_of is_basic_vdi_copy no_extraneous route_of from_sr
    to_sr by_types by_host take_route copy_with announce scan verify passthrough find_xe_real
    xe_real ssh sr_type vdi_sr host_of_pbd sr_host_uuid host_address invoke_volume_copy partition
    strip lstrip rstrip split
copied_once = refl

-- A flag in place of the identifier.
flag_crashes : (main host ("xe" ∷ "vdi-copy" ∷ "uuid" ∷ "sr-uuid=d" ∷ []) []).0 ≡ crashed
unfolding main try_fast_path parse_kv_args value_of is_basic_vdi_copy no_extraneous route_of from_sr
    to_sr by_types by_host take_route copy_with announce scan verify passthrough find_xe_real
    xe_real ssh sr_type vdi_sr host_of_pbd sr_host_uuid host_address invoke_volume_copy partition
    strip lstrip rstrip split
flag_crashes = refl
