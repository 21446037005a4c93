-- ===== src/Shim/Wrapper.antt =====
-- The routing of `xe vdi-copy`: `_parse_kv_args`, `_try_fast_path` and `main`.
use zfs_live_xapi.Prelude.{
  ℕ, String, Bool, true, false, not, ◌&&◌, ◌||◌, Option, none, some, List, [], ◌∷◌, str_eq,
  if◌then◌else◌, ◌<>◌,
}
use zfs_live_xapi.Prelude.Text.{partition}
use zfs_live_xapi.Shim.Host.{
  Host, Shell, ret, ◌>>=◌, truthy, says, find_xe_real, xe_real, ssh, sr_type, vdi_sr, sr_host_uuid,
  host_address, invoke_volume_copy, invoke_cross_host_copy,
}

-- The last one of a key is in front; `none` is the value `True` of a flag.
abbrev pub Args : Type 0
Args = List (String × Option String)

unfoldable pub parse_kv_args : List String → Args → Args
parse_kv_args [] out = out
parse_kv_args (arg ∷ argv) out = parse_kv_args argv (partition 61 arg ∷ out)

-- Nothing where the key is missing.
unfoldable pub value_of : String → Args → Option (Option String)
value_of key [] = none
value_of key ((k, v) ∷ args) = let rest = value_of key args in if str_eq k key then some v else rest

abbrev pub has_key : String → Args → Bool
has_key key args = elim (value_of key args) [ none ↦ false | some v ↦ true ]

abbrev pub is_known : String → Bool
is_known key =
    str_eq key "uuid" || str_eq key "sr-uuid" || str_eq key "username" || str_eq key "password"

unfoldable pub no_extraneous : Args → Bool
no_extraneous [] = true
no_extraneous ((key, v) ∷ args) = is_known key && no_extraneous args

unfoldable pub is_basic_vdi_copy : Args → Bool
is_basic_vdi_copy args =
    if not (has_key "uuid" args && has_key "sr-uuid" args)
    then false
    else if has_key "base-uuid" args || has_key "into-vdi-uuid" args
    then false
    else no_extraneous args

-- The mode with the source SR, the destination SR and the VDI; across hosts, with the address. A flag in
-- place of an identifier is an exception, since it is no text.
pub data Route : Type 0 where
  declined type_error : Route
  same_host : String → String → String → Route
  cross_host : String → String → String → String → Route

-- What becomes of the process: the real xe with these arguments, an exit code with what was printed, or an
-- exception.
pub data Outcome : Type 0 where
  executed : String → List String → Outcome
  finished : ℕ → List String → Outcome
  crashed : Outcome

abbrev pub tail : List String → List String
tail [] = []
tail (a ∷ argv) = argv

unfoldable pub with_address : String → String → String → Option String → Route
with_address src_sr dest_sr src_vdi none = declined
with_address src_sr dest_sr src_vdi (some address) = cross_host src_sr dest_sr src_vdi address

-- xapi copies by itself now.
abbrev pub is_retired : Option Bool → Bool
is_retired none = false
is_retired (some has_gap) = not has_gap

module _ (host : Host) where
  -- The host of the destination is not this one; the source must be here.
  unfoldable pub across_hosts : String → String → String → String → String → Shell Route
  across_hosts src_sr dest_sr src_vdi local_host dest_host = do
    src_host ← sr_host_uuid host src_sr
    if says src_host local_host
        then (do
          address ← host_address host dest_host
          ret (with_address src_sr dest_sr src_vdi (truthy address)))
        else ret declined

  unfoldable pub by_host : String → String → String → Option String → Option String → Shell Route
  by_host src_sr dest_sr src_vdi (some local_host) (some dest_host) =
      if str_eq dest_host local_host
      then ret (same_host src_sr dest_sr src_vdi)
      else across_hosts src_sr dest_sr src_vdi local_host dest_host
  by_host src_sr dest_sr src_vdi none dest_host = ret declined
  by_host src_sr dest_sr src_vdi (some local_host) none = ret declined

  unfoldable pub by_types : String → String → Option String → Option String → String → Shell Route
  by_types src_sr src_vdi src_type dest_type dest_sr =
      if says src_type "zfs-live" && says dest_type "zfs-live"
      then (do
        dest_host ← sr_host_uuid host dest_sr
        by_host src_sr dest_sr src_vdi (truthy host.local_host_uuid) (truthy dest_host))
      else ret declined

  unfoldable pub to_sr : String → String → Option String → Option String → Shell Route
  to_sr src_sr src_vdi src_type none = ret type_error
  to_sr src_sr src_vdi src_type (some dest_sr) = do
    dest_type ← sr_type host dest_sr
    by_types src_sr src_vdi src_type dest_type dest_sr

  unfoldable pub from_sr : String → Option String → Option String → Shell Route
  from_sr src_vdi none dest_sr = ret declined
  from_sr src_vdi (some src_sr) dest_sr = do
    src_type ← sr_type host src_sr
    to_sr src_sr src_vdi src_type dest_sr

  unfoldable pub route_of : Option (Option String) → Option (Option String) → Shell Route
  route_of (some (some src_vdi)) (some dest_sr) = do
    src_sr ← vdi_sr host src_vdi
    from_sr src_vdi (truthy src_sr) dest_sr
  route_of (some none) dest_sr = ret type_error
  route_of none dest_sr = ret declined
  route_of (some (some src_vdi)) none = ret declined

  unfoldable pub try_fast_path : Args → Shell Route
  try_fast_path args =
      if is_basic_vdi_copy args
      then route_of (value_of "uuid" args) (value_of "sr-uuid" args)
      else ret declined

  unfoldable pub passthrough : List String → Shell Outcome
  passthrough argv = elim (find_xe_real host) [
    | none ↦ ret (finished 127 [])
    | some real ↦ ret (executed real (tail argv))
  ]

  -- `sr-scan` on the host of the destination.
  unfoldable pub scan : Option String → String → Shell (Option String)
  scan none dest_sr = xe_real host ("sr-scan" ∷ ("uuid=" <> dest_sr) ∷ [])
  scan (some address) dest_sr = ssh host address ("xe" ∷ "sr-scan" ∷ ("uuid=" <> dest_sr) ∷ [])

  unfoldable pub verify : String → Option String → Shell Outcome
  verify new_uuid none = ret (finished 1 [])
  verify new_uuid (some out) = do
    found ← xe_real host ("vdi-param-get" ∷ ("uuid=" <> new_uuid) ∷ "param-name=uuid" ∷ [])
    if says found new_uuid then ret (finished 0 (new_uuid ∷ [])) else ret (finished 1 [])

  unfoldable pub announce : List String → Option String → String → Option String → Shell Outcome
  announce argv address dest_sr none = passthrough argv
  announce argv address dest_sr (some new_uuid) = do out ← scan address dest_sr; verify new_uuid out

  unfoldable pub copy_with : List String → String → String → String → Option String → Shell Outcome
  copy_with argv src_sr dest_sr src_vdi none = passthrough argv
  copy_with argv src_sr dest_sr src_vdi (some plugin_dir) = do
    new_uuid ← invoke_volume_copy host plugin_dir src_sr src_vdi dest_sr
    announce argv none dest_sr (truthy new_uuid)

  unfoldable pub take_route : List String → Route → Shell Outcome
  take_route argv declined = passthrough argv
  take_route argv type_error = ret crashed
  take_route argv (same_host src_sr dest_sr src_vdi) =
      copy_with argv src_sr dest_sr src_vdi host.plugin_dir
  take_route argv (cross_host src_sr dest_sr src_vdi address) = do
    new_uuid ← invoke_cross_host_copy host src_sr src_vdi dest_sr address
    announce argv (some address) dest_sr (truthy new_uuid)

  unfoldable pub main : List String → Shell Outcome
  main (program ∷ command ∷ argv) =
      if not (str_eq command "vdi-copy") || is_retired host.has_gap
      then passthrough (program ∷ command ∷ argv)
      else (do
        route ← try_fast_path (parse_kv_args argv [])
        take_route (program ∷ command ∷ argv) route)
  main [] = passthrough []
  main (program ∷ []) = passthrough (program ∷ [])
