-- ===== src/Shim/WrapperLaws.antt =====
-- How a run of the wrapper of xe ends, by what it copied.
use zfs_live_xapi.Prelude.{
  String, Bool, true, false, not, ◌&&◌, ◌||◌, Option, none, some, List, [], ◌∷◌, ◌≡◌, refl, ap, ◌∙◌,
  str_eq, if◌then◌else◌, ◌<>◌, ◌⊎◌, inl, inr,
}
use zfs_live_xapi.Prelude.Lists.{length}
use zfs_live_xapi.Shim.Host.{
  Host, xe_called, ssh_called, copied_here, copied_across, Shell, Trace, ret, ◌>>=◌, truthy, says,
  find_xe_real, stripped, xe_real, ssh, sr_type, vdi_sr, host_of_pbd, sr_host_uuid, host_address,
  invoke_volume_copy, invoke_cross_host_copy,
}
use zfs_live_xapi.Shim.Wrapper.{
  Route, declined, type_error, same_host, cross_host, Outcome, executed, finished, crashed, Args,
  tail, with_address, across_hosts, by_host, by_types, to_sr, from_sr, route_of, try_fast_path,
  is_basic_vdi_copy, passthrough, scan, verify, announce, copy_with, take_route, main,
  parse_kv_args, value_of, is_retired,
}

abbrev pub told : Option String → List String → List String
told none uuids = uuids
told (some uuid) uuids = uuid ∷ uuids

-- The VDIs that the copies gave.
unfoldable pub copies : Trace → List String
copies [] = []
copies (xe_called args ∷ t) = copies t
copies (ssh_called dest_host command ∷ t) = copies t
copies (copied_here src_vdi dest_sr answer ∷ t) = told (truthy answer) (copies t)
copies (copied_across src_vdi dest_sr answer ∷ t) = told (truthy answer) (copies t)

abbrev pub opt_xe : String
opt_xe = "/opt/xensource/bin/xe.real"

abbrev pub usr_xe : String
usr_xe = "/usr/bin/xe.real"

-- The first of the two paths that is executable.
abbrev pub IsReal : Host → String → Type 0
IsReal host real =
    ((real ≡ opt_xe) × (host.is_executable opt_xe ≡ true))
    ⊎ ((real ≡ usr_xe) × (host.is_executable opt_xe ≡ false) × (host.is_executable usr_xe ≡ true))

-- How a run may end, by the VDIs that the copies gave.
abbrev pub IsSound : Host → List String → Outcome → Trace → Type 0
IsSound host argv (executed real args) t = IsReal host real × (args ≡ tail argv) × (copies t ≡ [])
IsSound host argv (finished code lines) t =
    ((code ≡ 0) × (copies t ≡ lines) × (length lines ≡ 1))
    ⊎ (((code ≡ 1) × (lines ≡ []) × (length (copies t) ≡ 1))
        ⊎ ((code ≡ 127)
            × (lines ≡ [])
            × (copies t ≡ [])
            × (host.is_executable opt_xe ≡ false)
            × (host.is_executable usr_xe ≡ false)))
IsSound host argv crashed t = copies t ≡ []

-- Copies nothing.
record Spares {A : Type 0} (m : Shell A) : Type 0 where
  keeps : (t : Trace) → copies (m t).1 ≡ copies t

ret-Spares : {A : Type 0} (a : A) → Spares (ret a)
ret-Spares a = record { keeps = λ t. refl }

bind-Spares :
    {A B : Type 0} (m : Shell A) (f : A → Shell B)
    → Spares m
    → ((a : A) → Spares (f a))
    → Spares (m >>= f)
bind-Spares m f p q = record { keeps = λ t. (q (m t).0).keeps (m t).1 ∙ p.keeps t }

if-Spares :
    {A : Type 0} (b : Bool) (m n : Shell A) → Spares m → Spares n → Spares (if b then m else n)
if-Spares true m n p q = p
if-Spares false m n p q = q

module _ (host : Host) where
  xe_real-Spares : (args : List String) → Spares (xe_real host args)
  unfolding xe_real copies
  xe_real-Spares args = record { keeps = by_real (find_xe_real host) }
    where
      by_real :
          (o : Option String) (t : Trace)
          → copies
              (let r : Option String × Trace = elim o [
                | none ↦ (none, t)
                | some real ↦ (stripped (host.xe_output t args), xe_called args ∷ t)
              ] in
                r).1
            ≡ copies t
      by_real none t = refl
      by_real (some real) t = refl

  ssh-Spares : (dest_host : String) (command : List String) → Spares (ssh host dest_host command)
  unfolding ssh copies
  ssh-Spares dest_host command = record { keeps = λ t. refl }

  sr_host_uuid-Spares : (sr_uuid : String) → Spares (sr_host_uuid host sr_uuid)
  unfolding sr_host_uuid host_of_pbd
  sr_host_uuid-Spares sr_uuid =
      bind-Spares (xe_real host _) _ (xe_real-Spares _) (λ pbd. by_pbd (truthy pbd))
    where
      by_pbd : (o : Option String) → Spares (host_of_pbd host o)
      by_pbd none = ret-Spares _
      by_pbd (some pbd) = xe_real-Spares _

  host_address-Spares : (host_uuid : String) → Spares (host_address host host_uuid)
  unfolding host_address
  host_address-Spares host_uuid = xe_real-Spares _

  across_hosts-Spares :
      (src_sr dest_sr src_vdi local_host dest_host : String)
      → Spares (across_hosts host src_sr dest_sr src_vdi local_host dest_host)
  unfolding across_hosts
  across_hosts-Spares src_sr dest_sr src_vdi local_host dest_host =
      bind-Spares (sr_host_uuid host src_sr) _ (sr_host_uuid-Spares src_sr) (λ src_host.
        if-Spares (says src_host local_host) _ _
          (bind-Spares (host_address host dest_host) _ (host_address-Spares dest_host)
            (λ a. ret-Spares (with_address src_sr dest_sr src_vdi (truthy a))))
          (ret-Spares declined))

  by_host-Spares :
      (src_sr dest_sr src_vdi : String) (here there : Option String)
      → Spares (by_host host src_sr dest_sr src_vdi here there)
  unfolding by_host
  by_host-Spares src_sr dest_sr src_vdi (some here) (some there) =
      if-Spares (str_eq there here) _ _ (ret-Spares _)
        (across_hosts-Spares src_sr dest_sr src_vdi here there)
  by_host-Spares src_sr dest_sr src_vdi none there = ret-Spares _
  by_host-Spares src_sr dest_sr src_vdi (some here) none = ret-Spares _

  to_sr-Spares :
      (src_sr src_vdi : String) (src_type dest_sr : Option String)
      → Spares (to_sr host src_sr src_vdi src_type dest_sr)
  unfolding to_sr by_types sr_type
  to_sr-Spares src_sr src_vdi src_type none = ret-Spares _
  to_sr-Spares src_sr src_vdi src_type (some dest_sr) =
      bind-Spares (xe_real host _) _ (xe_real-Spares _) (λ dest_type.
        if-Spares (says src_type "zfs-live" && says dest_type "zfs-live") _ _
          (bind-Spares (sr_host_uuid host dest_sr) _ (sr_host_uuid-Spares dest_sr) (λ there.
            by_host-Spares src_sr dest_sr src_vdi (truthy host.local_host_uuid) (truthy there)))
          (ret-Spares declined))

  from_sr-Spares :
      (src_vdi : String) (src_sr dest_sr : Option String)
      → Spares (from_sr host src_vdi src_sr dest_sr)
  unfolding from_sr sr_type
  from_sr-Spares src_vdi none dest_sr = ret-Spares _
  from_sr-Spares src_vdi (some src_sr) dest_sr =
      bind-Spares (xe_real host _) _ (xe_real-Spares _)
        (λ src_type. to_sr-Spares src_sr src_vdi src_type dest_sr)

  route_of-Spares :
      (src_vdi dest_sr : Option (Option String)) → Spares (route_of host src_vdi dest_sr)
  unfolding route_of vdi_sr
  route_of-Spares (some (some src_vdi)) (some dest_sr) =
      bind-Spares (xe_real host _) _ (xe_real-Spares _)
        (λ src_sr. from_sr-Spares src_vdi (truthy src_sr) dest_sr)
  route_of-Spares (some none) dest_sr = ret-Spares _
  route_of-Spares none dest_sr = ret-Spares _
  route_of-Spares (some (some src_vdi)) none = ret-Spares _

  try_fast_path-Spares : (args : Args) → Spares (try_fast_path host args)
  unfolding try_fast_path
  try_fast_path-Spares args =
      if-Spares (is_basic_vdi_copy args) _ _
        (route_of-Spares (value_of "uuid" args) (value_of "sr-uuid" args)) (ret-Spares _)

  -- How the process ends from a history of no copies.
  abbrev EndsSoundly : List String → Shell Outcome → Trace → Type 0
  EndsSoundly argv m t = IsSound host argv (m t).0 (m t).1

  passthrough_sound :
      (argv : List String) (t : Trace) → copies t ≡ [] → EndsSoundly argv (passthrough host argv) t
  unfolding passthrough find_xe_real
  passthrough_sound argv t e =
      by_paths (host.is_executable opt_xe) (host.is_executable usr_xe) refl refl
    where
      by_paths :
          (opt usr : Bool)
          → host.is_executable opt_xe ≡ opt
          → host.is_executable usr_xe ≡ usr
          → EndsSoundly argv
              (elim (if opt then some opt_xe else if usr then some usr_xe else none)
                as (λ _. Shell Outcome) [
                  | none ↦ ret (finished 127 [])
                  | some real ↦ ret (executed real (tail argv))
                ])
              t
      by_paths true usr p q = (inl (refl, p), refl, e)
      by_paths false true p q = (inr (refl, p, q), refl, e)
      by_paths false false p q = inr (inr (refl, refl, e, p, q))

  scan-Spares : (address : Option String) (dest_sr : String) → Spares (scan host address dest_sr)
  unfolding scan
  scan-Spares none dest_sr = xe_real-Spares _
  scan-Spares (some address) dest_sr = ssh-Spares _ _

  verify_sound :
      (argv : List String) (new_uuid : String) (out : Option String) (t : Trace)
      → copies t ≡ new_uuid ∷ []
      → EndsSoundly argv (verify host new_uuid out) t
  unfolding verify
  verify_sound argv new_uuid none t e = inr (inl (refl, refl, ap (λ us. length us) e))
  verify_sound argv new_uuid (some out) t e =
      let query : List String = "vdi-param-get" ∷ ("uuid=" <> new_uuid) ∷ "param-name=uuid" ∷ [] in
      let found = xe_real host query t in
      by_answer (says found.0 new_uuid) found.1 ((xe_real-Spares query).keeps t ∙ e)
    where
      by_answer :
          (b : Bool) (t' : Trace)
          → copies t' ≡ new_uuid ∷ []
          → EndsSoundly argv
              (if b then ret (finished 0 (new_uuid ∷ [])) else ret (finished 1 []))
              t'
      by_answer true t' e' = inl (refl, e', refl)
      by_answer false t' e' = inr (inl (refl, refl, ap (λ us. length us) e'))

  announce_sound :
      (argv : List String) (address : Option String) (dest_sr new_uuid : String) (t : Trace)
      → copies t ≡ new_uuid ∷ []
      → EndsSoundly argv (announce host argv address dest_sr (some new_uuid)) t
  unfolding announce
  announce_sound argv address dest_sr new_uuid t e =
      let after = scan host address dest_sr t in
      verify_sound argv new_uuid after.0 after.1 ((scan-Spares address dest_sr).keeps t ∙ e)

  told_sound :
      (argv : List String) (address : Option String) (dest_sr : String) (new_uuid : Option String)
      (t : Trace)
      → copies t ≡ told new_uuid []
      → EndsSoundly argv (announce host argv address dest_sr new_uuid) t
  unfolding announce
  told_sound argv address dest_sr none t e = passthrough_sound argv t e
  told_sound argv address dest_sr (some new_uuid) t e =
      announce_sound argv address dest_sr new_uuid t e

  copy_with_sound :
      (argv : List String) (src_sr dest_sr src_vdi : String) (plugin_dir : Option String)
      (t : Trace)
      → copies t ≡ []
      → EndsSoundly argv (copy_with host argv src_sr dest_sr src_vdi plugin_dir) t
  unfolding copy_with invoke_volume_copy copies
  copy_with_sound argv src_sr dest_sr src_vdi none t e = passthrough_sound argv t e
  copy_with_sound argv src_sr dest_sr src_vdi (some plugin_dir) t e =
      let answer : Option String = host.copy_here t plugin_dir src_sr src_vdi dest_sr in
      told_sound argv none dest_sr (truthy answer) (copied_here src_vdi dest_sr answer ∷ t)
        (ap (λ us. told (truthy answer) us) e)

  take_route_sound :
      (argv : List String) (route : Route) (t : Trace)
      → copies t ≡ []
      → EndsSoundly argv (take_route host argv route) t
  unfolding take_route invoke_cross_host_copy copies
  take_route_sound argv declined t e = passthrough_sound argv t e
  take_route_sound argv type_error t e = e
  take_route_sound argv (same_host src_sr dest_sr src_vdi) t e =
      copy_with_sound argv src_sr dest_sr src_vdi host.plugin_dir t e
  take_route_sound argv (cross_host src_sr dest_sr src_vdi address) t e =
      let answer : Option String = host.copy_across t src_sr src_vdi dest_sr address in
      told_sound argv (some address) dest_sr (truthy answer)
        (copied_across src_vdi dest_sr answer ∷ t) (ap (λ us. told (truthy answer) us) e)

  -- Whatever the host answers, the wrapper hands its arguments over, unchanged, to the first real xe
  -- that is executable, only where no copy gave a VDI; it returns 0 where one copy did and prints
  -- that VDI alone, and 1 where one did and it prints nothing; otherwise no copy gave a VDI, and it
  -- ends with 127, where no real xe is executable, or with an exception.
  pub main-IsSound :
      (argv : List String) → IsSound host argv (main host argv []).0 (main host argv []).1
  unfolding main copies
  main-IsSound [] = passthrough_sound [] [] refl
  main-IsSound (program ∷ []) = passthrough_sound (program ∷ []) [] refl
  main-IsSound (program ∷ command ∷ rest) =
      by_command (not (str_eq command "vdi-copy") || is_retired host.has_gap)
    where
      by_command :
          (b : Bool)
          → EndsSoundly
              (program ∷ command ∷ rest)
              (if b
                then passthrough host (program ∷ command ∷ rest)
                else (try_fast_path host (parse_kv_args rest []) >>= λ route.
                    take_route host (program ∷ command ∷ rest) route))
              []
      by_command true = passthrough_sound (program ∷ command ∷ rest) [] refl
      by_command false =
          let args : Args = parse_kv_args rest [] in
          let route = try_fast_path host args [] in
          take_route_sound (program ∷ command ∷ rest) route.0 route.1
            ((try_fast_path-Spares args).keeps [])
