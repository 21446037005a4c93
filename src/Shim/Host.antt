-- ===== src/Shim/Host.antt =====
-- What the wrapper of xe asks of its host, and what it did there.
use zfs_live_xapi.Prelude.{
  String, Bool, false, Option, none, some, List, [], ◌∷◌, str_eq, if◌then◌else◌, ◌<>◌,
}
use zfs_live_xapi.Prelude.Text.{strip, split, first_or}

-- A copy has the VDI, the SR that it is copied to, the host for another one, and its answer.
pub data Call : Type 0 where
  xe_called : List String → Call
  ssh_called : String → List String → Call
  copied_here copied_across : String → String → Option String → Call

abbrev pub Trace : Type 0
Trace = List Call

-- The answers of the host, by what was done: `xe.real` and ssh give their output, or nothing where they
-- fail; `copy_here` and `copy_across` are `_invoke_volume_copy` and `_invoke_cross_host_copy`.
-- `has_gap` is what src/shim/xapi_compat.py says, where it is installed.
pub record Host : Type 0 where
  pub is_executable : String → Bool
  pub xe_output : Trace → List String → Option String
  pub ssh_output : Trace → String → List String → Option String
  pub local_host_uuid : Option String
  pub plugin_dir : Option String
  pub has_gap : Option Bool
  pub copy_here : Trace → String → String → String → String → Option String
  pub copy_across : Trace → String → String → String → String → Option String

abbrev pub Shell : Type 0 → Type 0
Shell A = Trace → A × Trace

abbrev pub ret : {A : Type 0} → A → Shell A
ret a t = (a, t)

infixl 5 ◌>>=◌
abbrev pub ◌>>=◌ : {A B : Type 0} → Shell A → (A → Shell B) → Shell B
◌>>=◌ m f t = let r = m t in f r.0 r.1

-- Neither `None` nor the empty text.
abbrev pub truthy : Option String → Option String
truthy none = none
truthy (some s) = if str_eq s "" then none else some s

abbrev pub says : Option String → String → Bool
says none s = false
says (some t) s = str_eq t s

abbrev pub stripped : Option String → Option String
stripped none = none
stripped (some s) = some (strip s)

module _ (host : Host) where
  unfoldable pub find_xe_real : Option String
  find_xe_real =
      if host.is_executable "/opt/xensource/bin/xe.real"
      then some "/opt/xensource/bin/xe.real"
      else if host.is_executable "/usr/bin/xe.real"
      then some "/usr/bin/xe.real"
      else none

  unfoldable pub xe_real : List String → Shell (Option String)
  xe_real args t = elim find_xe_real [
    | none ↦ (none, t)
    | some real ↦ (stripped (host.xe_output t args), xe_called args ∷ t)
  ]

  unfoldable pub ssh : String → List String → Shell (Option String)
  ssh dest_host command t = (host.ssh_output t dest_host command, ssh_called dest_host command ∷ t)

  unfoldable pub sr_type : String → Shell (Option String)
  sr_type sr_uuid = xe_real ("sr-param-get" ∷ ("uuid=" <> sr_uuid) ∷ "param-name=type" ∷ [])

  unfoldable pub vdi_sr : String → Shell (Option String)
  vdi_sr vdi_uuid = xe_real ("vdi-param-get" ∷ ("uuid=" <> vdi_uuid) ∷ "param-name=sr-uuid" ∷ [])

  unfoldable pub host_of_pbd : Option String → Shell (Option String)
  host_of_pbd none = ret none
  host_of_pbd (some pbd_uuid) = xe_real (
      "pbd-param-get"
      ∷ ("uuid=" <> first_or pbd_uuid (split 44 pbd_uuid))
      ∷ "param-name=host-uuid"
      ∷ [])

  unfoldable pub sr_host_uuid : String → Shell (Option String)
  sr_host_uuid sr_uuid = do
    pbd_uuid ← xe_real ("pbd-list" ∷ ("sr-uuid=" <> sr_uuid) ∷ "params=uuid" ∷ "--minimal" ∷ [])
    host_of_pbd (truthy pbd_uuid)

  unfoldable pub host_address : String → Shell (Option String)
  host_address host_uuid =
      xe_real ("host-param-get" ∷ ("uuid=" <> host_uuid) ∷ "param-name=address" ∷ [])

  -- The copy on this host, by the script of the volume plugin.
  unfoldable pub invoke_volume_copy : String → String → String → String → Shell (Option String)
  invoke_volume_copy plugin_dir src_sr src_vdi dest_sr t =
      let answer = host.copy_here t plugin_dir src_sr src_vdi dest_sr in
      (answer, copied_here src_vdi dest_sr answer ∷ t)

  unfoldable pub invoke_cross_host_copy : String → String → String → String → Shell (Option String)
  invoke_cross_host_copy src_sr src_vdi dest_sr dest_host t =
      let answer = host.copy_across t src_sr src_vdi dest_sr dest_host in
      (answer, copied_across src_vdi dest_sr answer ∷ t)
