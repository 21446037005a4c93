-- ===== src/Volume/Discipline.antt =====
-- The rules by which every handler keeps the discipline of the metabase's scopes.
pub mod Handlers
pub mod Commands
use zfs_live_xapi.Prelude.{
  eq_iff, ℕ, zero, suc, String, Bool, true, false, Option, none, some, List, [], ◌∷◌, arith, refl,
  ◌≡◌, ◌==◌, str_eq, if◌then◌else◌,
}
use zfs_live_xapi.Effects.{
  World, Error, DbCall, get_vdi_by_id, get_vdi_for_volume, get_vdi_custom_keys, update_volume_vsize,
  Scope, volume_context, poll_lock, db_context, Vdi, M, pure, raise, try_except, mint_uuid, within,
  ◌>>=◌, ◌>>◌, History,
}
use zfs_live_xapi.Effects.Scopes.{
  IsSound, Keeps, permits, pure-IsSound, raise-IsSound, then-IsSound, try_except-IsSound,
  if-IsSound, ask-IsSound, outside-IsSound, within-IsSound,
}
use zfs_live_xapi.Effects.Triple.{Anything, mint_uuid-Does}
use zfs_live_xapi.Effects.Kinds.{IsOutside}
use zfs_live_xapi.Zfs.{get_zvol_size_bytes, format_zvol_name}
use zfs_live_xapi.Zfs.Outside.{
  IsZfsOnly, vol_exists-IsZfsOnly, vol_get_property-IsZfsOnly, get_zvol_size_bytes-IsZfsOnly,
  get_zvol_used_bytes-IsZfsOnly, dataset_get_available-IsZfsOnly, int_or_raise-IsZfsOnly,
  create_zvol-IsZfsOnly, destroy_zvol-IsZfsOnly, take_snapshot-IsZfsOnly, clone_snapshot-IsZfsOnly,
  promote_clone-IsZfsOnly, resize_zvol-IsZfsOnly, vol_set_property-IsZfsOnly,
  vol_inherit_property-IsZfsOnly, vol_send_receive-IsZfsOnly, find_snapshot_by_uuid-IsZfsOnly,
  list_zvol_snapshots-IsZfsOnly, find_snapshot_clones-IsZfsOnly, log_pool_tree-IsZfsOnly,
  vol_get_refreservation-IsZfsOnly, vol_sync_thick_refreservation-IsZfsOnly,
  vol_set_thick_refreservation-IsZfsOnly, vol_get_zfs_properties_dict-IsZfsOnly,
}
use zfs_live_xapi.Volume.Metabase.{
  SrMeta, sr_dataset, image_type_of, get_format, VdiInfo, db_get_vdi, db_get_vdi_for_volume,
  db_insert_volume, db_do, db_custom_keys, locked, recover_vdi_vsize,
}

-- The scopes inside `with VolumeContext(…, "w")`, `PollLock` and `db_context`.
abbrev pub under_lock : String → List Scope
under_lock sr = db_context sr ∷ poll_lock sr ∷ volume_context sr "w" ∷ []

pub under_lock-permits : (sr : String) (c : DbCall) → permits (under_lock sr) c ≡ true
under_lock-permits sr c = let same = (eq_iff sr sr).1 refl in ground arith

module _ (w : World) where
  pub zfs-IsSound : {A : Type 0} (scopes : List Scope) (m : M A) → IsZfsOnly m → IsSound scopes m
  zfs-IsSound scopes m d = outside-IsSound scopes Anything m d

  pub mint_uuid-IsSound : (scopes : List Scope) → IsSound scopes (mint_uuid w)
  mint_uuid-IsSound scopes = outside-IsSound scopes Anything _ (mint_uuid-Does IsOutside w refl)

  pub get_format-IsSound : (scopes : List Scope) (t : ℕ) → IsSound scopes (get_format w t)
  unfolding get_format
  get_format-IsSound scopes t = record { keeps = λ h k. ground (arith) }

pub ruleset sound =
    (pure-IsSound, raise-IsSound, then-IsSound, if-IsSound, try_except-IsSound, within-IsSound)

pub ruleset zfs_calls = (
  zfs-IsSound, vol_exists-IsZfsOnly, vol_get_property-IsZfsOnly, get_zvol_size_bytes-IsZfsOnly,
  get_zvol_used_bytes-IsZfsOnly, dataset_get_available-IsZfsOnly, int_or_raise-IsZfsOnly,
  create_zvol-IsZfsOnly, destroy_zvol-IsZfsOnly, take_snapshot-IsZfsOnly, clone_snapshot-IsZfsOnly,
  promote_clone-IsZfsOnly, resize_zvol-IsZfsOnly, vol_set_property-IsZfsOnly,
  vol_inherit_property-IsZfsOnly, vol_send_receive-IsZfsOnly, find_snapshot_by_uuid-IsZfsOnly,
  list_zvol_snapshots-IsZfsOnly, find_snapshot_clones-IsZfsOnly, log_pool_tree-IsZfsOnly,
  vol_get_refreservation-IsZfsOnly, vol_sync_thick_refreservation-IsZfsOnly,
  vol_set_thick_refreservation-IsZfsOnly, vol_get_zfs_properties_dict-IsZfsOnly,
)

module _ (w : World) (scopes : List Scope) where
  -- A permitted call.
  pub db_do-IsSound : (c : DbCall) → permits scopes c ≡ true → IsSound scopes (db_do w c)
  unfolding db_do
  db_do-IsSound c p = ask-IsSound scopes w c _ p

  pub db_insert_volume-IsSound :
      (c : DbCall) → permits scopes c ≡ true → IsSound scopes (db_insert_volume w c)
  unfolding db_insert_volume
  db_insert_volume-IsSound c p = ask-IsSound scopes w c _ p

  pub db_get_vdi-IsSound :
      (key : String) → permits scopes (get_vdi_by_id key) ≡ true → IsSound scopes (db_get_vdi w key)
  unfolding db_get_vdi
  db_get_vdi-IsSound key p = ask-IsSound scopes w _ _ p

  pub db_get_vdi_for_volume-IsSound :
      (id : Option ℕ)
      → permits scopes (get_vdi_for_volume id) ≡ true
      → IsSound scopes (db_get_vdi_for_volume w id)
  unfolding db_get_vdi_for_volume
  db_get_vdi_for_volume-IsSound id p = ask-IsSound scopes w _ _ p

  pub db_custom_keys-IsSound :
      (uuid : String)
      → permits scopes (get_vdi_custom_keys uuid) ≡ true
      → IsSound scopes (db_custom_keys w uuid)
  unfolding db_custom_keys
  db_custom_keys-IsSound uuid p = ask-IsSound scopes w _ _ p

  -- The repair of a size may be made wherever sizes may be updated.
  pub recover_vdi_vsize-IsSound :
      (vdi : Vdi) (pool : String)
      → ((n : Option ℕ) → permits scopes (update_volume_vsize vdi.volume.id n) ≡ true)
      → IsSound scopes (recover_vdi_vsize w vdi pool)
  unfolding recover_vdi_vsize
  recover_vdi_vsize-IsSound vdi pool p = go vdi.volume.vsize
    where
      go :
          (o : Option ℕ)
          → IsSound scopes (
              let m : M ℕ = elim o [
                | some vsize ↦ pure vsize
                | none ↦ do
                  vsize ← get_zvol_size_bytes w (format_zvol_name pool vdi.uuid)
                  db_do w (update_volume_vsize vdi.volume.id (some vsize))
                  pure vsize
              ] in
              m)
      go (some vsize) = pure-IsSound scopes vsize
      go none =
          then-IsSound scopes _ _ (zfs-IsSound w scopes _ (get_zvol_size_bytes-IsZfsOnly w _))
            λ n. then-IsSound scopes _ _ (db_do-IsSound _ (p (some n))) (λ _. pure-IsSound scopes n)

pub ruleset metabase_calls = (
  under_lock-permits, db_do-IsSound, db_insert_volume-IsSound, db_get_vdi-IsSound,
  db_get_vdi_for_volume-IsSound, db_custom_keys-IsSound, recover_vdi_vsize-IsSound,
  mint_uuid-IsSound, get_format-IsSound,
)
