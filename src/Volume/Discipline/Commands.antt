-- ===== src/Volume/Discipline/Commands.antt =====
-- `copy`, `set` and `unset`, and the discipline of any sequence of requests.
use zfs_live_xapi.Prelude.{ℕ, String, Bool, Option, none, some, List, [], ◌∷◌, refl, ◌≡◌}
use zfs_live_xapi.Effects.{World, Scope, volume_context, poll_lock, Vdi, M, History}
use zfs_live_xapi.Effects.Scopes.{
  open_scopes, IsDisciplined, IsSound, Keeps, pure-IsSound, raise-IsSound, then-IsSound, if-IsSound,
}
use zfs_live_xapi.Zfs.Outside.{
  vol_set_property-IsZfsOnly, vol_inherit_property-IsZfsOnly,
  vol_sync_thick_refreservation-IsZfsOnly,
}
use zfs_live_xapi.Volume.Metabase.{SrMeta}
use zfs_live_xapi.Volume.Datapath.{Datapath}
use zfs_live_xapi.Volume.Copy.{
  CopyNames, swallow, on_error, remove_if_exists, copy_source_row, copy_take, replicate_volume,
  undo_replicate, drop_snapshots, destroy_if_parent, undo_drop, clean_up, register_copy, is_thick,
  copy_between, copy,
}
use zfs_live_xapi.Volume.Properties.{
  KeyKind, mutable, immutable, custom, check_value, current_value, refuse_immutable, sync_if_copies,
  apply_set, set_key, set, apply_unset, unset_key, unset,
}
use zfs_live_xapi.Volume.Dispatch.{Request, answer_with, call_volume_command, serve}
use zfs_live_xapi.Volume.Discipline.{
  under_lock, zfs-IsSound, mint_uuid-IsSound, sound, zfs_calls, metabase_calls,
}
use zfs_live_xapi.Volume.Discipline.Handlers.{
  IsSeparate, locked-IsSound, create-IsSound, import_existing-IsSound, destroy-IsSound,
  resize-IsSound, stat-IsSound, snapshot-IsSound, clone-IsSound,
}

module _ (w : World) where
  swallow-IsSound :
      (scopes : List Scope) (m : M (Unit {0})) → IsSound scopes m → IsSound scopes (swallow w m)
  unfolding swallow
  swallow-IsSound scopes m s = search (sound, s)

  on_error-IsSound :
      (scopes : List Scope) (m n : M (Unit {0}))
      → IsSound scopes m
      → IsSound scopes n
      → IsSound scopes (on_error w m n)
  unfolding on_error
  on_error-IsSound scopes m n s t = search (sound, s, t)

  remove_if_exists-IsSound :
      (scopes : List Scope) (path : String) → IsSound scopes (remove_if_exists w path)
  unfolding remove_if_exists
  remove_if_exists-IsSound scopes path = search (sound, zfs_calls)

  destroy_if_parent-IsSound :
      (scopes : List Scope) (parent snap : String)
      → IsSound scopes (destroy_if_parent w parent snap)
  unfolding destroy_if_parent
  destroy_if_parent-IsSound scopes parent snap = search (sound, zfs_calls)

  copy_take-IsSound :
      (sr : String) (meta : SrMeta) (key snap : String)
      → IsSound (poll_lock sr ∷ volume_context sr "w" ∷ []) (copy_take w sr meta key snap)
  unfolding copy_take copy_source_row
  copy_take-IsSound sr meta key snap = search (sound, zfs_calls, metabase_calls) depth 8

  replicate-IsSound : (n : CopyNames) (thick : Bool) → IsSound [] (replicate_volume w n thick)
  unfolding replicate_volume
  replicate-IsSound n thick = search (sound, zfs_calls)

  undo_replicate-IsSound : (n : CopyNames) → IsSound [] (undo_replicate w n)
  unfolding undo_replicate
  undo_replicate-IsSound n = search (sound, zfs_calls, swallow-IsSound, remove_if_exists-IsSound)

  clean_up-IsSound : (n : CopyNames) → IsSound [] (clean_up w n)
  unfolding clean_up drop_snapshots undo_drop
  clean_up-IsSound n =
      search
        (
          sound, zfs_calls, on_error-IsSound, swallow-IsSound, remove_if_exists-IsSound,
          destroy_if_parent-IsSound,
        )
        depth 8

  register_copy-IsSound :
      (sr uuid : String) (vdi : Vdi) (vsize : ℕ)
      → IsSound (under_lock sr) (register_copy w uuid vdi vsize)
  unfolding register_copy
  register_copy-IsSound sr uuid vdi vsize = search (sound, metabase_calls) depth 8

  copy_between-IsSound :
      (sr dest_sr : String) (meta dest_meta : SrMeta) (key : String) (n : CopyNames)
      → IsSound [] (copy_between w sr dest_sr meta dest_meta key n)
  unfolding copy_between is_thick
  copy_between-IsSound sr dest_sr meta dest_meta key n =
      search
        (
          sound, zfs_calls, metabase_calls, locked-IsSound, copy_take-IsSound, on_error-IsSound,
          replicate-IsSound, undo_replicate-IsSound, clean_up-IsSound, register_copy-IsSound,
        )
        depth 14

  pub copy-IsSound :
      (sr dest_sr : String) (meta : SrMeta) (dest : Option SrMeta) (key : String)
      → IsSound [] (copy w sr dest_sr meta dest key)
  unfolding copy
  copy-IsSound sr dest_sr meta none key = raise-IsSound [] _
  copy-IsSound sr dest_sr meta (some dest) key =
      then-IsSound [] _ _ (mint_uuid-IsSound w []) λ uuid.
        then-IsSound [] _ _ (mint_uuid-IsSound w [])
          λ token. copy_between-IsSound sr dest_sr meta dest key _

module _ (w : World) (lower : String → String) (sr : String) where
  refuse_immutable-IsSound : (vol k : String) → IsSound [] (refuse_immutable w lower vol k)
  unfolding refuse_immutable current_value
  refuse_immutable-IsSound vol k = search (sound, zfs_calls) depth 8

  apply_set-IsSound :
      (vol k v : String) (kind : KeyKind) → IsSound [] (apply_set w lower vol k v kind)
  unfolding apply_set check_value sync_if_copies
  apply_set-IsSound vol k v (mutable values) =
      then-IsSound [] _ _ (if-IsSound [] _ _ _ (pure-IsSound [] tt) (raise-IsSound [] _)) λ _.
        then-IsSound [] _ _ (zfs-IsSound w [] _ (vol_set_property-IsZfsOnly w _ _ _)) λ _.
          if-IsSound [] _ _ _ (zfs-IsSound w [] _ (vol_sync_thick_refreservation-IsZfsOnly w _))
            (pure-IsSound [] tt)
  apply_set-IsSound vol k v immutable = refuse_immutable-IsSound vol k
  apply_set-IsSound vol k v custom = pure-IsSound [] tt

  apply_unset-IsSound :
      (vol k : String) (kind : KeyKind) → IsSound [] (apply_unset w lower vol k kind)
  unfolding apply_unset sync_if_copies
  apply_unset-IsSound vol k (mutable values) =
      then-IsSound [] _ _ (zfs-IsSound w [] _ (vol_inherit_property-IsZfsOnly w _ _)) λ _.
        if-IsSound [] _ _ _ (zfs-IsSound w [] _ (vol_sync_thick_refreservation-IsZfsOnly w _))
          (pure-IsSound [] tt)
  apply_unset-IsSound vol k immutable = refuse_immutable-IsSound vol k
  apply_unset-IsSound vol k custom = pure-IsSound [] tt

  pub set-IsSound : (meta : SrMeta) (key k v : String) → IsSound [] (set w lower sr meta key k v)
  unfolding set set_key
  set-IsSound meta key k v =
      search (sound, metabase_calls, locked-IsSound, apply_set-IsSound) depth 8

  pub unset-IsSound : (meta : SrMeta) (key k : String) → IsSound [] (unset w lower sr meta key k)
  unfolding unset unset_key
  unset-IsSound meta key k =
      search (sound, metabase_calls, locked-IsSound, apply_unset-IsSound) depth 8

module _ (w : World) (lower : String → String) (dp : Datapath) (separate : IsSeparate dp) where
  call_volume_command-IsSound :
      (sr : String) (r : Request) → IsSound [] (call_volume_command w lower dp sr r)
  unfolding call_volume_command answer_with
  call_volume_command-IsSound sr (Request.create meta name description size sharable) =
      search (sound, create-IsSound)
  call_volume_command-IsSound sr (Request.import_existing meta key name description size sharable) =
      search (sound, import_existing-IsSound)
  call_volume_command-IsSound sr (Request.destroy meta key) =
      destroy-IsSound w sr dp separate meta key
  call_volume_command-IsSound sr (Request.stat meta key) = search (sound, stat-IsSound)
  call_volume_command-IsSound sr (Request.snapshot meta key) =
      search (sound, snapshot-IsSound w sr dp separate)
  call_volume_command-IsSound sr (Request.clone meta key) = search (sound, clone-IsSound)
  call_volume_command-IsSound sr (Request.similar_content meta key) = pure-IsSound [] tt
  call_volume_command-IsSound sr (Request.resize meta key size) = resize-IsSound w sr meta key size
  call_volume_command-IsSound sr (Request.copy dest_sr meta dest_meta key) =
      search (sound, copy-IsSound)
  call_volume_command-IsSound sr (Request.set meta key k v) = set-IsSound w lower sr meta key k v
  call_volume_command-IsSound sr (Request.unset meta key k) = unset-IsSound w lower sr meta key k
  call_volume_command-IsSound sr (Request.unknown name) = raise-IsSound [] _

  serve-Keeps :
      (requests : List (String × Request)) (h : History)
      → Keeps [] h
      → Keeps [] (serve w lower dp requests h)
  unfolding serve
  serve-Keeps [] h k = k
  serve-Keeps ((sr, r) ∷ requests) h k =
      serve-Keeps requests _ ((call_volume_command-IsSound sr r).keeps h k)

  -- Whatever ZFS, the metabase and the locks answer or raise, a sequence of the requests that are
  -- modelled, all but set_name, set_description and list_changed_blocks, leaves no scope open, calls the metabase only within a context of it, and makes every change but that of a size
  -- under the lock of a volume context for writing, all of one SR; where the change tracking calls no
  -- metabase.
  pub serve-IsDisciplined :
      (requests : List (String × Request))
      → (open_scopes (serve w lower dp requests []) ≡ [])
        × IsDisciplined (serve w lower dp requests [])
  unfolding open_scopes
  serve-IsDisciplined requests = serve-Keeps requests [] (refl, tt)
