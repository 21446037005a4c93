-- ===== src/Volume/Discipline/Handlers.antt =====
-- `create`, `import_existing`, `destroy`, `resize`, `stat`, `snapshot` and `clone`, each with no scope
-- open before and after.
use zfs_live_xapi.Prelude.{false, ℕ, String, Bool, Option, none, some, List, [], ◌∷◌}
use zfs_live_xapi.Effects.{
  insert_child_volume, insert_vdi, World, Scope, volume_context, poll_lock, db_context, Vdi, M,
}
use zfs_live_xapi.Effects.Scopes.{
  IsSound, pure-IsSound, raise-IsSound, then-IsSound, within-IsSound,
}
use zfs_live_xapi.Zfs.Outside.{
  IsZfsOnly, find_snapshot_clones-IsZfsOnly, destroy_zvol-IsZfsOnly, clone_snapshot-IsZfsOnly,
  promote_clone-IsZfsOnly, log_pool_tree-IsZfsOnly,
}
use zfs_live_xapi.Volume.Metabase.{SrMeta, locked}
use zfs_live_xapi.Volume.Datapath.{Datapath}
use zfs_live_xapi.Volume.Create.{
  check_space, effective_copies, create_rows, create_in_context, create, import_rows,
  import_in_context, require_zvol, import_existing,
}
use zfs_live_xapi.Volume.Destroy.{
  no_dependents, destroy_if_exists, destroy_snapshot_named, destroy_snapshot, clone_for, clone_each,
  promote_each, promote_all, destroy_volume, destroy_rows, remove_cbt, destroy,
}
use zfs_live_xapi.Volume.Resize.{
  no_shrinking, resize_check, resize_apply, resize_in_context, resize,
}
use zfs_live_xapi.Volume.Clones.{
  found_snapshot, backing_name, stat_rows, stat_in_context, stat, snapshot_base, snapshot_rows,
  snapshot_in_context, snapshot, clone_source, keep_thick, name_or_raise, clone_rows, clone,
}
use zfs_live_xapi.Volume.Discipline.{
  under_lock-permits, under_lock, zfs-IsSound, mint_uuid-IsSound, db_insert_volume-IsSound,
  db_do-IsSound, sound, zfs_calls, metabase_calls,
}

-- The datapath plugin's change tracking calls neither the metabase nor its scopes.
pub record IsSeparate (dp : Datapath) : Type 0 where
  pub remove : (uri key : String) → IsZfsOnly (dp.remove_cbt_metadata uri key)
  pub capture :
      (dataset parent snap : String) → IsZfsOnly (dp.capture_at_snapshot dataset parent snap)

module _ (w : World) (sr : String) where
  pub locked-IsSound :
      {A : Type 0} (m : M A)
      → IsSound (under_lock sr) m
      → IsSound (volume_context sr "w" ∷ []) (locked w sr m)
  unfolding locked
  locked-IsSound m s =
      within-IsSound (volume_context sr "w" ∷ []) w (poll_lock sr) _
        (within-IsSound (poll_lock sr ∷ volume_context sr "w" ∷ []) w (db_context sr) m s)

  check_space-IsSound : (dataset : String) (size : ℕ) → IsSound [] (check_space w dataset size)
  unfolding check_space effective_copies
  check_space-IsSound dataset size = search (sound, zfs_calls) depth 8

  create_rows-IsSound :
      (meta : SrMeta) (uuid name description : String) (size : ℕ) (sharable : Bool)
      → IsSound (under_lock sr) (create_rows w meta uuid name description size sharable)
  unfolding create_rows
  create_rows-IsSound meta uuid name description size sharable =
      search (sound, zfs_calls, metabase_calls) depth 12

  pub create-IsSound :
      (meta : SrMeta) (name description : String) (size : ℕ) (sharable : Bool)
      → IsSound [] (create w sr meta name description size sharable)
  unfolding create create_in_context
  create-IsSound meta name description size sharable =
      search
        (sound, zfs_calls, metabase_calls, locked-IsSound, check_space-IsSound, create_rows-IsSound)
        depth 10

  import_rows-IsSound :
      (meta : SrMeta) (key name description : String) (size : ℕ) (sharable : Bool)
      → IsSound (under_lock sr) (import_rows w meta key name description size sharable)
  unfolding import_rows
  import_rows-IsSound meta key name description size sharable =
      search (sound, zfs_calls, metabase_calls) depth 12

  pub import_existing-IsSound :
      (meta : SrMeta) (key name description : String) (size : ℕ) (sharable : Bool)
      → IsSound [] (import_existing w sr meta key name description size sharable)
  unfolding import_existing import_in_context require_zvol
  import_existing-IsSound meta key name description size sharable =
      search (sound, zfs_calls, metabase_calls, locked-IsSound, import_rows-IsSound) depth 10

  pub resize-IsSound :
      (meta : SrMeta) (key : String) (size : ℕ) → IsSound [] (resize w sr meta key size)
  unfolding resize resize_in_context resize_check resize_apply no_shrinking
  resize-IsSound meta key size = search (sound, zfs_calls, metabase_calls) depth 12

  found_snapshot-IsSound :
      (scopes : List Scope) (uuid : String) (o : Option String)
      → IsSound scopes (found_snapshot w uuid o)
  unfolding found_snapshot
  found_snapshot-IsSound scopes uuid none = raise-IsSound scopes _
  found_snapshot-IsSound scopes uuid (some name) = pure-IsSound scopes name

  pub stat-IsSound : (meta : SrMeta) (key : String) → IsSound [] (stat w sr meta key)
  unfolding stat stat_in_context stat_rows backing_name
  stat-IsSound meta key = search (sound, zfs_calls, metabase_calls, found_snapshot-IsSound) depth 12

  snapshot_rows-IsSound :
      (dataset key uuid : String) → IsSound (under_lock sr) (snapshot_rows w dataset key uuid)
  unfolding snapshot_rows snapshot_base
  snapshot_rows-IsSound dataset key uuid = search (sound, zfs_calls, metabase_calls) depth 16

  pub snapshot-IsSound :
      (dp : Datapath)
      → IsSeparate dp
      → (meta : SrMeta) (key : String) → IsSound [] (snapshot w dp sr meta key)
  unfolding snapshot snapshot_in_context
  snapshot-IsSound dp separate meta key =
      let capture = separate.capture in
      search (sound, zfs_calls, metabase_calls, locked-IsSound, snapshot_rows-IsSound, capture)
        depth 12

  name_or_raise-IsSound :
      (scopes : List Scope) (o : Option String) → IsSound scopes (name_or_raise w o)
  unfolding name_or_raise
  name_or_raise-IsSound scopes none = raise-IsSound scopes _
  name_or_raise-IsSound scopes (some name) = pure-IsSound scopes name

  clone_rows-IsSound :
      (dataset key uuid : String) → IsSound (under_lock sr) (clone_rows w dataset key uuid)
  unfolding clone_rows clone_source keep_thick
  clone_rows-IsSound dataset key uuid =
      search (sound, zfs_calls, metabase_calls, name_or_raise-IsSound) depth 16

  pub clone-IsSound : (meta : SrMeta) (key : String) → IsSound [] (clone w sr meta key)
  unfolding clone
  clone-IsSound meta key =
      search (sound, zfs_calls, metabase_calls, locked-IsSound, clone_rows-IsSound) depth 12

  no_dependents-IsSound :
      (scopes : List Scope) (name : String) (deps : List String)
      → IsSound scopes (no_dependents w name deps)
  unfolding no_dependents
  no_dependents-IsSound scopes name [] = pure-IsSound scopes tt
  no_dependents-IsSound scopes name (dep ∷ deps) = raise-IsSound scopes _

  destroy_if_exists-IsSound :
      (scopes : List Scope) (path : String) → IsSound scopes (destroy_if_exists w path)
  unfolding destroy_if_exists
  destroy_if_exists-IsSound scopes path = search (sound, zfs_calls)

  destroy_snapshot_named-IsSound :
      (scopes : List Scope) (dataset uuid : String) (o : Option String)
      → IsSound scopes (destroy_snapshot_named w dataset uuid o)
  unfolding destroy_snapshot_named
  destroy_snapshot_named-IsSound scopes dataset uuid none = raise-IsSound scopes _
  destroy_snapshot_named-IsSound scopes dataset uuid (some name) =
      then-IsSound scopes _ _ (zfs-IsSound w scopes _ (find_snapshot_clones-IsZfsOnly w name))
        λ deps. then-IsSound scopes _ _ (no_dependents-IsSound scopes name _) λ _.
          then-IsSound scopes _ _ (destroy_if_exists-IsSound scopes _)
            λ _. zfs-IsSound w scopes _ (destroy_zvol-IsZfsOnly w name)

  clone_for-IsSound :
      (dataset : String) (vdi : Vdi) (vsize : ℕ) (snap : String) (deps : List String)
      → IsSound (under_lock sr) (clone_for w dataset vdi vsize snap deps)
  unfolding clone_for
  clone_for-IsSound dataset vdi vsize snap (dep ∷ deps) = pure-IsSound _ dep
  clone_for-IsSound dataset vdi vsize snap [] =
      then-IsSound _ _ _
        (db_insert_volume-IsSound w (under_lock sr) _
          (under_lock-permits sr (insert_child_volume (some vdi.volume.id) (some vsize) false)))
        λ id. then-IsSound _ _ _ (mint_uuid-IsSound w (under_lock sr)) λ uuid.
          then-IsSound _ _ _
            (db_do-IsSound w (under_lock sr) _
              (under_lock-permits sr (insert_vdi "clone" "" uuid id false)))
            λ _.
              then-IsSound _ _ _ (zfs-IsSound w (under_lock sr) _ (clone_snapshot-IsZfsOnly w _ _))
                λ _. pure-IsSound _ _

  clone_each-IsSound :
      (dataset : String) (vdi : Vdi) (vsize : ℕ) (snaps : List String)
      → IsSound (under_lock sr) (clone_each w dataset vdi vsize snaps)
  unfolding clone_each
  clone_each-IsSound dataset vdi vsize [] = pure-IsSound _ _
  clone_each-IsSound dataset vdi vsize (snap ∷ snaps) =
      then-IsSound _ _ _ (zfs-IsSound w (under_lock sr) _ (find_snapshot_clones-IsZfsOnly w snap))
        λ deps. then-IsSound _ _ _ (clone_for-IsSound dataset vdi vsize snap deps) λ dep.
          then-IsSound _ _ _ (clone_each-IsSound dataset vdi vsize snaps) λ rest. pure-IsSound _ _

  promote_each-IsSound :
      (scopes : List Scope) (deps : List String) → IsSound scopes (promote_each w deps)
  unfolding promote_each
  promote_each-IsSound scopes [] = pure-IsSound scopes tt
  promote_each-IsSound scopes (dep ∷ deps) =
      then-IsSound scopes _ _ (zfs-IsSound w scopes _ (promote_clone-IsZfsOnly w dep))
        λ _. promote_each-IsSound scopes deps

  promote_all-IsSound :
      (scopes : List Scope) (dataset : String) (deps : List String)
      → IsSound scopes (promote_all w dataset deps)
  unfolding promote_all
  promote_all-IsSound scopes dataset [] = pure-IsSound scopes tt
  promote_all-IsSound scopes dataset (dep ∷ deps) =
      then-IsSound scopes _ _ (promote_each-IsSound scopes (dep ∷ deps))
        λ _. zfs-IsSound w scopes _ (log_pool_tree-IsZfsOnly w dataset)

  destroy_rows-IsSound :
      (dataset key : String) → IsSound (under_lock sr) (destroy_rows w dataset key)
  unfolding destroy_rows destroy_snapshot destroy_volume
  destroy_rows-IsSound dataset key =
      search
        (
          sound, zfs_calls, metabase_calls, destroy_snapshot_named-IsSound, clone_each-IsSound,
          promote_all-IsSound,
        )
        depth 12

  remove_cbt-IsSound :
      (dp : Datapath)
      → IsSeparate dp
      → (dataset key : String) → IsSound [] (remove_cbt w dp sr dataset key)
  unfolding remove_cbt
  remove_cbt-IsSound dp separate dataset key =
      let remove = separate.remove in search (sound, zfs-IsSound, remove) depth 8

  pub destroy-IsSound :
      (dp : Datapath)
      → IsSeparate dp
      → (meta : SrMeta) (key : String) → IsSound [] (destroy w dp sr meta key)
  unfolding destroy
  destroy-IsSound dp separate meta key =
      let cleanup = remove_cbt-IsSound dp separate in
      search (sound, locked-IsSound, destroy_rows-IsSound, cleanup)
