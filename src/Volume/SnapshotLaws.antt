-- ===== src/Volume/SnapshotLaws.antt =====
-- Why `destroy` of volume.py refuses a snapshot that something is cloned from.
use zfs_live_xapi.Prelude.{
  ℕ, String, true, some, List, ◌∷◌, refl, ◌≡◌, ap, sym, ◌∙◌, subst, if◌then◌else◌,
}
use zfs_live_xapi.Effects.{
  World, M, History, Result, ok, within, volume_context, Vdi, delete_vdi, volume_destroy,
  delete_volume, ◌>>=◌, ◌>>◌,
}
use zfs_live_xapi.Effects.Triple.{
  Does, Never, raise-Does, bind-Does, stop-Does, then-Does, if-Does, within-Does, returns-Does,
  Raises, Does-Raises,
}
use zfs_live_xapi.Effects.Kinds.{ChangesNothing}
use zfs_live_xapi.Zfs.{
  format_zvol_name, destroy_zvol, find_snapshot_by_uuid, find_snapshot_clones, log_pool_tree,
}
use zfs_live_xapi.Zfs.Readers.{
  IsReader, reader-ChangesNothing, find_snapshot_by_uuid-IsReader, find_snapshot_clones-IsReader,
  log_pool_tree-IsReader,
}
use zfs_live_xapi.Volume.Metabase.{SrMeta, sr_dataset, db_get_vdi, db_do, locked, recover_vdi_vsize}
use zfs_live_xapi.Volume.Datapath.{Datapath}
use zfs_live_xapi.Volume.Refusals.{get_vdi-Does, recover-Does}
use zfs_live_xapi.Volume.Destroy.{
  without, no_dependents, destroy_if_exists, destroy_snapshot_named, destroy_snapshot,
  destroy_volume, destroy_rows, remove_cbt, destroy,
}

-- The row of a snapshot with a known size.
abbrev pub IsSnapshotRow : String → ℕ → Vdi → Type 0
IsSnapshotRow uuid size v = (v.volume.snap ≡ true) × (v.volume.vsize ≡ some size) × (v.uuid ≡ uuid)

module _ (w : World) where
  answer-Does :
      {A : Type 0} (m : M A) (a : A)
      → ((h : History) → (m h).0 ≡ ok a)
      → IsReader m
      → Does ChangesNothing (λ b. b ≡ a) m
  answer-Does {A} m a e d =
      returns-Does ChangesNothing (λ b. b ≡ a) m (λ h b eq. ok-injective b a (sym eq ∙ e h))
        (reader-ChangesNothing m d)
    where
      ok-injective : (b a : A) → Path (Result A) (ok b) (ok a) → b ≡ a
      ok-injective b a e = cc

  no_dependents-Does :
      (snap dep : String) (deps found : List String)
      → found ≡ dep ∷ deps
      → Does ChangesNothing Never (no_dependents w snap found)
  unfolding no_dependents
  no_dependents-Does snap dep deps found e = rw e (raise-Does ChangesNothing Never _)

  destroy_snapshot-Does :
      (dataset uuid snap dep : String) (deps clones : List String)
      → ((h : History) → (find_snapshot_by_uuid w dataset uuid h).0 ≡ ok (some snap))
      → ((h : History) → (find_snapshot_clones w snap h).0 ≡ ok clones)
      → without w (format_zvol_name dataset uuid) clones ≡ dep ∷ deps
      → Does ChangesNothing Never (destroy_snapshot w dataset uuid)
  unfolding destroy_snapshot destroy_snapshot_named
  destroy_snapshot-Does dataset uuid snap dep deps clones found listed others =
      let clone_path = format_zvol_name dataset uuid in
      bind-Does ChangesNothing (λ o. o ≡ some snap) Never (find_snapshot_by_uuid w dataset uuid)
        (λ o. log_pool_tree w dataset >> destroy_snapshot_named w dataset uuid o)
        (answer-Does _ _ found (find_snapshot_by_uuid-IsReader w dataset uuid))
        λ o e.
          then-Does ChangesNothing Never (log_pool_tree w dataset) _
            (reader-ChangesNothing _ (log_pool_tree-IsReader w dataset))
            λ _.
              subst (λ x. Does ChangesNothing Never (destroy_snapshot_named w dataset uuid x))
                (sym e)
                (bind-Does ChangesNothing (λ ds. ds ≡ clones) Never (find_snapshot_clones w snap)
                  (λ ds.
                    no_dependents w snap (without w clone_path ds)
                    >> (destroy_if_exists w clone_path >> destroy_zvol w snap))
                  (answer-Does _ _ listed (find_snapshot_clones-IsReader w snap))
                  λ ds eq.
                    stop-Does ChangesNothing Never (no_dependents w snap (without w clone_path ds))
                      (λ _. destroy_if_exists w clone_path >> destroy_zvol w snap)
                      (no_dependents-Does snap dep deps _ (ap (without w clone_path) eq ∙ others)))

  destroy_rows-Does :
      (dataset key snap dep : String) (size : ℕ) (uuid : String) (deps clones : List String)
      → ((h : History) → IsSnapshotRow uuid size (w.vdi h key))
      → ((h : History) → (find_snapshot_by_uuid w dataset uuid h).0 ≡ ok (some snap))
      → ((h : History) → (find_snapshot_clones w snap h).0 ≡ ok clones)
      → without w (format_zvol_name dataset uuid) clones ≡ dep ∷ deps
      → Does ChangesNothing Never (destroy_rows w dataset key)
  unfolding destroy_rows
  destroy_rows-Does dataset key snap dep size uuid deps clones row found listed others =
      let gone : Vdi → M (Unit {0}) = λ v.
        db_do w (delete_vdi key)
        >> (db_do w (volume_destroy v.volume.id) >> db_do w (delete_volume v.volume.id)) in
      let taken : Vdi → ℕ → M (Unit {0}) = λ v size.
        if v.volume.snap
        then destroy_snapshot w dataset v.uuid
        else destroy_volume w dataset v size in
      bind-Does ChangesNothing (IsSnapshotRow uuid size) Never (db_get_vdi w key)
        (λ v. recover_vdi_vsize w v dataset >>= λ vsize. taken v vsize >> gone v)
        (get_vdi-Does w (IsSnapshotRow uuid size) key row)
        λ v (is_snap, sized, named).
          bind-Does ChangesNothing (λ n. n ≡ size) Never (recover_vdi_vsize w v dataset)
            (λ vsize. taken v vsize >> gone v) (recover-Does w v dataset size sized)
            λ vsize _.
              stop-Does ChangesNothing Never (taken v vsize) (λ _. gone v)
                (if-Does ChangesNothing Never v.volume.snap (destroy_snapshot w dataset v.uuid)
                  (destroy_volume w dataset v vsize)
                  (λ _.
                    subst (λ u. Does ChangesNothing Never (destroy_snapshot w dataset u))
                      (sym named)
                      (destroy_snapshot-Does dataset uuid snap dep deps clones found listed others))
                  (λ f. absurd (cc)))

  destroy-Does :
      (dp : Datapath) (sr : String) (meta : SrMeta) (key : String)
      → Does ChangesNothing Never (destroy_rows w (sr_dataset meta) key)
      → Does ChangesNothing Never (destroy w dp sr meta key)
  unfolding destroy locked
  destroy-Does dp sr meta key d =
      stop-Does ChangesNothing Never
        (within w (volume_context sr "w") (locked w sr (destroy_rows w (sr_dataset meta) key)))
        (λ _. remove_cbt w dp sr (sr_dataset meta) key)
        (within-Does ChangesNothing w Never _ _ refl refl (
          within-Does ChangesNothing w Never _ _ refl refl
            (within-Does ChangesNothing w Never _ _ refl refl d)))

  -- `destroy` of a snapshot raises and changes neither ZFS nor the metabase, nor removes change
  -- tracking, where the metabase has the snapshot with its size and ZFS, whenever it is asked, lists a
  -- clone of the snapshot other than the one made along with it.
  pub destroy-dependents :
      (dp : Datapath) (sr : String) (meta : SrMeta) (key uuid snap dep : String) (size : ℕ)
      (deps clones : List String) (h : History)
      → ((h : History) → IsSnapshotRow uuid size (w.vdi h key))
      → ((h : History) → (find_snapshot_by_uuid w (sr_dataset meta) uuid h).0 ≡ ok (some snap))
      → ((h : History) → (find_snapshot_clones w snap h).0 ≡ ok clones)
      → without w (format_zvol_name (sr_dataset meta) uuid) clones ≡ dep ∷ deps
      → Raises ChangesNothing h (destroy w dp sr meta key h)
  destroy-dependents dp sr meta key uuid snap dep size deps clones h row found listed others =
      Does-Raises ChangesNothing _
        (destroy-Does dp sr meta key
          (destroy_rows-Does _ key snap dep size uuid deps clones row found listed others))
        h
