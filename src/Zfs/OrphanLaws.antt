-- ===== src/Zfs/OrphanLaws.antt =====
-- What the search for orphans reports.
use zfs_live_xapi.Prelude.{
  ℕ, String, Bool, true, false, Option, none, some, List, [], ◌∷◌, ◌≡◌, refl, ap, sym, ◌∙◌, subst,
  if◌then◌else◌,
}
use zfs_live_xapi.Prelude.Lists.{contains}
use zfs_live_xapi.Prelude.Text.{split, partition, last_or}
use zfs_live_xapi.Effects.{
  World, is_internal_error, DpMetadata, no_metadata, unreadable, with_pid, spawned, M, History, ok,
  pure, look, ◌>>=◌,
}
use zfs_live_xapi.Effects.Kinds.{IsRead}
use zfs_live_xapi.Effects.Triple.{
  All, Does, Anything, pure-Does, raise-Does, bind-Does, then-Does, if-Does, if_any-Does,
  try_any-Does, try_except-Does, spawn-Does, look-Does, returns-Does,
}
use zfs_live_xapi.Zfs.Kinds.{run_zfs-Does}
use zfs_live_xapi.Zfs.Command.{run_zfs}
use zfs_live_xapi.Zfs.Datasets.{slash}
use zfs_live_xapi.Zfs.Zvols.{at_sign}
use zfs_live_xapi.Zfs.Reported.{vol_get_properties_batch}
use zfs_live_xapi.Zfs.Orphans.{
  Orphan, is_stale, metadata_file, none_on_internal_error, dataset_list_zvols,
  dataset_list_snapshots, zvol_device_is_open, kill_0, serves, load_metadata,
  zvol_has_active_datapath, describe, unless_in_use, zvol_orphan, snapshot_orphan, zsnap_orphan,
  add_orphan, find_orphans, zvol_find_orphans, zsnap_find_orphans,
}

-- An orphan's name, where it is reported: at some point of the run its zvol, or that of its snapshot,
-- was found neither open nor served.
abbrev pub WasIdle : World → String → Type 0
WasIdle w zvol =
    ((h : History) × ((zvol_device_is_open w zvol h).0 ≡ ok false))
    × ((h : History) × ((zvol_has_active_datapath w zvol h).0 ≡ ok false))

module _ (w : World) where
  -- Yielding what is returned, as a fact about some history.
  seen-Does :
      {A : Type 0} (m : M A)
      → Does IsRead Anything m
      → Does IsRead (λ a. (h : History) × ((m h).0 ≡ ok a)) m
  seen-Does m d = returns-Does IsRead _ m (λ h a e. (h, e)) d

  zvol_device_is_open-Does : (zvol : String) → Does IsRead Anything (zvol_device_is_open w zvol)
  unfolding zvol_device_is_open
  zvol_device_is_open-Does zvol =
      try_any-Does IsRead _ _
        (then-Does IsRead Anything _ _ (spawn-Does IsRead w _ refl) λ proc.
          if_any-Does IsRead Anything _ _ _ (pure-Does IsRead Anything true tt)
            (raise-Does IsRead Anything _))
        (λ e. pure-Does IsRead Anything false tt)

  kill_0-Does : (pid : ℕ) → Does IsRead Anything (kill_0 w pid)
  unfolding kill_0
  kill_0-Does pid = look-Does IsRead w _ _ refl

  serves-Does : (pid : Option ℕ) → Does IsRead Anything (serves w pid)
  unfolding serves
  serves-Does none = pure-Does IsRead Anything false tt
  serves-Does (some pid) =
      if_any-Does IsRead Anything _ _ _ (pure-Does IsRead Anything false tt)
        (then-Does IsRead Anything _ _ (kill_0-Does pid) (λ _. pure-Does IsRead Anything true tt))

  load_metadata-Does : (metadata : DpMetadata) → Does IsRead Anything (load_metadata w metadata)
  unfolding load_metadata
  load_metadata-Does no_metadata = pure-Does IsRead Anything false tt
  load_metadata-Does (unreadable e) = raise-Does IsRead Anything e
  load_metadata-Does (with_pid pid) = serves-Does pid

  active-Does : (zvol : String) → Does IsRead Anything (zvol_has_active_datapath w zvol)
  unfolding zvol_has_active_datapath
  active-Does zvol =
      let file : String = metadata_file w zvol in
      try_any-Does IsRead _ _
        (then-Does IsRead Anything (look w file (λ h. ok (w.dp_metadata h file))) (load_metadata w)
          (look-Does IsRead w file (λ h. ok (w.dp_metadata h file)) refl) load_metadata-Does)
        (λ e.
          if_any-Does IsRead Anything (is_stale e) _ _ (pure-Does IsRead Anything false tt)
            (raise-Does IsRead Anything e))

  -- What is described bears its name.
  pub describe-Does :
      (name field : String) → Does IsRead (λ o. o.name ≡ name) (describe w name field)
  unfolding describe vol_get_properties_batch
  describe-Does name field =
      try_except-Does IsRead _ _ _
        (then-Does IsRead _ _ _
          (then-Does IsRead Anything _ _ (run_zfs-Does IsRead w _ refl)
            (λ out. pure-Does IsRead Anything _ tt))
          (λ props. pure-Does IsRead (λ o. o.name ≡ name) _ refl))
        (λ e. pure-Does IsRead (λ o. o.name ≡ name) _ refl)

  -- The check of a name: an orphan with the property, or none.
  abbrev Reports : (String → Type 0) → Option Orphan → Type 0
  Reports Q none = Unit
  Reports Q (some o) = Q o.name

  unless_in_use-Does :
      (Q : String → Type 0) (zvol name field : String)
      → (WasIdle w zvol → Q name)
      → Does IsRead (Reports Q) (unless_in_use w zvol name field)
  unfolding unless_in_use
  unless_in_use-Does Q zvol name field q =
      let finish : M (Option Orphan) = describe w name field >>= λ o. pure (some o) in
      let second : Bool → M (Option Orphan) = λ active. if active then pure none else finish in
      let checked : M (Option Orphan) = zvol_has_active_datapath w zvol >>= second in
      bind-Does IsRead _ (Reports Q) (zvol_device_is_open w zvol)
        (λ opened. if opened then pure none else checked)
        (seen-Does _ (zvol_device_is_open-Does zvol))
        λ opened s.
          if-Does IsRead (Reports Q) opened (pure none) checked
            (λ t. pure-Does IsRead (Reports Q) none tt)
            λ f.
              bind-Does IsRead _ (Reports Q) (zvol_has_active_datapath w zvol) second
                (seen-Does _ (active-Does zvol))
                λ active t.
                  if-Does IsRead (Reports Q) active (pure none) finish
                    (λ t. pure-Does IsRead (Reports Q) none tt)
                    λ g.
                      bind-Does IsRead (λ o. o.name ≡ name) (Reports Q) (describe w name field)
                        (λ o. pure (some o)) (describe-Does name field)
                        λ o e. pure-Does IsRead (Reports Q) (some o) (
                          subst Q (sym e)
                            (q ((s.0, s.1 ∙ ap (λ b. ok b) f), (t.0, t.1 ∙ ap (λ b. ok b) g))))

  add-All :
      (Q : String → Type 0) (found : Option Orphan) (orphans : List Orphan)
      → Reports Q found
      → All (λ o. Q o.name) orphans
      → All (λ o. Q o.name) (add_orphan w found orphans)
  unfolding add_orphan
  add-All Q none orphans p q = q
  add-All Q (some o) orphans p q = (p, q)

  find_orphans-Does :
      (Q : String → Type 0) (check : String → M (Option Orphan)) (names : List String)
      → All (λ name. Does IsRead (Reports Q) (check name)) names
      → Does IsRead (All (λ o. Q o.name)) (find_orphans w check names)
  unfolding find_orphans
  find_orphans-Does Q check [] p = pure-Does IsRead (All (λ o. Q o.name)) [] tt
  find_orphans-Does Q check (name ∷ names) (d, p) =
      bind-Does IsRead (Reports Q) (All (λ o. Q o.name)) (check name)
        (λ found. find_orphans w check names >>= λ orphans. pure (add_orphan w found orphans)) d
        λ found r.
          bind-Does IsRead (All (λ o. Q o.name)) (All (λ o. Q o.name)) (find_orphans w check names)
            (λ orphans. pure (add_orphan w found orphans)) (find_orphans-Does Q check names p)
            λ orphans s.
              pure-Does IsRead (All (λ o. Q o.name)) (add_orphan w found orphans)
                (add-All Q found orphans r s)

  listed-Does :
      (cmd : List String) (f : String → List String)
      → IsRead (spawned cmd)
      → Does IsRead Anything (none_on_internal_error w (run_zfs w cmd >>= λ out. pure (f out)))
  unfolding none_on_internal_error
  listed-Does cmd f p =
      try_any-Does IsRead _ _
        (then-Does IsRead Anything _ _ (run_zfs-Does IsRead w cmd p)
          (λ out. pure-Does IsRead Anything (f out) tt))
        (λ e.
          if_any-Does IsRead Anything (is_internal_error e) _ _ (pure-Does IsRead Anything [] tt)
            (raise-Does IsRead Anything e))

  -- What a zvol is reported for, and what a snapshot is: an id that is not known, and no use.
  abbrev pub IsZvolOrphan : List String → String → Type 0
  IsZvolOrphan known name =
      (contains known (last_or name (split slash name)) ≡ false) × WasIdle w name

  abbrev pub IsSnapshotOrphan : List String → String → Type 0
  IsSnapshotOrphan known name =
      (parent : String) × (uuid : String) × (partition at_sign name ≡ (parent, some uuid))
      × (contains known uuid ≡ false)
      × WasIdle w parent

  zvol_orphan-Does :
      (Q : String → Type 0) (known : List String) (name : String)
      → (IsZvolOrphan known name → Q name)
      → Does IsRead (Reports Q) (zvol_orphan w known name)
  unfolding zvol_orphan
  zvol_orphan-Does Q known name q =
      if-Does IsRead (Reports Q) (contains known (last_or name (split slash name))) (pure none)
        (unless_in_use w name name "volsize") (λ t. pure-Does IsRead (Reports Q) none tt)
        λ f. unless_in_use-Does Q name name "volsize" (λ idle. q (f, idle))

  snapshot_orphan-Does :
      (known : List String) (parent : String) (uuid : Option String) (name : String)
      → partition at_sign name ≡ (parent, uuid)
      → Does IsRead (Reports (IsSnapshotOrphan known)) (snapshot_orphan w known parent uuid name)
  unfolding snapshot_orphan
  snapshot_orphan-Does known parent none name e =
      pure-Does IsRead (Reports (IsSnapshotOrphan known)) none tt
  snapshot_orphan-Does known parent (some uuid) name e =
      if-Does IsRead (Reports (IsSnapshotOrphan known)) (contains known uuid) (pure none)
        (unless_in_use w parent name "used")
        (λ t. pure-Does IsRead (Reports (IsSnapshotOrphan known)) none tt)
        λ f.
          unless_in_use-Does (IsSnapshotOrphan known) parent name "used"
            (λ idle. (parent, uuid, e, f, idle))

  zsnap_orphan-Does :
      (known : List String) (name : String)
      → Does IsRead (Reports (IsSnapshotOrphan known)) (zsnap_orphan w known name)
  unfolding zsnap_orphan
  zsnap_orphan-Does known name = snapshot_orphan-Does known _ _ name refl

  every : {P : String → Type 0} → ((s : String) → P s) → (names : List String) → All P names
  every f [] = tt
  every f (s ∷ names) = (f s, every f names)

  -- From what is known of the names that ZFS lists.
  pub zvol_find_orphans-Does :
      (N Q : String → Type 0) (dataset : String) (known : List String)
      → Does IsRead (All N) (dataset_list_zvols w dataset)
      → ((name : String) → N name → IsZvolOrphan known name → Q name)
      → Does IsRead (All (λ o. Q o.name)) (zvol_find_orphans w dataset known)
  unfolding zvol_find_orphans
  zvol_find_orphans-Does N Q dataset known d q =
      bind-Does IsRead (All N) (All (λ o. Q o.name)) (dataset_list_zvols w dataset)
        (find_orphans w (zvol_orphan w known)) d
        λ names n. find_orphans-Does Q (zvol_orphan w known) names (each names n)
    where
      each :
          (names : List String)
          → All N names
          → All (λ name. Does IsRead (Reports Q) (zvol_orphan w known name)) names
      each [] n = tt
      each (name ∷ names) (n, ns) = (zvol_orphan-Does Q known name (q name n), each names ns)

  pub dataset_list_zvols-Does :
      (dataset : String) → Does IsRead Anything (dataset_list_zvols w dataset)
  unfolding dataset_list_zvols
  dataset_list_zvols-Does dataset = listed-Does _ _ refl

  pub dataset_list_snapshots-Does :
      (dataset : String) → Does IsRead Anything (dataset_list_snapshots w dataset)
  unfolding dataset_list_snapshots
  dataset_list_snapshots-Does dataset = listed-Does _ _ refl

  pub zsnap_find_orphans-Does :
      (dataset : String) (known : List String)
      → Does IsRead (All (λ o. IsSnapshotOrphan known o.name)) (zsnap_find_orphans w dataset known)
  unfolding zsnap_find_orphans dataset_list_snapshots
  zsnap_find_orphans-Does dataset known =
      then-Does IsRead (All (λ o. IsSnapshotOrphan known o.name)) _ _ (listed-Does _ _ refl)
        λ names.
          find_orphans-Does (IsSnapshotOrphan known) (zsnap_orphan w known) names
            (every (zsnap_orphan-Does known) names)
