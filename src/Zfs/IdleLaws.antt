-- ===== src/Zfs/IdleLaws.antt =====
-- What the search for orphans has asked about those that it reports.
use zfs_live_xapi.Prelude.{
  String, Bool, false, Option, none, some, List, [], ◌∷◌, ◌≡◌, refl, sym, subst, if◌then◌else◌,
}
use zfs_live_xapi.Prelude.Lists.{contains}
use zfs_live_xapi.Prelude.Text.{split, partition, last_or}
use zfs_live_xapi.Effects.{World, spawned, looked, M, History, pure, ◌>>=◌}
use zfs_live_xapi.Effects.Kinds.{IsRead}
use zfs_live_xapi.Effects.Triple.{All, Does, Anything}
use zfs_live_xapi.Effects.Hoare.{
  IsStable, Saw, Since, Saw-IsStable, Since-IsStable, Ran, Hoare, pure-Hoare, bind-Hoare, if-Hoare,
  adapt-Hoare, keep-Hoare, going_on, Does-Hoare,
}
use zfs_live_xapi.Zfs.Datasets.{slash}
use zfs_live_xapi.Zfs.Zvols.{at_sign}
use zfs_live_xapi.Zfs.Orphans.{
  Orphan, dataset_list_zvols, dataset_list_snapshots, zvol_device_is_open, zvol_has_active_datapath,
  describe, unless_in_use, zvol_orphan, snapshot_orphan, zsnap_orphan, add_orphan, find_orphans,
  zvol_find_orphans, zsnap_find_orphans,
}
use zfs_live_xapi.Zfs.OrphanLaws.{
  describe-Does, dataset_list_zvols-Does, dataset_list_snapshots-Does,
}
use zfs_live_xapi.Zfs.IdleChecks.{
  fuser, dp_file, IsNotOpen, IsNotServed, WasFoundIdle, zvol_device_is_open-Hoare, active-Hoare,
  WasFoundIdle-IsStable,
}

module _ (w : World) (start : History) where
  -- The outcome of the check of a name: an orphan with the property, or none.
  abbrev ReportsAt : (String → History → Type 0) → Option Orphan → History → Type 0
  ReportsAt Q none h = Unit
  ReportsAt Q (some o) h = Q o.name h

  unless_in_use-Hoare :
      (Q : String → History → Type 0) (zvol name field : String)
      → ((h : History) → WasFoundIdle w start zvol h → Q name h)
      → Hoare IsRead (Since start) (ReportsAt Q) (unless_in_use w zvol name field)
  unfolding unless_in_use
  unless_in_use-Hoare Q zvol name field q =
      let Opened : History → Type 0 = Saw start (spawned (fuser zvol)) (IsNotOpen w zvol) in
      let Served : History → Type 0 = Saw start (looked (dp_file w zvol)) (IsNotServed w zvol) in
      let Idle : History → Type 0 = λ h. Opened h × Served h in
      let finish : M (Option Orphan) = describe w name field >>= λ o. pure (some o) in
      let second : Bool → M (Option Orphan) = λ active. if active then pure none else finish in
      let found : Bool → History → Type 0 = λ b h. Since start h × (b ≡ false → Opened h) in
      let both : Bool → History → Type 0 = λ b h. Opened h × (b ≡ false → Served h) in
      bind-Hoare IsRead (Since start) found (ReportsAt Q) (zvol_device_is_open w zvol)
        (λ opened. if opened then pure none else (zvol_has_active_datapath w zvol >>= second))
        (going_on IsRead start (λ b h. b ≡ false → Opened h) (zvol_device_is_open w zvol)
          (zvol_device_is_open-Hoare w start zvol))
        λ b.
          if-Hoare IsRead (found b) (ReportsAt Q) b (pure none)
            (zvol_has_active_datapath w zvol >>= second)
            (λ t. pure-Hoare IsRead (found b) (ReportsAt Q) none (λ h k. tt))
            λ f.
              bind-Hoare IsRead (found b) both (ReportsAt Q) (zvol_has_active_datapath w zvol)
                second
                (adapt-Hoare IsRead (λ h. Opened h × Since start h) (found b) both both
                  (zvol_has_active_datapath w zvol) (λ h k. (k.1 f, k.0)) (λ a h p. p)
                  (keep-Hoare IsRead Opened (Since start) (λ a h. a ≡ false → Served h)
                    (zvol_has_active_datapath w zvol)
                    (Saw-IsStable start (spawned (fuser zvol)) (IsNotOpen w zvol))
                    (active-Hoare w start zvol)))
                λ a.
                  if-Hoare IsRead (both a) (ReportsAt Q) a (pure none) finish
                    (λ t. pure-Hoare IsRead (both a) (ReportsAt Q) none (λ h k. tt))
                    λ g.
                      bind-Hoare IsRead (both a) (λ o h. Idle h × (o.name ≡ name)) (ReportsAt Q)
                        (describe w name field) (λ o. pure (some o))
                        (adapt-Hoare IsRead Idle (both a) (λ o h. Idle h × (o.name ≡ name))
                          (λ o h. Idle h × (o.name ≡ name)) (describe w name field)
                          (λ h k. (k.0, k.1 g)) (λ o h p. p)
                          (Does-Hoare IsRead Idle (λ o. o.name ≡ name) (describe w name field)
                            (WasFoundIdle-IsStable w start zvol) (describe-Does w name field)))
                        λ o.
                          pure-Hoare IsRead (λ h. Idle h × (o.name ≡ name)) (ReportsAt Q) (some o)
                            (λ h (idle, e). subst (λ n. Q n h) (sym e) (q h idle))

  -- The orphans that are found have the property after the search.
  abbrev AllAt : (String → History → Type 0) → List Orphan → History → Type 0
  AllAt Q orphans h = All (λ o. Q o.name h) orphans

  find_orphans-Hoare :
      (Q : String → History → Type 0) (check : String → M (Option Orphan)) (names : List String)
      → ((name : String) → IsStable (Q name))
      → ((name : String) → Hoare IsRead (Since start) (ReportsAt Q) (check name))
      → Hoare IsRead (Since start) (AllAt Q) (find_orphans w check names)
  unfolding find_orphans add_orphan
  find_orphans-Hoare Q check [] stable d = pure-Hoare IsRead (Since start) (AllAt Q) [] (λ h k. tt)
  find_orphans-Hoare Q check (name ∷ names) stable d =
      bind-Hoare IsRead (Since start) (λ found h. Since start h × ReportsAt Q found h) (AllAt Q)
        (check name)
        (λ found. find_orphans w check names >>= λ orphans. pure (add_orphan w found orphans))
        (going_on IsRead start (ReportsAt Q) (check name) (d name))
        λ found.
          bind-Hoare IsRead (λ h. Since start h × ReportsAt Q found h)
            (λ orphans h. ReportsAt Q found h × AllAt Q orphans h) (AllAt Q)
            (find_orphans w check names) (λ orphans. pure (add_orphan w found orphans))
            (adapt-Hoare IsRead (λ h. ReportsAt Q found h × Since start h)
              (λ h. Since start h × ReportsAt Q found h)
              (λ orphans h. ReportsAt Q found h × AllAt Q orphans h)
              (λ orphans h. ReportsAt Q found h × AllAt Q orphans h) (find_orphans w check names)
              (λ h k. (k.1, k.0)) (λ a h p. p)
              (keep-Hoare IsRead (ReportsAt Q found) (Since start) (AllAt Q)
                (find_orphans w check names) (kept found)
                (find_orphans-Hoare Q check names stable d)))
            λ orphans.
              pure-Hoare IsRead (λ h. ReportsAt Q found h × AllAt Q orphans h) (AllAt Q)
                (add_orphan w found orphans) (added found orphans)
    where
      kept : (found : Option Orphan) → IsStable (ReportsAt Q found)
      kept none es h p = tt
      kept (some o) es h p = stable o.name es h p

      added :
          (found : Option Orphan) (orphans : List Orphan) (h : History)
          → ReportsAt Q found h × AllAt Q orphans h
          → AllAt Q (add_orphan w found orphans) h
      added none orphans h (p, q) = q
      added (some o) orphans h (p, q) = (p, q)

  -- What a zvol, and a snapshot, is reported for: an id that is not known, and no use.
  abbrev pub IsIdleZvol : List String → String → History → Type 0
  IsIdleZvol known name h =
      (contains known (last_or name (split slash name)) ≡ false) × WasFoundIdle w start name h

  abbrev pub IsIdleSnapshot : List String → String → History → Type 0
  IsIdleSnapshot known name h =
      (parent : String) × (uuid : String) × (partition at_sign name ≡ (parent, some uuid))
      × (contains known uuid ≡ false)
      × WasFoundIdle w start parent h

  zvol_orphan-Hoare :
      (known : List String) (name : String)
      → Hoare IsRead (Since start) (ReportsAt (IsIdleZvol known)) (zvol_orphan w known name)
  unfolding zvol_orphan
  zvol_orphan-Hoare known name =
      let Q : String → History → Type 0 = IsIdleZvol known in
      if-Hoare IsRead (Since start) (ReportsAt Q) (contains known (last_or name (split slash name)))
        (pure none) (unless_in_use w name name "volsize")
        (λ t. pure-Hoare IsRead (Since start) (ReportsAt Q) none (λ h k. tt))
        λ f. unless_in_use-Hoare Q name name "volsize" (λ h idle. (f, idle))

  snapshot_orphan-Hoare :
      (known : List String) (parent : String) (uuid : Option String) (name : String)
      → partition at_sign name ≡ (parent, uuid)
      → Hoare IsRead
          (Since start)
          (ReportsAt (IsIdleSnapshot known))
          (snapshot_orphan w known parent uuid name)
  unfolding snapshot_orphan
  snapshot_orphan-Hoare known parent none name e =
      pure-Hoare IsRead (Since start) (ReportsAt (IsIdleSnapshot known)) none (λ h k. tt)
  snapshot_orphan-Hoare known parent (some uuid) name e =
      let Q : String → History → Type 0 = IsIdleSnapshot known in
      if-Hoare IsRead (Since start) (ReportsAt Q) (contains known uuid) (pure none)
        (unless_in_use w parent name "used")
        (λ t. pure-Hoare IsRead (Since start) (ReportsAt Q) none (λ h k. tt))
        λ f. unless_in_use-Hoare Q parent name "used" (λ h idle. (parent, uuid, e, f, idle))

  -- The names are listed, and then checked one after another.
  listed-Hoare :
      (Q : String → History → Type 0) (list : M (List String)) (check : String → M (Option Orphan))
      → Does IsRead Anything list
      → ((name : String) → IsStable (Q name))
      → ((name : String) → Hoare IsRead (Since start) (ReportsAt Q) (check name))
      → Hoare IsRead (Since start) (AllAt Q) (list >>= find_orphans w check)
  listed-Hoare Q list check d stable each =
      bind-Hoare IsRead (Since start) (λ names h. Since start h × Unit) (AllAt Q) list
        (find_orphans w check)
        (Does-Hoare IsRead (Since start) Anything list (Since-IsStable start) d)
        λ names.
          adapt-Hoare IsRead (Since start) (λ h. Since start h × Unit) (AllAt Q) (AllAt Q)
            (find_orphans w check names) (λ h k. k.0) (λ a h q. q)
            (find_orphans-Hoare Q check names stable each)

  zvol_find_orphans-Hoare :
      (dataset : String) (known : List String)
      → Hoare IsRead (Since start) (AllAt (IsIdleZvol known)) (zvol_find_orphans w dataset known)
  unfolding zvol_find_orphans
  zvol_find_orphans-Hoare dataset known =
      listed-Hoare (IsIdleZvol known) (dataset_list_zvols w dataset) (zvol_orphan w known)
        (dataset_list_zvols-Does w dataset)
        (λ name es h (f, idle). (f, WasFoundIdle-IsStable w start name es h idle))
        (zvol_orphan-Hoare known)

  zsnap_find_orphans-Hoare :
      (dataset : String) (known : List String)
      → Hoare IsRead
          (Since start)
          (AllAt (IsIdleSnapshot known))
          (zsnap_find_orphans w dataset known)
  unfolding zsnap_find_orphans zsnap_orphan
  zsnap_find_orphans-Hoare dataset known =
      listed-Hoare (IsIdleSnapshot known) (dataset_list_snapshots w dataset) (zsnap_orphan w known)
        (dataset_list_snapshots-Does w dataset)
        (λ name es h (parent, uuid, e, f, idle).
          (parent, uuid, e, f, WasFoundIdle-IsStable w start parent es h idle))
        (λ name. snapshot_orphan-Hoare known _ _ name refl)

-- The search for orphans only reads; a zvol that it reports has a last component that is not
-- known, and a snapshot an id behind its at sign that is not known; and during the search, for that zvol, or the
-- zvol of that snapshot, `fuser` was run and did not find the device open, and the metadata of its datapath
-- was looked at and named no process that is alive.
pub orphans-WasFoundIdle :
    (w : World) (dataset : String) (known : List String) (h : History)
    → Ran IsRead
        (λ orphans h'. All (λ o. IsIdleZvol w h known o.name h') orphans)
        h
        (zvol_find_orphans w dataset known h)
      × Ran IsRead
          (λ orphans h'. All (λ o. IsIdleSnapshot w h known o.name h') orphans)
          h
          (zsnap_find_orphans w dataset known h)
orphans-WasFoundIdle w dataset known h = (
  (zvol_find_orphans-Hoare w h dataset known).runs h ([], refl),
  (zsnap_find_orphans-Hoare w h dataset known).runs h ([], refl),
)
