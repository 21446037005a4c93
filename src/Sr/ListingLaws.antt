-- ===== src/Sr/ListingLaws.antt =====
-- What `SR.ls` may destroy.
use mathlib.Core.Bool.{false≢true}
use zfs_live_xapi.Prelude.{
  ℕ, String, Bool, true, false, Option, none, some, List, [], ◌∷◌, ◌≡◌, ◌≢◌, refl, ap, sym, ◌∙◌,
  inl,
}
use zfs_live_xapi.Prelude.Lists.{contains}
use zfs_live_xapi.Prelude.Text.{split, partition, last_or, parse_int}
use zfs_live_xapi.Effects.{
  World, Vdi, volume_context, db_context, update_volume_vsize, get_all_vdis,
  get_all_vdi_custom_keys, M, History, ok, pure, within, ask, ◌>>=◌, ◌>>◌,
}
use zfs_live_xapi.Effects.Kinds.{IsRead}
use zfs_live_xapi.Effects.Triple.{
  All, All-map, All-Anything, Does, Anything, Adds, Does-Adds, pure-Does, bind-Does, then-Does,
  if-Does, try_any-Does, within-Does, ask-Does, returns-Does, widen-Does, weaken-Does,
}
use zfs_live_xapi.Zfs.{
  slash, at_sign, Orphan, zvol_destroy_orphans, zsnap_destroy_orphans, int_or_raise,
  dataset_list_zvols, zvol_find_orphans, zsnap_find_orphans, get_zvol_size_bytes, format_zvol_name,
}
use zfs_live_xapi.Zfs.Kinds.{int_of-Does, int_or_raise-Does}
use zfs_live_xapi.Zfs.Readers.{IsReader}
use zfs_live_xapi.Zfs.OrphanLaws.{
  zvol_find_orphans-Does, zsnap_find_orphans-Does, dataset_list_zvols-Does, IsSnapshotOrphan,
}
use zfs_live_xapi.Zfs.CleanUpLaws.{DestroysOnly, read-DestroysOnly, destroy_orphans-Does}
use zfs_live_xapi.Volume.{recover_vdi_vsize, db_do}
use zfs_live_xapi.Sr.Readers.{
  get_sr_metadata-IsReader, get_sr_dataset_path-IsReader, list_vdis-IsReader,
}
use zfs_live_xapi.Sr.Config.{Dict, lookup}
use zfs_live_xapi.Sr.Metadata.{get_default, get_sr_metadata, get_sr_dataset_path}
use zfs_live_xapi.Sr.Listing.{
  uuids, cleanup_enabled, recover_sizes, read_rows, clean_up_found, reconcile, list_vdis, ls_rows,
  ls,
}

-- The id that a zvol or a snapshot is named for.
unfoldable pub owner : String → String
owner name = elim (partition at_sign name).1 [
  | none ↦ last_or name (split slash name)
  | some uuid ↦ uuid
]

contains-distinct :
    (xs : List String) (s t : String) → contains xs s ≡ true → contains xs t ≡ false → t ≢ s
contains-distinct xs s t p q e = false≢true (sym q ∙ ap (contains xs) e ∙ p)

module _ (w : World) (Q : String → Type 0) where
  reads-Does : {A : Type 0} (m : M A) → IsReader m → Does (DestroysOnly Q) Anything m
  reads-Does m d = widen-Does IsRead (DestroysOnly Q) Anything m (read-DestroysOnly Q) d

  recover-Does :
      (vdi : Vdi) (dataset : String)
      → Does (DestroysOnly Q) Anything (recover_vdi_vsize w vdi dataset)
  unfolding recover_vdi_vsize get_zvol_size_bytes db_do
  recover-Does vdi dataset = go vdi.volume.vsize
    where
      go :
          (o : Option ℕ)
          → Does (DestroysOnly Q) Anything (
              let m : M ℕ = elim o [
                | some vsize ↦ pure vsize
                | none ↦ do
                  vsize ← get_zvol_size_bytes w (format_zvol_name dataset vdi.uuid)
                  db_do w (update_volume_vsize vdi.volume.id (some vsize))
                  pure vsize
              ] in
              m)
      go (some vsize) = pure-Does (DestroysOnly Q) Anything vsize tt
      go none =
          then-Does (DestroysOnly Q) Anything _ _ (int_of-Does (DestroysOnly Q) w _ (inl refl))
            λ vsize.
              then-Does (DestroysOnly Q) Anything _ _
                (ask-Does (DestroysOnly Q) w Anything _ _ tt (λ h. tt))
                (λ _. pure-Does (DestroysOnly Q) Anything vsize tt)

  recover_sizes-Does :
      (dataset : String) (vdis : List Vdi)
      → Does (DestroysOnly Q) Anything (recover_sizes w dataset vdis)
  unfolding recover_sizes
  recover_sizes-Does dataset [] = pure-Does (DestroysOnly Q) Anything _ tt
  recover_sizes-Does dataset (vdi ∷ vdis) =
      then-Does (DestroysOnly Q) Anything _ _ (recover-Does vdi dataset) λ vsize.
        then-Does (DestroysOnly Q) Anything _ _ (recover_sizes-Does dataset vdis)
          λ rest. pure-Does (DestroysOnly Q) Anything _ tt

  -- What the metabase says is in it.
  read_rows-Does :
      (K : List String → Type 0) (dataset : String)
      → ((h : History) → K (uuids (w.all_vdis h)))
      → Does (DestroysOnly Q) (λ r. K r.known) (read_rows w dataset)
  unfolding read_rows
  read_rows-Does K dataset k =
      bind-Does (DestroysOnly Q) (λ vdis. K (uuids vdis)) (λ r. K r.known)
        (ask w get_all_vdis (λ h. w.all_vdis h))
        (λ vdis. ask w get_all_vdi_custom_keys (λ h. w.all_custom_keys h) >>= λ custom_keys.
          recover_sizes w dataset vdis >>= λ sized.
          pure (record { vdis = sized; known = uuids vdis; custom_keys = custom_keys }))
        (ask-Does (DestroysOnly Q) w (λ vdis. K (uuids vdis)) _ _ refl k)
        λ vdis kv.
          then-Does (DestroysOnly Q) (λ r. K r.known) _ _
            (ask-Does (DestroysOnly Q) w Anything _ _ refl (λ h. tt))
            λ custom_keys.
              then-Does (DestroysOnly Q) (λ r. K r.known) _ _ (recover_sizes-Does dataset vdis)
                λ sized. pure-Does (DestroysOnly Q) (λ r. K r.known) _ kv

  reconcile-Does :
      (find : M (List Orphan)) (destroy : List Orphan → ℕ → M (Unit {0})) (enabled : Bool)
      (grace : ℕ)
      → Does IsRead (All (λ o. enabled ≡ true → Q o.name)) find
      → ((orphans : List Orphan)
          → All (λ o. Q o.name) orphans
          → Does (DestroysOnly Q) Anything (destroy orphans grace))
      → Does (DestroysOnly Q) Anything (reconcile w find destroy enabled grace)
  unfolding reconcile clean_up_found
  reconcile-Does find destroy enabled grace d cleans =
      try_any-Does (DestroysOnly Q) (find >>= clean_up_found w destroy enabled grace) (λ e. pure tt)
        (bind-Does (DestroysOnly Q) (All (λ o. enabled ≡ true → Q o.name)) Anything find
          (clean_up_found w destroy enabled grace)
          (widen-Does IsRead (DestroysOnly Q) (All (λ o. enabled ≡ true → Q o.name)) find
            (read-DestroysOnly Q) d)
          λ orphans p.
            if-Does (DestroysOnly Q) Anything enabled (destroy orphans grace) (pure tt)
              (λ on. cleans orphans (All-map _ _ (λ o q. q on) orphans p))
              (λ off. pure-Does (DestroysOnly Q) Anything tt tt))
        (λ e. pure-Does (DestroysOnly Q) Anything tt tt)

  -- From what is known of the metadata and of the rows, and of what the scans report then.
  ls_rows-Does :
      (K : List String → Type 0) (sr : String) (meta : Dict) (dataset : String)
      → ((h : History) → K (uuids (w.all_vdis h)))
      → ((known : List String)
          → K known
          → Does IsRead
              (All (λ o. cleanup_enabled meta ≡ true → Q o.name))
              (zvol_find_orphans w dataset known)
            × Does IsRead
                (All (λ o. cleanup_enabled meta ≡ true → Q o.name))
                (zsnap_find_orphans w dataset known))
      → Does (DestroysOnly Q) Anything (ls_rows w sr meta dataset)
  unfolding ls_rows zvol_destroy_orphans zsnap_destroy_orphans
  ls_rows-Does K sr meta dataset k scans =
      bind-Does (DestroysOnly Q) (λ r. K r.known) Anything
        (within w (db_context sr) (read_rows w dataset))
        (λ rows.
          int_or_raise w
            (parse_int (get_default (lookup "orphan_grace_period_seconds" meta) "3600"))
          >>= λ grace.
              reconcile w (zvol_find_orphans w dataset rows.known) (zvol_destroy_orphans w)
                (cleanup_enabled meta) grace
              >> (reconcile w (zsnap_find_orphans w dataset rows.known) (zsnap_destroy_orphans w)
                    (cleanup_enabled meta) grace
                  >> list_vdis w sr dataset rows.custom_keys rows.vdis))
        (within-Does (DestroysOnly Q) w (λ r. K r.known) _ _ tt tt (read_rows-Does K dataset k))
        λ rows kv.
          then-Does (DestroysOnly Q) Anything _ _ (int_or_raise-Does (DestroysOnly Q) w _) λ grace.
            then-Does (DestroysOnly Q) Anything _ _
              (reconcile-Does _ _ (cleanup_enabled meta) grace (scans rows.known kv).0
                (λ os p. destroy_orphans-Does w Q os grace p))
              λ _.
                then-Does (DestroysOnly Q) Anything _ _
                  (reconcile-Does _ _ (cleanup_enabled meta) grace (scans rows.known kv).1
                    (λ os p. destroy_orphans-Does w Q os grace p))
                  (λ _. reads-Does _ (list_vdis-IsReader w sr dataset rows.custom_keys rows.vdis))

  pub ls-Does :
      (E : Dict → Type 0) (K : List String → Type 0) (sr : String)
      → ((h : History) (meta : Dict) → w.sr_metadata h sr ≡ ok meta → E meta)
      → ((h : History) → K (uuids (w.all_vdis h)))
      → ((meta : Dict) (dataset : String) (known : List String)
          → E meta
          → K known
          → Does IsRead
              (All (λ o. cleanup_enabled meta ≡ true → Q o.name))
              (zvol_find_orphans w dataset known)
            × Does IsRead
                (All (λ o. cleanup_enabled meta ≡ true → Q o.name))
                (zsnap_find_orphans w dataset known))
      → Does (DestroysOnly Q) Anything (ls w sr)
  unfolding ls get_sr_metadata
  ls-Does E K sr e k scans =
      bind-Does (DestroysOnly Q) E Anything (get_sr_metadata w sr)
        (λ meta. get_sr_dataset_path w meta >>= λ dataset.
          within w (volume_context sr "r") (ls_rows w sr meta dataset))
        (returns-Does (DestroysOnly Q) E (get_sr_metadata w sr) e
          (reads-Does _ (get_sr_metadata-IsReader w sr)))
        λ meta em.
          then-Does (DestroysOnly Q) Anything _ _
            (reads-Does _ (get_sr_dataset_path-IsReader w meta))
            λ dataset.
              within-Does (DestroysOnly Q) w Anything _ _ tt tt
                (ls_rows-Does K sr meta dataset k (λ known kv. scans meta dataset known em kv))

owner-zvol :
    (name : String)
    → (partition at_sign name).1 ≡ none
    → owner name ≡ last_or name (split slash name)
unfolding owner
owner-zvol name e =
    ap (λ o. elim o as (λ _. String) [ none ↦ last_or name (split slash name) | some uuid ↦ uuid ])
      e

owner-snapshot :
    (name parent uuid : String) → partition at_sign name ≡ (parent, some uuid) → owner name ≡ uuid
unfolding owner
owner-snapshot name parent uuid e =
    ap
      (λ p. elim p.1 as (λ _. String) [ none ↦ last_or name (split slash name) | some uuid ↦ uuid ])
      e

module _ (w : World) where
  -- Reports that call for nothing, where no clean-up follows.
  no_scan :
      (meta : Dict) (dataset : String) (known : List String)
      → cleanup_enabled meta ≡ false
      → Does IsRead (All (λ o. cleanup_enabled meta ≡ true → ⊥)) (zvol_find_orphans w dataset known)
        × Does IsRead
            (All (λ o. cleanup_enabled meta ≡ true → ⊥))
            (zsnap_find_orphans w dataset known)
  no_scan meta dataset known off = (
    zvol_find_orphans-Does w Anything (λ name. cleanup_enabled meta ≡ true → ⊥) dataset known
        (weaken-Does IsRead Anything (All Anything) _ (λ names t. All-Anything names)
          (dataset_list_zvols-Does w dataset))
        (λ name t o on. false≢true (sym off ∙ on)),
    weaken-Does IsRead (All (λ o. IsSnapshotOrphan w known o.name)) _ _
        (λ os p. All-map _ _ (λ o q on. false≢true (sym off ∙ on)) os p)
        (zsnap_find_orphans-Does w dataset known),
  )

  -- Reports that name no VDI that is known.
  spared :
      (key dataset : String) (known : List String) (enabled : Bool)
      → contains known key ≡ true
      → ((h : History) (names : List String)
          → (dataset_list_zvols w dataset h).0 ≡ ok names
          → All (λ name. (partition at_sign name).1 ≡ none) names)
      → Does IsRead
          (All (λ o. enabled ≡ true → owner o.name ≢ key))
          (zvol_find_orphans w dataset known)
        × Does IsRead
            (All (λ o. enabled ≡ true → owner o.name ≢ key))
            (zsnap_find_orphans w dataset known)
  spared key dataset known enabled has_key no_snapshots = (
    zvol_find_orphans-Does w (λ name. (partition at_sign name).1 ≡ none)
        (λ name. enabled ≡ true → owner name ≢ key) dataset known
        (returns-Does IsRead (All (λ name. (partition at_sign name).1 ≡ none)) _ no_snapshots
          (dataset_list_zvols-Does w dataset))
        (λ name n o on e. contains-distinct known key _ has_key o.0 (sym (owner-zvol name n) ∙ e)),
    weaken-Does IsRead (All (λ o. IsSnapshotOrphan w known o.name)) _ _
        (λ os p.
          All-map _ _
            (λ o q on e.
              let (parent, uuid, at, unknown, idle) = q in
              contains-distinct known key uuid has_key unknown
                (sym (owner-snapshot o.name parent uuid at) ∙ e))
            os p)
        (zsnap_find_orphans-Does w dataset known),
  )

  -- Without its consent in the metadata of the SR, ls destroys nothing in ZFS.
  pub ls-no_cleanup :
      (sr : String) (h : History)
      → ((h : History) (meta : Dict) → w.sr_metadata h sr ≡ ok meta → cleanup_enabled meta ≡ false)
      → Adds (DestroysOnly (λ name. ⊥)) h (ls w sr h)
  ls-no_cleanup sr h off =
      Does-Adds (DestroysOnly (λ name. ⊥)) Anything (ls w sr)
        (ls-Does w (λ name. ⊥) (λ meta. cleanup_enabled meta ≡ false) Anything sr off (λ h. tt)
          λ meta dataset known disabled kv. no_scan meta dataset known disabled)
        h

  -- Where ZFS lists no snapshot among the volumes, ls destroys no zvol and no snapshot that is named
  -- for a VDI that the metabase has whenever it is asked.
  pub ls-spares_known :
      (sr key : String) (h : History)
      → ((h : History) → contains (uuids (w.all_vdis h)) key ≡ true)
      → ((dataset : String) (h : History) (names : List String)
          → (dataset_list_zvols w dataset h).0 ≡ ok names
          → All (λ name. (partition at_sign name).1 ≡ none) names)
      → Adds (DestroysOnly (λ name. owner name ≢ key)) h (ls w sr h)
  ls-spares_known sr key h has no_snapshots =
      Does-Adds (DestroysOnly (λ name. owner name ≢ key)) Anything (ls w sr)
        (ls-Does w (λ name. owner name ≢ key) Anything (λ known. contains known key ≡ true) sr
          (λ h meta e. tt) has
          λ meta dataset known t has_key.
            spared key dataset known (cleanup_enabled meta) has_key (no_snapshots dataset))
        h
