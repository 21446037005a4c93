-- ===== src/Volume/Refusals.antt =====
-- What the handlers refuse, and that a refusal changes neither ZFS nor the metabase.
use zfs_live_xapi.Prelude.{ℕ, String, Option, none, some, [], ◌∷◌, refl, ◌≡◌, ◌<◌, ltb, arith}
use zfs_live_xapi.Effects.{
  World, db_context, Vdi, M, pure, raise, within, History, storage_error, value_error,
  update_volume_vsize, ◌>>=◌, ◌>>◌,
}
use zfs_live_xapi.Effects.Triple.{
  Does, Anything, Never, pure-Does, raise-Does, bind-Does, stop-Does, then-Does, if-Does,
  if_any-Does, Raises, Adds, Does-Adds, Does-Raises, within-Does, ask-Does, weaken-Does,
}
use zfs_live_xapi.Effects.Kinds.{ChangesNothing}
use zfs_live_xapi.Zfs.Readers.{
  IsReader, reader-ChangesNothing, get_zvol_used_bytes-IsReader, find_snapshot_by_uuid-IsReader,
  vol_get_zfs_properties_dict-IsReader,
}
use zfs_live_xapi.Volume.Metabase.{
  SrMeta, sr_dataset, db_get_vdi, db_do, recover_vdi_vsize, get_format, db_custom_keys,
}
use zfs_live_xapi.Volume.Clones.{
  Looked, found_snapshot, backing_name, stat_rows, stat_in_context, stat,
}
use zfs_live_xapi.Volume.Resize.{
  no_shrinking, resize_check, resize_apply, resize_in_context, resize,
}

module _ (w : World) where
  -- Every answer about the VDI has the property.
  pub get_vdi-Does :
      (Q : Vdi → Type 0) (key : String)
      → ((h : History) → Q (w.vdi h key))
      → Does ChangesNothing Q (db_get_vdi w key)
  unfolding db_get_vdi
  get_vdi-Does Q key q = ask-Does ChangesNothing w Q _ _ refl q

  pub recover-Does :
      (vdi : Vdi) (pool : String) (size : ℕ)
      → vdi.volume.vsize ≡ some size
      → Does ChangesNothing (λ n. n ≡ size) (recover_vdi_vsize w vdi pool)
  unfolding recover_vdi_vsize
  recover-Does vdi pool size e = rw e (pure-Does ChangesNothing (λ n. n ≡ size) size refl)

  no_shrinking-Does : (old new : ℕ) → new < old → Does ChangesNothing Never (no_shrinking w old new)
  unfolding no_shrinking
  no_shrinking-Does old new h =
      if-Does ChangesNothing Never (ltb new old)
        (raise (
          storage_error "SR_BACKEND_FAILURE_79"
            ("VDI Invalid size" ∷ "shrinking not allowed" ∷ [])))
        (pure tt) (λ t. raise-Does ChangesNothing Never _) (λ f. absurd (ground arith))

  resize_check-Does :
      (dataset key : String) (old new : ℕ)
      → ((h : History) → (w.vdi h key).volume.vsize ≡ some old)
      → new < old
      → Does ChangesNothing Never (resize_check w dataset key new)
  unfolding resize_check
  resize_check-Does dataset key old new sized h =
      let finish : Vdi → M Vdi =
        λ vdi. db_do w (update_volume_vsize vdi.volume.id none) >> pure vdi in
      bind-Does ChangesNothing (λ v. v.volume.vsize ≡ some old) Never (db_get_vdi w key)
        (λ v. recover_vdi_vsize w v dataset >>= λ n. no_shrinking w n new >> finish v)
        (get_vdi-Does (λ v. v.volume.vsize ≡ some old) key sized)
        λ vdi e.
          bind-Does ChangesNothing (λ n. n ≡ old) Never (recover_vdi_vsize w vdi dataset)
            (λ n. no_shrinking w n new >> finish vdi) (recover-Does vdi dataset old e)
            λ n en.
              stop-Does ChangesNothing Never (no_shrinking w n new) (λ _. finish vdi)
                (no_shrinking-Does n new (omega arith))

  resize_shrink-Does :
      (sr : String) (meta : SrMeta) (key : String) (old new : ℕ)
      → ((h : History) → (w.vdi h key).volume.vsize ≡ some old)
      → new < old
      → Does ChangesNothing Never (resize w sr meta key new)
  unfolding resize resize_in_context
  resize_shrink-Does sr meta key old new sized h =
      within-Does ChangesNothing w Never _ _ refl refl (
        stop-Does ChangesNothing Never
          (within w (db_context sr) (resize_check w (sr_dataset meta) key new))
          (λ vdi. within w (db_context sr) (resize_apply w (sr_dataset meta) vdi new))
          (within-Does ChangesNothing w Never _ _ refl refl
            (resize_check-Does (sr_dataset meta) key old new sized h)))

  -- A resize to less than the size that the metabase always has for the VDI raises, and changes neither ZFS nor the
  -- metabase.
  pub resize-shrink :
      (sr : String) (meta : SrMeta) (key : String) (old new : ℕ) (h : History)
      → ((h : History) → (w.vdi h key).volume.vsize ≡ some old)
      → new < old
      → Raises ChangesNothing h (resize w sr meta key new h)
  resize-shrink sr meta key old new h sized less =
      Does-Raises ChangesNothing _ (resize_shrink-Does sr meta key old new sized less) h

  -- A reader's events change nothing.
  read-Does : {A : Type 0} (m : M A) → IsReader m → Does ChangesNothing Anything m
  read-Does m d = reader-ChangesNothing m d

  get_format-Does : (t : ℕ) → Does ChangesNothing Anything (get_format w t)
  unfolding get_format
  get_format-Does t =
      if_any-Does ChangesNothing Anything _ _ _ (pure-Does ChangesNothing Anything _ tt)
        (prefix_or_raise (w.base_format t))
    where
      prefix_or_raise :
          (o : Option String)
          → Does ChangesNothing Anything (
              let m : M String = elim o [ none ↦ raise value_error | some prefix ↦ pure prefix ] in
              m)
      prefix_or_raise none = raise-Does ChangesNothing Anything _
      prefix_or_raise (some prefix) = pure-Does ChangesNothing Anything _ tt

  found_snapshot-Does :
      (uuid : String) (o : Option String) → Does ChangesNothing Anything (found_snapshot w uuid o)
  unfolding found_snapshot
  found_snapshot-Does uuid none = raise-Does ChangesNothing Anything _
  found_snapshot-Does uuid (some name) = pure-Does ChangesNothing Anything _ tt

  backing_name-Does :
      (dataset : String) (vdi : Vdi) → Does ChangesNothing Anything (backing_name w dataset vdi)
  unfolding backing_name
  backing_name-Does dataset vdi =
      if_any-Does ChangesNothing Anything _ _ _
        (then-Does ChangesNothing Anything _ _
          (read-Does _ (find_snapshot_by_uuid-IsReader w dataset vdi.uuid))
          (found_snapshot-Does vdi.uuid))
        (pure-Does ChangesNothing Anything _ tt)

  custom_keys-Does : (uuid : String) → Does ChangesNothing Anything (db_custom_keys w uuid)
  unfolding db_custom_keys
  custom_keys-Does uuid = ask-Does ChangesNothing w Anything _ _ refl (λ h. tt)

  stat_rows-Does :
      (dataset key : String) (size : ℕ)
      → ((h : History) → (w.vdi h key).volume.vsize ≡ some size)
      → Does ChangesNothing Anything (stat_rows w dataset key)
  unfolding stat_rows
  stat_rows-Does dataset key size sized =
      let rest : Vdi → M Looked = λ vdi. recover_vdi_vsize w vdi dataset >>= λ vsize.
      get_format w vdi.image_type >>= λ uri_prefix. backing_name w dataset vdi >>= λ vol_name.
      db_custom_keys w vdi.uuid >>= λ custom_keys. pure (record {
        vdi = vdi;
        vsize = vsize;
        uri_prefix = uri_prefix;
        vol_name = vol_name;
        custom_keys = custom_keys;
      }) in
      bind-Does ChangesNothing (λ v. v.volume.vsize ≡ some size) Anything (db_get_vdi w key) rest
        (get_vdi-Does (λ v. v.volume.vsize ≡ some size) key sized)
        λ vdi e.
          then-Does ChangesNothing Anything (recover_vdi_vsize w vdi dataset) _
            (weaken-Does ChangesNothing (λ n. n ≡ size) Anything _ (λ _ _. tt)
              (recover-Does vdi dataset size e))
            λ n. then-Does ChangesNothing Anything _ _ (get_format-Does vdi.image_type) λ prefix.
              then-Does ChangesNothing Anything _ _ (backing_name-Does dataset vdi) λ name.
                then-Does ChangesNothing Anything _ _ (custom_keys-Does vdi.uuid)
                  λ keys. pure-Does ChangesNothing Anything _ tt

  stat-Does :
      (sr : String) (meta : SrMeta) (key : String) (size : ℕ)
      → ((h : History) → (w.vdi h key).volume.vsize ≡ some size)
      → Does ChangesNothing Anything (stat w sr meta key)
  unfolding stat stat_in_context
  stat-Does sr meta key size sized =
      then-Does ChangesNothing Anything _ _
        (within-Does ChangesNothing w Anything _ _ refl refl (
          within-Does ChangesNothing w Anything _ _ refl refl
            (stat_rows-Does (sr_dataset meta) key size sized)))
        λ l.
          then-Does ChangesNothing Anything _ _
            (read-Does _ (vol_get_zfs_properties_dict-IsReader w l.vol_name))
            λ reported.
              then-Does ChangesNothing Anything _ _
                (read-Does _ (get_zvol_used_bytes-IsReader w l.vol_name))
                λ used. pure-Does ChangesNothing Anything _ tt

  -- `stat` of a VDI whose size the metabase has changes neither ZFS nor the metabase, whether it
  -- returns or raises.
  pub stat-read_only :
      (sr : String) (meta : SrMeta) (key : String) (size : ℕ) (h : History)
      → ((h : History) → (w.vdi h key).volume.vsize ≡ some size)
      → Adds ChangesNothing h (stat w sr meta key h)
  stat-read_only sr meta key size h sized =
      Does-Adds ChangesNothing Anything _ (stat-Does sr meta key size sized) h
