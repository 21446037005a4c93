-- ===== src/Volume/KeyLaws.antt =====
-- What `set` and `unset` of volume.py refuse.
use zfs_live_xapi.Prelude.{String, ap, ◌⊎◌, inl, inr, ◌≡◌}
use zfs_live_xapi.Effects.{
  World, History, within, volume_context, set_vdi_custom_key, delete_vdi_custom_key,
}
use zfs_live_xapi.Effects.Triple.{
  Does, Anything, Never, pure-Does, raise-Does, stop-Does, then-Does, if_any-Does, Raises,
  Does-Raises,
}
use zfs_live_xapi.Effects.Kinds.{ChangesNothing}
use zfs_live_xapi.Zfs.Kinds.{int_or_raise-Does}
use zfs_live_xapi.Zfs.Readers.{
  reader-ChangesNothing, vol_get_property-IsReader, vol_get_refreservation-IsReader,
}
use zfs_live_xapi.Volume.Metabase.{SrMeta, db_do, locked}
use zfs_live_xapi.Volume.Properties.{
  immutable, key_kind, valid_mutable_values, strip_prefix, current_value, refuse_immutable,
  apply_set, set_key, set, apply_unset, unset_key, unset,
}

-- The properties that ZFS fixes when a zvol is created, by the names that xapi gives them.
abbrev pub NamesImmutable : String → Type 0
NamesImmutable k =
    (k ≡ "volblocksize")
    ⊎ ((k ≡ "provisioning") ⊎ ((k ≡ "_sm_config_volblocksize") ⊎ (k ≡ "_sm_config_provisioning")))

immutable-key_kind : (k : String) → NamesImmutable k → key_kind (strip_prefix k) ≡ immutable
unfolding key_kind valid_mutable_values strip_prefix
immutable-key_kind k (inl e) = ap (λ s. key_kind (strip_prefix s)) e
immutable-key_kind k (inr (inl e)) = ap (λ s. key_kind (strip_prefix s)) e
immutable-key_kind k (inr (inr (inl e))) = ap (λ s. key_kind (strip_prefix s)) e
immutable-key_kind k (inr (inr (inr e))) = ap (λ s. key_kind (strip_prefix s)) e

module _ (w : World) (lower : String → String) where
  current_value-Does : (vol k : String) → Does ChangesNothing Anything (current_value w lower vol k)
  unfolding current_value
  current_value-Does vol k =
      if_any-Does ChangesNothing Anything _ _ _
        (then-Does ChangesNothing Anything _ _
          (reader-ChangesNothing _ (vol_get_property-IsReader w vol _))
          λ text.
            then-Does ChangesNothing Anything _ _ (int_or_raise-Does ChangesNothing w _)
              λ bytes. pure-Does ChangesNothing Anything _ tt)
        (then-Does ChangesNothing Anything _ _
          (reader-ChangesNothing _ (vol_get_refreservation-IsReader w vol))
          λ refres. pure-Does ChangesNothing Anything _ tt)

  refuse_immutable-Does :
      (vol k : String) → Does ChangesNothing Never (refuse_immutable w lower vol k)
  unfolding refuse_immutable
  refuse_immutable-Does vol k =
      then-Does ChangesNothing Never _ _ (current_value-Does vol k)
        λ current. raise-Does ChangesNothing Never _

  set_immutable-Does :
      (sr : String) (meta : SrMeta) (key k v : String)
      → key_kind (strip_prefix k) ≡ immutable
      → Does ChangesNothing Never (set w lower sr meta key k v)
  unfolding set set_key apply_set
  set_immutable-Does sr meta key k v e = rw e (
      stop-Does ChangesNothing Never _
        (λ _.
          within w (volume_context sr "w")
            (locked w sr (db_do w (set_vdi_custom_key key (strip_prefix k) v))))
        (refuse_immutable-Does _ _))

  unset_immutable-Does :
      (sr : String) (meta : SrMeta) (key k : String)
      → key_kind (strip_prefix k) ≡ immutable
      → Does ChangesNothing Never (unset w lower sr meta key k)
  unfolding unset unset_key apply_unset
  unset_immutable-Does sr meta key k e = rw e (
      stop-Does ChangesNothing Never _
        (λ _.
          within w (volume_context sr "w")
            (locked w sr (db_do w (delete_vdi_custom_key key (strip_prefix k)))))
        (refuse_immutable-Does _ _))

  -- `set` and `unset` of `volblocksize` or `provisioning`, with or without xapi's prefix, raise, and
  -- change neither ZFS nor the metabase.
  pub immutable-refused :
      (sr : String) (meta : SrMeta) (key k v : String) (h : History)
      → NamesImmutable k
      → Raises ChangesNothing h (set w lower sr meta key k v h)
        × Raises ChangesNothing h (unset w lower sr meta key k h)
  immutable-refused sr meta key k v h named =
      let e = immutable-key_kind k named in
      (
        Does-Raises ChangesNothing _ (set_immutable-Does sr meta key k v e) h,
        Does-Raises ChangesNothing _ (unset_immutable-Does sr meta key k e) h,
      )
