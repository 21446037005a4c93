-- ===== src/Sr/ConfigLaws.antt =====
-- A device configuration that is accepted has valid values alone.
use zfs_live_xapi.Prelude.{
  ℕ, String, ◌<>◌, Bool, true, false, Option, none, some, List, [], ◌∷◌, ◌++◌, ◌≡◌, refl, ap, ◌∙◌,
  ◌⊎◌, inl, inr, str_eq, ltb, ◌^◌, if◌then◌else◌,
}
use zfs_live_xapi.Prelude.Lists.{contains}
use zfs_live_xapi.Prelude.Text.{lower, upper, parse_int}
use zfs_live_xapi.Effects.{World}
use zfs_live_xapi.Effects.Kinds.{IsRead}
use zfs_live_xapi.Effects.Triple.{All, All-append, Does, pure-Does, then-Does, try_except-Does}
use zfs_live_xapi.Zfs.{show}
use zfs_live_xapi.Zfs.PoolReaders.{pool_get_ashift-IsReader}
use zfs_live_xapi.Volume.{valid_mutable_values, valid_compression, valid_cache}
use zfs_live_xapi.Sr.Config.{
  Dict, ZfsConfig, validate_config_value, dataset_prop, valid_copies, valid_sync, valid_atime,
  valid_logbias, valid_provisioning, dataset_options, valid_volblocksize, add_error, add_default,
  add_setting, volblocksize_option, provisioning_option, cleanup_option, grace_option,
  parse_options, check_sector, parse_zfs_config,
}

-- The values that a VDI may be set to, and those of `atime`.
abbrev pub valid_values : String → List String
valid_values prop = elim (valid_mutable_values prop) [
  | some values ↦ values
  | none ↦ if str_eq prop "atime" then valid_atime else []
]

abbrev pub IsValidProp : String × String → Type 0
IsValidProp (prop, value) = contains (valid_values prop) value ≡ true

abbrev pub IsValidDefault : String × String → Type 0
IsValidDefault (key, value) =
    ((key ≡ "volblocksize") × (bytes : ℕ) × (valid_volblocksize value ≡ some bytes))
    ⊎ ((key ≡ "provisioning") × (contains valid_provisioning value ≡ true))

abbrev pub IsValidSetting : String × String → Type 0
IsValidSetting (key, value) =
    ((key ≡ "auto_cleanup_orphans") × (contains ("true" ∷ "false" ∷ []) value ≡ true))
    ⊎ ((key ≡ "orphan_grace_period_seconds") × (n : ℕ) × (value ≡ show n))

abbrev pub HasValidValues : ZfsConfig → Type 0
HasValidValues c =
    All IsValidProp c.dataset_props
    × All IsValidDefault c.vdi_defaults
    × All IsValidSetting c.sr_settings

-- Without an error so far, all values so far are valid.
pub record IsAccurate (c : ZfsConfig) : Type 0 where
  pub values : c.errors ≡ [] → HasValidValues c

append-nil_left : {A : Type 0} (xs ys : List A) → xs ++ ys ≡ [] → xs ≡ []
append-nil_left [] ys e = refl
append-nil_left (x ∷ xs) ys e = absurd cc

append-nil_right : {A : Type 0} (xs ys : List A) → xs ++ ys ≡ [] → ys ≡ []
append-nil_right [] ys e = e
append-nil_right (x ∷ xs) ys e = absurd cc

validated :
    (param value : String) (valid_set : List String)
    → validate_config_value param value valid_set ≡ []
    → contains valid_set value ≡ true
unfolding validate_config_value
validated param value valid_set e = by_test _ (contains valid_set value) e
  where
    by_test : (s : String) (b : Bool) → (if b then [] else s ∷ []) ≡ [] → b ≡ true
    by_test s true e = refl
    by_test s false e = absurd cc

dataset_prop-IsAccurate :
    (param : String) (valid_set : List String) (o : Option String) (c : ZfsConfig)
    → valid_values param ≡ valid_set
    → IsAccurate c
    → IsAccurate (dataset_prop param valid_set o c)
unfolding dataset_prop
dataset_prop-IsAccurate param valid_set none c v a = a
dataset_prop-IsAccurate param valid_set (some value) c v a = record {
  values = λ e.
      let (ps, ds, ss) = a.values (append-nil_left c.errors _ e) in
      (
        All-append IsValidProp c.dataset_props ((param, value) ∷ []) ps (
          ap (λ vs. contains vs value) v
              ∙ validated param value valid_set (append-nil_right c.errors _ e),
          tt,
        ),
        ds,
        ss,
      );
}

dataset_options-IsAccurate : (configuration : Dict) → IsAccurate (dataset_options configuration)
unfolding dataset_options valid_mutable_values
dataset_options-IsAccurate d = dataset_prop-IsAccurate "logbias" valid_logbias _ _ refl (
    dataset_prop-IsAccurate "secondarycache" valid_cache _ _ refl (
      dataset_prop-IsAccurate "primarycache" valid_cache _ _ refl (
        dataset_prop-IsAccurate "atime" valid_atime _ _ refl (
          dataset_prop-IsAccurate "sync" valid_sync _ _ refl (
            dataset_prop-IsAccurate "copies" valid_copies _ _ refl (
              dataset_prop-IsAccurate "compression" valid_compression _ _ refl
                (record { values = λ e. (tt, tt, tt) })))))))

add_error-IsAccurate : (message : String) (c : ZfsConfig) → IsAccurate (add_error message c)
unfolding add_error
add_error-IsAccurate message c = record {
  values = λ e. absurd (impossible (append-nil_right c.errors (message ∷ []) e));
}
  where
    impossible : message ∷ [] ≡ [] → ⊥
    impossible e = cc

add_default-IsAccurate :
    (key value : String) (c : ZfsConfig)
    → IsValidDefault (key, value)
    → IsAccurate c
    → IsAccurate (add_default key value c)
unfolding add_default
add_default-IsAccurate key value c v a = record {
  values = λ e.
      let (ps, ds, ss) = a.values e in
      (ps, All-append IsValidDefault c.vdi_defaults ((key, value) ∷ []) ds (v, tt), ss);
}

add_setting-IsAccurate :
    (key value : String) (c : ZfsConfig)
    → IsValidSetting (key, value)
    → IsAccurate c
    → IsAccurate (add_setting key value c)
unfolding add_setting
add_setting-IsAccurate key value c v a = record {
  values = λ e.
      let (ps, ds, ss) = a.values e in
      (ps, ds, All-append IsValidSetting c.sr_settings ((key, value) ∷ []) ss (v, tt));
}

volblocksize-IsAccurate :
    (o : Option String) (c : ZfsConfig) → IsAccurate c → IsAccurate (volblocksize_option o c).0
unfolding volblocksize_option
volblocksize-IsAccurate none c a = a
volblocksize-IsAccurate (some raw) c a = at_size (valid_volblocksize (upper raw)) refl
  where
    at_size :
        (o : Option ℕ)
        → valid_volblocksize (upper raw) ≡ o
        → IsAccurate (
            let r : ZfsConfig × ℕ = elim o [
              | some bytes ↦ (add_default "volblocksize" (upper raw) c, bytes)
              | none ↦ (
                add_error
                    ("volblocksize must be one of: 4K, 8K, 16K, 32K, 64K, 128K, got '"
                      <> (raw <> "'"))
                    c,
                8192,
              )
            ] in
            r.0)
    at_size none e = add_error-IsAccurate _ c
    at_size (some bytes) e = add_default-IsAccurate "volblocksize" _ c (inl (refl, bytes, e)) a

provisioning-IsAccurate :
    (o : Option String) (c : ZfsConfig) → IsAccurate c → IsAccurate (provisioning_option o c)
unfolding provisioning_option
provisioning-IsAccurate none c a = a
provisioning-IsAccurate (some raw) c a = record {
  values = λ e.
      let (ps, ds, ss) = a.values (append-nil_left c.errors _ e) in
      (
        ps,
        All-append IsValidDefault c.vdi_defaults (("provisioning", lower raw) ∷ []) ds (
          inr (
            refl,
            validated "provisioning" (lower raw) valid_provisioning (append-nil_right c.errors _ e),
          ),
          tt,
        ),
        ss,
      );
}

cleanup-IsAccurate :
    (o : Option String) (c : ZfsConfig) → IsAccurate c → IsAccurate (cleanup_option o c)
unfolding cleanup_option
cleanup-IsAccurate none c a = a
cleanup-IsAccurate (some raw) c a = at_test (contains ("true" ∷ "false" ∷ []) (lower raw)) refl
  where
    at_test :
        (b : Bool)
        → contains ("true" ∷ "false" ∷ []) (lower raw) ≡ b
        → IsAccurate (
            if b
            then add_setting "auto_cleanup_orphans" (lower raw) c
            else add_error
                ("auto_cleanup_orphans must be 'true' or 'false', got '" <> (raw <> "'"))
                c)
    at_test true e = add_setting-IsAccurate _ _ c (inl (refl, e)) a
    at_test false e = add_error-IsAccurate _ c

grace-IsAccurate :
    (o : Option String) (c : ZfsConfig) → IsAccurate c → IsAccurate (grace_option o c)
unfolding grace_option
grace-IsAccurate none c a = a
grace-IsAccurate (some raw) c a = at_number (parse_int raw)
  where
    at_number :
        (o : Option ℕ)
        → IsAccurate (
            let r : ZfsConfig = elim o [
              | some grace ↦ add_setting "orphan_grace_period_seconds" (show grace) c
              | none ↦
                  add_error
                    ("orphan_grace_period_seconds must be a non-negative integer, got '"
                      <> (raw <> "'"))
                    c
            ] in
            r)
    at_number none = add_error-IsAccurate _ c
    at_number (some n) = add_setting-IsAccurate _ _ c (inr (refl, n, refl)) a

parse_options-IsAccurate : (configuration : Dict) → IsAccurate (parse_options configuration).0
unfolding parse_options
parse_options-IsAccurate d = grace-IsAccurate _ _ (
    cleanup-IsAccurate _ _
      (provisioning-IsAccurate _ _ (volblocksize-IsAccurate _ _ (dataset_options-IsAccurate d))))

check_sector-IsAccurate :
    (block : ℕ) (c : ZfsConfig) (ashift : ℕ)
    → IsAccurate c
    → IsAccurate (check_sector block c ashift)
unfolding check_sector
check_sector-IsAccurate block c ashift a = at_test _ (ltb block (2 ^ ashift))
  where
    at_test : (s : String) (b : Bool) → IsAccurate (if b then add_error s c else c)
    at_test s true = add_error-IsAccurate s c
    at_test s false = a

-- The configuration is parsed without a change to ZFS.
pub parse_zfs_config-Does :
    (w : World) (configuration : Dict) (pool : String)
    → Does IsRead IsAccurate (parse_zfs_config w configuration pool)
unfolding parse_zfs_config
parse_zfs_config-Does w d pool =
    try_except-Does IsRead IsAccurate _ _
      (then-Does IsRead IsAccurate _ _ (pool_get_ashift-IsReader w pool) λ ashift.
        pure-Does IsRead IsAccurate _ (
          check_sector-IsAccurate (parse_options d).1 (parse_options d).0 ashift
            (parse_options-IsAccurate d)))
      (λ e. pure-Does IsRead IsAccurate (parse_options d).0 (parse_options-IsAccurate d))
