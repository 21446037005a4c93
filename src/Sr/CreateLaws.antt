-- ===== src/Sr/CreateLaws.antt =====
-- What `SR.create` has checked before it changes anything.
use zfs_live_xapi.Prelude.{
  String, str_eq, eq_iff, true, false, Option, none, some, List, [], ◌∷◌, ◌≡◌, refl, ◌⊎◌, inl, inr,
  if◌then◌else◌,
}
use zfs_live_xapi.Prelude.Text.{lower}
use zfs_live_xapi.Effects.{World, M, pure, History, ◌>>=◌, ◌>>◌}
use zfs_live_xapi.Effects.Hoare.{
  IsStable, Since, Since-IsStable, Ran, Hoare, pure-Hoare, bind-Hoare, if-Hoare, adapt-Hoare,
  Does-Hoare,
}
use zfs_live_xapi.Effects.Kinds.{IsRead}
use zfs_live_xapi.Effects.Triple.{Does, Anything, pure-Does, raise-Does, then-Does, if_any-Does}
use zfs_live_xapi.Zfs.PoolReaders.{
  dataset_exists-IsReader, pool_is_imported-IsReader, pool_exists-IsReader,
}
use zfs_live_xapi.Zfs.Readers.{IsReader, pure-IsReader}
use zfs_live_xapi.Sr.Config.{Dict, lookup, ZfsConfig, parse_zfs_config}
use zfs_live_xapi.Sr.Metadata.{get_default}
use zfs_live_xapi.Sr.ConfigLaws.{IsAccurate, HasValidValues, parse_zfs_config-Does}
use zfs_live_xapi.Sr.Create.{
  Target, adopts, required_path, require_pool, pool_of, adopt_target, fresh_target,
  no_config_errors, create_checks, refuse,
}
use zfs_live_xapi.Sr.PlaceLaws.{IsFree, fresh_target-Hoare, IsFree-IsStable}

-- The configuration asks for the adoption of a dataset.
abbrev pub IsAdopted : Dict → Type 0
IsAdopted d = (v : String) × (lookup "adopt" d ≡ some v) × (lower v ≡ "true")

-- What has been checked: the values of the configuration, and the place of an SR that is new.
abbrev pub IsChecked : World → History → Dict → Target × ZfsConfig → History → Type 0
IsChecked w start configuration (t, config) h =
    HasValidValues config × (IsAdopted configuration ⊎ IsFree w start t h)

lower_blank : str_eq (lower "") "true" ≡ false
unfolding lower
lower_blank = refl

adopts-IsAdopted : (d : Dict) → adopts d ≡ true → IsAdopted d
unfolding adopts get_default
adopts-IsAdopted d = at_value (lookup "adopt" d) refl
  where
    at_value :
        (o : Option String)
        → lookup "adopt" d ≡ o
        → str_eq (lower (get_default o "")) "true" ≡ true
        → IsAdopted d
    at_value none e t = let blank = lower_blank in absurd cc
    at_value (some v) e t = (v, e, (eq_iff (lower v) "true").0 t)

module _ (w : World) where
  required_path-IsReader : (d : Dict) → IsReader (required_path w d)
  unfolding required_path
  required_path-IsReader d = at_path (lookup "path" d)
    where
      at_path :
          (o : Option String)
          → IsReader (
              let m : M String = elim o [
                | none ↦ refuse w "SR_BACKEND_FAILURE_109" ("Invalid configuration" ∷ [])
                | some path ↦ pure path
              ] in
              m)
      at_path none = raise-Does IsRead Anything _
      at_path (some path) = pure-IsReader path

  require_pool-IsReader : (pool : String) → IsReader (require_pool w pool)
  unfolding require_pool
  require_pool-IsReader pool =
      then-Does IsRead Anything _ _ (pool_is_imported-IsReader w pool) λ imported.
        if_any-Does IsRead Anything _ _ _ (pure-IsReader tt) (
          then-Does IsRead Anything _ _ (pool_exists-IsReader w pool) λ found.
            if_any-Does IsRead Anything _ _ _ (raise-Does IsRead Anything _)
              (raise-Does IsRead Anything _))

  adopt_target-IsReader : (path : String) → IsReader (adopt_target w path)
  unfolding adopt_target
  adopt_target-IsReader path =
      then-Does IsRead Anything _ _ (dataset_exists-IsReader w _)
        λ found. if_any-Does IsRead Anything _ _ _ (pure-IsReader _) (raise-Does IsRead Anything _)

  no_config_errors-Does :
      (errors : List String) → Does IsRead (λ u. errors ≡ []) (no_config_errors w errors)
  unfolding no_config_errors
  no_config_errors-Does [] = pure-Does IsRead (λ u. [] ≡ []) tt refl
  no_config_errors-Does (e ∷ errors) = raise-Does IsRead _ _

  module _ (start : History) (sr_uuid : String) (d : Dict) where
    -- The target, adopted or free.
    abbrev IsPlaced : Target → History → Type 0
    IsPlaced t h = IsAdopted d ⊎ IsFree w start t h

    IsPlaced-IsStable : (t : Target) → IsStable (IsPlaced t)
    IsPlaced-IsStable t es h (inl e) = inl e
    IsPlaced-IsStable t es h (inr p) = inr (IsFree-IsStable w start t es h p)

    target-Hoare :
        (path : String)
        → Hoare IsRead
            (Since start)
            IsPlaced
            (if adopts d then adopt_target w path else fresh_target w path sr_uuid)
    target-Hoare path =
        if-Hoare IsRead (Since start) IsPlaced (adopts d) (adopt_target w path)
          (fresh_target w path sr_uuid)
          (λ on.
            adapt-Hoare IsRead (Since start) (Since start) (λ t h. Since start h × Unit) IsPlaced
              (adopt_target w path) (λ h k. k) (λ t h q. inl (adopts-IsAdopted d on))
              (Does-Hoare IsRead (Since start) Anything (adopt_target w path) (Since-IsStable start)
                (adopt_target-IsReader path)))
          (λ off.
            adapt-Hoare IsRead (Since start) (Since start) (IsFree w start) IsPlaced
              (fresh_target w path sr_uuid) (λ h k. k) (λ t h q. inr q)
              (fresh_target-Hoare w start path sr_uuid))

    -- Nothing is known but that the checks go on.
    abbrev Going : {A : Type 0} → A → History → Type 0
    Going a h = Since start h × Unit

    create_checks-Hoare :
        Hoare IsRead (Since start) (IsChecked w start d) (create_checks w sr_uuid d)
    unfolding create_checks
    create_checks-Hoare =
        let Q : Target × ZfsConfig → History → Type 0 = IsChecked w start d in
        let give : Target → ZfsConfig → M (Target × ZfsConfig) = λ t config. pure (t, config) in
        let parse : Target → M (Target × ZfsConfig) = λ t.
          parse_zfs_config w d t.pool_name >>= λ config.
          no_config_errors w config.errors >> give t config in
        let target : String → M Target =
          λ path. if adopts d then adopt_target w path else fresh_target w path sr_uuid in
        let parsed : Target → ZfsConfig → History → Type 0 =
          λ t config h. IsPlaced t h × IsAccurate config in
        bind-Hoare IsRead (Since start) Going Q (required_path w d)
          (λ path. require_pool w (pool_of path) >> (target path >>= parse))
          (Does-Hoare IsRead (Since start) Anything (required_path w d) (Since-IsStable start)
            (required_path-IsReader d))
          λ path.
            bind-Hoare IsRead (Going path) Going Q (require_pool w (pool_of path))
              (λ u. target path >>= parse)
              (adapt-Hoare IsRead (Since start) (Going path) Going Going
                (require_pool w (pool_of path)) (λ h k. k.0) (λ u h q. q)
                (Does-Hoare IsRead (Since start) Anything (require_pool w (pool_of path))
                  (Since-IsStable start) (require_pool-IsReader (pool_of path))))
              λ u.
                bind-Hoare IsRead (Going u) IsPlaced Q (target path) parse
                  (adapt-Hoare IsRead (Since start) (Going u) IsPlaced IsPlaced (target path)
                    (λ h k. k.0) (λ t h q. q) (target-Hoare path))
                  λ t.
                    bind-Hoare IsRead (IsPlaced t) (parsed t) Q (parse_zfs_config w d t.pool_name)
                      (λ config. no_config_errors w config.errors >> give t config)
                      (Does-Hoare IsRead (IsPlaced t) IsAccurate (parse_zfs_config w d t.pool_name)
                        (IsPlaced-IsStable t) (parse_zfs_config-Does w d t.pool_name))
                      λ config.
                        bind-Hoare IsRead (parsed t config)
                          (λ u h. parsed t config h × (config.errors ≡ [])) Q
                          (no_config_errors w config.errors) (λ u. give t config)
                          (Does-Hoare IsRead (parsed t config) (λ u. config.errors ≡ [])
                            (no_config_errors w config.errors)
                            (λ es h k. (IsPlaced-IsStable t es h k.0, k.1))
                            (no_config_errors-Does config.errors))
                          λ u.
                            pure-Hoare IsRead (λ h. parsed t config h × (config.errors ≡ [])) Q
                              (t, config) (λ h k. (k.0.1.values k.1, k.0.0))

  -- The checks of create that come before its changes only read, and where they pass, all values that are parsed
  -- from the configuration are valid; and for an SR whose configuration does not ask for the adoption of a dataset, in the course of them ZFS failed to list its
  -- dataset; for each dataset above it, below the pool, it failed to list it, or its marker was asked for, and that failed or
  -- was unset; and the filesystems of the pool were listed, and the marker of each below the dataset was asked for,
  -- and that failed or was unset, or the listing failed.
  pub create_checks-IsChecked :
      (sr_uuid : String) (configuration : Dict) (h : History)
      → Ran IsRead (IsChecked w h configuration) h (create_checks w sr_uuid configuration h)
  create_checks-IsChecked sr_uuid configuration h =
      (create_checks-Hoare h sr_uuid configuration).runs h ([], refl)
