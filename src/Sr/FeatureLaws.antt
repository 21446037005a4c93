-- ===== src/Sr/FeatureLaws.antt =====
-- The probe of a pool's features always answers, and claims no more than it saw.
use zfs_live_xapi.Prelude.{
  String, ◌<>◌, Bool, true, false, Option, none, some, List, [], ◌∷◌, ◌≡◌, refl, sym, ap, ◌∙◌, ◌⊎◌,
  inl, inr, arith, str_eq, eq_iff, Bool-cases, if◌then◌else◌,
}
use zfs_live_xapi.Prelude.Lists.{contains}
use zfs_live_xapi.Prelude.Text.{first_or, splitlines}
use zfs_live_xapi.Effects.{
  World, ZfsFeatures, M, History, Result, Error, ok, err, pure, try_except, ◌>>=◌,
}
use zfs_live_xapi.Effects.Kinds.{IsRead}
use zfs_live_xapi.Effects.Triple.{
  All, Anything, Adds, Does-Adds, raise-Does, then-Does, try_any-Does, if_any-Does, spawn-Does,
  bind-returns,
}
use zfs_live_xapi.Zfs.Readers.{IsReader, pure-IsReader}
use zfs_live_xapi.Sr.Config.{Dict, lookup}
use zfs_live_xapi.Sr.Features.{
  Version, run_query, probe_zfs_version, probe_pool_features, probe_features, only_known,
  search_version, parse_flags, known_feature_flags, derive_capabilities, is_on_state, is_modern,
  lz4_on,
}

-- The flag that a capability stands for.
abbrev pub flag_of : String → String
flag_of name =
    if str_eq name "lz4"
    then "feature@lz4_compress"
    else if str_eq name "zstd"
    then "feature@zstd_compress"
    else "feature@" <> name

-- A capability is not claimed, or its flag is on, or it is lz4 with no flag at all and a version that
-- has it.
abbrev pub IsBacked : ZfsFeatures → String × Bool → Type 0
IsBacked f (name, claimed) =
    (claimed ≡ false)
    ⊎ ((is_on_state (lookup (flag_of name) f.feature_flags) ≡ true)
        ⊎ ((name ≡ "lz4")
            × (lookup (flag_of name) f.feature_flags ≡ none)
            × (is_modern f.version ≡ true)))

lookup-only_known :
    (k : String) (known : List String) (flags : Dict)
    → lookup k (only_known known flags) ≡ (if contains known k then lookup k flags else none)
unfolding only_known lookup
lookup-only_known k [] flags = refl
lookup-only_known k (t ∷ known) flags =
    at_flag (lookup t flags) refl (lookup-only_known k known flags)
  where
    at_flag :
        (o : Option String)
        → lookup t flags ≡ o
        → lookup k (only_known known flags) ≡ (if contains known k then lookup k flags else none)
        → lookup k (
            let d : Dict = elim o [
              | none ↦ only_known known flags
              | some state ↦ (t, state) ∷ only_known known flags
            ] in
            d)
          ≡ (if contains (t ∷ known) k then lookup k flags else none)
    at_flag none e ih =
        let same = eq_iff k t in
        elim (Bool-cases (str_eq k t)) [
          | inl b ↦ let at_k = ap (λ x. lookup x flags) (same.0 b) ∙ e in grind arith
          | inr b ↦ grind arith
        ]
    at_flag (some state) e ih =
        let same = eq_iff k t in
        elim (Bool-cases (str_eq k t)) [
          | inl b ↦
              let at_k = ap (λ x. lookup x flags) (same.0 b) ∙ e in
              let back = (eq_iff t k).1 (sym (same.0 b)) in grind arith
          | inr b ↦
              let flip : str_eq t k ≡ true → str_eq k t ≡ true =
                λ h. same.1 (sym ((eq_iff t k).0 h)) in
              grind arith
        ]

-- Two cases of a state: on, or claimed by none.
on_or_off :
    (f : ZfsFeatures) (name : String) (o : Option String)
    → lookup (flag_of name) f.feature_flags ≡ o
    → IsBacked f (name, is_on_state o)
on_or_off f name o e = elim (Bool-cases (is_on_state o)) [
  | inl on ↦ inr (inl (ap (λ x. is_on_state x) e ∙ on))
  | inr off ↦ inl off
]

module _ (version : Option Version) (flags : Dict) where
  abbrev probed : ZfsFeatures
  probed = record {
    version = version;
    feature_flags = only_known known_feature_flags flags;
    capabilities = derive_capabilities flags version;
  }

  lz4-IsBacked :
      (o : Option String)
      → lookup "feature@lz4_compress" probed.feature_flags ≡ o
      → IsBacked probed ("lz4", lz4_on o version)
  unfolding lz4_on
  lz4-IsBacked (some state) e = on_or_off probed "lz4" (some state) e
  lz4-IsBacked none e = elim (Bool-cases (is_modern version)) [
    | inl modern ↦ inr (inr (refl, e, modern))
    | inr old ↦ inl old
  ]

  capabilities-IsBacked : All (IsBacked probed) probed.capabilities
  unfolding derive_capabilities
  capabilities-IsBacked = (
    lz4-IsBacked _ (lookup-only_known "feature@lz4_compress" known_feature_flags flags),
    (
      on_or_off probed "zstd" _
          (lookup-only_known "feature@zstd_compress" known_feature_flags flags),
      (
        on_or_off probed "encryption" _
            (lookup-only_known "feature@encryption" known_feature_flags flags),
        (
          on_or_off probed "block_cloning" _
              (lookup-only_known "feature@block_cloning" known_feature_flags flags),
          (
            on_or_off probed "large_blocks" _
                (lookup-only_known "feature@large_blocks" known_feature_flags flags),
            tt,
          ),
        ),
      ),
    ),
  )

-- A guarded action with a handler that returns, returns.
caught :
    {A : Type 0} (m : M A) (d : A) (h : History)
    → (a : A) × ((try_except m (λ e. pure d) h).0 ≡ ok a)
caught {A = A} m d h = by_result (m h).0 (m h).1
  where
    by_result :
        (r : Result A) (t : History)
        → (a : A) × ((let s : Result A × History = elim r [
          | ok a ↦ (ok a, t)
          | err e ↦ (ok d, t)
        ] in
              s.0)
            ≡ ok a)
    by_result (ok a) t = (a, refl)
    by_result (err e) t = (d, refl)

module _ (w : World) where
  run_query-IsReader :
      (cmd : List String) → IsRead (zfs_live_xapi.Effects.spawned cmd) → IsReader (run_query w cmd)
  unfolding run_query
  run_query-IsReader cmd p =
      then-Does IsRead Anything _ _ (spawn-Does IsRead w cmd p)
        λ proc. if_any-Does IsRead Anything _ _ _ (pure-IsReader _) (raise-Does IsRead Anything _)

  probe_features-IsReader : (pool : String) → IsReader (probe_features w pool)
  unfolding probe_features probe_zfs_version probe_pool_features
  probe_features-IsReader pool =
      then-Does IsRead Anything _ _
        (try_any-Does IsRead _ _
          (then-Does IsRead Anything _ _ (run_query-IsReader _ refl) (λ out. pure-IsReader _))
          (λ e. pure-IsReader _))
        λ version.
          then-Does IsRead Anything _ _
            (try_any-Does IsRead _ _
              (then-Does IsRead Anything _ _ (run_query-IsReader _ refl) (λ out. pure-IsReader _))
              (λ e. pure-IsReader _))
            (λ flags. pure-IsReader _)

  -- The probe returns, whatever the commands answer, and only queries; a capability that it claims
  -- has its flag on in the flags that are kept, or is lz4 in a version from 0.6.5 on, with no flag.
  pub probe_features-IsBacked :
      (pool : String) (h : History)
      → (f : ZfsFeatures) × ((probe_features w pool h).0 ≡ ok f)
        × All (IsBacked f) f.capabilities
        × Adds IsRead h (probe_features w pool h)
  unfolding probe_features probe_zfs_version probe_pool_features
  probe_features-IsBacked pool h =
      let (version, ev) =
        caught
          (run_query w ("zfs" ∷ "version" ∷ []) >>= λ out.
            pure (search_version (first_or "" (splitlines out))))
          none h in
      let h' : History = (probe_zfs_version w h).1 in
      let (flags, ef) =
        caught
          (run_query w ("zpool" ∷ "get" ∷ "-H" ∷ "-p" ∷ "-o" ∷ "property,value" ∷ "all" ∷ pool ∷ [])
            >>= λ out. pure (parse_flags (splitlines out) []))
          [] h' in
      let give : Option Version → Dict → M ZfsFeatures = λ v fs. pure (probed v fs) in
      let rest : Option Version → M ZfsFeatures = λ v. probe_pool_features w pool >>= give v in
      let first = bind-returns (probe_zfs_version w) rest h version ev in
      let second = bind-returns (probe_pool_features w pool) (give version) h' flags ef in
      (
        probed version flags,
        ap (λ r. r.0) (first ∙ second),
        capabilities-IsBacked version flags,
        Does-Adds IsRead Anything (probe_features w pool) (probe_features-IsReader pool) h,
      )
