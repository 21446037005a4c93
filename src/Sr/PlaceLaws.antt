-- ===== src/Sr/PlaceLaws.antt =====
-- What `SR.create` has seen of the place of an SR that is new.
use zfs_live_xapi.Prelude.{
  Bool-cases, ◌==◌, ==_iff, ℕ, zero, suc, ◌+◌, ◌-◌, ◌≤◌, ◌<◌, arith, subst, String, Bool, false,
  List, [], ◌∷◌, ◌≡◌, refl, ◌⊎◌, inl, inr, if◌then◌else◌,
}
use zfs_live_xapi.Effects.{World, M, pure, History, ◌>>=◌, ◌>>◌}
use zfs_live_xapi.Prelude.Lists.{length, take}
use zfs_live_xapi.Prelude.Text.{split, join}
use zfs_live_xapi.Effects.Hoare.{
  IsStable, All-IsStable, Since, Hoare, raise-Hoare, pure-Hoare, bind-Hoare, if-Hoare, adapt-Hoare,
  keep-Hoare, going_on,
}
use zfs_live_xapi.Zfs.Places.{
  WasAbsent, WasAbsent-IsStable, WasUnmarked, WasUnmarked-IsStable, dataset_exists-Hoare,
  dataset_is_sr-Hoare,
}
use zfs_live_xapi.Zfs.ChildLaws.{NoneBelow, NoneBelow-IsStable, dataset_find_child_srs-Hoare}
use zfs_live_xapi.Zfs.{slash, prefixes_from, dataset_is_sr}
use zfs_live_xapi.Effects.Kinds.{IsRead}
use zfs_live_xapi.Effects.Triple.{All}
use zfs_live_xapi.Zfs.{dataset_exists, dataset_get_parents, dataset_find_child_srs}
use zfs_live_xapi.Sr.Create.{
  Target, is_marked_parent, no_sr_above, no_child_srs, fresh_target, new_target, refuse,
}

-- A dataset was not there, or was not marked as an SR.
abbrev pub WasNoSr : World → History → String → History → Type 0
WasNoSr w start name h = WasAbsent w start name h ⊎ WasUnmarked w start name h

-- The dataset was not there, none of those above it is an SR, below the pool, and none below it.
abbrev pub IsFree : World → History → Target → History → Type 0
IsFree w start t h =
    WasAbsent w start t.sr_dataset h
    × ((i : ℕ)
        → 2 ≤ i
        → i < length (split slash t.sr_dataset)
        → WasNoSr w start (join "/" (take i (split slash t.sr_dataset))) h)
    × NoneBelow w start t.pool_name t.sr_dataset h

at_prefix :
    (P : String → Type 0) (n k i : ℕ) (parts : List String)
    → All P (prefixes_from n k parts)
    → k ≤ i
    → i < k + n
    → P (join "/" (take i parts))
unfolding prefixes_from
at_prefix P zero k i parts ps le lt = absurd (omega arith)
at_prefix P (suc n) k i parts (p, ps) le lt = elim (Bool-cases (k == i)) [
  | inl e ↦ subst (λ j. P (join "/" (take j parts))) ((==_iff k i).0 e) p
  | inr f ↦ at_prefix P n (k + 1) i parts ps (ground arith) (omega arith)
]

module _ (w : World) (start : History) where
  is_marked_parent-Hoare :
      (parent : String)
      → Hoare IsRead
          (Since start)
          (λ b h. b ≡ false → WasNoSr w start parent h)
          (is_marked_parent w parent)
  unfolding is_marked_parent
  is_marked_parent-Hoare parent =
      bind-Hoare IsRead (Since start) there (λ b h. b ≡ false → WasNoSr w start parent h)
        (dataset_exists w parent) (λ found. if found then dataset_is_sr w parent else pure false)
        (going_on IsRead start (λ b h. b ≡ false → WasAbsent w start parent h)
          (dataset_exists w parent) (dataset_exists-Hoare w start parent))
        λ found.
          if-Hoare IsRead (there found) (λ b h. b ≡ false → WasNoSr w start parent h) found
            (dataset_is_sr w parent) (pure false)
            (λ t.
              adapt-Hoare IsRead (Since start) (there found)
                (λ b h. b ≡ false → WasUnmarked w start parent h)
                (λ b h. b ≡ false → WasNoSr w start parent h) (dataset_is_sr w parent) (λ h k. k.0)
                (λ b h p f. inr (p f)) (dataset_is_sr-Hoare w start parent))
            (λ f.
              pure-Hoare IsRead (there found) (λ b h. b ≡ false → WasNoSr w start parent h) false
                (λ h k e. inl (k.1 f)))
    where
      there : Bool → History → Type 0
      there b h = Since start h × (b ≡ false → WasAbsent w start parent h)

  WasNoSr-IsStable : (name : String) → IsStable (WasNoSr w start name)
  WasNoSr-IsStable name es h (inl p) = inl (WasAbsent-IsStable w start name es h p)
  WasNoSr-IsStable name es h (inr p) = inr (WasUnmarked-IsStable w start name es h p)

  no_sr_above-Hoare :
      (parents : List String)
      → Hoare IsRead
          (Since start)
          (λ u h. Since start h × All (λ p. WasNoSr w start p h) parents)
          (no_sr_above w parents)
  unfolding no_sr_above
  no_sr_above-Hoare [] =
      pure-Hoare IsRead (Since start) (λ u h. Since start h × Unit) tt (λ h k. (k, tt))
  no_sr_above-Hoare (parent ∷ parents) =
      let refused : M (Unit {0}) =
        refuse w "SR_BACKEND_FAILURE_109" ("Cannot create SR inside another SR" ∷ parent ∷ []) in
      let above : Unit {0} → History → Type 0 =
        λ u h. Since start h × All (λ p. WasNoSr w start p h) (parent ∷ parents) in
      let rest : Unit {0} → History → Type 0 =
        λ u h. Since start h × All (λ p. WasNoSr w start p h) parents in
      let seen : Bool → History → Type 0 =
        λ b h. Since start h × (b ≡ false → WasNoSr w start parent h) in
      bind-Hoare IsRead (Since start) seen above (is_marked_parent w parent)
        (λ marked. if marked then refused else no_sr_above w parents)
        (going_on IsRead start (λ b h. b ≡ false → WasNoSr w start parent h)
          (is_marked_parent w parent) (is_marked_parent-Hoare parent))
        λ marked.
          if-Hoare IsRead (seen marked) above marked refused (no_sr_above w parents)
            (λ t. raise-Hoare IsRead (seen marked) above _)
            λ f.
              adapt-Hoare IsRead (λ h. WasNoSr w start parent h × Since start h) (seen marked)
                (λ u h. WasNoSr w start parent h × rest u h) above (no_sr_above w parents)
                (λ h k. (k.1 f, k.0)) (λ u h q. (q.1.0, (q.0, q.1.1)))
                (keep-Hoare IsRead (WasNoSr w start parent) (Since start) rest
                  (no_sr_above w parents) (WasNoSr-IsStable parent) (no_sr_above-Hoare parents))

  no_child_srs-Hoare :
      (K N : History → Type 0) (child_srs : List String)
      → Hoare IsRead
          (λ h. K h × (child_srs ≡ [] → N h))
          (λ u h. K h × N h)
          (no_child_srs w child_srs)
  unfolding no_child_srs
  no_child_srs-Hoare K N [] =
      pure-Hoare IsRead (λ h. K h × ([] ≡ [] → N h)) (λ u h. K h × N h) tt (λ h k. (k.0, k.1 refl))
  no_child_srs-Hoare K N (child ∷ children) =
      raise-Hoare IsRead (λ h. K h × ((child ∷ children) ≡ [] → N h)) (λ u h. K h × N h) _

  as_prefixes :
      (name : String) (h : History)
      → All (λ p. WasNoSr w start p h) (dataset_get_parents name)
      → All
          (λ p. WasNoSr w start p h)
          (prefixes_from (length (split slash name) - 2) 2 (split slash name))
  unfolding dataset_get_parents
  as_prefixes name h p = p

  -- The place of a new SR.
  pub fresh_target-Hoare :
      (path sr_uuid : String)
      → Hoare IsRead (Since start) (IsFree w start) (fresh_target w path sr_uuid)
  unfolding fresh_target
  fresh_target-Hoare path sr_uuid =
      let t : Target = new_target path sr_uuid in
      let parents : List String = dataset_get_parents t.sr_dataset in
      let A : History → Type 0 = WasAbsent w start t.sr_dataset in
      let U : History → Type 0 = λ h. All (λ p. WasNoSr w start p h) parents in
      let N : History → Type 0 = NoneBelow w start t.pool_name t.sr_dataset in
      let refused : M (Unit {0}) =
        refuse w "SR_BACKEND_FAILURE_109"
          ("Dataset already exists" ∷ t.dataset_name ∷ t.pool_name ∷ []) in
      let children : M (List String) = dataset_find_child_srs w t.pool_name t.sr_dataset in
      let last : List String → M Target = λ child_srs. no_child_srs w child_srs >> pure t in
      let seen : Bool → History → Type 0 = λ b h. Since start h × (b ≡ false → A h) in
      let placed : Unit {0} → History → Type 0 = λ u h. A h × (Since start h × U h) in
      let listed : List String → History → Type 0 = λ cs h. (A h × U h) × (cs ≡ [] → N h) in
      let absent : Unit {0} → History → Type 0 = λ u h. A h × Since start h in
      let all : Unit {0} → History → Type 0 = λ u h. (A h × U h) × N h in
      bind-Hoare IsRead (Since start) seen (IsFree w start) (dataset_exists w t.sr_dataset)
        (λ found.
          (if found then refused else pure tt) >> (no_sr_above w parents >> (children >>= last)))
        (going_on IsRead start (λ b h. b ≡ false → A h) (dataset_exists w t.sr_dataset)
          (dataset_exists-Hoare w start t.sr_dataset))
        λ found.
          bind-Hoare IsRead (seen found) absent (IsFree w start)
            (if found then refused else pure tt) (λ u. no_sr_above w parents >> (children >>= last))
            (if-Hoare IsRead (seen found) absent found refused (pure tt)
              (λ e. raise-Hoare IsRead (seen found) absent _)
              (λ e. pure-Hoare IsRead (seen found) absent tt (λ h k. (k.1 e, k.0))))
            λ u.
              bind-Hoare IsRead (absent u) placed (IsFree w start) (no_sr_above w parents)
                (λ u. children >>= last)
                (keep-Hoare IsRead A (Since start) (λ u h. Since start h × U h)
                  (no_sr_above w parents) (WasAbsent-IsStable w start t.sr_dataset)
                  (no_sr_above-Hoare parents))
                λ u.
                  bind-Hoare IsRead (placed u) listed (IsFree w start) children last
                    (adapt-Hoare IsRead (λ h. (A h × U h) × Since start h) (placed u) listed listed
                      children (λ h k. ((k.0, k.1.1), k.1.0)) (λ cs h q. q)
                      (keep-Hoare IsRead (λ h. A h × U h) (Since start) (λ cs h. cs ≡ [] → N h)
                        children
                        (λ es h k. (
                          WasAbsent-IsStable w start t.sr_dataset es h k.0,
                          All-IsStable (WasNoSr w start) parents WasNoSr-IsStable es h k.1,
                        ))
                        (dataset_find_child_srs-Hoare w start t.pool_name t.sr_dataset)))
                    λ child_srs.
                      bind-Hoare IsRead (listed child_srs) all (IsFree w start)
                        (no_child_srs w child_srs) (λ u. pure t)
                        (no_child_srs-Hoare (λ h. A h × U h) N child_srs)
                        λ u. pure-Hoare IsRead (all u) (IsFree w start) t (λ h k. (
                          k.0.0,
                          λ i le lt.
                              at_prefix (λ p. WasNoSr w start p h)
                                (length (split slash t.sr_dataset) - 2) 2 i
                                (split slash t.sr_dataset) (as_prefixes t.sr_dataset h k.0.1) le
                                (omega arith),
                          k.1,
                        ))

  pub IsFree-IsStable : (t : Target) → IsStable (IsFree w start t)
  IsFree-IsStable t es h (a, u, n) = (
    WasAbsent-IsStable w start t.sr_dataset es h a,
    (λ i le lt. WasNoSr-IsStable (join "/" (take i (split slash t.sr_dataset))) es h (u i le lt)),
    NoneBelow-IsStable w start t.pool_name t.sr_dataset es h n,
  )
