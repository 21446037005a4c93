-- ===== src/Zfs/CleanUpLaws.antt =====
-- What the clean-up of orphans destroys.
use mathlib.Core.Bool.{false≢true}
use zfs_live_xapi.Prelude.{
  ℕ, zero, suc, ◌+◌, ◌≤◌, String, Bool, true, false, Option, none, some, List, [], ◌∷◌, ◌≡◌, refl,
  ap, ◌∙◌, ◌⊎◌, inl, inr, arith, ltb, if◌then◌else◌,
}
use zfs_live_xapi.Prelude.Text.{parse_int}
use zfs_live_xapi.Effects.{
  World, Event, spawned, piped, ioctl, destroy, database, entered, left, slept, minted, looked,
  filed, update_volume_vsize, M, History, Result, ok, err, pure, try_except, ◌>>◌, ◌>>=◌,
}
use zfs_live_xapi.Effects.Kinds.{is_query, is_lookup, IsRead}
use zfs_live_xapi.Effects.Triple.{
  All, Does, Anything, Adds, Does-Adds, pure-Does, then-Does, if-Does, try_any-Does, bind-returns,
}
use zfs_live_xapi.Zfs.Kinds.{destroy_zvol-Does}
use zfs_live_xapi.Zfs.Zvols.{destroy_zvol}
use zfs_live_xapi.Zfs.Orphans.{Orphan, destroy_orphan, is_ripe, destroy_each, destroy_orphans}

-- Of ZFS, only names with `Q` are destroyed, and nothing else is changed; of the metabase, at most
-- sizes.
abbrev pub DestroysOnly : (String → Type 0) → Event → Type 0
DestroysOnly Q (ioctl (destroy name)) = Q name
DestroysOnly Q (ioctl c) = ⊥
DestroysOnly Q (spawned cmd) =
    (is_query cmd ≡ true) ⊎ ((name : String) × (cmd ≡ "zfs" ∷ "destroy" ∷ name ∷ []) × Q name)
DestroysOnly Q (database (update_volume_vsize id vsize)) = Unit
DestroysOnly Q (database c) = is_lookup c ≡ true
DestroysOnly Q (piped send recv) = ⊥
DestroysOnly Q (filed c) = ⊥
DestroysOnly Q _ = Unit

pub read-DestroysOnly : (Q : String → Type 0) (e : Event) → IsRead e → DestroysOnly Q e
read-DestroysOnly Q (spawned cmd) h = inl h
read-DestroysOnly Q (zfs_live_xapi.Effects.looked path) h = tt
read-DestroysOnly Q (ioctl c) h = absurd (false≢true h)
read-DestroysOnly Q (database c) h = absurd (false≢true h)
read-DestroysOnly Q (piped s t) h = absurd (false≢true h)
read-DestroysOnly Q (filed c) h = absurd (false≢true h)
read-DestroysOnly Q (zfs_live_xapi.Effects.entered s) h = tt
read-DestroysOnly Q (zfs_live_xapi.Effects.left s) h = tt
read-DestroysOnly Q zfs_live_xapi.Effects.slept h = tt
read-DestroysOnly Q zfs_live_xapi.Effects.minted h = tt

-- The grace period is off, or the creation is a number that is at least as far back.
abbrev pub IsRipe : ℕ → ℕ → String → Type 0
IsRipe now grace creation =
    (grace ≡ 0) ⊎ ((ts : ℕ) × (parse_int creation ≡ some ts) × (ts + grace ≤ now))

-- Some orphan of the list has the name and is old enough.
abbrev pub IsRipeOrphan : ℕ → ℕ → List Orphan → String → Type 0
IsRipeOrphan now grace [] name = ⊥
IsRipeOrphan now grace (o ∷ orphans) name =
    ((o.name ≡ name) × IsRipe now grace o.creation) ⊎ IsRipeOrphan now grace orphans name

module _ (w : World) where
  is_ripe-IsRipe :
      (now grace : ℕ) (creation : String)
      → is_ripe w now grace creation ≡ true
      → IsRipe now grace creation
  unfolding is_ripe
  is_ripe-IsRipe now zero creation e = inl refl
  is_ripe-IsRipe now (suc grace) creation e = inr (at_number (parse_int creation) e)
    where
      at_number :
          (o : Option ℕ)
          → (elim o as (λ _. Bool) [
            | none ↦ false
            | some ts ↦ if ltb now (ts + suc grace) then false else true
          ])
            ≡ true
          → (ts : ℕ) × (o ≡ some ts) × (ts + suc grace ≤ now)
      at_number none e = absurd (false≢true e)
      at_number (some ts) e = (ts, refl, ground arith)

  destroy_orphan-Does :
      (Q : String → Type 0) (name : String)
      → Q name
      → Does (DestroysOnly Q) Anything (destroy_orphan w name)
  unfolding destroy_orphan
  destroy_orphan-Does Q name q =
      try_any-Does (DestroysOnly Q) (destroy_zvol w name) (λ e. pure tt)
        (destroy_zvol-Does (DestroysOnly Q) w name q (inr (name, refl, q)) tt)
        (λ e. pure-Does (DestroysOnly Q) Anything tt tt)

  pub destroy_each-Does :
      (Q : String → Type 0) (now grace : ℕ) (orphans : List Orphan)
      → All (λ o. IsRipe now grace o.creation → Q o.name) orphans
      → Does (DestroysOnly Q) Anything (destroy_each w now grace orphans)
  unfolding destroy_each
  destroy_each-Does Q now grace [] p = pure-Does (DestroysOnly Q) Anything tt tt
  destroy_each-Does Q now grace (o ∷ orphans) (q, p) =
      then-Does (DestroysOnly Q) Anything
        (if is_ripe w now grace o.creation then destroy_orphan w o.name else pure tt)
        (λ _. destroy_each w now grace orphans)
        (if-Does (DestroysOnly Q) Anything (is_ripe w now grace o.creation)
          (destroy_orphan w o.name) (pure tt)
          (λ e. destroy_orphan-Does Q o.name (q (is_ripe-IsRipe now grace o.creation e)))
          (λ e. pure-Does (DestroysOnly Q) Anything tt tt))
        (λ _. destroy_each-Does Q now grace orphans p)

  destroy_orphan-ok : (name : String) (h : History) → (destroy_orphan w name h).0 ≡ ok tt
  unfolding destroy_orphan
  destroy_orphan-ok name h = swallowed (destroy_zvol w name h).0 (destroy_zvol w name h).1
    where
      swallowed :
          (r : Result (Unit {0})) (t : History)
          → (elim r as (λ _. Result (Unit {0}) × History) [
            | ok a ↦ (ok a, t)
            | err e ↦ (ok tt, t)
          ]).0
            ≡ ok tt
      swallowed (ok a) t = refl
      swallowed (err e) t = refl

  destroy_each-ok :
      (now grace : ℕ) (orphans : List Orphan) (h : History)
      → (destroy_each w now grace orphans h).0 ≡ ok tt
  unfolding destroy_each
  destroy_each-ok now grace [] h = refl
  destroy_each-ok now grace (o ∷ orphans) h =
      ap (λ r. r.0)
        (bind-returns first (λ _. destroy_each w now grace orphans) h tt
          (one (is_ripe w now grace o.creation)))
      ∙ destroy_each-ok now grace orphans (first h).1
    where
      first : M (Unit {0})
      first = if is_ripe w now grace o.creation then destroy_orphan w o.name else pure tt

      one :
          (b : Bool)
          → (let m : M (Unit {0}) = if b then destroy_orphan w o.name else pure tt in (m h).0)
            ≡ ok tt
      one true = destroy_orphan-ok o.name h
      one false = refl

  pub destroy_orphans-Does :
      (Q : String → Type 0) (orphans : List Orphan) (grace : ℕ)
      → All (λ o. Q o.name) orphans
      → Does (DestroysOnly Q) Anything (destroy_orphans w orphans grace)
  unfolding destroy_orphans
  destroy_orphans-Does Q orphans grace p = record {
    ends =
        λ h. (destroy_each-Does Q (w.now h) grace orphans (at_any_age (w.now h) orphans p)).ends h;
  }
    where
      at_any_age :
          (now : ℕ) (os : List Orphan)
          → All (λ o. Q o.name) os
          → All (λ o. IsRipe now grace o.creation → Q o.name) os
      at_any_age now [] p = tt
      at_any_age now (o ∷ os) (q, p) = (λ r. q, at_any_age now os p)

  by_membership :
      (Q : String → Type 0) (now grace : ℕ) (orphans : List Orphan)
      → ((name : String) → IsRipeOrphan now grace orphans name → Q name)
      → All (λ o. IsRipe now grace o.creation → Q o.name) orphans
  by_membership Q now grace [] f = tt
  by_membership Q now grace (o ∷ orphans) f =
      (λ r. f o.name (inl (refl, r)), by_membership Q now grace orphans (λ name p. f name (inr p)))

  -- The clean-up returns, whatever fails in it, and destroys only names of the list whose age is at
  -- least the grace period, or any of them where that is 0; nothing else is changed.
  pub destroy_orphans-IsRipe :
      (orphans : List Orphan) (grace : ℕ) (h : History)
      → ((destroy_orphans w orphans grace h).0 ≡ ok tt)
        × Adds
            (DestroysOnly (IsRipeOrphan (w.now h) grace orphans))
            h
            (destroy_orphans w orphans grace h)
  unfolding destroy_orphans
  destroy_orphans-IsRipe orphans grace h = (
    destroy_each-ok (w.now h) grace orphans h,
    Does-Adds (DestroysOnly (IsRipeOrphan (w.now h) grace orphans)) Anything _
        (destroy_each-Does (IsRipeOrphan (w.now h) grace orphans) (w.now h) grace orphans
          (by_membership _ (w.now h) grace orphans (λ name p. p)))
        h,
  )
