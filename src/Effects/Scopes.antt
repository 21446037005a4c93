-- ===== src/Effects/Scopes.antt =====
-- The discipline of the metabase's scopes: scopes are left in the order opposite to that in which they
-- were entered, and the metabase is called only within a context of it.
use mathlib.Core.Bool.{false≢true}
use zfs_live_xapi.Prelude.{
  ◌&&◌, subst, ◌≡◌, ap, sym, Bool, true, false, Option, none, some, List, [], ◌∷◌, ◌++◌, str_eq,
  if◌then◌else◌,
}
use zfs_live_xapi.Effects.Monad.{
  World, Event, spawned, piped, ioctl, database, entered, left, slept, minted, looked, filed,
  History, Error, DbCall, update_volume_vsize, Scope, volume_context, poll_lock, db_context, Result,
  ok, err, M, pure, raise, try_except, ask, within, ◌>>=◌,
}
use zfs_live_xapi.Effects.Kinds.{is_lookup, IsOutside}
use zfs_live_xapi.Effects.Triple.{All, Does}

abbrev pub tail_scopes : List Scope → List Scope
tail_scopes [] = []
tail_scopes (s ∷ ss) = ss

-- The scopes that a history leaves open, the innermost first.
unfoldable pub open_scopes : History → List Scope
open_scopes [] = []
open_scopes (entered s ∷ h) = s ∷ open_scopes h
open_scopes (left s ∷ h) = tail_scopes (open_scopes h)
open_scopes (_ ∷ h) = open_scopes h

-- A lookup, or the update of a size, may be made in any metabase context; any other change of the
-- metabase wants the lock and a volume context for writing around it, all three of one SR.
abbrev pub permits : List Scope → DbCall → Bool
permits (db_context sr ∷ poll_lock sr' ∷ volume_context sr'' mode ∷ scopes) c =
    str_eq mode "w" && str_eq sr' sr && str_eq sr'' sr
permits (db_context sr ∷ scopes) (update_volume_vsize id vsize) = true
permits (db_context sr ∷ scopes) c = is_lookup c
permits _ c = false

abbrev pub IsAllowed : List Scope → Event → Type 0
IsAllowed scopes (database c) = permits scopes c ≡ true
IsAllowed scopes _ = Unit

abbrev pub IsDisciplined : History → Type 0
IsDisciplined [] = Unit
IsDisciplined (e ∷ h) = IsAllowed (open_scopes h) e × IsDisciplined h

-- Run with `scopes` open, the action leaves the same open, whether it returns or raises, and keeps
-- the discipline.
abbrev pub Keeps : List Scope → History → Type 0
Keeps scopes h = (open_scopes h ≡ scopes) × IsDisciplined h

pub record IsSound {A : Type 0} (scopes : List Scope) (m : M A) : Type 0 where
  pub keeps : (h : History) → Keeps scopes h → Keeps scopes (m h).1

module _ (scopes : List Scope) where
  pub pure-IsSound : {A : Type 0} (a : A) → IsSound scopes (pure a)
  pure-IsSound a = record { keeps = λ h k. k }

  pub raise-IsSound : {A : Type 0} (e : Error) → IsSound scopes (raise {A = A} e)
  raise-IsSound e = record { keeps = λ h k. k }

  bind-Keeps :
      {A B : Type 0} (f : A → M B) (r : Result A) (h : History)
      → Keeps scopes h
      → ((a : A) → IsSound scopes (f a))
      → Keeps scopes
          (let r' : Result B × History = elim r [ ok a ↦ f a h | err e ↦ (err e, h) ] in r').1
  bind-Keeps f (ok a) h k s = (s a).keeps h k
  bind-Keeps f (err e) h k s = k

  pub then-IsSound :
      {A B : Type 0} (m : M A) (f : A → M B)
      → IsSound scopes m
      → ((a : A) → IsSound scopes (f a))
      → IsSound scopes (m >>= f)
  then-IsSound m f d s = record { keeps = λ h k. bind-Keeps f (m h).0 (m h).1 (d.keeps h k) s }

  try-Keeps :
      {A : Type 0} (f : Error → M A) (r : Result A) (h : History)
      → Keeps scopes h
      → ((e : Error) → IsSound scopes (f e))
      → Keeps scopes
          (let r' : Result A × History = elim r [ ok a ↦ (ok a, h) | err e ↦ f e h ] in r').1
  try-Keeps f (ok a) h k s = k
  try-Keeps f (err e) h k s = (s e).keeps h k

  pub try_except-IsSound :
      {A : Type 0} (m : M A) (f : Error → M A)
      → IsSound scopes m
      → ((e : Error) → IsSound scopes (f e))
      → IsSound scopes (try_except m f)
  try_except-IsSound m f d s = record { keeps = λ h k. try-Keeps f (m h).0 (m h).1 (d.keeps h k) s }

  pub if-IsSound :
      {A : Type 0} (b : Bool) (m n : M A)
      → IsSound scopes m
      → IsSound scopes n
      → IsSound scopes (if b then m else n)
  if-IsSound true m n p q = p
  if-IsSound false m n p q = q

  pub ask-IsSound :
      {A : Type 0} (w : World) (c : DbCall) (answer : History → A)
      → permits scopes c ≡ true
      → IsSound scopes (ask w c answer)
  unfolding open_scopes
  ask-IsSound w c answer p = record { keeps = λ h k. (k.0, (rw k.0 p, k.1)) }

  outside-Keeps :
      (es : List Event) (h : History) → All IsOutside es → Keeps scopes h → Keeps scopes (es ++ h)
  unfolding open_scopes
  outside-Keeps [] h p k = k
  outside-Keeps (spawned cmd ∷ es) h p k = let r = outside-Keeps es h p.1 k in (r.0, (tt, r.1))
  outside-Keeps (piped s t ∷ es) h p k = let r = outside-Keeps es h p.1 k in (r.0, (tt, r.1))
  outside-Keeps (ioctl c ∷ es) h p k = let r = outside-Keeps es h p.1 k in (r.0, (tt, r.1))
  outside-Keeps (slept ∷ es) h p k = let r = outside-Keeps es h p.1 k in (r.0, (tt, r.1))
  outside-Keeps (minted ∷ es) h p k = let r = outside-Keeps es h p.1 k in (r.0, (tt, r.1))
  outside-Keeps (looked path ∷ es) h p k = let r = outside-Keeps es h p.1 k in (r.0, (tt, r.1))
  outside-Keeps (filed c ∷ es) h p k = let r = outside-Keeps es h p.1 k in (r.0, (tt, r.1))
  outside-Keeps (database c ∷ es) h p k = absurd (false≢true p.0)
  outside-Keeps (entered s ∷ es) h p k = absurd (false≢true p.0)
  outside-Keeps (left s ∷ es) h p k = absurd (false≢true p.0)

  -- What stays outside the metabase is sound anywhere.
  pub outside-IsSound :
      {A : Type 0} (Q : A → Type 0) (m : M A) → Does IsOutside Q m → IsSound scopes m
  outside-IsSound Q m d = record {
    keeps = λ h k.
        let (es, e, p, q) = d.ends h in subst (Keeps scopes) (sym e) (outside-Keeps es h p k);
  }

module _ (scopes : List Scope) (w : World) (scope : Scope) where
  within-Keeps :
      {A : Type 0} (body : M A) (h : History) (o : Option Error)
      → IsSound (scope ∷ scopes) body
      → Keeps scopes h
      → Keeps scopes
          (let out : Result A × History = elim o [
            | some e ↦ (err e, h)
            | none ↦
                let (r, h') = body (entered scope ∷ h) in
                (elim (w.spoils h' scope) [ none ↦ r | some e ↦ err e ], left scope ∷ h')
          ] in
            out).1
  unfolding open_scopes
  within-Keeps body h (some e) s k = k
  within-Keeps body h none s k =
      let inner = s.keeps (entered scope ∷ h) (ap (λ t. scope ∷ t) k.0, (tt, k.1)) in
      (ap tail_scopes inner.0, (tt, inner.1))

  -- A scope is left again however its body ends.
  pub within-IsSound :
      {A : Type 0} (body : M A)
      → IsSound (scope ∷ scopes) body
      → IsSound scopes (within w scope body)
  unfolding within
  within-IsSound body s = record { keeps = λ h k. within-Keeps body h (w.blocks h scope) s k }
