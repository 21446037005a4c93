-- ===== src/Effects/Hoare.antt =====
-- What holds of the history before and after an action, whose events satisfy `P`.
use zfs_live_xapi.Prelude.{
  ◌≡◌, refl, ap, ◌∙◌, sym, subst, Bool, true, false, List, [], ◌∷◌, ◌++◌, append_assoc,
  if◌then◌else◌,
}
use zfs_live_xapi.Effects.Monad.{Event, History, Error, Result, ok, err, M, pure, ◌>>=◌, raise}
use zfs_live_xapi.Effects.Triple.{All, All-append, Does, ok-injective}

-- More events do not undo it.
abbrev pub IsStable : (History → Type 0) → Type 0
IsStable K = (es : List Event) (h : History) → K h → K (es ++ h)

-- Behind `start`, the event was added at a history of which `F` holds.
abbrev pub Saw : History → Event → (History → Type 0) → History → Type 0
Saw start e F h =
    (mid : List Event) × (after : List Event) × (h ≡ after ++ (e ∷ (mid ++ start)))
    × F (mid ++ start)

-- The history goes on from `start`.
abbrev pub Since : History → History → Type 0
Since start h = (es : List Event) × (h ≡ es ++ start)

pub Saw-IsStable : (start : History) (e : Event) (F : History → Type 0) → IsStable (Saw start e F)
Saw-IsStable start e F es h (mid, after, eq, f) =
    (mid, es ++ after, ap (λ t. es ++ t) eq ∙ sym (append_assoc es after (e ∷ (mid ++ start))), f)

pub Since-IsStable : (start : History) → IsStable (Since start)
Since-IsStable start es h (es', e) =
    (es ++ es', ap (λ t. es ++ t) e ∙ sym (append_assoc es es' start))

pub All-IsStable :
    {A : Type 0} (F : A → History → Type 0) (xs : List A)
    → ((x : A) → IsStable (F x))
    → IsStable (λ h. All (λ x. F x h) xs)
All-IsStable F [] stable es h p = tt
All-IsStable F (x ∷ xs) stable es h (p, ps) = (stable x es h p, All-IsStable F xs stable es h ps)

pub see :
    (start h : History) (e : Event) (F : History → Type 0)
    → Since start h
    → F h
    → Saw start e F (e ∷ h)
see start h e F (es, eq) f = (es, [], ap (λ t. e ∷ t) eq, subst F eq f)

abbrev pub Ran :
    {A : Type 0} → (Event → Type 0) → (A → History → Type 0) → History → Result A × History → Type 0
Ran {A} P Q h r = (es : List Event) × (r.1 ≡ es ++ h) × All P es × ((a : A) → r.0 ≡ ok a → Q a r.1)

-- From a history of which `K` holds, a result has the property `Q` with the history after it.
pub record Hoare {A : Type 0} (P : Event → Type 0) (K : History → Type 0) (Q : A → History → Type 0)
    (m : M A) : Type 0 where
  pub runs : (h : History) → K h → Ran P Q h (m h)

module _ (P : Event → Type 0) where
  pub pure-Hoare :
      {A : Type 0} (K : History → Type 0) (Q : A → History → Type 0) (a : A)
      → ((h : History) → K h → Q a h)
      → Hoare P K Q (pure a)
  pure-Hoare K Q a q = record {
    runs = λ h k. ([], refl, tt, λ b e. subst (λ x. Q x h) (ok-injective a b e) (q h k));
  }

  pub raise-Hoare :
      {A : Type 0} (K : History → Type 0) (Q : A → History → Type 0) (e : Error)
      → Hoare P K Q (raise e)
  raise-Hoare K Q e = record { runs = λ h k. ([], refl, tt, λ b eq. cc) }

  bind-Ran :
      {A B : Type 0} (Q : A → History → Type 0) (R : B → History → Type 0) (f : A → M B)
      (h : History) (r : Result A) (h' : History)
      → Ran P Q h (r, h')
      → ((a : A) → Hoare P (Q a) R (f a))
      → Ran P R h (elim r [ ok a ↦ f a h' | err e ↦ (err e, h') ])
  bind-Ran Q R f h (ok a) h' (es, e, p, q) k =
      let (es', e', p', q') = (k a).runs h' (q a refl) in
      (
        es' ++ es,
        e' ∙ ap (λ t. es' ++ t) e ∙ sym (append_assoc es' es h),
        All-append P es' es p' p,
        q',
      )
  bind-Ran Q R f h (err x) h' (es, e, p, q) k = (es, e, p, λ b eq. cc)

  pub bind-Hoare :
      {A B : Type 0} (K : History → Type 0) (Q : A → History → Type 0) (R : B → History → Type 0)
      (m : M A) (f : A → M B)
      → Hoare P K Q m
      → ((a : A) → Hoare P (Q a) R (f a))
      → Hoare P K R (m >>= f)
  bind-Hoare K Q R m f d g = record {
    runs = λ h k. bind-Ran Q R f h (m h).0 (m h).1 (d.runs h k) g;
  }

  pub if-Hoare :
      {A : Type 0} (K : History → Type 0) (Q : A → History → Type 0) (b : Bool) (m n : M A)
      → (b ≡ true → Hoare P K Q m)
      → (b ≡ false → Hoare P K Q n)
      → Hoare P K Q (if b then m else n)
  if-Hoare K Q true m n p q = p refl
  if-Hoare K Q false m n p q = q refl

  -- What holds before and what follows after.
  pub adapt-Hoare :
      {A : Type 0} (K K' : History → Type 0) (Q Q' : A → History → Type 0) (m : M A)
      → ((h : History) → K' h → K h)
      → ((a : A) (h : History) → Q a h → Q' a h)
      → Hoare P K Q m
      → Hoare P K' Q' m
  adapt-Hoare K K' Q Q' m f g d = record {
    runs = λ h k. let (es, e, p, q) = d.runs h (f h k) in (es, e, p, λ a eq. g a (m h).1 (q a eq));
  }

  -- What is stable is kept.
  pub keep-Hoare :
      {A : Type 0} (J K : History → Type 0) (Q : A → History → Type 0) (m : M A)
      → IsStable J
      → Hoare P K Q m
      → Hoare P (λ h. J h × K h) (λ a h. J h × Q a h) m
  keep-Hoare J K Q m stable d = record {
    runs = λ h (j, k).
        let (es, e, p, q) = d.runs h k in
        (es, e, p, λ a eq. (subst J (sym e) (stable es h j), q a eq));
  }

  pub Does-Hoare :
      {A : Type 0} (K : History → Type 0) (Q : A → Type 0) (m : M A)
      → IsStable K
      → Does P Q m
      → Hoare P K (λ a h. K h × Q a) m
  Does-Hoare K Q m stable d = record {
    runs = λ h k.
        let (es, e, p, q) = d.ends h in
        (es, e, p, λ a eq. (subst K (sym e) (stable es h k), q a eq));
  }

  -- The run goes on from `start` still.
  pub going_on :
      {A : Type 0} (start : History) (Q : A → History → Type 0) (m : M A)
      → Hoare P (Since start) Q m
      → Hoare P (Since start) (λ a h. Since start h × Q a h) m
  going_on start Q m d =
      adapt-Hoare (λ h. Since start h × Since start h) (Since start) (λ a h. Since start h × Q a h)
        (λ a h. Since start h × Q a h) m (λ h k. (k, k)) (λ a h q. q)
        (keep-Hoare (Since start) (Since start) Q m (Since-IsStable start) d)
