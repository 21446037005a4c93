-- ===== src/Effects/Triple.antt =====
-- What an action may do to the world and what its result satisfies, whether it returns or raises.
use zfs_live_xapi.Prelude.{
  subst, String, ◌≡◌, refl, ap, ◌∙◌, sym, Bool, true, false, Option, none, some, List, [], ◌∷◌,
  ◌++◌, append_assoc, if◌then◌else◌,
}
use zfs_live_xapi.Effects.Monad.{
  World, Event, spawned, ioctl, database, entered, left, slept, minted, looked, filed, FileCall,
  look, write_file, History, Error, LzcCall, DbCall, Scope, Result, ok, err, M, pure, raise,
  try_except, ask, unless_error, spawn, call_lzc, sleep, mint_uuid, within, ◌>>=◌,
}

abbrev pub All {ℓ κ} : {A : Type ℓ} → (A → Type κ) → List A → Type κ
All P [] = Unit
All P (x ∷ xs) = P x × All P xs

pub All-append {ℓ κ} :
    {A : Type ℓ} (P : A → Type κ) (xs ys : List A) → All P xs → All P ys → All P (xs ++ ys)
All-append P [] ys p q = q
All-append P (x ∷ xs) ys (h, p) q = (h, All-append P xs ys p q)

pub All-map {ℓ κ ι} :
    {A : Type ℓ} (P : A → Type κ) (Q : A → Type ι)
    → ((a : A) → P a → Q a)
    → (xs : List A) → All P xs
    → All Q xs
All-map P Q f [] p = tt
All-map P Q f (x ∷ xs) (h, p) = (f x h, All-map P Q f xs p)

-- The action adds events that satisfy `P`, and a value that it returns satisfies `Q`. An action
-- with the impossible `Q` always raises.
abbrev pub Ends :
    {A : Type 0} → (Event → Type 0) → (A → Type 0) → History → Result A × History → Type 0
Ends {A} P Q h r = (es : List Event) × (r.1 ≡ es ++ h) × All P es × ((a : A) → r.0 ≡ ok a → Q a)

pub record Does {A : Type 0} (P : Event → Type 0) (Q : A → Type 0) (m : M A) : Type 0 where
  pub ends : (h : History) → Ends P Q h (m h)

abbrev pub Anything : {A : Type 0} → A → Type 0
Anything a = Unit

pub All-Anything : {A : Type 0} (xs : List A) → All Anything xs
All-Anything [] = tt
All-Anything (x ∷ xs) = (tt, All-Anything xs)

abbrev pub Never : {A : Type 0} → A → Type 0
Never a = ⊥

pub ok-injective : {A : Type 0} (a b : A) → Path (Result A) (ok a) (ok b) → a ≡ b
ok-injective a b e = cc

module _ (P : Event → Type 0) where
  pub pure-Does : {A : Type 0} (Q : A → Type 0) (a : A) → Q a → Does P Q (pure a)
  pure-Does Q a q = record { ends = λ h. ([], refl, tt, λ b e. subst Q (ok-injective a b e) q) }

  pub raise-Does : {A : Type 0} (Q : A → Type 0) (e : Error) → Does P Q (raise e)
  raise-Does Q e = record { ends = λ h. ([], refl, tt, λ b eq. cc) }

  bind-Ends :
      {A B : Type 0} (Q : A → Type 0) (R : B → Type 0) (f : A → M B) (h : History) (r : Result A)
      (h' : History)
      → Ends P Q h (r, h')
      → ((a : A) → Q a → Does P R (f a))
      → Ends P R h (elim r [ ok a ↦ f a h' | err e ↦ (err e, h') ])
  bind-Ends Q R f h (ok a) h' (es, e, p, q) k =
      let (es', e', p', q') = (k a (q a refl)).ends h' in
      (
        es' ++ es,
        e' ∙ ap (λ t. es' ++ t) e ∙ sym (append_assoc es' es h),
        All-append P es' es p' p,
        q',
      )
  bind-Ends Q R f h (err x) h' (es, e, p, q) k = (es, e, p, λ b eq. cc)

  pub bind-Does :
      {A B : Type 0} (Q : A → Type 0) (R : B → Type 0) (m : M A) (f : A → M B)
      → Does P Q m
      → ((a : A) → Q a → Does P R (f a))
      → Does P R (m >>= f)
  bind-Does Q R m f d k = record { ends = λ h. bind-Ends Q R f h (m h).0 (m h).1 (d.ends h) k }

  pub weaken-Does :
      {A : Type 0} (Q R : A → Type 0) (m : M A) → ((a : A) → Q a → R a) → Does P Q m → Does P R m
  weaken-Does Q R m f d = record {
    ends = λ h. let (es, e, p, q) = d.ends h in (es, e, p, λ a eq. f a (q a eq));
  }

  try-Ends :
      {A : Type 0} (Q : A → Type 0) (handler : Error → M A) (h : History) (r : Result A)
      (h' : History)
      → Ends P Q h (r, h')
      → ((e : Error) → Does P Q (handler e))
      → Ends P Q h (elim r [ ok a ↦ (ok a, h') | err e ↦ handler e h' ])
  try-Ends Q handler h (ok a) h' d k = d
  try-Ends Q handler h (err x) h' (es, e, p, q) k =
      let (es', e', p', q') = (k x).ends h' in
      (
        es' ++ es,
        e' ∙ ap (λ t. es' ++ t) e ∙ sym (append_assoc es' es h),
        All-append P es' es p' p,
        q',
      )

  pub try_except-Does :
      {A : Type 0} (Q : A → Type 0) (m : M A) (handler : Error → M A)
      → Does P Q m
      → ((e : Error) → Does P Q (handler e))
      → Does P Q (try_except m handler)
  try_except-Does Q m handler d k = record {
    ends = λ h. try-Ends Q handler h (m h).0 (m h).1 (d.ends h) k;
  }

  pub if-Does :
      {A : Type 0} (Q : A → Type 0) (b : Bool) (m n : M A)
      → (b ≡ true → Does P Q m)
      → (b ≡ false → Does P Q n)
      → Does P Q (if b then m else n)
  if-Does Q true m n p q = p refl
  if-Does Q false m n p q = q refl

  module _ (w : World) where
    pub spawn-Does : (cmd : List String) → P (spawned cmd) → Does P Anything (spawn w cmd)
    unfolding spawn
    spawn-Does cmd p = record { ends = λ h. (spawned cmd ∷ [], refl, (p, tt), λ a e. tt) }

    pub call_lzc-Does : (c : LzcCall) → P (ioctl c) → Does P Anything (call_lzc w c)
    unfolding call_lzc
    call_lzc-Does c p = record { ends = λ h. (ioctl c ∷ [], refl, (p, tt), λ a e. tt) }

    pub sleep-Does : P slept → Does P Anything (sleep w)
    unfolding sleep
    sleep-Does p = record { ends = λ h. (slept ∷ [], refl, (p, tt), λ a e. tt) }

    pub mint_uuid-Does : P minted → Does P Anything (mint_uuid w)
    unfolding mint_uuid
    mint_uuid-Does p = record { ends = λ h. (minted ∷ [], refl, (p, tt), λ a e. tt) }

    pub look-Does :
        {A : Type 0} (path : String) (answer : History → Result A)
        → P (looked path)
        → Does P Anything (look w path answer)
    look-Does path answer p = record { ends = λ h. (looked path ∷ [], refl, (p, tt), λ a e. tt) }

    pub write_file-Does : (c : FileCall) → P (filed c) → Does P Anything (write_file w c)
    unfolding write_file
    write_file-Does c p = record { ends = λ h. (filed c ∷ [], refl, (p, tt), λ a e. tt) }

    answered :
        {A : Type 0} (Q : A → Type 0) (o : Option Error) (a b : A)
        → unless_error o a ≡ ok b
        → Q a
        → Q b
    answered Q none a b e q = subst Q (ok-injective a b e) q
    answered Q (some x) a b e q = absurd (cc)

    pub ask-Does :
        {A : Type 0} (Q : A → Type 0) (c : DbCall) (answer : History → A)
        → P (database c)
        → ((h : History) → Q (answer h))
        → Does P Q (ask w c answer)
    ask-Does Q c answer p q = record {
      ends = λ h.
          (database c ∷ [], refl, (p, tt), λ a e. answered Q (w.refuses h c) (answer h) a e (q h));
    }

    within-Ends :
        {A : Type 0} (Q : A → Type 0) (scope : Scope) (body : M A) (h : History) (o : Option Error)
        → P (entered scope)
        → P (left scope)
        → Does P Q body
        → Ends P Q h (elim o [
          | some e ↦ (err e, h)
          | none ↦
              let (r, h') = body (entered scope ∷ h) in
              (elim (w.spoils h' scope) [ none ↦ r | some e ↦ err e ], left scope ∷ h')
        ])
    within-Ends Q scope body h (some x) pe pl d = ([], refl, tt, λ b eq. cc)
    within-Ends {A} Q scope body h none pe pl d =
        let (es, e, p, q) = d.ends (entered scope ∷ h) in
        (
          left scope ∷ (es ++ (entered scope ∷ [])),
          ap (λ t. left scope ∷ t) (e ∙ sym (append_assoc es (entered scope ∷ []) h)),
          (pl, All-append P es (entered scope ∷ []) p (pe, tt)),
          λ a eq. q a (unspoiled (w.spoils (body (entered scope ∷ h)).1 scope) _ a eq),
        )
      where
        unspoiled :
            (o : Option Error) (r : Result A) (a : A)
            → (let r' : Result A = elim o [ none ↦ r | some e ↦ err e ] in r') ≡ ok a
            → r ≡ ok a
        unspoiled none r a eq = eq
        unspoiled (some x) r a eq = absurd (cc)

    pub within-Does :
        {A : Type 0} (Q : A → Type 0) (scope : Scope) (body : M A)
        → P (entered scope)
        → P (left scope)
        → Does P Q body
        → Does P Q (within w scope body)
    unfolding within
    within-Does Q scope body pe pl d = record {
      ends = λ h. within-Ends Q scope body h (w.blocks h scope) pe pl d;
    }

  pub then-Does :
      {A B : Type 0} (R : B → Type 0) (m : M A) (f : A → M B)
      → Does P Anything m
      → ((a : A) → Does P R (f a))
      → Does P R (m >>= f)
  then-Does R m f d k = bind-Does Anything R m f d (λ a q. k a)

  -- Nothing follows an action that always raises.
  pub stop-Does :
      {A B : Type 0} (R : B → Type 0) (m : M A) (f : A → M B) → Does P Never m → Does P R (m >>= f)
  stop-Does R m f d = bind-Does Never R m f d (λ a no_result. absurd no_result)

  pub try_any-Does :
      {A : Type 0} (m : M A) (handler : Error → M A)
      → Does P Anything m
      → ((e : Error) → Does P Anything (handler e))
      → Does P Anything (try_except m handler)
  try_any-Does m handler = try_except-Does Anything m handler

  pub if_any-Does :
      {A : Type 0} (Q : A → Type 0) (b : Bool) (m n : M A)
      → Does P Q m
      → Does P Q n
      → Does P Q (if b then m else n)
  if_any-Does Q true m n p q = p
  if_any-Does Q false m n p q = q

pub ruleset does = (pure-Does, raise-Does, then-Does, try_any-Does, if_any-Does)

-- Events of a weaker kind.
pub widen-Does :
    {A : Type 0} (P P' : Event → Type 0) (Q : A → Type 0) (m : M A)
    → ((e : Event) → P e → P' e)
    → Does P Q m
    → Does P' Q m
widen-Does P P' Q m f d = record {
  ends = λ h. let (es, e, p, q) = d.ends h in (es, e, All-map P P' f es p, q);
}

-- What is known of the results of an action.
pub returns-Does :
    {A : Type 0} (P : Event → Type 0) (Q : A → Type 0) (m : M A)
    → ((h : History) (a : A) → (m h).0 ≡ ok a → Q a)
    → Does P Anything m
    → Does P Q m
returns-Does P Q m q d = record {
  ends = λ h. let (es, e, p, _) = d.ends h in (es, e, p, λ a eq. q h a eq);
}

-- The run only added events that satisfy `P`.
abbrev pub Adds : {A : Type 0} → (Event → Type 0) → History → Result A × History → Type 0
Adds P h r = (es : List Event) × (r.1 ≡ es ++ h) × All P es

-- The run raised, and only added events that satisfy `P`.
abbrev pub Raises : {A : Type 0} → (Event → Type 0) → History → Result A × History → Type 0
Raises P h r = (x : Error) × (r.0 ≡ err x) × Adds P h r

pub Does-Adds :
    {A : Type 0} (P : Event → Type 0) (Q : A → Type 0) (m : M A)
    → Does P Q m
    → (h : History) → Adds P h (m h)
Does-Adds P Q m d h = let (es, e, p, q) = d.ends h in (es, e, p)

raised : {A : Type 0} (r : Result A) → ((a : A) → r ≡ ok a → ⊥) → (x : Error) × (r ≡ err x)
raised (ok a) n = absurd (n a refl)
raised (err x) n = (x, refl)

pub Does-Raises :
    {A : Type 0} (P : Event → Type 0) (m : M A) → Does P Never m → (h : History) → Raises P h (m h)
Does-Raises P m d h =
    let (es, e, p, n) = d.ends h in let (x, eq) = raised (m h).0 n in (x, eq, (es, e, p))

-- The run of a sequence, and of a guarded action, by the result of its first part.
pub bind-ok :
    {A B : Type 0} (m : M A) (f : A → M B) (h h' : History) (a : A)
    → m h ≡ (ok a, h')
    → (m >>= f) h ≡ f a h'
bind-ok {A} {B} m f h h' a e =
    ap
      (λ r.
        let (x, t) = r in elim x as (λ _. Result B × History) [ ok b ↦ f b t | err y ↦ (err y, t) ])
      e

pub bind-returns :
    {A B : Type 0} (m : M A) (f : A → M B) (h : History) (a : A)
    → (m h).0 ≡ ok a
    → (m >>= f) h ≡ f a (m h).1
bind-returns m f h a e = bind-ok m f h (m h).1 a (ap (λ r. (r, (m h).1)) e)

pub bind-err :
    {A B : Type 0} (m : M A) (f : A → M B) (h : History) (x : Error)
    → (m h).0 ≡ err x
    → (m >>= f) h ≡ (err x, (m h).1)
bind-err {A} {B} m f h x e =
    ap
      (λ r.
        let t : History = (m h).1 in
        elim r as (λ _. Result B × History) [ ok b ↦ f b t | err y ↦ (err y, t) ])
      e

pub try_except-err :
    {A : Type 0} (m : M A) (handler : Error → M A) (h h' : History) (x : Error)
    → m h ≡ (err x, h')
    → try_except m handler h ≡ handler x h'
try_except-err {A} m handler h h' x e =
    ap
      (λ r.
        let (a, t) = r in
        elim a as (λ _. Result A × History) [ ok b ↦ (ok b, t) | err y ↦ handler y t ])
      e
