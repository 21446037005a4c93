-- ===== src/Lzc/GateLaws.antt =====
-- When the gate of an operation of lzc.py is open.
use zfs_live_xapi.Prelude.{
  ◌≡◌, refl, ap, sym, ◌∙◌, subst, ◌↔◌, ◌==◌, ==_iff, String, Bool, true, false, ◌&&◌, Option, none,
  some, List, [], ◌∷◌, ◌++◌, arith, ◌⊎◌, inl, inr, if◌then◌else◌,
}
use zfs_live_xapi.Prelude.Lists.{contains}
use zfs_live_xapi.Effects.{World}
use zfs_live_xapi.Effects.Triple.{All}
use zfs_live_xapi.Lzc.Gates.{
  contains_all, nvpair_required_symbols, required_symbols, candidate_has_required_symbols,
  try_load_lib, try_load_nvpair, Op, ensure_init, op_available,
}

-- A library with all the names.
abbrev pub Exports : List String → List String → Type 0
Exports names lib = All (λ name. contains lib name ≡ true) names

-- A candidate that does not load, or lacks one of the names.
abbrev pub IsUnusable : List String → Option (List String) → Type 0
IsUnusable names none = Unit
IsUnusable names (some lib) = Exports names lib → ⊥

-- The first candidate that loads and has all the names.
abbrev pub IsFirst : List String → List (Option (List String)) → List String → Type 0
IsFirst names candidates lib =
    (before : List (Option (List String))) × (after : List (Option (List String))) × (candidates
      ≡ before ++ (some lib ∷ after))
    × All (IsUnusable names) before
    × Exports names lib

contains_all-Exports : (names lib : List String) → contains_all names lib ≡ true → Exports names lib
unfolding contains_all
contains_all-Exports [] lib e = tt
contains_all-Exports (name ∷ names) lib e =
    (ground arith, contains_all-Exports names lib (ground arith))

Exports-contains_all : (names lib : List String) → Exports names lib → contains_all names lib ≡ true
unfolding contains_all
Exports-contains_all [] lib p = refl
Exports-contains_all (name ∷ names) lib (p, ps) =
    let rest = Exports-contains_all names lib ps in ground arith

-- A search for the first usable candidate, as both loaders have it.
module _ (names : List String) (load : List (Option (List String)) → Option (List String))
    (nil : load [] ≡ none) (skip : (cs : List (Option (List String))) → load (none ∷ cs) ≡ load cs)
    (pick : (symbols : List String) (cs : List (Option (List String)))
      → load (some symbols ∷ cs)
        ≡ (if contains_all names symbols then some symbols else load cs)) where
  later :
      (c : Option (List String)) (cs : List (Option (List String))) (lib : List String)
      → IsUnusable names c
      → IsFirst names cs lib
      → IsFirst names (c ∷ cs) lib
  later c cs lib u (before, after, e, p, q) = (c ∷ before, after, ap (λ t. c ∷ t) e, (u, p), q)

  load-IsFirst :
      (cs : List (Option (List String))) (lib : List String)
      → load cs ≡ some lib
      → IsFirst names cs lib
  load-IsFirst [] lib e = cc
  load-IsFirst (none ∷ cs) lib e = later none cs lib tt (load-IsFirst cs lib (sym (skip cs) ∙ e))
  load-IsFirst (some symbols ∷ cs) lib e =
      by_test (contains_all names symbols) refl (sym (pick symbols cs) ∙ e) (load-IsFirst cs lib)
    where
      by_test :
          (b : Bool)
          → contains_all names symbols ≡ b
          → (if b then some symbols else load cs) ≡ some lib
          → (load cs ≡ some lib → IsFirst names cs lib)
          → IsFirst names (some symbols ∷ cs) lib
      by_test true f e' next =
          let same : symbols ≡ lib = cc in
          (
            [],
            cs,
            ap (λ t. some t ∷ cs) same,
            tt,
            subst (Exports names) same (contains_all-Exports names symbols f),
          )
      by_test false f e' next =
          later (some symbols) cs lib
            (λ p. let all = Exports-contains_all names symbols p in absurd cc) (next e')

  IsFirst-load :
      (before after : List (Option (List String))) (lib : List String)
      → All (IsUnusable names) before
      → Exports names lib
      → load (before ++ (some lib ∷ after)) ≡ some lib
  IsFirst-load [] after lib p q =
      pick lib after
      ∙ ap (λ b. if b then some lib else load after) (Exports-contains_all names lib q)
  IsFirst-load (none ∷ before) after lib (u, p) q =
      skip (before ++ (some lib ∷ after)) ∙ IsFirst-load before after lib p q
  IsFirst-load (some symbols ∷ before) after lib (u, p) q =
      pick symbols (before ++ (some lib ∷ after))
      ∙ by_test (contains_all names symbols) refl (IsFirst-load before after lib p q)
    where
      by_test :
          (b : Bool)
          → contains_all names symbols ≡ b
          → load (before ++ (some lib ∷ after)) ≡ some lib
          → (if b then some symbols else load (before ++ (some lib ∷ after))) ≡ some lib
      by_test true f next = absurd (u (contains_all-Exports names symbols f))
      by_test false f next = next

zfs_core-IsFirst :
    (cs : List (Option (List String))) (lib : List String)
    → (try_load_lib cs ≡ some lib) ↔ IsFirst required_symbols cs lib
unfolding try_load_lib candidate_has_required_symbols
zfs_core-IsFirst cs lib = (
  load-IsFirst required_symbols try_load_lib refl (λ cs'. refl) (λ s cs'. refl) cs lib,
  λ (before, after, e, p, q).
      ap (λ t. try_load_lib t) e
      ∙ IsFirst-load required_symbols try_load_lib refl (λ cs'. refl) (λ s cs'. refl) before after
          lib p q,
)

nvpair-IsFirst :
    (cs : List (Option (List String))) (lib : List String)
    → (try_load_nvpair cs ≡ some lib) ↔ IsFirst nvpair_required_symbols cs lib
unfolding try_load_nvpair
nvpair-IsFirst cs lib = (
  load-IsFirst nvpair_required_symbols try_load_nvpair refl (λ cs'. refl) (λ s cs'. refl) cs lib,
  λ (before, after, e, p, q).
      ap (λ t. try_load_nvpair t) e
      ∙ IsFirst-load nvpair_required_symbols try_load_nvpair refl (λ cs'. refl) (λ s cs'. refl)
          before after lib p q,
)

-- What the destroy of a name needs of libzfs_core, and what an nvlist needs of libnvpair.
abbrev pub core_names : List String
core_names = "libzfs_core_init" ∷ "libzfs_core_fini" ∷ "lzc_destroy" ∷ "lzc_exists" ∷ []

abbrev pub nvlist_names : List String
nvlist_names = "fnvlist_alloc" ∷ "fnvlist_free" ∷ "fnvlist_add_boolean" ∷ []

abbrev pub IsOpen : World → Op → List String → Type 0
IsOpen w (symbol, builds) extra =
    (lib : List String) × IsFirst core_names w.zfs_core lib
    × (w.init_rc ≡ 0)
    × (contains lib symbol ≡ true)
    × ((builds ≡ false)
        ⊎ ((nvp : List String) × IsFirst nvlist_names w.nvpair nvp × Exports extra nvp))

module _ (w : World) where
  -- What the nvlist of an operation needs.
  abbrev Builds : Bool → List String → Type 0
  Builds builds extra =
      (builds ≡ false)
      ⊎ ((nvp : List String) × IsFirst nvlist_names w.nvpair nvp × Exports extra nvp)

  abbrev can_build : Bool → List String → Option (List String) → Bool
  can_build builds extra o =
      if builds then elim o [ none ↦ false | some nvp ↦ contains_all extra nvp ] else true

  can_build-Builds :
      (builds : Bool) (extra : List String) (o : Option (List String))
      → try_load_nvpair w.nvpair ≡ o
      → can_build builds extra o ≡ true
      → Builds builds extra
  can_build-Builds false extra o loaded e = inl refl
  can_build-Builds true extra none loaded e = absurd cc
  can_build-Builds true extra (some nvp) loaded e =
      inr (nvp, (nvpair-IsFirst w.nvpair nvp).0 loaded, contains_all-Exports extra nvp e)

  Builds-can_build :
      (builds : Bool) (extra : List String)
      → Builds builds extra
      → can_build builds extra (try_load_nvpair w.nvpair) ≡ true
  Builds-can_build false extra p = refl
  Builds-can_build true extra (inl e) = absurd cc
  Builds-can_build true extra (inr (nvp, first, exports)) =
      ap (λ o. can_build true extra o) ((nvpair-IsFirst w.nvpair nvp).1 first)
      ∙ Exports-contains_all extra nvp exports

  abbrev is_open : String → Bool → Bool → Option (List String) → Bool
  is_open symbol initialized builds o =
      elim (elim o as (λ _. Option (List String)) [
        | none ↦ none
        | some lib ↦ if initialized then some lib else none
      ]) [ none ↦ false | some lib ↦ contains lib symbol && builds ]

  is_open-lib :
      (symbol : String) (initialized builds : Bool) (o : Option (List String))
      → is_open symbol initialized builds o ≡ true
      → (lib : List String) × (o ≡ some lib)
        × (initialized ≡ true)
        × (contains lib symbol ≡ true)
        × (builds ≡ true)
  is_open-lib symbol initialized builds none e = absurd cc
  is_open-lib symbol false builds (some lib) e = absurd cc
  is_open-lib symbol true builds (some lib) e = (lib, refl, refl, ground arith, ground arith)

  -- The gate of an operation is open exactly when the first candidate for libzfs_core that loads
  -- with the four names that are always needed initializes and exports the operation, and, where
  -- the operation builds an nvlist, the first candidate for libnvpair that loads with the three
  -- names that every nvlist needs exports those that this one adds.
  pub op_available-IsOpen :
      (op : Op) (extra : List String) → (op_available w op extra ≡ true) ↔ IsOpen w op extra
  unfolding op_available ensure_init
  op_available-IsOpen (symbol, builds) extra = (
    λ e.
        let built : Bool = can_build builds extra (try_load_nvpair w.nvpair) in
        let (lib, loaded, initialized, exported, b) =
          is_open-lib symbol (w.init_rc == 0) built (try_load_lib w.zfs_core) e in
        (
          lib,
          (zfs_core-IsFirst w.zfs_core lib).0 loaded,
          (==_iff w.init_rc 0).0 initialized,
          exported,
          can_build-Builds builds extra (try_load_nvpair w.nvpair) refl b,
        ),
    λ (lib, first, initialized, exported, p).
        let built : Bool = can_build builds extra (try_load_nvpair w.nvpair) in
        let loaded = (zfs_core-IsFirst w.zfs_core lib).1 first in
        let b = Builds-can_build builds extra p in
        ap (λ o. is_open symbol (w.init_rc == 0) built o) loaded
        ∙ ap (λ i. is_open symbol i built (some lib)) ((==_iff w.init_rc 0).1 initialized)
        ∙ ap (λ c. c && built) exported
        ∙ b,
  )
