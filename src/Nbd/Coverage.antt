-- ===== src/Nbd/Coverage.antt =====
-- The extents of the walk are the dirty bytes, where the server describes what it is asked about.
use zfs_live_xapi.Prelude.{
  ℕ, zero, suc, ◌+◌, ◌-◌, ◌*◌, ◌/◌, ◌%◌, ◌<◌, ◌≤◌, ◌≡◌, refl, ap, ◌∙◌, min, Bool, true, false, ◌&&◌,
  ◌||◌, Option, some, List, [], ◌∷◌, ◌++◌, ltb, leb, ◌==◌, arith, ◌⊎◌, inl, inr, Bool-cases,
}
use native.Mathlib.Nat.{div-add-mod, mod-lt}
use zfs_live_xapi.Nbd.Walk.{
  Chunk, none_chunk, malformed, error_chunk, other_chunk, block_status, Status, statuses_from,
  after, walk_chunks, Server, walk_from, walk_block_status, dirty, fetch_dirty_extents,
  block_status_chunk, ◌>>=◌,
}

-- Some extent holds the byte.
abbrev pub covers : List (ℕ × ℕ) → ℕ → Bool
covers [] x = false
covers ((offset, len) ∷ extents) x = leb offset x && ltb x (offset + len) || covers extents x

-- The descriptors from `from` on tell the truth about the dirty bytes.
abbrev pub Marks : (ℕ → Bool) → ℕ → List (ℕ × ℕ) → Type 0
Marks is_dirty from [] = Unit
Marks is_dirty from ((len, status) ∷ descriptors) =
    ((x : ℕ) → from ≤ x → x < from + len → is_dirty x ≡ (status == 1))
    × Marks is_dirty (from + len) descriptors

-- The chunks hold no error, and those of the context describe the bytes from `from` up to `to`.
abbrev pub Describes : (ℕ → Bool) → ℕ → ℕ → ℕ → List Chunk → Type 0
Describes is_dirty context_id from to [] = from ≡ to
Describes is_dirty context_id from to (none_chunk ∷ chunks) =
    Describes is_dirty context_id from to chunks
Describes is_dirty context_id from to (error_chunk code ∷ chunks) = ⊥
Describes is_dirty context_id from to (malformed ∷ chunks) = ⊥
Describes is_dirty context_id from to (other_chunk ctype ∷ chunks) =
    Describes is_dirty context_id from to chunks
Describes is_dirty context_id from to (block_status ctx descriptors ∷ chunks) =
    (((ctx == context_id) ≡ true)
      × Marks is_dirty from descriptors
      × Describes is_dirty context_id (after from descriptors) to chunks)
    ⊎ (((ctx == context_id) ≡ false) × Describes is_dirty context_id from to chunks)

-- The byte is dirty and in the range.
abbrev pub dirty_within : (ℕ → Bool) → ℕ → ℕ → ℕ → Bool
dirty_within is_dirty from to x = leb from x && ltb x to && is_dirty x

pub bind-some :
    {A B : Type 0} {o : Option A} {a : A} (f : A → Option B) → o ≡ some a → (o >>= f) ≡ f a
bind-some f e = ap (λ o. o >>= f) e

covers-append :
    (a b : List Status) (x : ℕ)
    → covers (dirty (a ++ b)) x ≡ (covers (dirty a) x || covers (dirty b) x)
unfolding dirty
covers-append [] b x = refl
covers-append ((offset, len, status) ∷ a) b x = ground (arith, covers-append a b x)

after-le : (from : ℕ) (ds : List (ℕ × ℕ)) → from ≤ after from ds
unfolding after
after-le from [] = omega arith
after-le from ((len, status) ∷ ds) = omega (arith, after-le (from + len) ds)

module _ (is_dirty : ℕ → Bool) where
  covers-statuses :
      (from : ℕ) (ds : List (ℕ × ℕ)) (x : ℕ)
      → Marks is_dirty from ds
      → covers (dirty (statuses_from from ds)) x ≡ dirty_within is_dirty from (after from ds) x
  unfolding dirty statuses_from after
  covers-statuses from [] x m = ground arith
  covers-statuses from ((len, status) ∷ ds) x (here, rest) =
      let le = after-le (from + len) ds in
      let ih = covers-statuses (from + len) ds x rest in
      elim (Bool-cases (leb from x && ltb x (from + len))) [
        | inl inside ↦ let at = here x (ground arith) (ground arith) in ground arith
        | inr outside ↦ ground arith
      ]

  no_bytes : (from to x : ℕ) → to ≤ from → covers (dirty []) x ≡ dirty_within is_dirty from to x
  unfolding dirty
  no_bytes from to x e = ground arith

  joined :
      {a b : Bool} {to : ℕ} (from x mid : ℕ)
      → a ≡ dirty_within is_dirty from mid x
      → b ≡ dirty_within is_dirty mid to x
      → from ≤ mid
      → mid ≤ to
      → (a || b) ≡ dirty_within is_dirty from to x
  joined from x mid p q l m = ground arith

  walk_chunks-other :
      (context_id cur ctx : ℕ) (ds : List (ℕ × ℕ)) (chunks : List Chunk)
      → (ctx == context_id) ≡ false
      → walk_chunks context_id cur (block_status ctx ds ∷ chunks)
        ≡ walk_chunks context_id cur chunks
  unfolding walk_chunks
  walk_chunks-other context_id cur ctx ds chunks e = ground arith

  walk_chunks-same :
      (context_id cur ctx : ℕ) (ds : List (ℕ × ℕ)) (chunks : List Chunk) (sts : List Status)
      → (ctx == context_id) ≡ true
      → walk_chunks context_id (after cur ds) chunks ≡ some sts
      → walk_chunks context_id cur (block_status ctx ds ∷ chunks)
        ≡ some (statuses_from cur ds ++ sts)
  unfolding walk_chunks
  walk_chunks-same context_id cur ctx ds chunks sts e walked = ground arith

  walk_chunks_lem :
      (context_id from to : ℕ) (chunks : List Chunk)
      → Describes is_dirty context_id from to chunks
      → (sts : List Status) × (walk_chunks context_id from chunks ≡ some sts)
        × (from ≤ to)
        × ((x : ℕ) → covers (dirty sts) x ≡ dirty_within is_dirty from to x)
  unfolding walk_chunks
  walk_chunks_lem context_id from to [] e =
      ([], refl, omega arith, λ x. no_bytes from to x (omega arith))
  walk_chunks_lem context_id from to (none_chunk ∷ chunks) d =
      walk_chunks_lem context_id from to chunks d
  walk_chunks_lem context_id from to (other_chunk ctype ∷ chunks) d =
      walk_chunks_lem context_id from to chunks d
  walk_chunks_lem context_id from to (error_chunk code ∷ chunks) d = absurd d
  walk_chunks_lem context_id from to (malformed ∷ chunks) d = absurd d
  walk_chunks_lem context_id from to (block_status ctx ds ∷ chunks) (inr (other, d)) =
      let (sts, walked, le, covered) = walk_chunks_lem context_id from to chunks d in
      (sts, walk_chunks-other context_id from ctx ds chunks other ∙ walked, le, covered)
  walk_chunks_lem context_id from to (block_status ctx ds ∷ chunks) (inl (same, m, d)) =
      let (sts, walked, le, covered) = walk_chunks_lem context_id (after from ds) to chunks d in
      let first = after-le from ds in
      (
        statuses_from from ds ++ sts,
        walk_chunks-same context_id from ctx ds chunks sts same walked,
        omega arith,
        λ x.
            covers-append (statuses_from from ds) sts x
            ∙ joined from x (after from ds) (covers-statuses from ds x m) (covered x) first le,
      )

-- Every request of at most 2 GiB is answered by chunks that describe the bytes that it asks for, all
-- of them.
abbrev pub IsFaithful : (ℕ → Bool) → ℕ → Server → Type 0
IsFaithful is_dirty context_id reply =
    (handle offset len : ℕ)
    → len ≤ block_status_chunk
    → (chunks : List Chunk) × (reply handle offset len ≡ some chunks)
      × Describes is_dirty context_id offset (offset + len) chunks

module _ (is_dirty : ℕ → Bool) (reply : Server) (context_id export_size chunk_size : ℕ)
    (faithful : IsFaithful is_dirty context_id reply) (progress : 0 < chunk_size)
    (bounded : chunk_size ≤ block_status_chunk) where
  walk_from-round :
      (fuel handle offset : ℕ) (chunks : List Chunk) (here rest : List Status)
      → let len = min chunk_size (export_size - offset) in
        offset < export_size
        → reply handle offset len ≡ some chunks
        → walk_chunks context_id offset chunks ≡ some here
        → walk_from reply context_id export_size chunk_size fuel (handle + 1) (offset + len)
          ≡ some rest
        → walk_from reply context_id export_size chunk_size (suc fuel) handle offset
          ≡ some (here ++ rest)
  unfolding walk_from
  walk_from-round fuel handle offset chunks here rest less a b c =
      let is_less : ltb offset export_size ≡ true = ground arith in
      let len = min chunk_size (export_size - offset) in
      let more : Option (List Status) =
        walk_from reply context_id export_size chunk_size fuel (handle + 1) (offset + len) in
      let finish : List Status → Option (List Status) = λ xs. more >>= λ ys. some (xs ++ ys) in
      let read : List Chunk → Option (List Status) =
        λ cs. walk_chunks context_id offset cs >>= finish in
      ap
        (λ t. elim t as (λ _. Option (List Status)) [
          | false ↦ some []
          | true ↦ reply handle offset len >>= read
        ])
        is_less
      ∙ (bind-some read a ∙ (bind-some finish b ∙ bind-some (λ ys. some (here ++ ys)) c))

  walk_from-done :
      (fuel handle offset : ℕ)
      → export_size ≤ offset
      → walk_from reply context_id export_size chunk_size fuel handle offset ≡ some []
  unfolding walk_from
  walk_from-done zero handle offset h = refl
  walk_from-done (suc fuel) handle offset h = ground arith

  -- Enough rounds are left to reach the end of the export.
  walk_from_lem :
      (fuel handle offset : ℕ)
      → export_size ≤ offset + fuel * chunk_size
      → (sts : List Status) × (walk_from reply context_id export_size chunk_size fuel handle offset
          ≡ some sts)
        × ((x : ℕ) → covers (dirty sts) x ≡ dirty_within is_dirty offset export_size x)
  walk_from_lem zero handle offset enough = (
    [],
    walk_from-done 0 handle offset (omega arith),
    λ x. no_bytes is_dirty offset export_size x (omega arith),
  )
  walk_from_lem (suc fuel) handle offset enough = elim (Bool-cases (ltb offset export_size)) [
    | inr done ↦ (
      [],
      walk_from-done (suc fuel) handle offset (ground arith),
      λ x. no_bytes is_dirty offset export_size x (ground arith),
    )
    | inl less ↦
        let len = min chunk_size (export_size - offset) in
        let (chunks, answered, described) = faithful handle offset len (ground arith) in
        let (here, walked, le, covered) =
          walk_chunks_lem is_dirty context_id offset (offset + len) chunks described in
        let (rest, continued, further) =
          walk_from_lem fuel (handle + 1) (offset + len) (next offset fuel (ground arith) enough) in
        (
          here ++ rest,
          walk_from-round fuel handle offset chunks here rest (ground arith) answered walked
              continued,
          λ x.
              covers-append here rest x
              ∙ joined is_dirty offset x (offset + len) (covered x) (further x) le (ground arith),
        )
  ]
    where
      next :
          (offset fuel : ℕ)
          → offset < export_size
          → export_size ≤ offset + suc fuel * chunk_size
          → export_size ≤ offset + min chunk_size (export_size - offset) + fuel * chunk_size
      next offset fuel less enough = ground arith

-- `fetch_dirty_extents` of a server that describes all the bytes of every request returns, and a byte of the
-- export is in an extent that it returns exactly when it is dirty; no other byte is.
pub fetch_dirty_extents-covers :
    (is_dirty : ℕ → Bool) (reply : Server) (context_id export_size x : ℕ)
    → IsFaithful is_dirty context_id reply
    → (extents : List (ℕ × ℕ)) × (fetch_dirty_extents reply context_id export_size ≡ some extents)
      × (covers extents x ≡ (ltb x export_size && is_dirty x))
unfolding fetch_dirty_extents walk_block_status
fetch_dirty_extents-covers is_dirty reply context_id export_size x faithful =
    let parts = div-add-mod export_size block_status_chunk in
    let rest : export_size % block_status_chunk < block_status_chunk =
      mod-lt export_size (omega arith) in
    let (sts, walked, covered) =
      walk_from_lem is_dirty reply context_id export_size block_status_chunk faithful (omega arith)
        (omega arith) (export_size / block_status_chunk + 1) 0 0 (ground arith) in
    (dirty sts, rw walked refl, covered x ∙ ground arith)
