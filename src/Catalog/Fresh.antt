-- ===== src/Catalog/Fresh.antt =====
-- `AllocateExtentID` returns an id that no extent of any table has, and that it never returned.
use mathlib.Core.Path.{subst}
use gokql.Base.{
  ℕ, ◌+◌, ◌%◌, ◌≤◌, ◌<◌, ◌≡◌, ◌≢◌, refl, sym, ap, ◌∙◌, inl, inr, some, List, [], ◌∷◌, if◌then◌else◌,
  leb, All, arith, Option-cases,
}
use gokql.Base.Bytes.{Bytes}
use gokql.Base.Dict.{Dict}
use gokql.Catalog.State.{u64_mod, ExtentEntry, Table, Catalog}
use gokql.Catalog.ExtentId.{
  parse_hex, format_id, past_extents, past_tables, next_id, allocate_extent_id,
}
use gokql.Catalog.Hex.{parse_hex-format_id}

-- The number of an id, if it is one, is at most `bound`.
abbrev pub IdAtMost : ℕ → Bytes → Type 0
IdAtMost bound id = (n : ℕ) → parse_hex id ≡ some n → n ≤ bound

module _ {ℓ} {V : Type ℓ} where
  -- Every extent of every table satisfies the predicate.
  abbrev pub EachExtent : (ExtentEntry V → Type 0) → Dict (Table V) → Type 0
  EachExtent P [] = Unit
  EachExtent P ((name, t) ∷ ts) = All P t.extents × EachExtent P ts

  abbrev Below : ℕ → ExtentEntry V → Type 0
  Below next ext = (n : ℕ) → parse_hex ext.id ≡ some n → n < next

  past_one :
      (bound next : ℕ) (ext : ExtentEntry V)
      → bound + 1 < u64_mod
      → IdAtMost bound ext.id
      → next < u64_mod
      → (m : ℕ) × (((exts : List (ExtentEntry V))
            → past_extents next (ext ∷ exts) ≡ past_extents m exts)
          × (next ≤ m)
          × (m < u64_mod)
          × Below m ext)
  unfolding past_extents
  past_one bound next ext room h small = elim (Option-cases (parse_hex ext.id)) [
    | inl bad ↦ (next, (λ exts. rw bad, omega arith, small, λ n e. cc))
    | inr (n, good) ↦ (
      (if leb next n then (n + 1) % u64_mod else next),
      (
        λ exts. rw good,
        ground (arith, h n good),
        ground (arith, h n good),
        λ k e. ground (arith, h n good),
      ),
    )
  ]

  Below-mono :
      (m k : ℕ) (exts : List (ExtentEntry V)) → m ≤ k → All (Below m) exts → All (Below k) exts
  Below-mono m k [] h b = tt
  Below-mono m k (ext ∷ exts) h b = (λ n e. omega (arith, b.0 n e), Below-mono m k exts h b.1)

  module _ (bound : ℕ) (room : bound + 1 < u64_mod) where
    past_extents_bounds :
        (next : ℕ) (exts : List (ExtentEntry V))
        → All (λ ext. IdAtMost bound ext.id) exts
        → next < u64_mod
        → (next ≤ past_extents next exts)
          × (past_extents next exts < u64_mod)
          × All (Below (past_extents next exts)) exts
    unfolding past_extents
    past_extents_bounds next [] h small = (omega arith, small, tt)
    past_extents_bounds next (ext ∷ exts) h small =
        let (m, (same, up, small', new)) = past_one bound next ext room h.0 small in
        let (up', last, rest) = past_extents_bounds m exts h.1 small' in
        subst (λ r. (next ≤ r) × (r < u64_mod) × All (Below r) (ext ∷ exts)) (sym (same exts))
          (omega arith, last, (λ n e. omega (arith, new n e), rest))

    past_tables_bounds :
        (next : ℕ) (ts : Dict (Table V))
        → EachExtent (λ ext. IdAtMost bound ext.id) ts
        → next < u64_mod
        → (next ≤ past_tables next ts)
          × (past_tables next ts < u64_mod)
          × EachExtent (Below (past_tables next ts)) ts
    unfolding past_tables
    past_tables_bounds next [] h small = (omega arith, small, tt)
    past_tables_bounds next ((name, t) ∷ ts) h small =
        let (up, small', here) = past_extents_bounds next t.extents h.0 small in
        let (up', last, rest) = past_tables_bounds (past_extents next t.extents) ts h.1 small' in
        (omega arith, last, (Below-mono _ _ t.extents up' here, rest))

  -- What a fresh id is: no extent has it, and no number up to `last` is written so.
  pub record IsFresh (id : Bytes) (last : ℕ) (ts : Dict (Table V)) : Type 0 where
    pub unused : EachExtent (λ ext. ext.id ≢ id) ts
    pub unseen : (m : ℕ) → m ≤ last → m < u64_mod → format_id m ≢ id

  ne_of_Below :
      (next : ℕ) (exts : List (ExtentEntry V))
      → next < u64_mod
      → All (Below next) exts
      → All (λ ext. ext.id ≢ format_id next) exts
  ne_of_Below next [] small h = tt
  ne_of_Below next (ext ∷ exts) small h = (
    λ e. absurd (omega (arith, h.0 next (ap parse_hex e ∙ parse_hex-format_id next small))),
    ne_of_Below next exts small h.1,
  )

  ne_of_Below_tables :
      (next : ℕ) (ts : Dict (Table V))
      → next < u64_mod
      → EachExtent (Below next) ts
      → EachExtent (λ ext. ext.id ≢ format_id next) ts
  ne_of_Below_tables next [] small h = tt
  ne_of_Below_tables next ((name, t) ∷ ts) small h =
      (ne_of_Below next t.extents small h.0, ne_of_Below_tables next ts small h.1)

  pub next_id_bounds :
      (c : Catalog V) (bound : ℕ)
      → bound + 1 < u64_mod
      → c.database.version + 1 < u64_mod
      → c.last_allocated_id + 1 < u64_mod
      → EachExtent (λ ext. IdAtMost bound ext.id) c.database.tables
      → (c.last_allocated_id < next_id c)
        × (next_id c < u64_mod)
        × EachExtent (Below (next_id c)) c.database.tables
  unfolding next_id
  next_id_bounds c bound room v l h =
      let start =
        (if leb ((c.database.version + 1) % u64_mod) c.last_allocated_id
          then (c.last_allocated_id + 1) % u64_mod
          else (c.database.version + 1) % u64_mod) in
      let small : start < u64_mod = ground arith in
      let above : c.last_allocated_id < start = ground arith in
      let (up, last, all) = past_tables_bounds bound room start c.database.tables h small in
      (omega arith, last, all)

  -- As long as the version, the last allocated id and the numbers of the ids in use are below
  -- 2^64 - 1, the id that `AllocateExtentID` returns is the id of no extent of any table, is none of
  -- the ids written for the numbers up to the last allocated one, and the last allocated id grows.
  pub allocate_extent_id-IsFresh :
      (c : Catalog V) (bound : ℕ)
      → bound + 1 < u64_mod
      → c.database.version + 1 < u64_mod
      → c.last_allocated_id + 1 < u64_mod
      → EachExtent (λ ext. IdAtMost bound ext.id) c.database.tables
      → IsFresh (allocate_extent_id c).1 c.last_allocated_id c.database.tables
        × (c.last_allocated_id < (allocate_extent_id c).0.last_allocated_id)
        × ((allocate_extent_id c).0.database ≡ c.database)
  unfolding allocate_extent_id
  allocate_extent_id-IsFresh c bound room v l h =
      let (above, small, all) = next_id_bounds c bound room v l h in
      (
        record {
          unused = ne_of_Below_tables (next_id c) c.database.tables small all;
          unseen = λ m le m_small e.
              let read : some m ≡ some (next_id c) =
                sym (parse_hex-format_id m m_small)
                ∙ ap parse_hex e
                ∙ parse_hex-format_id (next_id c) small in
              let same : m ≡ next_id c = cc read in absurd (omega arith);
        },
        above,
        refl,
      )
