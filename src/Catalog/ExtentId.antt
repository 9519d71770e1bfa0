-- ===== src/Catalog/ExtentId.antt =====
-- Extent ids (pkg/catalog/catalog.go): eight or more lower-case hexadecimal digits, and the
-- allocation of one that no extent has.
use gokql.Base.{
  ℕ, zero, suc, ◌+◌, ◌-◌, ◌*◌, ◌/◌, ◌%◌, ◌&&◌, Option, none, some, List, [], ◌∷◌, ◌++◌,
  if◌then◌else◌, leb, ltb, length, replicate,
}
use gokql.Base.Bytes.{Bytes}
use gokql.Base.Dict.{Dict}
use gokql.Catalog.State.{u64_mod, ExtentEntry, Table, Catalog}

-- The value of a hexadecimal digit, as `strconv.ParseUint` reads it.
unfoldable pub hex_value : ℕ → Option ℕ
hex_value c =
    if leb b'0' c && leb c b'9'
    then some (c - 48)
    else if leb b'a' c && leb c b'f'
    then some (c - 87)
    else if leb b'A' c && leb c b'F'
    then some (c - 55)
    else none

-- The digit loop of `strconv.ParseUint(s, 16, 64)`; an overflow is an error.
unfoldable pub parse_hex_from : ℕ → Bytes → Option ℕ
parse_hex_from acc [] = some acc
parse_hex_from acc (c ∷ s) = elim (hex_value c) [
  | none ↦ none
  | some d ↦ if ltb (acc * 16 + d) u64_mod then parse_hex_from (acc * 16 + d) s else none
]

unfoldable pub parse_hex : Bytes → Option ℕ
parse_hex [] = none
parse_hex (c ∷ s) = parse_hex_from 0 (c ∷ s)

unfoldable pub hex_digit : ℕ → ℕ
hex_digit d = if ltb d 10 then d + 48 else d + 87

-- The digits of a number below 16 ^ fuel, before `tail`.
unfoldable pub hex_digits : ℕ → ℕ → Bytes → Bytes
hex_digits zero n tail = tail
hex_digits (suc fuel) n tail =
    let rest = hex_digits fuel (n / 16) (hex_digit (n % 16) ∷ tail) in
    if ltb n 16 then hex_digit n ∷ tail else rest

-- `fmt.Sprintf("%08x", n)` for a `uint64`
unfoldable pub format_id : ℕ → Bytes
format_id n = let ds = hex_digits 16 n [] in replicate (8 - length ds) b'0' ++ ds

module _ {ℓ} {V : Type ℓ} where
  unfoldable pub past_extents : ℕ → List (ExtentEntry V) → ℕ
  past_extents next [] = next
  past_extents next (ext ∷ exts) =
      past_extents
        (elim (parse_hex ext.id) [
          | none ↦ next
          | some n ↦ if leb next n then (n + 1) % u64_mod else next
        ])
        exts

  unfoldable pub past_tables : ℕ → Dict (Table V) → ℕ
  past_tables next [] = next
  past_tables next ((name, t) ∷ ts) = past_tables (past_extents next t.extents) ts

  unfoldable pub next_id : Catalog V → ℕ
  next_id c =
      let next = (c.database.version + 1) % u64_mod in
      past_tables
        (if leb next c.last_allocated_id then (c.last_allocated_id + 1) % u64_mod else next)
        c.database.tables

  unfoldable pub allocate_extent_id : Catalog V → Catalog V × Bytes
  allocate_extent_id c =
      let next = next_id c in (record c { last_allocated_id = next }, format_id next)
