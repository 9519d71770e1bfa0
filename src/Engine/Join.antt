-- ===== src/Engine/Join.antt =====
-- pkg/engine/join.go: the hash join of a left table with the rows of a right one.
pub mod Matches
pub mod Nested
pub mod Marks
pub mod Fresh
pub mod Names
pub mod Keys
pub mod Sizes
pub mod Widths
use gokql.Base.{
  ℕ, zero, suc, ◌+◌, Bool, true, false, not, ◌&&◌, ◌||◌, Option, none, some, List, [], ◌∷◌, ◌++◌,
  map, if◌then◌else◌, length, get_or, set, replicate, keep, any, leb, ◌==◌,
}
use gokql.Base.Bytes.{Bytes, codes, bytes_eq}
use gokql.Base.Dict.{Dict, lookup, insert}
use gokql.Base.Int.{ℤ, pos, negsuc}
use gokql.Base.Result.{Result, ok, failed, ◌>>=◌}
use gokql.Types.Schema.{Schema, Column, column_index}
use gokql.Types.Decimal.{decimal_digits}
use gokql.Types.Decimal.Text.{text}
use gokql.Types.Value.{
  Real, Value, null, bool_value, long_value, int_value, real_value, string_value, decimal_value,
}
use gokql.Engine.Sort.{Row, cell}

pub data JoinKind : Type 0 where
  inner inner_unique left_outer right_outer full_outer left_anti left_semi right_anti right_semi :
      JoinKind

pub record JoinCondition : Type 0 where
  pub left_column : Bytes
  pub right_column : Bytes

pub record JoinOp : Type 0 where
  pub kind : JoinKind
  pub on_clauses : List JoinCondition
  pub drop_right_keys : Bool

pub record ResultTable : Type 0 where
  pub schema : Schema
  pub rows : List Row

pub data JoinError : Type 0 where
  left_not_found right_not_found : Bytes → JoinError

-- `strconv.FormatInt` to base 10
unfoldable pub format_int : ℤ → Bytes
unfolding decimal_digits
format_int (pos n) = decimal_digits n
format_int (negsuc n) = b'-' ∷ decimal_digits (suc n)

-- A key's parts, with a zero byte between them.
unfoldable pub join_parts : List Bytes → Bytes
join_parts [] = []
join_parts (p ∷ ps) = let rest = join_parts ps in elim ps [ [] ↦ p | q ∷ qs ↦ p ++ 0 ∷ rest ]

abbrev pub tagged : Bytes → Bytes → Bytes
tagged tag s = tag ++ 1 ∷ s

-- With the text of a float.
module _ (real_text : Real → Bytes) where
  unfoldable pub typed_key : Value → Bytes
  unfolding format_int text
  typed_key null = 0 ∷ codes "nil"
  typed_key (string_value s) = tagged (codes "string") s
  typed_key (long_value n) = tagged (codes "int64") (format_int n)
  typed_key (int_value n) = tagged (codes "int32") (format_int n)
  typed_key (real_value f) = tagged (codes "float64") (real_text f)
  typed_key (bool_value true) = tagged (codes "bool") (codes "true")
  typed_key (bool_value false) = tagged (codes "bool") (codes "false")
  typed_key (decimal_value d) = tagged (codes "types.Decimal") (text d)

  unfoldable pub join_key : List ℕ → Row → Bytes
  unfolding typed_key join_parts
  join_key (i ∷ []) row = typed_key (cell row i)
  join_key idxs row = join_parts (map (λ i. typed_key (cell row i)) idxs)

abbrev pub or_nil {ℓ} : {A : Type ℓ} → Option (List A) → List A
or_nil none = []
or_nil (some xs) = xs

abbrev pub has {ℓ} : {A : Type ℓ} → Option A → Bool
has none = false
has (some a) = true

abbrev pub mark : List ℕ → List Bool → List Bool
mark [] marks = marks
mark (ri ∷ ris) marks = mark ris (set marks ri true)

-- With the keys of left and right rows.
module _ (left_key : Row → Bytes) (right_key : Row → Bytes) where
  -- The right rows from index i, under their keys.
  unfoldable pub index_rows : List Row → ℕ → Dict (List ℕ) → Dict (List ℕ)
  unfolding lookup insert
  index_rows [] i m = m
  index_rows (row ∷ rows) i m =
      index_rows rows (suc i)
        (insert (right_key row) (or_nil (lookup (right_key row) m) ++ i ∷ []) m)

  -- With the right rows, the right columns of the result and the number of left columns.
  module _ (right_rows : List Row) (outs : List ℕ) (width : ℕ) where
    unfoldable pub right_index : Dict (List ℕ)
    unfolding index_rows
    right_index = index_rows right_rows 0 []

    unfoldable pub matches : Row → Option (List ℕ)
    unfolding right_index lookup
    matches left_row = lookup (left_key left_row) right_index

    abbrev pub build_join_row : Row → Row → Row
    build_join_row left_row right_row = left_row ++ map (λ i. cell right_row i) outs

    -- A left row without a match.
    abbrev pub left_only : Row → Row
    left_only left_row = left_row ++ replicate (length outs) null

    abbrev pub right_only : Row → Row
    right_only right_row = replicate width null ++ map (λ i. cell right_row i) outs

    abbrev pub joined_all : Row → List ℕ → List Row
    joined_all left_row ris = map (λ ri. build_join_row left_row (get_or right_rows ri [])) ris

    unfoldable pub emit_inner : List Row → List Row
    unfolding matches
    emit_inner [] = []
    emit_inner (l ∷ ls) = joined_all l (or_nil (matches l)) ++ emit_inner ls

    unfoldable pub emit_unique : Dict Bool → List Row → List Row
    unfolding matches lookup insert
    emit_unique seen [] = []
    emit_unique seen (l ∷ ls) = elim (has (lookup (left_key l) seen)) [
      | true ↦ emit_unique seen ls
      | false ↦ joined_all l (or_nil (matches l)) ++ emit_unique (insert (left_key l) true seen) ls
    ]

    unfoldable pub emit_left_outer : List Row → List Row
    unfolding matches
    emit_left_outer [] = []
    emit_left_outer (l ∷ ls) =
        elim (matches l) [ none ↦ left_only l ∷ [] | some ris ↦ joined_all l ris ]
        ++ emit_left_outer ls

    -- The rows of the left side's loop, and the right rows that were matched.
    unfoldable pub emit_outer : Bool → List Row → List Bool → List Row × List Bool
    unfolding matches
    emit_outer full [] marks = ([], marks)
    emit_outer full (l ∷ ls) marks =
        let (rows, after) = emit_outer full ls (mark (or_nil (matches l)) marks) in
        (
          elim (matches l) [
            | none ↦ if full then left_only l ∷ [] else []
            | some ris ↦ joined_all l ris
          ]
              ++ rows,
          after,
        )

    unfoldable pub unmatched : List Bool → List Row → ℕ → List Row
    unmatched marks [] ri = []
    unmatched marks (r ∷ rs) ri =
        let rest = unmatched marks rs (suc ri) in
        if not (get_or marks ri false) then right_only r ∷ rest else rest

    unfoldable pub matched_keys : List Row → Dict Bool → Dict Bool
    unfolding matches insert
    matched_keys [] m = m
    matched_keys (l ∷ ls) m =
        matched_keys ls (if has (matches l) then insert (left_key l) true m else m)

    abbrev pub emit_outer_all : Bool → List Row → List Row
    unfolding emit_outer unmatched
    emit_outer_all full ls =
        let (rows, marks) = emit_outer full ls (replicate (length right_rows) false) in
        rows ++ unmatched marks right_rows 0

    -- `emit`, as the list of the rows given to `out`, which does not fail.
    unfoldable pub emit : JoinKind → List Row → List Row
    unfolding emit_inner emit_unique emit_left_outer emit_outer_all matched_keys matches lookup
    emit inner ls = emit_inner ls
    emit inner_unique ls = emit_unique [] ls
    emit left_outer ls = emit_left_outer ls
    emit left_anti ls = keep (λ l. not (has (matches l))) ls
    emit left_semi ls = keep (λ l. has (matches l)) ls
    emit right_outer ls = emit_outer_all false ls
    emit full_outer ls = emit_outer_all true ls
    emit right_anti ls =
        keep (λ r. not (has (lookup (right_key r) (matched_keys ls [])))) right_rows
    emit right_semi ls = keep (λ r. has (lookup (right_key r) (matched_keys ls []))) right_rows

    -- The kinds of `outputRows` that count a left row without a match.
    abbrev pub counts_alone : JoinKind → Bool
    counts_alone left_outer = true
    counts_alone full_outer = true
    counts_alone kind = false

    unfoldable pub count_rows : Bool → List Row → ℕ
    unfolding matches
    count_rows counted [] = 0
    count_rows counted (l ∷ ls) =
        let n = count_rows counted ls in
        elim (matches l) [ none ↦ if counted then suc n else n | some ris ↦ length ris + n ]

    -- `outputRows`, with none for -1.
    unfoldable pub output_rows : JoinKind → List Row → Option ℕ
    unfolding count_rows
    output_rows kind ls =
        let n = count_rows (counts_alone kind) ls in
        elim kind [
          | inner ↦ some n
          | left_outer ↦ some n
          | right_outer ↦ some n
          | full_outer ↦ some n
          | _ ↦ none
        ]

abbrev pub has_name : Bytes → List Bytes → Bool
has_name s names = any (λ t. bytes_eq t s) names

-- The first name of n, n + 1, … that is not taken; one of as many as there are taken names, and one
-- more, is free.
unfoldable pub fresh_name : ℕ → Bytes → List Bytes → ℕ → Bytes
unfolding decimal_digits bytes_eq
fresh_name zero name taken n = name ++ decimal_digits n
fresh_name (suc fuel) name taken n =
    let candidate = name ++ decimal_digits n in
    let next = fresh_name fuel name taken (suc n) in
    if has_name candidate taken then next else candidate

abbrev pub is_one_of : ℕ → List ℕ → Bool
is_one_of i js = any (λ j. j == i) js

abbrev pub column_name : List Bytes → List Bytes → Bytes → Bytes
unfolding fresh_name
column_name left_names taken name =
    if has_name name left_names then fresh_name (suc (length taken)) name taken 1 else name

-- The right columns from index i: those of the result, and their indices.
unfoldable pub add_columns :
    List Bytes → List ℕ → List Column → ℕ → List Bytes → List Column × List ℕ
unfolding column_name
add_columns left_names keys [] i taken = ([], [])
add_columns left_names keys (c ∷ cs) i taken =
    let name = column_name left_names taken c.name in
    elim (is_one_of i keys) [
      | true ↦ add_columns left_names keys cs (suc i) taken
      | false ↦
          let (columns, idxs) = add_columns left_names keys cs (suc i) (name ∷ taken) in
          (record { name = name; type = c.type } ∷ columns, i ∷ idxs)
    ]

unfoldable pub right_keys : Schema → List JoinCondition → List ℕ
unfolding column_index
right_keys right [] = []
right_keys right (c ∷ cs) =
    let rest = right_keys right cs in
    elim (column_index right c.right_column) [ none ↦ rest | some i ↦ i ∷ rest ]

abbrev pub is_one_sided : JoinKind → Option Bool
is_one_sided left_anti = some true
is_one_sided left_semi = some true
is_one_sided right_anti = some false
is_one_sided right_semi = some false
is_one_sided kind = none

unfoldable pub build_join_schema : Schema → Schema → JoinOp → Schema × List ℕ
unfolding add_columns right_keys
build_join_schema left right op = elim (is_one_sided op.kind) [
  | some true ↦ (left, [])
  | some false ↦ (right, [])
  | none ↦
      let left_names = map (λ c. c.name) left.columns in
      let keys = if op.drop_right_keys then right_keys right op.on_clauses else [] in
      let (columns, idxs) =
        add_columns left_names keys right.columns 0
          (left_names ++ map (λ c. c.name) right.columns) in
      (record { columns = left.columns ++ columns }, idxs)
]

-- The key columns of both sides.
unfoldable pub key_indices :
    Schema → Schema → List JoinCondition → Result JoinError (List ℕ × List ℕ)
unfolding column_index
key_indices left right [] = ok ([], [])
key_indices left right (c ∷ cs) = elim (column_index left c.left_column) [
  | none ↦ failed (left_not_found c.left_column)
  | some i ↦ elim (column_index right c.right_column) [
    | none ↦ failed (right_not_found c.right_column)
    | some j ↦ (key_indices left right cs >>= λ r. ok (i ∷ r.0, j ∷ r.1))
  ]
]

-- `applyJoin`, with the right side executed.
unfoldable pub apply_join :
    (Real → Bytes) → ResultTable → ResultTable → JoinOp → Result JoinError ResultTable
unfolding key_indices build_join_schema join_key emit
apply_join real_text left right op = do
  (left_idxs, right_idxs) ← key_indices left.schema right.schema op.on_clauses
  let (schema, outs) = build_join_schema left.schema right.schema op
  ok (record {
    schema = schema;
    rows =
        emit (join_key real_text left_idxs) (join_key real_text right_idxs) right.rows outs
          (length left.schema.columns) op.kind left.rows;
  })
