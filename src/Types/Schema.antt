-- ===== src/Types/Schema.antt =====
-- Columns and schemas (pkg/types/types.go).
use gokql.Base.{ℕ, suc, Option, none, some, List, [], ◌∷◌, map, get_elem?, if◌then◌else◌}
use gokql.Base.Bytes.{Bytes, bytes_eq}
use gokql.Types.KqlType.{KqlType}

pub record Column : Type 0 where
  pub name : Bytes
  pub type : KqlType

pub record Schema : Type 0 where
  pub columns : List Column

-- `none` where the source returns -1
unfoldable pub index_of : Bytes → List Column → Option ℕ
index_of name [] = none
index_of name (c ∷ cs) =
    let rest = index_of name cs in
    if bytes_eq c.name name then some 0 else elim rest [ none ↦ none | some i ↦ some (suc i) ]

unfoldable pub column_index : Schema → Bytes → Option ℕ
unfolding index_of
column_index s name = index_of name s.columns

unfoldable pub column_by_name : Schema → Bytes → Option Column
unfolding column_index
column_by_name s name = elim (column_index s name) [ none ↦ none | some i ↦ get_elem? s.columns i ]

unfoldable pub column_names : Schema → List Bytes
column_names s = map (λ c. c.name) s.columns
