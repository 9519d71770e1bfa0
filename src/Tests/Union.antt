-- ===== src/Tests/Union.antt =====
-- The columns of a union of two or three small tables.
use gokql.Base.{◌≡◌, refl, some, none, [], ◌∷◌}
use gokql.Base.Bytes.{codes}
use gokql.Types.KqlType.{KqlType, long, string, type_eq}
use gokql.Types.Schema.{Schema, Column}
use gokql.Engine.Join.Names.{Distinct, names_of}
use gokql.Engine.Union.{build_union_schema}
use gokql.Engine.Union.Names.{build_union_schema-Distinct}
use gokql.Base.Bytes.{Bytes}

abbrev column : Bytes → KqlType → Column
column name type = record { name = name; type = type }

abbrev first_leg : Schema
first_leg = record {
  columns = column (codes "a") string ∷ column (codes "b") long ∷ column (codes "n") long ∷ [];
}

abbrev second_leg : Schema
second_leg = record {
  columns = column (codes "a") string ∷ column (codes "c") long ∷ column (codes "b") string ∷ [];
}

-- A column whose name is one that a typed column would get.
abbrev third_leg : Schema
third_leg = record { columns = column (codes "b_long") long ∷ [] }

outer_columns : build_union_schema (first_leg ∷ second_leg ∷ []) (codes "outer") ≡ (
  record {
    columns =
        column (codes "a") string
        ∷ column (codes "b_long") long
        ∷ column (codes "b_string") string
        ∷ column (codes "n") long
        ∷ column (codes "c") long
        ∷ [];
  },
  (some 0 ∷ some 1 ∷ none ∷ some 2 ∷ none ∷ [])
      ∷ (some 0 ∷ none ∷ some 2 ∷ none ∷ some 1 ∷ [])
      ∷ [],
)
unfolding build_union_schema type_eq
outer_columns = refl

inner_columns :
    names_of ((build_union_schema (first_leg ∷ second_leg ∷ []) (codes "inner")).0).columns
    ≡ codes "a" ∷ []
unfolding build_union_schema type_eq
inner_columns = refl

numbered_columns :
    names_of
      ((build_union_schema (first_leg ∷ second_leg ∷ third_leg ∷ []) (codes "outer")).0).columns
    ≡ codes "a" ∷ codes "b_long1" ∷ codes "b_string" ∷ codes "n" ∷ codes "c" ∷ codes "b_long" ∷ []
unfolding build_union_schema type_eq
numbered_columns = refl

build_union_schema_example : Distinct (
    names_of
      ((build_union_schema (first_leg ∷ second_leg ∷ third_leg ∷ []) (codes "outer")).0).columns)
build_union_schema_example =
    build_union_schema-Distinct (first_leg ∷ second_leg ∷ third_leg ∷ []) (codes "outer")
