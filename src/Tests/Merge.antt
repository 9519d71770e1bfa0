-- ===== src/Tests/Merge.antt =====
-- `mergeSchemas` on two schemas.
use gokql.Base.{◌≡◌, refl, none, some, [], ◌∷◌}
use gokql.Base.Bytes.{codes, bytes_eq}
use gokql.Types.KqlType.{string, long, type_eq}
use gokql.Catalog.Discover.{indexed_type, merge_from, merge_schemas}
use gokql.Catalog.Merge.{conflicts, is_new, merge_schemas_lem}

clash :
    merge_schemas
      (record { columns = record { name = codes "a"; type = long } ∷ [] })
      (record { columns = record { name = codes "a"; type = string } ∷ [] })
    ≡ none
unfolding merge_schemas merge_from indexed_type bytes_eq type_eq
clash = refl

-- The last column of a name decides.
last_counts :
    merge_schemas
      (record {
        columns =
            record { name = codes "a"; type = string }
            ∷ record { name = codes "a"; type = long }
            ∷ [];
      })
      (record { columns = record { name = codes "a"; type = string } ∷ [] })
    ≡ none
unfolding merge_schemas merge_from indexed_type bytes_eq type_eq
last_counts = refl

-- A new column is appended.
merge_schemas_example :
    merge_schemas
      (record { columns = record { name = codes "a"; type = long } ∷ [] })
      (record { columns = record { name = codes "b"; type = string } ∷ [] })
    ≡ some (record {
      columns =
          record { name = codes "a"; type = long }
          ∷ record { name = codes "b"; type = string }
          ∷ [];
    })
unfolding conflicts is_new bytes_eq
merge_schemas_example =
    merge_schemas_lem (record { columns = record { name = codes "a"; type = long } ∷ [] })
      (record { columns = record { name = codes "b"; type = string } ∷ [] })
