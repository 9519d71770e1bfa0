-- ===== src/Catalog/State.antt =====
-- The records of pkg/catalog/catalog.go. An `int64` or `uint64` field is its 64-bit pattern.
use gokql.Base.{ℕ, ◌+◌, ◌%◌, ◌^◌, Option, List, []}
use gokql.Base.Bytes.{Bytes}
use gokql.Base.Dict.{Dict}
use gokql.Types.Schema.{Schema}

abbrev pub u64_mod : ℕ
u64_mod = 2 ^ 64

-- `ColumnStats` holds values of any type, which the catalog never reads.
pub record ColumnStats {ℓ} (V : Type ℓ) : Type ℓ where
  pub min : Option V
  pub max : Option V
  pub null_count : ℕ

pub record ExtentEntry {ℓ} (V : Type ℓ) : Type ℓ where
  pub id : Bytes
  pub file_path : Bytes
  pub row_count : ℕ
  pub size_bytes : ℕ
  pub created_at : ℕ
  pub column_stats : Dict (ColumnStats V)

pub record Table {ℓ} (V : Type ℓ) : Type ℓ where
  pub name : Bytes
  pub schema : Schema
  pub extents : List (ExtentEntry V)
  pub created : ℕ

pub record Database {ℓ} (V : Type ℓ) : Type ℓ where
  pub name : Bytes
  pub tables : Dict (Table V)
  pub version : ℕ

-- `removed` lists the paths, relative to the database, that were given to `os.Remove`, in order.
pub record Catalog {ℓ} (V : Type ℓ) : Type ℓ where
  pub database : Database V
  pub last_allocated_id : ℕ
  pub removed : List Bytes

pub data CatalogError : Type 0 where
  table_exists : Bytes → CatalogError
  table_missing : Bytes → CatalogError
  extent_missing : Bytes → CatalogError
  extent_not_in_table : Bytes → Bytes → CatalogError

-- A method that may fail leaves the catalog as it was where it returns an error.
pub data Outcome {ℓ} (A : Type ℓ) : Type ℓ where
  ok : A → Outcome A
  err : CatalogError → Outcome A

-- `save` counts the mutation.
unfoldable pub save {ℓ} : {V : Type ℓ} → Catalog V → Catalog V
save c = record c { database = record c.database { version = (c.database.version + 1) % u64_mod } }

-- `NewMemory`
unfoldable pub new_memory {ℓ} : {V : Type ℓ} → Bytes → Catalog V
new_memory name = record {
  database = record { name = name; tables = []; version = 0 };
  last_allocated_id = 0;
  removed = [];
}

-- The write of one table, in place.
abbrev pub with_tables {ℓ} : {V : Type ℓ} → Catalog V → Dict (Table V) → Catalog V
with_tables c ts = record c { database = record c.database { tables = ts } }
