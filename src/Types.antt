-- ===== src/Types.antt =====
-- pkg/types: the column types, schemas, rows and tables that every part of the engine shares.
pub mod KqlType
pub mod Schema
pub mod Decimal
pub mod Value
pub mod Timespan
