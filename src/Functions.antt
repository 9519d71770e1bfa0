-- ===== src/Functions.antt =====
-- pkg/engine: scalar functions.
pub mod Punycode
pub mod Bin
pub mod Ipv4
