-- ===== src/Classic.antt =====
-- plugins/format/classic: the queries of the format plugin.
pub mod Select
pub mod Join
pub mod Resolve
pub mod Criteria
pub mod Idents
pub mod Values
pub mod Insert
pub mod Get
