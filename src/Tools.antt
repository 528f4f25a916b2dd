-- ===== src/Tools.antt =====
-- The command-line tools (tools).
pub mod LoadTags
pub mod DumpLdb
pub mod BenchCouch
