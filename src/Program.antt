-- ===== src/Program.antt =====
-- The command lines of the programs: core/program_options, and how local.cpp, server.cpp and
-- keep.cpp read theirs.
pub mod Options
pub mod Keep
pub mod Start
pub mod Main
pub mod Keeping
