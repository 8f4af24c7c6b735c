-- ===== src/Deps.antt =====
-- rmake/build/dephandler.py: which trove is built next, and what a failure takes with it.
pub mod Graphs
pub mod World
pub mod State
pub mod Failing
pub mod Handler
mod Tests
