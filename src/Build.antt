-- ===== src/Build.antt =====
-- rmake/build: the troves and jobs that are built, and the publisher of their changes.
pub mod Trove
pub mod State
pub mod Job
pub mod Resolve
mod Tests
