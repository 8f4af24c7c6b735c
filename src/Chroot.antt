-- ===== src/Chroot.antt =====
-- rmake/worker/chroot/rootmanager.py: the pool of chroots of a worker.
pub mod Cache
pub mod Pool
mod Tests
