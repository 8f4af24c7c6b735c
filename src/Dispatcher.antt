-- ===== src/Dispatcher.antt =====
-- rmake/multinode/server/dispatcher.py: the dispatcher of commands to worker nodes.
pub mod Types
pub mod NodeList
pub mod Server
mod Tests
