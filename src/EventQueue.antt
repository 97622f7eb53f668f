-- ===== src/EventQueue.antt =====
-- src/eventQueue.cpp, class EventQueue.
pub mod Machine
pub mod Calls
pub mod Chain
pub mod Destroy
pub mod Invariant
pub mod Reachable
pub mod Races
pub mod Refines
pub mod Safety
pub mod Sockets
pub mod Spec
mod Tests
