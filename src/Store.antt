-- ===== src/Store.antt =====
-- internal/store: the emulated base stations, their UEs, and the NAS counts.
pub mod Counts
pub mod Contexts
pub mod Registry
pub mod Valid
pub mod Traces
pub mod Pointers
pub mod Gnb
pub mod Enb
pub mod Migration
pub mod Fixtures
mod Tests
