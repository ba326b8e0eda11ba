-- ===== src/Transport.antt =====
-- internal/transport: the framed SCTP transport that NGAP and S1AP share.
pub mod Framed
pub mod Matching
pub mod Waits
mod Tests
