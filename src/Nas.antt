-- ===== src/Nas.antt =====
-- internal/nas5gs/security.go, internal/naseps/security.go, the NAS key derivations of
-- internal/crypto, and internal/api/gnb_security.go and enb_security.go.
pub mod Library
pub mod Types
pub mod Security
pub mod Keys
pub mod GnbContext
pub mod Uplink
pub mod Downlink
pub mod EpsTypes
pub mod EpsSecurity
pub mod EnbContext
pub mod EpsUplink
pub mod EpsDownlink
mod Tests
