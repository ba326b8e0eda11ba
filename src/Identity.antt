-- ===== src/Identity.antt =====
-- Subscriber identities and authentication: internal/crypto, the PLMN encodings of internal/ngap
-- and internal/s1ap, and `NewUEContext` of internal/store.
pub mod Plmn
pub mod Agree
pub mod Suci
pub mod NewUe
pub mod Aka
pub mod Fresh
mod Tests
