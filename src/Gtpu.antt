-- ===== src/Gtpu.antt =====
-- internal/gtpu: GTP-U (TS 29.281) encoding and decoding, IP packets, and the N3 endpoint.
pub mod Addr
pub mod Message
pub mod Decode
pub mod Total
pub mod RoundTrip
pub mod Elements
pub mod Checksum
pub mod Ip
pub mod Packets
pub mod Parse
pub mod Endpoint
pub mod Fifo
mod Tests
