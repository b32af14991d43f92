-- ===== src/Dissect.antt =====
-- The protocol dissectors (src/dissectors).
pub mod Metadata
pub mod Transport
pub mod Network
pub mod Tls
pub mod Http
pub mod Packet
pub mod Dns
pub mod Ot
mod Tests
