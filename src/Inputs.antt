-- ===== src/Inputs.antt =====
-- The receivers of other sensors' data: src/inputs.
pub mod Netflow
pub mod Snmp
pub mod Syslog
mod Tests
