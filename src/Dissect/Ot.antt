-- ===== src/Dissect/Ot.antt =====
-- The dissectors of industrial protocols: src/dissectors/ot.
pub mod Modbus
pub mod Dnp3
pub mod Bacnet
pub mod Bounds
