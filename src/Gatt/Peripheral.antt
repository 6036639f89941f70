-- ===== src/Gatt/Peripheral.antt =====
-- btstack-gatt/src/peripheral.rs: a GATT server described by services and characteristics, whose
-- handles are looked up in BTstack's ATT database.
pub mod Types
pub mod Btstack
pub mod Valid
pub mod Resolve
pub mod Server
pub mod Callbacks
mod Samples
mod Tests
