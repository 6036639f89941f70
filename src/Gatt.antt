-- ===== src/Gatt.antt =====
-- The crate btstack-gatt: the owner of BTstack's run loop, the GATT peripheral server and the GATT
-- counter example.
pub mod Runtime
pub mod Peripheral
pub mod Counter
