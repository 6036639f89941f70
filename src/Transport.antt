-- ===== src/Transport.antt =====
-- The HCI transport over nusb: the crate btstack-hci-transport-nusb.
pub mod Constants
pub mod Types
pub mod Usb
pub mod Events
pub mod Api
pub mod Instance
pub mod Nusb
pub mod Reader
pub mod Pipeline
pub mod Workers
