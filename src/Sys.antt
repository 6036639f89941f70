-- ===== src/Sys.antt =====
-- The constants of btstack-sys/src/generated/libusb_main_bindings.rs that the other crates use.
pub mod Structs
use btstack_rs.Common.{ℕ}

-- Packet types of the HCI transport.
abbrev pub hci_command_data_packet : ℕ
hci_command_data_packet = 1

abbrev pub hci_acl_data_packet : ℕ
hci_acl_data_packet = 2

abbrev pub hci_event_packet : ℕ
hci_event_packet = 4

abbrev pub hci_iso_data_packet : ℕ
hci_iso_data_packet = 5

-- Event codes.
abbrev pub hci_event_disconnection_complete : ℕ
hci_event_disconnection_complete = 5

abbrev pub hci_event_transport_usb_info : ℕ
hci_event_transport_usb_info = 106

abbrev pub hci_event_transport_packet_sent : ℕ
hci_event_transport_packet_sent = 110

abbrev pub att_event_connected : ℕ
att_event_connected = 179

abbrev pub att_event_disconnected : ℕ
att_event_disconnected = 180

abbrev pub att_event_can_send_now : ℕ
att_event_can_send_now = 183

abbrev pub hci_transport_config_usb : ℕ
hci_transport_config_usb = 1

-- ATT properties and security levels.
abbrev pub att_property_broadcast : ℕ
att_property_broadcast = 1

abbrev pub att_property_read : ℕ
att_property_read = 2

abbrev pub att_property_write_without_response : ℕ
att_property_write_without_response = 4

abbrev pub att_property_write : ℕ
att_property_write = 8

abbrev pub att_property_notify : ℕ
att_property_notify = 16

abbrev pub att_property_indicate : ℕ
att_property_indicate = 32

abbrev pub att_property_authenticated_signed_write : ℕ
att_property_authenticated_signed_write = 64

abbrev pub att_property_extended_properties : ℕ
att_property_extended_properties = 128

abbrev pub att_property_dynamic : ℕ
att_property_dynamic = 256

abbrev pub att_security_none : ℕ
att_security_none = 0

abbrev pub att_security_encrypted : ℕ
att_security_encrypted = 1

abbrev pub att_security_authenticated : ℕ
att_security_authenticated = 2

abbrev pub att_security_authorized : ℕ
att_security_authorized = 3

abbrev pub att_security_authenticated_sc : ℕ
att_security_authenticated_sc = 4

abbrev pub hci_power_mode_hci_power_on : ℕ
hci_power_mode_hci_power_on = 1
