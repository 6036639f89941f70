-- ===== src/Transport/Constants.antt =====
-- btstack-hci-transport-nusb/src/constants.rs. The poll interval is real time and has no number here.
use btstack_rs.Common.{ℕ}

abbrev pub default_event_ep : ℕ
default_event_ep = 0x81

abbrev pub default_acl_in_ep : ℕ
default_acl_in_ep = 0x82

abbrev pub default_acl_out_ep : ℕ
default_acl_out_ep = 0x02

abbrev pub event_transfer_size : ℕ
event_transfer_size = 260

abbrev pub acl_transfer_size : ℕ
acl_transfer_size = 2048

abbrev pub outgoing_queue_depth : ℕ
outgoing_queue_depth = 4

abbrev pub usb_max_path_len : ℕ
usb_max_path_len = 7

abbrev pub event_in_flight : ℕ
event_in_flight = 3

abbrev pub acl_in_flight : ℕ
acl_in_flight = 3

abbrev pub acl_out_in_flight : ℕ
acl_out_in_flight = 4
