-- ===== src/Transport/Events/Layout.antt =====
-- The layout of the USB info event, read back.
use btstack_rs.Common.{
  ℕ, ◌+◌, ◌^◌, ◌≤◌, ◌<◌, ◌≡◌, ◌&&◌, Option, none, some, List, ◌∷◌, arith, ◌==◌, if◌then◌else◌,
  length, from_le_bytes,
}
use btstack_rs.Sys.{hci_event_transport_usb_info}
use btstack_rs.Transport.Constants.{usb_max_path_len}
use btstack_rs.Transport.Usb.{DeviceInfo}
use btstack_rs.Transport.Events.{usb_info_event}

pub record UsbInfo : Type 0 where
  pub vendor_id : ℕ
  pub product_id : ℕ
  pub bus_number : ℕ
  pub path : List ℕ

-- A reader of the event: code, length of the rest, two little-endian words, the bus, the length of
-- the path, the path.
pub decode_usb_info : List ℕ → Option UsbInfo
decode_usb_info (code ∷ len ∷ v0 ∷ v1 ∷ p0 ∷ p1 ∷ bus ∷ path_len ∷ path) =
    if code == hci_event_transport_usb_info && len == 6 + length path && path_len == length path
    then some (record {
      vendor_id = from_le_bytes v0 v1;
      product_id = from_le_bytes p0 p1;
      bus_number = bus;
      path = path;
    })
    else none
decode_usb_info _ = none

-- For 16-bit identifiers and a path of at most `usb_max_path_len` ports, the event is read back to
-- the identifiers, the bus and the path, its length fields being right.
pub decode_usb_info-usb_info_event :
    (device : DeviceInfo) (path : List ℕ)
    → device.vendor_id < 2 ^ 16
    → device.product_id < 2 ^ 16
    → length path ≤ usb_max_path_len
    → decode_usb_info (usb_info_event device path)
      ≡ some (record {
        vendor_id = device.vendor_id;
        product_id = device.product_id;
        bus_number = device.bus_number;
        path = path;
      })
unfolding decode_usb_info usb_info_event
decode_usb_info-usb_info_event device path v p short = ground arith
