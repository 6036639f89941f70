-- ===== src/Transport/Events/Tests.antt =====
-- The USB info event of a concrete device.
use btstack_rs.Common.{◌≡◌, refl, none, some, [], ◌∷◌, arith}
use btstack_rs.Transport.Usb.{DeviceInfo}
use btstack_rs.Transport.Events.{usb_info_event}
use btstack_rs.Transport.Events.Layout.{decode_usb_info, decode_usb_info-usb_info_event}

abbrev dongle : DeviceInfo
dongle = record {
  vendor_id = 0x0a12;
  product_id = 0x0001;
  bus_number = 3;
  interfaces = [];
  sysfs_name = none;
}

dongle_event :
    usb_info_event dongle (4 ∷ 2 ∷ []) ≡ 106 ∷ 8 ∷ 0x12 ∷ 0x0a ∷ 0x01 ∷ 0x00 ∷ 3 ∷ 2 ∷ 4 ∷ 2 ∷ []
unfolding usb_info_event
dongle_event = refl

decode_usb_info-usb_info_event_example :
    decode_usb_info (usb_info_event dongle (4 ∷ 2 ∷ []))
    ≡ some (record { vendor_id = 0x0a12; product_id = 1; bus_number = 3; path = 4 ∷ 2 ∷ [] })
decode_usb_info-usb_info_event_example =
    decode_usb_info-usb_info_event dongle (4 ∷ 2 ∷ []) (omega arith) (omega arith) (omega arith)
