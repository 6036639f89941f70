-- ===== src/Transport/Usb/Tests.antt =====
-- Selections and scans at concrete devices.
use btstack_rs.Common.{◌≡◌, refl, none, some, [], ◌∷◌}
use btstack_rs.Transport.Types.{no_selection}
use btstack_rs.Transport.Usb.{
  DeviceInfo, bulk, interrupt, in_dir, out_dir, Interface, is_bluetooth_device, is_candidate_device,
  select_device, scan_endpoint, scan_endpoints, scan_alts, detect_endpoints,
}
use btstack_rs.Transport.Usb.Selection.{IsSelected, select_device-IsSelected}

abbrev keyboard : DeviceInfo
keyboard = record {
  vendor_id = 0x046d;
  product_id = 0xc31c;
  bus_number = 1;
  interfaces = record { class = 3; subclass = 1; protocol = 1 } ∷ [];
  sysfs_name = none;
}

abbrev dongle : DeviceInfo
dongle = record {
  vendor_id = 0x0a12;
  product_id = 0x0001;
  bus_number = 1;
  interfaces = record { class = 0xE0; subclass = 1; protocol = 1 } ∷ [];
  sysfs_name = none;
}

-- With no criterion the Bluetooth controller is taken.
fallback : select_device (some (keyboard ∷ dongle ∷ [])) no_selection ≡ some dongle
unfolding select_device is_candidate_device is_bluetooth_device
fallback = refl

-- A criterion that fits is enough, whatever the class.
by_vendor :
    select_device
      (some (keyboard ∷ dongle ∷ []))
      (record { vendor_id = some 0x046d; product_id = none; bus_number = none; path = none })
    ≡ some keyboard
unfolding select_device is_candidate_device
by_vendor = refl

select_device-IsSelected_example :
    IsSelected
      (keyboard ∷ dongle ∷ [])
      no_selection
      (select_device (some (keyboard ∷ dongle ∷ [])) no_selection)
select_device-IsSelected_example =
    select_device-IsSelected (some (keyboard ∷ dongle ∷ [])) no_selection

-- No bulk IN endpoint, and two interrupt IN endpoints.
abbrev odd_interface : Interface
odd_interface = record {
  interface_number = 0;
  descriptors =
      record {
        interface_number = 0;
        alternate_setting = 0;
        endpoints =
            record { transfer_type = interrupt; direction = in_dir; address = 0x83 }
            ∷ record { transfer_type = bulk; direction = out_dir; address = 0x04 }
            ∷ record { transfer_type = interrupt; direction = in_dir; address = 0x85 }
            ∷ [];
      }
      ∷ [];
}

odd_endpoints :
    detect_endpoints odd_interface ≡ record { event_in = 0x83; acl_in = 0x82; acl_out = 0x04 }
unfolding detect_endpoints scan_alts scan_endpoints scan_endpoint
odd_endpoints = refl
