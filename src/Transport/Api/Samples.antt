-- ===== src/Transport/Api/Samples.antt =====
-- A device for the tests: a Bluetooth dongle whose interface has no descriptors.
use btstack_rs.Common.{true, none, some, [], ◌∷◌}
use btstack_rs.Transport.Usb.{DeviceInfo, Interface}
use btstack_rs.Transport.Api.{Nusb}

abbrev pub dongle : DeviceInfo
dongle = record {
  vendor_id = 0x0a12;
  product_id = 0x0001;
  bus_number = 3;
  interfaces = record { class = 0xE0; subclass = 1; protocol = 1 } ∷ [];
  sysfs_name = none;
}

abbrev pub bare_interface : Interface
bare_interface = record { interface_number = 0; descriptors = [] }

abbrev pub one_dongle : Nusb
one_dongle = record {
  list_devices = some (dongle ∷ []);
  opens = λ _. true;
  claims = λ _. true;
  interface = λ _. bare_interface;
}
