-- ===== src/Transport/Usb.antt =====
-- btstack-hci-transport-nusb/src/usb.rs: which device is opened, and which endpoints are used.
-- What nusb's accessors return about a device and its descriptors is data here. Texts are lists of
-- character codes.
pub mod Path
pub mod Selection
pub mod Endpoints
mod Tests
use btstack_rs.Common.{
  ℕ, Bool, true, false, not, ◌&&◌, ◌||◌, Option, none, some, List, [], ◌∷◌, ◌==◌, if◌then◌else◌,
  is_some, find, any, keep, list_eq,
}
use btstack_rs.Transport.Types.{UsbSelection, EndpointConfig, default_endpoints}
use Path.{parse_usb_path}

-- The class codes of one interface.
pub record InterfaceInfo : Type 0 where
  pub class : ℕ
  pub subclass : ℕ
  pub protocol : ℕ

-- `sysfs_name` is `sysfs_path().file_name()` as text, where it is UTF-8.
pub record DeviceInfo : Type 0 where
  pub vendor_id : ℕ
  pub product_id : ℕ
  pub bus_number : ℕ
  pub interfaces : List InterfaceInfo
  pub sysfs_name : Option (List ℕ)

pub data TransferType : Type 0 where
  control isochronous bulk interrupt : TransferType

pub data Direction : Type 0 where
  out_dir in_dir : Direction

pub record Endpoint : Type 0 where
  pub transfer_type : TransferType
  pub direction : Direction
  pub address : ℕ

pub record AltSetting : Type 0 where
  pub interface_number : ℕ
  pub alternate_setting : ℕ
  pub endpoints : List Endpoint

pub record Interface : Type 0 where
  pub interface_number : ℕ
  pub descriptors : List AltSetting

-- On Linux and Android; `None` from either step is the result.
unfoldable pub usb_path : DeviceInfo → Option (List ℕ)
usb_path device = elim device.sysfs_name [ none ↦ none | some name ↦ parse_usb_path name ]

unfoldable pub is_bluetooth_device : DeviceInfo → Bool
is_bluetooth_device device =
    any (λ i. i.class == 0xE0 && i.subclass == 0x01 && i.protocol == 0x01) device.interfaces

-- `Some(expected)` that differs from the device's value rejects it.
abbrev pub mismatches : Option ℕ → ℕ → Bool
mismatches none actual = false
mismatches (some expected) actual = not (actual == expected)

abbrev pub path_mismatches : Option (List ℕ) → Option (List ℕ) → Bool
path_mismatches none actual = false
path_mismatches (some expected) none = true
path_mismatches (some expected) (some actual) = not (list_eq actual expected)

unfoldable pub is_candidate_device : DeviceInfo → UsbSelection → Bool
is_candidate_device device selection =
    if mismatches selection.vendor_id device.vendor_id
    then false
    else if mismatches selection.product_id device.product_id
    then false
    else if mismatches selection.bus_number device.bus_number
    then false
    else if path_mismatches selection.path (usb_path device)
    then false
    else is_some selection.vendor_id
      || is_some selection.product_id
      || is_some selection.bus_number
      || is_some selection.path
      || is_bluetooth_device device

-- `devices` is the result of `nusb::list_devices()`, `none` for an error.
unfoldable pub select_device : Option (List DeviceInfo) → UsbSelection → Option DeviceInfo
select_device none selection = none
select_device (some devices) selection =
    find (λ device. is_candidate_device device selection) devices

-- The loop variables of `detect_endpoints`.
pub record Scan : Type 0 where
  pub config : EndpointConfig
  pub found_event : Bool
  pub found_acl_in : Bool
  pub found_acl_out : Bool

-- The body of the inner loop: the first endpoint of each kind is taken.
pub scan_endpoint : TransferType → Direction → ℕ → Scan → Scan
scan_endpoint interrupt in_dir address s =
    if not s.found_event
    then record s { config = record s.config { event_in = address }; found_event = true }
    else s
scan_endpoint bulk in_dir address s =
    if not s.found_acl_in
    then record s { config = record s.config { acl_in = address }; found_acl_in = true }
    else s
scan_endpoint bulk out_dir address s =
    if not s.found_acl_out
    then record s { config = record s.config { acl_out = address }; found_acl_out = true }
    else s
scan_endpoint _ _ address s = s

pub scan_endpoints : List Endpoint → Scan → Scan
scan_endpoints [] s = s
scan_endpoints (e ∷ es) s =
    scan_endpoints es (scan_endpoint e.transfer_type e.direction e.address s)

pub scan_alts : List AltSetting → Scan → Scan
scan_alts [] s = s
scan_alts (alt ∷ alts) s = scan_alts alts (scan_endpoints alt.endpoints s)

-- The two `filter` calls on the descriptors.
abbrev pub active_alts : Interface → List AltSetting
active_alts interface =
    keep (λ alt. alt.alternate_setting == 0)
      (keep (λ alt. alt.interface_number == interface.interface_number) interface.descriptors)

unfoldable pub detect_endpoints : Interface → EndpointConfig
detect_endpoints interface = (scan_alts (active_alts interface) first).config
  where
    first : Scan
    first = record {
      config = default_endpoints;
      found_event = false;
      found_acl_in = false;
      found_acl_out = false;
    }
