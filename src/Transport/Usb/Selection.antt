-- ===== src/Transport/Usb/Selection.antt =====
-- Which device `select_device` picks.
use btstack_rs.Common.{
  ℕ, ◌≡◌, ◌≢◌, ◌↔◌, ◌⊎◌, true, false, ◌&&◌, ◌||◌, Option, none, some, List, [], ◌∷◌, ◌++◌, arith,
  ◌==◌, any, list_eq→eq, list_eq_refl, All, Any, Finds, find-Finds, All-imp, get_or, is_some,
}
use btstack_rs.Transport.Types.{UsbSelection, no_selection}
use btstack_rs.Transport.Usb.{
  InterfaceInfo, DeviceInfo, usb_path, is_bluetooth_device, mismatches, path_mismatches,
  is_candidate_device, select_device,
}

-- A criterion that is not given agrees with every device.
abbrev pub Agrees {ℓ} : {A : Type ℓ} → Option A → A → Type ℓ
Agrees none actual = Unit
Agrees (some expected) actual = actual ≡ expected

abbrev pub AgreesPath : Option (List ℕ) → Option (List ℕ) → Type 0
AgreesPath none actual = Unit
AgreesPath (some expected) actual = actual ≡ some expected

-- One interface has the class codes of a Bluetooth controller.
abbrev pub IsBluetooth : DeviceInfo → Type 0
IsBluetooth device =
    Any (λ i. (i.class ≡ 0xE0) × (i.subclass ≡ 0x01) × (i.protocol ≡ 0x01)) device.interfaces

-- A device that agrees with every criterion given; with none given, a Bluetooth controller.
pub record IsCandidate (device : DeviceInfo) (selection : UsbSelection) : Type 0 where
  pub vendor : Agrees selection.vendor_id device.vendor_id
  pub product : Agrees selection.product_id device.product_id
  pub bus : Agrees selection.bus_number device.bus_number
  pub path : AgreesPath selection.path (usb_path device)
  pub kind : (selection ≢ no_selection) ⊎ IsBluetooth device

any-IsBluetooth :
    (is : List InterfaceInfo)
    → (any (λ i. i.class == 0xE0 && i.subclass == 0x01 && i.protocol == 0x01) is ≡ true)
      ↔ Any (λ i. (i.class ≡ 0xE0) × (i.subclass ≡ 0x01) × (i.protocol ≡ 0x01)) is
any-IsBluetooth [] = ground arith
any-IsBluetooth (i ∷ is) =
    let (to, from) = any-IsBluetooth is in (λ h. ground (arith, to), λ h. ground (arith, from))

mismatches_iff : (e : Option ℕ) (a : ℕ) → (mismatches e a ≡ false) ↔ Agrees e a
mismatches_iff none a = ground arith
mismatches_iff (some e) a = ground arith

path_mismatches_iff : (e a : Option (List ℕ)) → (path_mismatches e a ≡ false) ↔ AgreesPath e a
path_mismatches_iff none a = ground arith
path_mismatches_iff (some e) none = ground arith
path_mismatches_iff (some e) (some a) = ground (arith, list_eq→eq a e, list_eq_refl e)

has_criterion_iff :
    (s : UsbSelection)
    → ((is_some s.vendor_id || is_some s.product_id || is_some s.bus_number || is_some s.path)
        ≡ true)
      ↔ (s ≢ no_selection)
has_criterion_iff s = ground arith

is_bluetooth_device_iff :
    (device : DeviceInfo) → (is_bluetooth_device device ≡ true) ↔ IsBluetooth device
unfolding is_bluetooth_device
is_bluetooth_device_iff device = any-IsBluetooth device.interfaces

-- The code's test decides the independent description of a candidate.
is_candidate_device_iff :
    (device : DeviceInfo) (s : UsbSelection)
    → (is_candidate_device device s ≡ true) ↔ IsCandidate device s
unfolding is_candidate_device
is_candidate_device_iff device s = (
  λ h. ground (
    arith,
    (mismatches_iff s.vendor_id device.vendor_id).0,
    (mismatches_iff s.product_id device.product_id).0,
    (mismatches_iff s.bus_number device.bus_number).0,
    (path_mismatches_iff s.path (usb_path device)).0,
    (is_bluetooth_device_iff device).0,
    (has_criterion_iff s).0,
  ),
  λ c. ground (
    arith,
    (mismatches_iff s.vendor_id device.vendor_id).1,
    (mismatches_iff s.product_id device.product_id).1,
    (mismatches_iff s.bus_number device.bus_number).1,
    (path_mismatches_iff s.path (usb_path device)).1,
    (is_bluetooth_device_iff device).1,
    (has_criterion_iff s).1,
  ),
)

-- What a selection from a list of devices has to be: the first candidate, or `none` if none is one.
abbrev pub IsSelected : List DeviceInfo → UsbSelection → Option DeviceInfo → Type 0
IsSelected devices s none = All (λ d. ¬ IsCandidate d s) devices
IsSelected devices s (some device) =
    (before : List DeviceInfo) × (after : List DeviceInfo) × (devices ≡ before ++ device ∷ after)
    × All (λ d. ¬ IsCandidate d s) before
    × IsCandidate device s

not-IsCandidate :
    (s : UsbSelection) (d : DeviceInfo) → is_candidate_device d s ≡ false → ¬ IsCandidate d s
not-IsCandidate s d h c = let e = (is_candidate_device_iff d s).1 c in cc

Finds-IsSelected :
    (devices : List DeviceInfo) (s : UsbSelection) (r : Option DeviceInfo)
    → Finds (λ d. is_candidate_device d s) devices r
    → IsSelected devices s r
Finds-IsSelected devices s none f = All-imp _ _ devices (not-IsCandidate s) f
Finds-IsSelected devices s (some device) (before, after, e, skipped, pass) = (
  before,
  after,
  e,
  All-imp _ _ before (not-IsCandidate s) skipped,
  (is_candidate_device_iff device s).0 pass,
)

-- Among the devices listed, the first candidate is selected, and none only if there is none. If the
-- listing fails, none is selected.
pub select_device-IsSelected :
    (listing : Option (List DeviceInfo)) (s : UsbSelection)
    → IsSelected (get_or listing []) s (select_device listing s)
unfolding select_device
select_device-IsSelected none s = tt
select_device-IsSelected (some devices) s =
    Finds-IsSelected devices s _ (find-Finds (λ d. is_candidate_device d s) devices)
