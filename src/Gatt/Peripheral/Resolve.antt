-- ===== src/Gatt/Peripheral/Resolve.antt =====
-- Handle resolution: the `resolve_...` functions of btstack-gatt/src/peripheral.rs.
pub mod Handles
pub mod Entries
pub mod Complete
use btstack_rs.Common.{
  ℕ, Bool, true, false, ◌||◌, Option, none, some, List, [], ◌∷◌, ◌==◌, if◌then◌else◌,
}
use btstack_rs.Common.Dict.{Dict, insert}
use btstack_rs.Gatt.Peripheral.Types.{
  GattPeripheralError, service_not_found, characteristic_not_found, Result, ok, err, ◌>>=◌,
  GattUuid, uuid16, uuid128, notify, indicate, contains, CharacteristicSpec, ServiceSpec,
  RuntimeCharacteristic,
}
use btstack_rs.Gatt.Peripheral.Btstack.{Btstack}

-- The common end of the look-ups of a handle: the handle 0 means that nothing was found.
abbrev pub found : ℕ → Result ℕ
found handle = if handle == 0 then err characteristic_not_found else ok handle

module _ (𝓑 : Btstack) where
  abbrev pub service_range : GattUuid → Option (ℕ × ℕ)
  service_range (uuid16 u) = 𝓑.service_range16 u
  service_range (uuid128 u) = 𝓑.service_range128 u

  unfoldable pub resolve_service_handle_range : GattUuid → Result (ℕ × ℕ)
  resolve_service_handle_range uuid = elim (service_range uuid) [
    | none ↦ err service_not_found
    | some range ↦ ok range
  ]

  unfoldable pub resolve_value_handle : ℕ → ℕ → GattUuid → Result ℕ
  resolve_value_handle start_handle end_handle (uuid16 u) =
      found (𝓑.value_handle16 start_handle end_handle u)
  resolve_value_handle start_handle end_handle (uuid128 u) =
      found (𝓑.value_handle128 start_handle end_handle u)

  unfoldable pub resolve_ccc_handle : ℕ → ℕ → GattUuid → Result ℕ
  resolve_ccc_handle start_handle end_handle (uuid16 u) =
      found (𝓑.ccc_handle16 start_handle end_handle u)
  resolve_ccc_handle start_handle end_handle (uuid128 u) =
      found (𝓑.ccc_handle128 start_handle end_handle u)

  -- Looked up only for a characteristic that notifies or indicates.
  unfoldable pub resolve_ccc : ℕ → ℕ → CharacteristicSpec → Result (Option ℕ)
  resolve_ccc start_handle end_handle c =
      if contains c.properties notify || contains c.properties indicate
      then (do handle ← resolve_ccc_handle start_handle end_handle c.uuid; ok (some handle))
      else ok none

  unfoldable pub resolve_characteristic : ℕ → ℕ → CharacteristicSpec → Result RuntimeCharacteristic
  resolve_characteristic start_handle end_handle c = do
    value_handle ← resolve_value_handle start_handle end_handle c.uuid
    ccc_handle ← resolve_ccc start_handle end_handle c
    ok (record {
      spec = c;
      value_handle = value_handle;
      ccc_handle = ccc_handle;
      value = c.initial_value;
    })

  -- The inner loop, over the characteristics of one service.
  unfoldable pub resolve_service :
      ℕ
      → ℕ
      → List CharacteristicSpec
      → Dict RuntimeCharacteristic
      → Result (Dict RuntimeCharacteristic)
  resolve_service start_handle end_handle [] by_handle = ok by_handle
  resolve_service start_handle end_handle (c ∷ cs) by_handle = do
    meta ← resolve_characteristic start_handle end_handle c
    resolve_service start_handle end_handle cs (insert meta.value_handle meta by_handle)

  -- The outer loop.
  unfoldable pub resolve_services :
      List ServiceSpec → Dict RuntimeCharacteristic → Result (Dict RuntimeCharacteristic)
  resolve_services [] by_handle = ok by_handle
  resolve_services (service ∷ services) by_handle = do
    range ← resolve_service_handle_range service.uuid
    by_handle' ← resolve_service range.0 range.1 service.characteristics by_handle
    resolve_services services by_handle'

  unfoldable pub resolve_characteristics : List ServiceSpec → Result (Dict RuntimeCharacteristic)
  unfolding resolve_services
  resolve_characteristics services = resolve_services services []
