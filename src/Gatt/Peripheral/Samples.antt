-- ===== src/Gatt/Peripheral/Samples.antt =====
-- A server with two characteristics, one that notifies and one that can be written, for the tests.
use btstack_rs.Common.{◌+◌, refl, false, none, some, List, [], ◌∷◌, take, drop}
use btstack_rs.Common.Dict.{Dict}
use btstack_rs.Gatt.Peripheral.Types.{
  uuid16, write, Permissions, default_advertising, CharacteristicSpec, ServiceSpec, PeripheralSpec,
  RuntimeCharacteristic, RuntimeState,
}
use btstack_rs.Gatt.Peripheral.Btstack.{copied, Btstack}
use btstack_rs.Gatt.Peripheral.Valid.{Iteration}
use btstack_rs.Gatt.Peripheral.Server.{event_cb, advertising_cb}

-- A database in which a characteristic's handle is its UUID, and its CCC the next handle.
abbrev pub bt : Btstack
bt = record {
  service_range16 = λ _. some (1, 30);
  service_range128 = λ _. none;
  value_handle16 = λ _ _ u. u;
  value_handle128 = λ _ _ _. 0;
  ccc_handle16 = λ _ _ u. u + 1;
  ccc_handle128 = λ _ _ _. 0;
  read_blob = λ blob size offset buffer. elim buffer [
    | none ↦ (size, [])
    | some n ↦ copied (take n (drop offset (take size blob)))
  ];
  read_blob_null = λ _ _ _. refl;
  read_blob_lem = λ _ _ _ _. refl;
}

abbrev pub in_order : Iteration
in_order = record { entries = λ m. m; Every-entries = λ _ _ h. h; lookup-entries = λ _ _. refl }

abbrev pub counter_spec : CharacteristicSpec
counter_spec = record {
  uuid = uuid16 10;
  properties = record { bits = 18 };
  permissions = Permissions.none;
  initial_value = 1 ∷ 2 ∷ [];
}

abbrev pub name_spec : CharacteristicSpec
name_spec = record {
  uuid = uuid16 20;
  properties = write;
  permissions = Permissions.none;
  initial_value = 7 ∷ [];
}

abbrev pub services : List ServiceSpec
services = record { uuid = uuid16 0x1800; characteristics = counter_spec ∷ name_spec ∷ [] } ∷ []

abbrev pub spec : PeripheralSpec
spec = record {
  profile_data = 1 ∷ 10 ∷ 0 ∷ [];
  services = services;
  advertising = record default_advertising { payload = 2 ∷ 1 ∷ 6 ∷ [] };
}

abbrev pub counter : RuntimeCharacteristic
counter = record {
  spec = counter_spec;
  value_handle = 10;
  ccc_handle = some 11;
  value = 1 ∷ 2 ∷ [];
}

abbrev pub name : RuntimeCharacteristic
name = record { spec = name_spec; value_handle = 20; ccc_handle = none; value = 7 ∷ [] }

abbrev pub by_handle : Dict RuntimeCharacteristic
by_handle = (10, counter) ∷ (20, name) ∷ []

abbrev pub rt : RuntimeState
rt = record {
  characteristics_by_value_handle = by_handle;
  ccc_to_value_handle = (11, 10) ∷ [];
  notification_enabled = (10, false) ∷ [];
  connected_handle = none;
  advertising_enabled = false;
  advertising = spec.advertising;
  hci_event_cb = event_cb;
  run_loop_callback = advertising_cb;
}
