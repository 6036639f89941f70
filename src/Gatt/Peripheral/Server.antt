-- ===== src/Gatt/Peripheral/Server.antt =====
-- `GattPeripheralServer` of btstack-gatt/src/peripheral.rs: construction, advertising, drop. The
-- static RUNTIME is an argument and a result; the calls of BTstack are a log.
pub mod Ccc
pub mod Initial
pub mod Construction
pub mod Life
pub mod Advertising
pub mod Lifecycle
use btstack_rs.Common.{
  ℕ, Bool, true, false, Option, none, some, List, [], ◌∷◌, ◌++◌, if◌then◌else◌, length, as_u8,
}
use btstack_rs.Common.Dict.{Dict, insert}
use btstack_rs.Gatt.Peripheral.Types.{
  GattPeripheralError, server_already_initialized, Result, ok, err, AdvertisingConfig,
  PeripheralSpec, RuntimeCharacteristic, RuntimeState, Function, att_read_callback_of,
  att_write_callback_of, packet_handler_of, run_loop_advertising_update_of,
}
use btstack_rs.Sys.Structs.{PacketCallbackRegistration, ContextCallbackRegistration}
use btstack_rs.Gatt.Peripheral.Btstack.{
  Btstack, Call, l2cap_init, sm_init, att_server_init, att_server_register_packet_handler,
  hci_add_event_handler, execute_on_main_thread, set_params, set_data, enable,
}
use btstack_rs.Gatt.Peripheral.Resolve.{resolve_characteristics}

-- The loop over the characteristics, in the order in which the map gives them.
unfoldable pub fill_ccc : Dict RuntimeCharacteristic → Dict ℕ × Dict Bool → Dict ℕ × Dict Bool
fill_ccc [] maps = maps
fill_ccc ((value_handle, meta) ∷ entries) (ccc_to_value_handle, notification_enabled) =
    elim meta.ccc_handle [
      | none ↦ fill_ccc entries (ccc_to_value_handle, notification_enabled)
      | some ccc ↦ fill_ccc entries (
        insert ccc value_handle ccc_to_value_handle,
        insert value_handle false notification_enabled,
      )
    ]

abbrev pub event_cb : PacketCallbackRegistration Function
event_cb = record { item = record { next = none }; callback = some packet_handler_of }

abbrev pub advertising_cb : ContextCallbackRegistration Function
advertising_cb = record {
  item = none;
  callback = some run_loop_advertising_update_of;
  context = none;
}

-- The state once RUNTIME has been filled; `entries` are those of the map, as it iterates.
unfoldable pub new_state :
    Dict RuntimeCharacteristic → Dict RuntimeCharacteristic → AdvertisingConfig → RuntimeState
unfolding fill_ccc
new_state by_handle entries advertising =
    let (ccc_to_value_handle, notification_enabled) = fill_ccc entries ([], []) in
    record {
      characteristics_by_value_handle = by_handle;
      ccc_to_value_handle = ccc_to_value_handle;
      notification_enabled = notification_enabled;
      connected_handle = none;
      advertising_enabled = false;
      advertising = advertising;
      hci_event_cb = event_cb;
      run_loop_callback = advertising_cb;
    }

abbrev pub setup_calls : List ℕ → List Call
setup_calls profile_data =
    l2cap_init
    ∷ sm_init
    ∷ att_server_init profile_data att_read_callback_of att_write_callback_of
    ∷ att_server_register_packet_handler packet_handler_of
    ∷ []

-- `order` is the iteration order of the hash map, which Rust does not specify.
module _ (𝓑 : Btstack) (order : Dict RuntimeCharacteristic → Dict RuntimeCharacteristic) where
  -- After the calls of the set-up.
  unfoldable pub finish_new :
      PeripheralSpec
      → Result (Dict RuntimeCharacteristic)
      → Option RuntimeState × Result (Unit {0}) × List Call
  unfolding new_state
  finish_new spec (err e) = (none, err e, setup_calls spec.profile_data)
  finish_new spec (ok by_handle) =
      let runtime = new_state by_handle (order by_handle) spec.advertising in
      (
        some runtime,
        ok tt,
        setup_calls spec.profile_data ++ hci_add_event_handler runtime.hci_event_cb ∷ [],
      )

  unfoldable pub new :
      PeripheralSpec → Option RuntimeState → Option RuntimeState × Result (Unit {0}) × List Call
  unfolding finish_new
  new spec (some runtime) = (some runtime, err server_already_initialized, [])
  new spec none = finish_new spec (resolve_characteristics 𝓑 spec.services)

-- `start_advertising` and `stop`.
unfoldable pub set_advertising : Bool → Option RuntimeState → Option RuntimeState × List Call
set_advertising enabled none = (none, [])
set_advertising enabled (some runtime) = (
  some (record runtime { advertising_enabled = enabled }),
  execute_on_main_thread runtime.run_loop_callback ∷ [],
)

unfoldable pub start_advertising : Option RuntimeState → Option RuntimeState × List Call
unfolding set_advertising
start_advertising = set_advertising true

unfoldable pub stop : Option RuntimeState → Option RuntimeState × List Call
unfolding set_advertising
stop = set_advertising false

-- The callback that runs on the run loop's thread.
unfoldable pub run_loop_advertising_update : Option RuntimeState → List Call
run_loop_advertising_update none = []
run_loop_advertising_update (some runtime) =
    if runtime.advertising_enabled
    then (let a = runtime.advertising in
        set_params a.interval_min a.interval_max a.adv_type 0 a.channel_map a.filter_policy
        ∷ set_data (as_u8 (length a.payload)) a.payload
        ∷ enable 1
        ∷ [])
    else (enable 0 ∷ [])

-- `Drop::drop`
unfoldable pub drop_server : Option RuntimeState → Option RuntimeState × List Call
drop_server runtime = (none, enable 0 ∷ [])
