-- ===== src/Gatt/Counter.antt =====
-- btstack-gatt/src/gatt_counter.rs: the example server with a counter that is notified once a second.
-- Its static variables are a record; the calls of BTstack are a log.
pub mod Beats
pub mod Access
pub mod Abstract
pub mod Refinement
mod Tests
use btstack_rs.Common.{
  ℕ, ◌+◌, ◌%◌, ◌^◌, ◌<◌, Bool, true, false, ◌&&◌, ◌||◌, Option, none, some, List, [], ◌∷◌, ◌++◌,
  ◌==◌, if◌then◌else◌, length, get_elem?, take, drop, replicate, as_u8, as_u16, from_le_bytes, ℤ,
  pos,
}
use btstack_rs.Sys.{
  hci_event_packet, hci_event_disconnection_complete, att_event_can_send_now,
  hci_power_mode_hci_power_on,
}
use btstack_rs.Sys.Structs.{TimerSource, PacketCallbackRegistration}
use btstack_rs.Gatt.Peripheral.Btstack.{Btstack}

abbrev pub heartbeat_period_ms : ℕ
heartbeat_period_ms = 1000

abbrev app_ad_flags : ℕ
app_ad_flags = 0x06

abbrev pub att_counter_value_handle : ℕ
att_counter_value_handle = 0x000b

abbrev pub att_counter_client_configuration_handle : ℕ
att_counter_client_configuration_handle = 0x000c

abbrev pub configuration_notification : ℕ
configuration_notification = 0x0001

abbrev pub counter_buffer_capacity : ℕ
counter_buffer_capacity = 30

-- The characters of "LE Counter" are written as their codes.
abbrev pub adv_data : List ℕ
adv_data =
    0x02 ∷ 0x01 ∷ app_ad_flags ∷ 0x0b ∷ 0x09 ∷ 76 ∷ 69 ∷ 32 ∷ 67 ∷ 111 ∷ 117 ∷ 110 ∷ 116 ∷ 101 ∷ 114
    ∷ 0x03 ∷ 0x02 ∷ 0x10 ∷ 0xff ∷ []

-- The attribute database of the example.
abbrev pub profile_data : List ℕ
profile_data =
    1 ∷ 10 ∷ 0 ∷ 2 ∷ 0 ∷ 1 ∷ 0 ∷ 0 ∷ 40 ∷ 0 ∷ 24 ∷ 13 ∷ 0 ∷ 2 ∷ 0 ∷ 2 ∷ 0 ∷ 3 ∷ 40 ∷ 2 ∷ 3 ∷ 0 ∷ 0
    ∷ 42 ∷ 20 ∷ 0 ∷ 2 ∷ 0 ∷ 3 ∷ 0 ∷ 0 ∷ 42 ∷ 71 ∷ 65 ∷ 84 ∷ 84 ∷ 32 ∷ 67 ∷ 111 ∷ 117 ∷ 110 ∷ 116
    ∷ 101 ∷ 114 ∷ 13 ∷ 0 ∷ 2 ∷ 0 ∷ 4 ∷ 0 ∷ 3 ∷ 40 ∷ 2 ∷ 5 ∷ 0 ∷ 1 ∷ 42 ∷ 10 ∷ 0 ∷ 2 ∷ 0 ∷ 5 ∷ 0 ∷ 1
    ∷ 42 ∷ 131 ∷ 0 ∷ 10 ∷ 0 ∷ 2 ∷ 0 ∷ 6 ∷ 0 ∷ 0 ∷ 40 ∷ 1 ∷ 24 ∷ 13 ∷ 0 ∷ 2 ∷ 0 ∷ 7 ∷ 0 ∷ 3 ∷ 40 ∷ 2
    ∷ 8 ∷ 0 ∷ 42 ∷ 43 ∷ 24 ∷ 0 ∷ 2 ∷ 0 ∷ 8 ∷ 0 ∷ 42 ∷ 43 ∷ 144 ∷ 46 ∷ 56 ∷ 175 ∷ 191 ∷ 20 ∷ 18 ∷ 1
    ∷ 110 ∷ 186 ∷ 244 ∷ 184 ∷ 221 ∷ 87 ∷ 181 ∷ 172 ∷ 24 ∷ 0 ∷ 2 ∷ 0 ∷ 9 ∷ 0 ∷ 0 ∷ 40 ∷ 251 ∷ 52
    ∷ 155 ∷ 95 ∷ 128 ∷ 0 ∷ 0 ∷ 128 ∷ 0 ∷ 16 ∷ 0 ∷ 0 ∷ 16 ∷ 255 ∷ 0 ∷ 0 ∷ 27 ∷ 0 ∷ 2 ∷ 0 ∷ 10 ∷ 0 ∷ 3
    ∷ 40 ∷ 26 ∷ 11 ∷ 0 ∷ 251 ∷ 52 ∷ 155 ∷ 95 ∷ 128 ∷ 0 ∷ 0 ∷ 128 ∷ 0 ∷ 16 ∷ 0 ∷ 0 ∷ 17 ∷ 255 ∷ 0 ∷ 0
    ∷ 22 ∷ 0 ∷ 10 ∷ 3 ∷ 11 ∷ 0 ∷ 251 ∷ 52 ∷ 155 ∷ 95 ∷ 128 ∷ 0 ∷ 0 ∷ 128 ∷ 0 ∷ 16 ∷ 0 ∷ 0 ∷ 17 ∷ 255
    ∷ 0 ∷ 0 ∷ 10 ∷ 0 ∷ 14 ∷ 1 ∷ 12 ∷ 0 ∷ 2 ∷ 41 ∷ 0 ∷ 0 ∷ 0 ∷ 0 ∷ []

-- The functions of the module that it hands to BTstack.
pub data Function : Type 0 where
  heartbeat_handler_of packet_handler_of att_read_callback_of att_write_callback_of : Function

pub record Counter : Type 0 where
  pub notification_enabled : Bool
  pub connection_handle : ℕ
  pub counter : ℕ
  pub buffer : List ℕ
  pub len : ℕ
  pub heartbeat_timer : TimerSource Function
  pub hci_event_cb : PacketCallbackRegistration Function

abbrev pub no_timer : TimerSource Function
no_timer = record { item = record { next = none }; timeout = 0; process = none; context = none }

abbrev pub no_event_cb : PacketCallbackRegistration Function
no_event_cb = record { item = record { next = none }; callback = none }

abbrev pub initial : Counter
initial = record {
  notification_enabled = false;
  connection_handle = 0;
  counter = 0;
  buffer = replicate counter_buffer_capacity 0;
  len = 0;
  heartbeat_timer = no_timer;
  hci_event_cb = no_event_cb;
}

-- `btstack_snprintf_assert_complete` with the format "BTstack counter %04u": the characters for a
-- number. It stops the program unless they and a zero byte fit into the buffer.
pub record Printer : Type 0 where
  pub print : ℕ → List ℕ
  pub print_fits : (n : ℕ) → length (print n) < counter_buffer_capacity

pub data Call : Type 0 where
  l2cap_init sm_init : Call
  att_server_init : (profile_data : List ℕ) (read_callback write_callback : Function) → Call
  -- the record is the one whose address is given
  hci_add_event_handler : PacketCallbackRegistration Function → Call
  att_server_register_packet_handler : Function → Call
  set_params :
      (interval_min interval_max adv_type direct_address_type channel_map filter_policy : ℕ) → Call
  set_data : (length : ℕ) (data_ : List ℕ) → Call
  enable : ℕ → Call
  set_timer : (milliseconds : ℕ) → Call
  add_timer : Call
  hci_power_control : ℕ → Call
  request_can_send_now_event : (connection_handle : ℕ) → Call
  -- the bytes are those at the address given
  notify : (connection_handle attribute_handle : ℕ) (value : List ℕ) → Call

module _ (𝓟 : Printer) where
  unfoldable pub beat : Counter → Counter
  beat c =
      let counter = (c.counter + 1) % 2 ^ 32 in
      let text = 𝓟.print counter in
      record c {
        counter = counter;
        buffer = text ++ (0 ∷ drop (length text + 1) c.buffer);
        len = as_u16 (length text);
      }

  unfoldable pub heartbeat_handler : Counter → Counter × List Call
  heartbeat_handler c =
      let timer = set_timer heartbeat_period_ms ∷ add_timer ∷ [] in
      if c.notification_enabled
      then (beat c, request_can_send_now_event c.connection_handle ∷ timer)
      else (c, timer)

  unfoldable pub setup : Counter → Counter × List Call
  setup c =
      let event_cb = record c.hci_event_cb { callback = some packet_handler_of } in
      let timer = record c.heartbeat_timer { process = some heartbeat_handler_of } in
      (
        beat (record c { hci_event_cb = event_cb; heartbeat_timer = timer }),
        l2cap_init
            ∷ sm_init
            ∷ att_server_init profile_data att_read_callback_of att_write_callback_of
            ∷ set_params 0x0030 0x0030 0 0 0x07 0x00
            ∷ set_data (as_u8 (length adv_data)) adv_data
            ∷ enable 1
            ∷ hci_add_event_handler event_cb
            ∷ att_server_register_packet_handler packet_handler_of
            ∷ set_timer heartbeat_period_ms
            ∷ add_timer
            ∷ [],
      )

  unfoldable pub btstack_main : Counter → Counter × List Call × ℤ
  btstack_main c =
      let (c', calls) = setup c in
      (c', calls ++ hci_power_control hci_power_mode_hci_power_on ∷ [], pos 0)

unfoldable pub handle_event : Counter → ℕ → Counter × List Call
handle_event c code =
    if code == as_u8 hci_event_disconnection_complete
    then (record c { notification_enabled = false }, [])
    else if code == as_u8 att_event_can_send_now
    then (c, notify c.connection_handle att_counter_value_handle (take c.len c.buffer) ∷ [])
    else (c, [])

unfoldable pub packet_handler : Counter → ℕ → Option (List ℕ) → Option (Counter × List Call)
packet_handler c packet_type none = some (c, [])
packet_handler c packet_type (some []) =
    if packet_type == as_u8 hci_event_packet then none else some (c, [])
packet_handler c packet_type (some (code ∷ rest)) =
    if packet_type == as_u8 hci_event_packet then some (handle_event c code) else some (c, [])

-- The return code and the bytes copied; the buffer is null, or has so many bytes.
unfoldable pub att_read_callback : Btstack → Counter → ℕ → ℕ → Option ℕ → ℕ × List ℕ
att_read_callback 𝓑 c handle offset buffer =
    if handle == att_counter_value_handle then 𝓑.read_blob c.buffer c.len offset buffer else (0, [])

-- The two bytes of the configuration are read where they stand.
unfoldable pub write_configuration : Counter → ℕ → List ℕ → Option Counter
write_configuration c connection_handle [] = none
write_configuration c connection_handle (lo ∷ []) = none
write_configuration c connection_handle (lo ∷ hi ∷ rest) = some (record c {
  notification_enabled = from_le_bytes lo hi == configuration_notification;
  connection_handle = connection_handle;
})

-- The return code is always 0. A read beyond the buffer makes the result `none`.
unfoldable pub att_write_callback : Counter → ℕ → ℕ → Option (List ℕ) → ℕ → Option (Counter × ℤ)
att_write_callback c connection_handle handle none buffer_size = some (c, pos 0)
att_write_callback c connection_handle handle (some buffer) buffer_size =
    if buffer_size == 0
    then some (c, pos 0)
    else if handle == att_counter_client_configuration_handle
    then elim (write_configuration c connection_handle buffer) [
      | none ↦ none
      | some c' ↦ some (c', pos 0)
    ]
    else some (c, pos 0)
