-- ===== src/Transport/Api.antt =====
-- btstack-hci-transport-nusb/src/lib.rs: the functions behind `hci_transport_t`, each as a function
-- of the state behind the mutex. A null pointer is `none`; what else a pointer leads to is a list.
-- Here no other thread comes between the parts of a call; Transport/Pipeline has the interleavings.
pub mod Open
pub mod Send
pub mod Samples
mod Tests
use btstack_rs.Common.{
  ℕ, zero, suc, ◌+◌, Bool, true, false, not, ◌&&◌, ◌||◌, Option, none, some, get_or, List, [], ◌∷◌,
  ◌++◌, ◌==◌, ltb, leb, if◌then◌else◌, is_some, length, take, replicate, ℤ, pos, negsuc, success,
  failure, as_u8, fetch_sub_one,
}
use btstack_rs.Sys.{
  hci_command_data_packet, hci_acl_data_packet, hci_iso_data_packet, hci_transport_config_usb,
}
use btstack_rs.Transport.Constants.{usb_max_path_len}
use btstack_rs.Transport.Constants
use btstack_rs.Transport.Types.{
  Config, UsbSelection, no_selection, OutgoingPacket, command, acl, iso, Reader, event_reader,
  acl_reader, Channel, ActiveTransport, TransportState,
}
use btstack_rs.Transport.Usb.{DeviceInfo, Interface, usb_path, select_device, detect_endpoints}
use btstack_rs.Transport.Events.{Delivery, emit_usb_info}

unfoldable pub default_config : ℕ → ℕ → Config
default_config vendor_id product_id = record {
  type_ = hci_transport_config_usb;
  vendor_id = vendor_id;
  product_id = product_id;
  bus_number = 0;
  path_len = 0;
  path = replicate usb_max_path_len 0;
}

-- A field that is 0 gives no criterion.
abbrev pub nonzero : ℕ → Option ℕ
nonzero n = if n == 0 then none else some n

unfoldable pub transport_init : TransportState → Option Config → TransportState
transport_init state none = record state { selected = no_selection }
transport_init state (some config) = record state {
  selected = record {
    vendor_id = nonzero config.vendor_id;
    product_id = nonzero config.product_id;
    bus_number = nonzero config.bus_number;
    path =
        if leb config.path_len (length config.path) && ltb 0 config.path_len
        then some (take config.path_len config.path)
        else none;
  };
}

-- What nusb answers: the devices, which of them can be opened and give their interface 0, and the
-- descriptors of that interface.
pub record Nusb : Type 0 where
  pub list_devices : Option (List DeviceInfo)
  pub opens : DeviceInfo → Bool
  pub claims : DeviceInfo → Bool
  pub interface : DeviceInfo → Interface

-- The transport with its threads started, before any packet.
abbrev pub start_transport : Interface → ActiveTransport
start_transport interface = record {
  stop = false;
  outgoing_pending = 0;
  outgoing = record {
    queue = [];
    capacity = Constants.outgoing_queue_depth;
    receiver_alive = true;
  };
  reader_threads =
      event_reader (detect_endpoints interface).event_in
      ∷ acl_reader (detect_endpoints interface).acl_in
      ∷ [];
  writer_thread = (detect_endpoints interface).acl_out;
  outgoing_queue_depth = Constants.outgoing_queue_depth;
}

open_device : Nusb → TransportState → Option DeviceInfo → TransportState × ℤ × List Delivery
open_device nusb state none = (state, failure, [])
open_device nusb state (some device) =
    if not (nusb.opens device)
    then (state, failure, [])
    else if not (nusb.claims device)
    then (state, failure, [])
    else (
      record state { active = some (start_transport (nusb.interface device)) },
      success,
      emit_usb_info state device (get_or (usb_path device) []),
    )

-- The new state, the return code, and what is delivered to the packet handler.
unfoldable pub transport_open : Nusb → TransportState → TransportState × ℤ × List Delivery
unfolding open_device
transport_open nusb state =
    if is_some state.active
    then (state, success, [])
    else open_device nusb state (select_device nusb.list_devices state.selected)

-- What `transport_close` does to the threads, in order.
pub data ThreadEvent : Type 0 where
  stop_flag_set : ThreadEvent
  reader_joined : Reader → ThreadEvent
  writer_joined : ℕ → ThreadEvent

join_readers : List Reader → List ThreadEvent → List ThreadEvent
join_readers [] rest = rest
join_readers (reader ∷ readers) rest = reader_joined reader ∷ join_readers readers rest

stop_threads : Option ActiveTransport → List ThreadEvent
stop_threads none = []
stop_threads (some active) =
    stop_flag_set ∷ join_readers active.reader_threads (writer_joined active.writer_thread ∷ [])

unfoldable pub transport_close : TransportState → TransportState × ℤ × List ThreadEvent
unfolding join_readers stop_threads
transport_close state = (record state { active = none }, success, stop_threads state.active)

unfoldable pub transport_register_packet_handler : TransportState → Option ℕ → TransportState
transport_register_packet_handler state handler = record state { packet_handler = handler }

abbrev pub is_outgoing_type : ℕ → Bool
is_outgoing_type t =
    t == as_u8 hci_command_data_packet
    || t == as_u8 hci_acl_data_packet
    || t == as_u8 hci_iso_data_packet

has_room : Option ActiveTransport → ℤ
has_room none = pos 0
has_room (some active) =
    if ltb active.outgoing_pending active.outgoing_queue_depth then pos 1 else pos 0

unfoldable pub transport_can_send_packet_now : TransportState → ℕ → ℤ
unfolding has_room
transport_can_send_packet_now state packet_type =
    if not (is_outgoing_type packet_type) then pos 0 else has_room state.active

-- The loop of `try_reserve_send_slot`, in which the weak compare-exchange fails `spurious` times for
-- no reason: whether a slot was reserved, and the counter.
unfoldable pub try_reserve_send_slot : ℕ → ℕ → ℕ → Bool × ℕ
try_reserve_send_slot zero pending queue_depth =
    if leb queue_depth pending then (false, pending) else (true, pending + 1)
try_reserve_send_slot (suc spurious) pending queue_depth =
    let again = try_reserve_send_slot spurious pending queue_depth in
    if leb queue_depth pending then (false, pending) else again

-- The `match` on the packet type.
unfoldable pub outgoing_packet : ℕ → List ℕ → Option OutgoingPacket
outgoing_packet t bytes =
    if t == as_u8 hci_command_data_packet
    then some (command bytes)
    else if t == as_u8 hci_acl_data_packet
    then some (acl bytes)
    else if t == as_u8 hci_iso_data_packet
    then some (iso bytes)
    else none

-- `SyncSender::try_send`: `none` if the receiver is gone or the queue is full.
unfoldable pub try_send : Channel → OutgoingPacket → Option Channel
try_send channel packet =
    if channel.receiver_alive && ltb (length channel.queue) channel.capacity
    then some (record channel { queue = channel.queue ++ packet ∷ [] })
    else none

-- With a slot reserved: `pending` is the counter after the reservation.
send_reserved : ActiveTransport → ℕ → Option OutgoingPacket → ActiveTransport × ℤ
send_reserved active pending none =
    (record active { outgoing_pending = fetch_sub_one pending }, failure)
send_reserved active pending (some packet) = elim (try_send active.outgoing packet) [
  | none ↦ (record active { outgoing_pending = fetch_sub_one pending }, failure)
  | some channel ↦ (record active { outgoing_pending = pending; outgoing = channel }, success)
]

send_active : ℕ → ActiveTransport → ℕ → List ℕ → ActiveTransport × ℤ
unfolding send_reserved
send_active spurious active packet_type bytes =
    let (reserved, pending) =
      try_reserve_send_slot spurious active.outgoing_pending active.outgoing_queue_depth in
    if reserved
    then send_reserved active pending (outgoing_packet packet_type bytes)
    else (active, failure)

send_to : ℕ → TransportState → Option ActiveTransport → ℕ → List ℕ → TransportState × ℤ
unfolding send_active
send_to spurious state none packet_type bytes = (state, failure)
send_to spurious state (some active) packet_type bytes =
    let (active', code) = send_active spurious active packet_type bytes in
    (record state { active = some active' }, code)

-- The packet's memory holds at least `size` bytes.
unfoldable pub transport_send_packet :
    ℕ → TransportState → ℕ → Option (List ℕ) → ℤ → TransportState × ℤ
unfolding send_to
transport_send_packet spurious state packet_type none size = (state, failure)
transport_send_packet spurious state packet_type (some packet) (negsuc n) = (state, failure)
transport_send_packet spurious state packet_type (some packet) (pos size) =
    send_to spurious state state.active packet_type (take size packet)
