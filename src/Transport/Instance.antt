-- ===== src/Transport/Instance.antt =====
-- The table of functions that BTstack is given: `HCI_TRANSPORT_NUSB` of
-- btstack-hci-transport-nusb/src/lib.rs, of the type `hci_transport_t` of
-- btstack-sys/src/generated/libusb_main_bindings.rs. BTstack calls the functions through the table;
-- a pointer that is null is `none`. Between the calls the writer thread takes packets and finishes
-- them (`spawn_writer` of io.rs).
pub mod Lifecycle
mod Tests
use btstack_rs.Common.{ℕ, Option, none, some, List, [], ◌∷◌, zero, suc, ◌+◌, fetch_sub_one, ℤ}
use mathlib.Core.Option
use btstack_rs.Transport.Types.{
  Config, Channel, OutgoingPacket, ActiveTransport, TransportState, initial_state,
}
use btstack_rs.Transport.Api.{
  Nusb, ThreadEvent, transport_init, transport_open, transport_close,
  transport_register_packet_handler, transport_can_send_packet_now, transport_send_packet,
}
use btstack_rs.Transport.Events.{Delivery}

-- Each function also takes and gives the state behind it; `open_` takes what nusb answers, and
-- `send_packet` the number of spurious failures of its loop.
pub record HciTransport : Type 0 where
  pub name : List ℕ
  pub init : Option (TransportState → Option Config → TransportState)
  pub open_ : Option (Nusb → TransportState → TransportState × ℤ × List Delivery)
  pub close : Option (TransportState → TransportState × ℤ × List ThreadEvent)
  pub register_packet_handler : Option (TransportState → Option ℕ → TransportState)
  pub can_send_packet_now : Option (TransportState → ℕ → ℤ)
  pub send_packet : Option (ℕ → TransportState → ℕ → Option (List ℕ) → ℤ → TransportState × ℤ)
  pub set_baudrate : Option (TransportState → ℕ → TransportState × ℤ)
  pub reset_link : Option (TransportState → TransportState)
  pub set_sco_config : Option (TransportState → ℕ → ℤ → TransportState)

-- The characters of "H2 nusb" and a zero byte.
abbrev pub transport_name : List ℕ
transport_name = 72 ∷ 50 ∷ 32 ∷ 110 ∷ 117 ∷ 115 ∷ 98 ∷ 0 ∷ []

unfoldable pub hci_transport_nusb : HciTransport
hci_transport_nusb = record {
  name = transport_name;
  init = some transport_init;
  open_ = some transport_open;
  close = some transport_close;
  register_packet_handler = some transport_register_packet_handler;
  can_send_packet_now = some transport_can_send_packet_now;
  send_packet = some transport_send_packet;
  set_baudrate = none;
  reset_link = none;
  set_sco_config = none;
}

unfoldable pub hci_transport_nusb_instance : HciTransport
unfolding hci_transport_nusb
hci_transport_nusb_instance = hci_transport_nusb

-- A call of one of the six functions of the table that this transport has, or a step of the writer
-- thread. The other three pointers are null here, and BTstack has to test them before a call.
pub data Event : Type 0 where
  initialised : Option Config → Event
  opened : Nusb → Event
  closed : Event
  registered : (handler : Option ℕ) → Event
  asked : (packet_type : ℕ) → Event
  sent : (spurious packet_type : ℕ) (packet : Option (List ℕ)) (size : ℤ) → Event
  packet_taken packet_done : Event

-- The state, and how many packets the writer thread has in its hands: taken from the channel, and
-- their slots not given back yet.
pub record InstanceState : Type 0 where
  pub state : TransportState
  pub held : ℕ

abbrev pub initial_instance : InstanceState
initial_instance = record { state = initial_state; held = 0 }

abbrev with_queue : ActiveTransport → List OutgoingPacket → ActiveTransport
with_queue a queue = record a { outgoing = record a.outgoing { queue = queue } }

-- `recv_timeout` gives out the first packet of the channel, if there is one.
abbrev pub take_packet : ActiveTransport → List OutgoingPacket → InstanceState → InstanceState
take_packet a [] s = s
take_packet a (_ ∷ queue) s = record {
  state = record s.state { active = some (with_queue a queue) };
  held = s.held + 1;
}

-- A command has been sent or a transfer has completed: `pending.fetch_sub(1)`. It is only ever one of
-- the packets in the writer's hands.
abbrev pub finish_packet : ActiveTransport → ℕ → InstanceState → InstanceState
finish_packet a zero s = s
finish_packet a (suc held) s = record {
  state = record s.state {
    active = some (record a { outgoing_pending = fetch_sub_one a.outgoing_pending });
  };
  held = held;
}

-- The writer thread runs only while a transport is open.
pub data Task : Type 0 where
  takes finishes : Task

pub by_writer : Task → Option ActiveTransport → InstanceState → InstanceState
by_writer task none s = s
by_writer takes (some a) s = take_packet a a.outgoing.queue s
by_writer finishes (some a) s = finish_packet a s.held s

abbrev with_state : InstanceState → TransportState → InstanceState
with_state s state = record s { state = state }

-- `none`: the pointer that is called is null. A close has joined the writer, and what it held is gone
-- with it.
unfoldable pub step : HciTransport → Event → InstanceState → Option InstanceState
unfolding by_writer
step h (initialised config) s = Option.map (λ init. with_state s (init s.state config)) h.init
step h (opened nusb) s = Option.map (λ open_. with_state s (open_ nusb s.state).0) h.open_
step h closed s = Option.map (λ close. record { state = (close s.state).0; held = 0 }) h.close
step h (registered handler) s =
    Option.map (λ register. with_state s (register s.state handler)) h.register_packet_handler
step h (asked packet_type) s = Option.map (λ _. s) h.can_send_packet_now
step h (sent spurious packet_type packet size) s =
    Option.map (λ send. with_state s (send spurious s.state packet_type packet size).0)
      h.send_packet
step h packet_taken s = some (by_writer takes s.state.active s)
step h packet_done s = some (by_writer finishes s.state.active s)

run_from : HciTransport → List Event → Option InstanceState → Option InstanceState
run_from h [] s = s
run_from h (e ∷ events) none = none
run_from h (e ∷ events) (some s) = run_from h events (step h e s)

unfoldable pub run : HciTransport → List Event → InstanceState → Option InstanceState
unfolding run_from
run h events s = run_from h events (some s)
