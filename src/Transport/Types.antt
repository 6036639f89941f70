-- ===== src/Transport/Types.antt =====
-- btstack-hci-transport-nusb/src/types.rs and state.rs: the configuration, the selection of a
-- device, the packets under way, and the state behind the mutex `STATE`.
use btstack_rs.Common.{ℕ, Bool, Option, none, List}
use btstack_rs.Transport.Constants.{default_event_ep, default_acl_in_ep, default_acl_out_ep}

-- `hci_transport_config_nusb_t`; `path` is an array of `usb_max_path_len` bytes.
pub record Config : Type 0 where
  pub type_ : ℕ
  pub vendor_id : ℕ
  pub product_id : ℕ
  pub bus_number : ℕ
  pub path_len : ℕ
  pub path : List ℕ

pub record UsbSelection : Type 0 where
  pub vendor_id : Option ℕ
  pub product_id : Option ℕ
  pub bus_number : Option ℕ
  pub path : Option (List ℕ)

abbrev pub no_selection : UsbSelection
no_selection = record { vendor_id = none; product_id = none; bus_number = none; path = none }

pub record EndpointConfig : Type 0 where
  pub event_in : ℕ
  pub acl_in : ℕ
  pub acl_out : ℕ

abbrev pub default_endpoints : EndpointConfig
default_endpoints = record {
  event_in = default_event_ep;
  acl_in = default_acl_in_ep;
  acl_out = default_acl_out_ep;
}

pub data OutgoingPacket : Type 0 where
  command acl iso : List ℕ → OutgoingPacket

-- The two reader threads, each with the endpoint that it reads.
pub data Reader : Type 0 where
  event_reader acl_reader : ℕ → Reader

-- The bounded channel from the senders to the writer thread; `receiver_alive`: the receiver
-- has not been dropped.
pub record Channel : Type 0 where
  pub queue : List OutgoingPacket
  pub capacity : ℕ
  pub receiver_alive : Bool

-- The flag and the counter are shared with the threads; they stand in the record that owns them.
pub record ActiveTransport : Type 0 where
  pub stop : Bool
  pub outgoing_pending : ℕ
  pub outgoing : Channel
  pub reader_threads : List Reader
  pub writer_thread : ℕ
  pub outgoing_queue_depth : ℕ

-- A packet handler is known by its address.
pub record TransportState : Type 0 where
  pub packet_handler : Option ℕ
  pub selected : UsbSelection
  pub active : Option ActiveTransport

-- `STATE` at the start of the program.
abbrev pub initial_state : TransportState
initial_state = record { packet_handler = none; selected = no_selection; active = none }
