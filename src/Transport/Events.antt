-- ===== src/Transport/Events.antt =====
-- The packets that btstack-hci-transport-nusb/src/io.rs hands to the registered packet handler.
pub mod Layout
mod Tests
use btstack_rs.Common.{
  ℕ, ◌+◌, Option, none, some, List, [], ◌∷◌, ◌++◌, length, as_u8, as_u16, to_le_bytes,
}
use btstack_rs.Sys.{hci_event_packet, hci_event_transport_packet_sent, hci_event_transport_usb_info}
use btstack_rs.Transport.Types.{TransportState}
use btstack_rs.Transport.Usb.{DeviceInfo}

-- One call of a packet handler, by its address, with the bytes that its pointer leads to.
pub record Delivery : Type 0 where
  pub handler : ℕ
  pub packet_type : ℕ
  pub packet : List ℕ
  pub size : ℕ

unfoldable pub emit_packet : TransportState → ℕ → List ℕ → List Delivery
emit_packet state packet_type packet = elim state.packet_handler [
  | none ↦ []
  | some handler ↦
      record {
        handler = handler;
        packet_type = packet_type;
        packet = packet;
        size = as_u16 (length packet);
      }
      ∷ []
]

abbrev pub packet_sent_event : List ℕ
packet_sent_event = as_u8 hci_event_transport_packet_sent ∷ 0 ∷ []

unfoldable pub emit_transport_packet_sent : TransportState → List Delivery
unfolding emit_packet
emit_transport_packet_sent state = emit_packet state (as_u8 hci_event_packet) packet_sent_event

-- The event that `emit_usb_info` builds.
unfoldable pub usb_info_event : DeviceInfo → List ℕ → List ℕ
usb_info_event device path =
    as_u8 hci_event_transport_usb_info
    ∷ as_u8 (6 + length path)
    ∷ (to_le_bytes device.vendor_id
        ++ to_le_bytes device.product_id
        ++ device.bus_number ∷ as_u8 (length path) ∷ path)

unfoldable pub emit_usb_info : TransportState → DeviceInfo → List ℕ → List Delivery
unfolding emit_packet usb_info_event
emit_usb_info state device path =
    emit_packet state (as_u8 hci_event_packet) (usb_info_event device path)
