-- ===== src/Transport/Instance/Tests.antt =====
-- The table of functions in use.
use btstack_rs.Common.{◌≡◌, ◌↔◌, refl, true, none, some, List, [], ◌∷◌, pos, success}
use btstack_rs.Transport.Types.{acl, no_selection}
use btstack_rs.Transport.Usb.{is_bluetooth_device, is_candidate_device, select_device}
use btstack_rs.Transport.Api.{
  transport_init, transport_open, transport_register_packet_handler, transport_can_send_packet_now,
  outgoing_packet, try_reserve_send_slot, try_send, transport_send_packet, start_transport,
}
use btstack_rs.Transport.Api.Samples.{bare_interface, one_dongle}
use btstack_rs.Transport.Instance.{
  hci_transport_nusb_instance, Event, initialised, opened, registered, asked, sent, packet_taken,
  packet_done, step, run, InstanceState, initial_instance,
}
use btstack_rs.Transport.Instance.Lifecycle.{IsLegal, run-flow_control}

-- As BTstack starts a transport: two packets go out, and the writer is done with the first.
abbrev session : List Event
session =
    initialised none
    ∷ registered (some 7)
    ∷ opened one_dongle
    ∷ asked 1
    ∷ sent 0 1 (some (3 ∷ 12 ∷ 0 ∷ [])) (pos 3)
    ∷ packet_taken
    ∷ sent 1 2 (some (9 ∷ [])) (pos 1)
    ∷ packet_done
    ∷ []

abbrev one_queued : InstanceState
one_queued = record {
  held = 0;
  state = record {
    packet_handler = some 7;
    selected = no_selection;
    active = some (record (start_transport bare_interface) {
      outgoing_pending = 1;
      outgoing = record { queue = acl (9 ∷ []) ∷ []; capacity = 4; receiver_alive = true };
    });
  };
}

session_result : run hci_transport_nusb_instance session initial_instance ≡ some one_queued
unfolding run hci_transport_nusb_instance step transport_init transport_open transport_send_packet
    transport_register_packet_handler try_reserve_send_slot try_send outgoing_packet select_device
    is_candidate_device is_bluetooth_device
session_result = refl

run-flow_control_example :
    (s : InstanceState) × (run hci_transport_nusb_instance session initial_instance ≡ some s)
    × IsLegal s
    × ((transport_can_send_packet_now s.state 2 ≡ pos 1)
        ↔ ((transport_send_packet 0 s.state 2 (some (9 ∷ [])) (pos 1)).1 ≡ success))
run-flow_control_example = run-flow_control session 0 2 (9 ∷ []) 1
