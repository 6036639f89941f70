-- ===== src/Transport/Api/Tests.antt =====
-- The transport's functions at concrete states.
use btstack_rs.Common.{
  ◌≡◌, ◌↔◌, ◌⊎◌, true, refl, none, some, [], ◌∷◌, arith, take, pos, success, failure, is_some,
}
use btstack_rs.Transport.Types.{no_selection, OutgoingPacket, TransportState, initial_state}
use btstack_rs.Transport.Usb.{is_bluetooth_device, is_candidate_device, select_device}
use btstack_rs.Transport.Usb.Selection.{IsCandidate}
use btstack_rs.Transport.Api.{
  default_config, transport_init, transport_open, transport_can_send_packet_now, outgoing_packet,
  try_reserve_send_slot, transport_send_packet, start_transport,
}
use btstack_rs.Transport.Api.Samples.{dongle, bare_interface, one_dongle}
use btstack_rs.Transport.Api.Open.{
  Accepts, OpenOutcome, transport_init-IsCandidate, transport_open-outcome,
}
use btstack_rs.Transport.Api.Send.{IsReady, enqueued, send_failure_unchanged, can_send-send}

abbrev opened : TransportState
opened = record initial_state { active = some (start_transport bare_interface) }

opened-IsReady : IsReady opened (start_transport bare_interface)
opened-IsReady = record { is_active = refl; consistent = ground arith }

opening : (transport_open one_dongle initial_state).0 ≡ opened
unfolding transport_open select_device is_candidate_device is_bluetooth_device
opening = refl

-- `default_config` with a vendor asks for that vendor only.
transport_init-IsCandidate_example :
    (IsCandidate dongle (transport_init initial_state (some (default_config 0x0a12 0))).selected
      ↔ Accepts (default_config 0x0a12 0) dongle)
    × (record (transport_init initial_state (some (default_config 0x0a12 0))) {
      selected = no_selection;
    }
        ≡ initial_state)
transport_init-IsCandidate_example =
    transport_init-IsCandidate initial_state (default_config 0x0a12 0) dongle

transport_open-outcome_example :
    ((is_some initial_state.active ≡ true)
      × (transport_open one_dongle initial_state ≡ (initial_state, success, [])))
    ⊎ ((initial_state.active ≡ none)
        × OpenOutcome one_dongle initial_state (transport_open one_dongle initial_state))
transport_open-outcome_example = transport_open-outcome one_dongle initial_state

-- Packet type 3, SCO, is refused, and its slot is given back.
send_failure_unchanged_example :
    (transport_send_packet 2 opened 3 (some (7 ∷ [])) (pos 1)).0 ≡ opened
unfolding transport_send_packet outgoing_packet try_reserve_send_slot
send_failure_unchanged_example =
    send_failure_unchanged 2 opened 3 (some (7 ∷ [])) (pos 1) (λ a e. ground arith) refl

can_send-send_example :
    ((transport_can_send_packet_now opened 1 ≡ pos 1)
      × ((p : OutgoingPacket) × (outgoing_packet 1 (take 3 (3 ∷ 12 ∷ 0 ∷ [])) ≡ some p)
          × (transport_send_packet 1 opened 1 (some (3 ∷ 12 ∷ 0 ∷ [])) (pos 3) ≡ (
            record opened { active = some (enqueued (start_transport bare_interface) p) },
            success,
          ))))
    ⊎ ((transport_can_send_packet_now opened 1 ≡ pos 0)
        × (transport_send_packet 1 opened 1 (some (3 ∷ 12 ∷ 0 ∷ [])) (pos 3) ≡ (opened, failure)))
can_send-send_example =
    can_send-send 1 opened (start_transport bare_interface) 1 (3 ∷ 12 ∷ 0 ∷ []) 3 opened-IsReady
