-- ===== src/Transport/Pipeline/SendTests.antt =====
-- Runs of one sending thread, and the theorems about it at them.
use btstack_rs.Common.{◌≡◌, refl, true, false, some, List, [], ◌∷◌, ◌++◌, arith, take, ℤ, pos, All}
use btstack_rs.Transport.Types.{acl, OutgoingPacket, ActiveTransport, TransportState, initial_state}
use btstack_rs.Transport.Api.{
  outgoing_packet, start_transport, transport_send_packet, transport_can_send_packet_now,
}
use btstack_rs.Transport.Pipeline.{Event, sends, start, run}
use btstack_rs.Transport.Pipeline.Send.{Shared, empty_channel, idle, Request, send_step}
use btstack_rs.Transport.Pipeline.Granted.{IsOwn, Returns, run_granted}
use btstack_rs.Transport.Pipeline.Solo.{send_alone}
use btstack_rs.Transport.Pipeline.Alone.{Corresponds, Outcome, send_alone-transport_send_packet}
use btstack_rs.Transport.Pipeline.Samples.{send_acl, write_times}

-- A thread that sends alone in an open transport with one packet queued, its compare-exchange
-- failing twice.
abbrev one_waiting : ActiveTransport
one_waiting = record (start_transport (record { interface_number = 0; descriptors = [] })) {
  outgoing_pending = 1;
  outgoing = record { queue = acl (7 ∷ []) ∷ []; capacity = 4; receiver_alive = true };
}

abbrev one_shared : Shared
one_shared = record empty_channel {
  pending = 1;
  queue = acl (7 ∷ []) ∷ [];
  accepted = acl (7 ∷ []) ∷ [];
}

one_waiting-Corresponds : Corresponds one_waiting one_shared
one_waiting-Corresponds = record {
  stop = refl;
  pending = refl;
  queue = refl;
  alive = refl;
  capacity = refl;
  depth = refl;
}

abbrev open_state : TransportState
open_state = record initial_state { active = some one_waiting }

send_alone-transport_send_packet_example :
    (a' : ActiveTransport) × (code : ℤ) × (transport_send_packet 2 open_state 2
        (some (9 ∷ []))
        (pos 1)
      ≡ (record open_state { active = some a' }, code))
    × Outcome one_waiting one_shared a' (send_alone 2 2 (take 1 (9 ∷ [])) one_shared).0 code
    × ((send_alone 2 2 (take 1 (9 ∷ [])) one_shared).1 ≡ idle)
send_alone-transport_send_packet_example =
    send_alone-transport_send_packet 2 open_state one_waiting one_shared 2 (9 ∷ []) 1 refl
      one_waiting-Corresponds (ground arith)

-- One thread has sent a packet; it sends the next one, failing once for no reason, while the writer
-- takes the first.
abbrev sent_one : List Event
sent_one = sends 0 send_acl ∷ sends 0 send_acl ∷ sends 0 send_acl ∷ []

abbrev send_next : Request
send_next = record { packet_type = 2; packet = 9 ∷ []; spurious = false }

abbrev beside_writer : List Event
beside_writer =
    sends 0 send_next ∷ sends 0 (record send_next { spurious = true }) ∷ write_times 8
    ++ sends 0 send_next
      ∷ sends 0 send_next
      ∷ sends 0 send_next
      ∷ sends 0 send_next
      ∷ sends 0 send_next
      ∷ []

sent_one-idle : (run sent_one (start 1)).senders ≡ idle ∷ []
unfolding run start send_step outgoing_packet
sent_one-idle = refl

sent_one-Corresponds : Corresponds one_waiting (run sent_one (start 1)).mem
unfolding run start send_step outgoing_packet
sent_one-Corresponds = record {
  stop = refl;
  pending = refl;
  queue = refl;
  alive = refl;
  capacity = refl;
  depth = refl;
}

may_send : transport_can_send_packet_now open_state 2 ≡ pos 1
unfolding transport_can_send_packet_now
may_send = refl

beside_writer-IsOwn : All (IsOwn 2 (9 ∷ [])) beside_writer
beside_writer-IsOwn = ground arith

run_granted_example :
    (p : OutgoingPacket) × (outgoing_packet 2 (9 ∷ []) ≡ some p)
    × Returns p (run sent_one (start 1)).mem.accepted beside_writer (run sent_one (start 1))
run_granted_example =
    run_granted sent_one beside_writer open_state one_waiting 2 (9 ∷ []) (tt, (tt, (tt, tt)))
      sent_one-idle refl sent_one-Corresponds may_send beside_writer-IsOwn (omega arith)
