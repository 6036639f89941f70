-- ===== src/Transport/Pipeline/Send.antt =====
-- One thread in `transport_send_packet` of btstack-hci-transport-nusb/src/lib.rs, from the load in
-- `try_reserve_send_slot` to its return, a shared access at a time; and the memory that is shared.
use btstack_rs.Common.{
  ℕ, ◌+◌, Bool, true, false, not, ◌&&◌, Option, none, some, List, [], ◌∷◌, ◌++◌, ◌==◌, ltb, leb,
  if◌then◌else◌, length, fetch_sub_one,
}
use btstack_rs.Transport.Constants.{outgoing_queue_depth}
use btstack_rs.Transport.Types.{OutgoingPacket}
use btstack_rs.Transport.Api.{outgoing_packet}

-- The last four fields only record what has happened: the packets accepted by the channel, those
-- handed to USB, those lost with the receiver, and the number of packet-sent events.
pub record Shared : Type 0 where
  pub stop : Bool
  pub pending : ℕ
  pub queue : List OutgoingPacket
  pub receiver_alive : Bool
  pub sender_alive : Bool
  pub accepted : List OutgoingPacket
  pub usb : List OutgoingPacket
  pub dropped : List OutgoingPacket
  pub sent_events : ℕ

abbrev pub empty_channel : Shared
empty_channel = record {
  stop = false;
  pending = 0;
  queue = [];
  receiver_alive = true;
  sender_alive = true;
  accepted = [];
  usb = [];
  dropped = [];
  sent_events = 0;
}

-- What a call is given, and whether the weak compare-exchange fails for no reason in this step.
pub record Request : Type 0 where
  pub packet_type : ℕ
  pub packet : List ℕ
  pub spurious : Bool

-- Where a sender stands: outside the function; with the counter loaded; with a slot reserved; about
-- to give the slot back. The packet is `none` if its type is unknown.
pub data SendPc : Type 0 where
  idle : SendPc
  loaded : (current : ℕ) (packet : Option OutgoingPacket) → SendPc
  reserved : (packet : Option OutgoingPacket) → SendPc
  undo : SendPc

unfoldable pub send_step : Request → Shared → SendPc → Shared × SendPc
send_step r m idle = (m, loaded m.pending (outgoing_packet r.packet_type r.packet))
send_step r m (loaded current packet) =
    if leb outgoing_queue_depth current
    then (m, idle)
    else if m.pending == current && not r.spurious
    then (record m { pending = current + 1 }, reserved packet)
    else (m, loaded m.pending packet)
send_step r m (reserved none) = (m, undo)
send_step r m (reserved (some packet)) =
    if m.receiver_alive && ltb (length m.queue) outgoing_queue_depth
    then (record m { queue = m.queue ++ packet ∷ []; accepted = m.accepted ++ packet ∷ [] }, idle)
    else (m, undo)
send_step r m undo = (record m { pending = fetch_sub_one m.pending }, idle)
