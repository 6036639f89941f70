-- ===== src/Transport/Pipeline/Invariant/Defs.antt =====
-- The invariant of the pipeline.
use btstack_rs.Common.{ℕ, ◌+◌, ◌≤◌, ◌<◌, ◌≡◌, true, false, [], ◌++◌, length}
use btstack_rs.Transport.Constants.{outgoing_queue_depth, acl_out_in_flight}
use btstack_rs.Transport.Pipeline.Send.{Shared}
use btstack_rs.Transport.Pipeline.Writer.{
  WriterPc, receive, command_done, command_ack, poll, completed, signal, exited, WriterState,
}

-- A packet taken from the queue whose slot the writer has not given back, besides those in flight.
abbrev pub writer_slot : WriterPc → ℕ
writer_slot (command_done _) = 1
writer_slot (completed _) = 1
writer_slot _ = 0

-- A packet handed to USB that is not in flight and whose event is not yet decided.
abbrev pub undecided : WriterPc → ℕ
undecided (command_done _) = 1
undecided (command_ack _) = 1
undecided (completed _) = 1
undecided (signal _) = 1
undecided _ = 0

-- What the place of the writer says of the rest.
abbrev pub AtPc : WriterPc → Shared → WriterState → Type 0
AtPc receive m w =
    (m.receiver_alive ≡ true) × (m.dropped ≡ []) × (w.in_flight_out < acl_out_in_flight)
AtPc poll m w = (m.receiver_alive ≡ true) × (m.dropped ≡ []) × (0 < w.in_flight_out)
AtPc exited m w =
    (m.receiver_alive ≡ false) × (m.queue ≡ []) × (w.in_flight_out ≡ 0) × (m.stop ≡ true)
AtPc _ m w = (m.receiver_alive ≡ true) × (m.dropped ≡ [])

-- `held` is the number of slots that the senders hold.
pub record Inv (held : ℕ) (m : Shared) (w : WriterState) : Type 0 where
  pub counted :
      m.pending ≡ held + length m.queue + writer_slot w.pc + w.in_flight_out + length m.dropped
  pub bounded : m.pending ≤ outgoing_queue_depth
  pub ordered : m.accepted ≡ m.usb ++ (m.queue ++ m.dropped)
  pub few : w.in_flight_out ≤ acl_out_in_flight
  pub decided : m.sent_events + undecided w.pc + w.in_flight_out ≤ length m.usb
  pub connected : m.sender_alive ≡ true
  pub at_pc : AtPc w.pc m w
