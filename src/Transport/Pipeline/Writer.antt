-- ===== src/Transport/Pipeline/Writer.antt =====
-- The writer thread: `spawn_writer` of btstack-hci-transport-nusb/src/io.rs, a shared access or a
-- test at a time.
use btstack_rs.Common.{
  ℕ, ◌+◌, ◌-◌, Bool, true, false, not, ◌&&◌, Option, none, some, List, [], ◌∷◌, ◌++◌, ◌==◌, ltb,
  if◌then◌else◌, fetch_sub_one,
}
use btstack_rs.Transport.Constants.{acl_out_in_flight}
use btstack_rs.Transport.Types.{OutgoingPacket, command, acl, iso}
use btstack_rs.Transport.Nusb.{Status, ok, stall, failed, ControlOut, class, device}
use btstack_rs.Transport.Pipeline.Send.{Shared}

-- Where the writer stands.
pub data WriterPc : Type 0 where
  fill_test : WriterPc  -- the test of the inner loop
  receive : WriterPc  -- `recv_timeout`
  command_done : (succeeded : Bool) → WriterPc  -- before `fetch_sub`, after the control transfer
  command_ack : (succeeded : Bool) → WriterPc  -- after it
  cancel_test : WriterPc  -- below the inner loop
  empty_test : WriterPc
  poll : WriterPc
  completed : (status : Status) → WriterPc  -- before `fetch_sub`, after a completion
  signal : (status : Status) → WriterPc  -- after it
  exited : WriterPc

pub record WriterState : Type 0 where
  pub pc : WriterPc
  pub in_flight_out : ℕ
  pub cancelled : Bool

abbrev pub new_writer : WriterState
new_writer = record { pc = fill_test; in_flight_out = 0; cancelled = false }

-- What USB answers in this step: to a control transfer, and to a poll of the bulk queue.
pub record Answers : Type 0 where
  pub control_out : ControlOut → Bool
  pub completion : Option Status

abbrev pub goto : WriterState → WriterPc → WriterState
goto w pc = record w { pc = pc }

-- The closure ends: the receiver is dropped, and with it what it has not given out.
pub exit : Shared → WriterState → Shared × WriterState
exit m w = (record m { receiver_alive = false; queue = []; dropped = m.queue }, goto w exited)

-- Whether the control transfer of a command succeeded.
unfoldable pub send_hci_command : (ControlOut → Bool) → List ℕ → Bool
send_hci_command control_out packet = control_out (record {
  control_type = class;
  recipient = device;
  request = 0;
  value = 0;
  index = 0;
  data_ = packet;
})

unfoldable pub received :
    List OutgoingPacket → Answers → Shared → WriterState → Shared × WriterState
unfolding exit
received [] a m w = if m.sender_alive then (m, goto w cancel_test) else exit m w
received (command bytes ∷ rest) a m w = (
  record m { queue = rest; usb = m.usb ++ command bytes ∷ [] },
  goto w (command_done (send_hci_command a.control_out bytes)),
)
received (acl bytes ∷ rest) a m w = (
  record m { queue = rest; usb = m.usb ++ acl bytes ∷ [] },
  record w { pc = fill_test; in_flight_out = w.in_flight_out + 1 },
)
received (iso bytes ∷ rest) a m w = (
  record m { queue = rest; usb = m.usb ++ iso bytes ∷ [] },
  record w { pc = fill_test; in_flight_out = w.in_flight_out + 1 },
)

pub polled : Option Status → Shared → WriterState → Shared × WriterState
polled none m w = (m, goto w fill_test)
polled (some status) m w =
    (m, record w { pc = completed status; in_flight_out = w.in_flight_out - 1 })

unfoldable pub step_at : WriterPc → Answers → Shared → WriterState → Shared × WriterState
unfolding exit received polled
step_at fill_test a m w =
    if ltb w.in_flight_out acl_out_in_flight && not m.stop
    then (m, goto w receive)
    else (m, goto w cancel_test)
step_at receive a m w = received m.queue a m w
step_at (command_done succeeded) a m w =
    (record m { pending = fetch_sub_one m.pending }, goto w (command_ack succeeded))
step_at (command_ack true) a m w = (record m { sent_events = m.sent_events + 1 }, goto w fill_test)
step_at (command_ack false) a m w = (m, goto w fill_test)
-- With `cancel_all` on the bulk queue, whose effect is in the completions that follow.
step_at cancel_test a m w =
    if m.stop && not w.cancelled
    then (m, record w { pc = empty_test; cancelled = true })
    else (m, goto w empty_test)
step_at empty_test a m w =
    if w.in_flight_out == 0
    then (if m.stop then exit m w else (m, goto w fill_test))
    else (m, goto w poll)
step_at poll a m w = polled a.completion m w
step_at (completed status) a m w =
    (record m { pending = fetch_sub_one m.pending }, goto w (signal status))
step_at (signal ok) a m w = (record m { sent_events = m.sent_events + 1 }, goto w fill_test)
step_at (signal stall) a m w = (m, goto w fill_test)
step_at (signal failed) a m w = (m, goto w fill_test)
step_at exited a m w = (m, w)

unfoldable pub writer_step : Answers → Shared → WriterState → Shared × WriterState
unfolding step_at
writer_step a m w = step_at w.pc a m w
