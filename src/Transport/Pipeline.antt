-- ===== src/Transport/Pipeline.antt =====
-- Sending as it runs: threads in `transport_send_packet` (lib.rs) with `try_reserve_send_slot`
-- (io.rs), the writer thread `spawn_writer` (io.rs) and a thread in `transport_close` (lib.rs), of
-- btstack-hci-transport-nusb/src, over one counter, one flag and one bounded channel. Each access of
-- shared memory is a step of its own; a run is a list of steps in any order.
pub mod Send
pub mod Writer
mod Slots
pub mod Invariant
pub mod Safety
pub mod Shutdown
pub mod Growth
pub mod Progress
mod Waiting
pub mod Granted
pub mod Exited
pub mod Accounts
pub mod LockFree
mod WorkLeft
pub mod Drain
pub mod Solo
pub mod Alone
mod Samples
mod Tests
mod SendTests
use btstack_rs.Common.{
  ℕ, Bool, true, false, Option, none, some, List, [], ◌∷◌, get_elem?, set, replicate,
}
use Send.{Shared, Request, SendPc, idle, send_step, empty_channel}
use Writer.{WriterState, Answers, writer_step, new_writer}

pub record System : Type 0 where
  pub mem : Shared
  pub writer : WriterState
  pub senders : List SendPc

-- One step: of a sender, of the writer, or the store of the stop flag by `transport_close`.
pub data Event : Type 0 where
  sends : ℕ → Request → Event
  writes : Answers → Event
  closes : Event

-- After `transport_open`: `n` threads that may send.
unfoldable pub start : ℕ → System
start n = record { mem = empty_channel; writer = new_writer; senders = replicate n idle }

pub send_at : ℕ → Request → System → Option SendPc → System
send_at i request s none = s
send_at i request s (some pc) =
    let (mem, pc') = send_step request s.mem pc in
    record s { mem = mem; senders = set s.senders i pc' }

-- A step of a sender that does not exist does nothing.
unfoldable pub step : Event → System → System
unfolding send_at
step (sends i request) s = send_at i request s (get_elem? s.senders i)
step (writes answers) s =
    let (mem, writer) = writer_step answers s.mem s.writer in
    record s { mem = mem; writer = writer }
step closes s = record s { mem = record s.mem { stop = true } }

unfoldable pub run : List Event → System → System
unfolding step
run [] s = s
run (e ∷ es) s = run es (step e s)
