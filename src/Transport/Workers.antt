-- ===== src/Transport/Workers.antt =====
-- The threads of an open transport together: the two readers and the writer of
-- btstack-hci-transport-nusb/src/io.rs, the threads that send, and the thread in `transport_close`
-- (lib.rs), which sets the stop flag and joins the readers and the writer in turn. A run is a list of
-- steps in any order; a reader takes an iteration of its loop as a step.
mod Stages
pub mod Closing
mod Called
pub mod Joined
mod Tests
use btstack_rs.Common.{ℕ, Bool, true, false, Option, List, [], ◌∷◌, ◌++◌, ◌==◌, if◌then◌else◌}
use btstack_rs.Transport.Types.{TransportState}
use btstack_rs.Transport.Events.{Delivery}
use btstack_rs.Transport.Nusb.{Completion, TransferQueue}
use btstack_rs.Transport.Reader.{Kind, event_kind, acl_kind, submit_times, iterate}
use btstack_rs.Transport.Pipeline.{System, Event, sends, writes, closes, start, step}
use btstack_rs.Transport.Pipeline.Send.{Request}
use btstack_rs.Transport.Pipeline.Writer.{WriterPc, exited, Answers}

-- Where the thread in `transport_close` stands: it has not been called, it waits in a `join`, or it
-- has returned.
pub data CloserPc : Type 0 where
  uncalled join_events join_acl join_writer returned : CloserPc

pub record Workers (Queue : Type 0) : Type 0 where
  pub system : System
  pub events : Queue
  pub acl : Queue
  pub delivered : List Delivery
  pub closer : CloserPc

-- A step: of a sender, of the writer, of a reader with what its poll returns and the state behind the
-- mutex, or of the thread in `transport_close`.
pub data Task : Type 0 where
  sending : ℕ → Request → Task
  writing : Answers → Task
  reading_events : Option Completion → TransportState → Task
  reading_acl : Option Completion → TransportState → Task
  closing : Task

abbrev pub has_exited : WriterPc → Bool
has_exited exited = true
has_exited _ = false

module _ (𝓠 : TransferQueue) where
  open 𝓠 use {Queue, pending}

  -- An iteration of a reader, unless its loop has ended.
  pub read_step : Kind → Option Completion → TransportState → Bool → Queue → Queue × List Delivery
  read_step kind poll state stop q =
      if pending q == 0
      then (q, [])
      else iterate 𝓠 kind (record { poll = poll; stop = stop; state = state }) q

  -- `transport_close`, a store or a `join` at a time; a `join` returns if its thread has ended.
  pub close_step : CloserPc → Workers Queue → Workers Queue
  close_step uncalled w = record w { system = step closes w.system; closer = join_events }
  close_step join_events w = record w {
    closer = if pending w.events == 0 then join_acl else join_events;
  }
  close_step join_acl w = record w { closer = if pending w.acl == 0 then join_writer else join_acl }
  close_step join_writer w = record w {
    closer = if has_exited w.system.writer.pc then returned else join_writer;
  }
  close_step returned w = record w { closer = returned }

  pub work : Task → Workers Queue → Workers Queue
  unfolding read_step close_step
  work (sending i request) w = record w { system = step (sends i request) w.system }
  work (writing answers) w = record w { system = step (writes answers) w.system }
  work (reading_events poll state) w =
      let (q, now) = read_step event_kind poll state w.system.mem.stop w.events in
      record w { events = q; delivered = w.delivered ++ now }
  work (reading_acl poll state) w =
      let (q, now) = read_step acl_kind poll state w.system.mem.stop w.acl in
      record w { acl = q; delivered = w.delivered ++ now }
  work closing w = close_step w.closer w

  pub works : List Task → Workers Queue → Workers Queue
  unfolding work
  works [] w = w
  works (t ∷ ts) w = works ts (work t w)

  -- What `transport_open` leaves running, over two empty queues, beside `n` threads that may send.
  pub opened : ℕ → Queue → Queue → Workers Queue
  opened n q q' = record {
    system = start n;
    events = submit_times 𝓠 event_kind.in_flight event_kind.transfer_size q;
    acl = submit_times 𝓠 acl_kind.in_flight acl_kind.transfer_size q';
    delivered = [];
    closer = uncalled;
  }
