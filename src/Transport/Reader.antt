-- ===== src/Transport/Reader.antt =====
-- The reader threads of btstack-hci-transport-nusb/src/io.rs: `spawn_event_reader`,
-- `spawn_acl_reader` and `cancel_and_drain_reader_queue`, over the queue interface of
-- Transport/Nusb. An iteration of the loop takes what it observes as an input.
pub mod Stopping
pub mod Stream
mod Tests
use btstack_rs.Common.{
  ℕ, zero, suc, ◌+◌, Bool, true, false, ◌&&◌, not, Option, none, some, List, [], ◌∷◌, ◌++◌, ◌==◌,
  if◌then◌else◌, length, as_u8,
}
use btstack_rs.Sys.{hci_event_packet, hci_acl_data_packet}
use btstack_rs.Transport.Constants.{
  event_transfer_size, acl_transfer_size, event_in_flight, acl_in_flight,
}
use btstack_rs.Transport.Types.{TransportState}
use btstack_rs.Transport.Events.{Delivery, emit_packet}
use btstack_rs.Transport.Nusb.{Status, ok, stall, failed, Completion, TransferQueue}

-- What differs between the two readers.
pub record Kind : Type 0 where
  pub packet_type : ℕ
  pub transfer_size : ℕ
  pub in_flight : ℕ

abbrev pub event_kind : Kind
event_kind = record {
  packet_type = as_u8 hci_event_packet;
  transfer_size = event_transfer_size;
  in_flight = event_in_flight;
}

abbrev pub acl_kind : Kind
acl_kind = record {
  packet_type = as_u8 hci_acl_data_packet;
  transfer_size = acl_transfer_size;
  in_flight = acl_in_flight;
}

-- What one iteration observes: the poll's answer, the stop flag, the state behind the mutex.
pub record Observed : Type 0 where
  pub poll : Option Completion
  pub stop : Bool
  pub state : TransportState

abbrev pub is_ok : Status → Bool
is_ok ok = true
is_ok _ = false

abbrev pub is_stall : Status → Bool
is_stall stall = true
is_stall _ = false

abbrev pub is_empty : List ℕ → Bool
is_empty [] = true
is_empty (_ ∷ _) = false

-- The packet of a completion, handed over only if it is `Ok` and not empty.
unfoldable pub deliver : Kind → TransportState → Completion → List Delivery
deliver kind state c =
    if is_ok c.status && not (is_empty c.bytes)
    then emit_packet state kind.packet_type c.bytes
    else []

module _ (𝓠 : TransferQueue) where
  open 𝓠 use {Queue, pending, submit, next_complete, clear_halt, cancel_all}

  -- The transfers submitted before the loop.
  unfoldable pub submit_times : ℕ → ℕ → Queue → Queue
  submit_times zero size q = q
  submit_times (suc n) size q = submit_times n size (submit q size)

  -- The `while` of `cancel_and_drain_reader_queue`, with fuel.
  unfoldable pub drain : ℕ → Queue → Queue
  drain zero q = q
  drain (suc fuel) q = let rest = drain fuel (next_complete q) in if pending q == 0 then q else rest

  unfoldable pub cancel_and_drain_reader_queue : Queue → Queue
  cancel_and_drain_reader_queue q = drain (pending (cancel_all q)) (cancel_all q)

  -- The rest of an iteration, after the poll has returned a completion.
  unfoldable pub complete : Kind → Bool → Completion → Queue → Queue
  complete kind stop c q =
      let q' = if is_stall c.status then clear_halt (next_complete q) else next_complete q in
      if stop then cancel_and_drain_reader_queue q' else submit q' kind.transfer_size

  -- One iteration of the loop, entered with a pending transfer.
  unfoldable pub iterate : Kind → Observed → Queue → Queue × List Delivery
  iterate kind o q = elim o.poll [
    | none ↦ (q, [])
    | some c ↦ (complete kind o.stop c q, deliver kind o.state c)
  ]

  -- The loop along a list of observations: whether it has exited, the queue, the deliveries.
  pub run : Kind → List Observed → Queue → Bool × Queue × List Delivery
  run kind [] q = (pending q == 0, q, [])
  run kind (o ∷ os) q =
      let (q', now) = iterate kind o q in
      let (exited, last, later) = run kind os q' in
      if pending q == 0 then (true, q, []) else (exited, last, now ++ later)

  -- The thread, from an empty queue.
  pub reader : Kind → List Observed → Queue → Bool × Queue × List Delivery
  reader kind os q = run kind os (submit_times kind.in_flight kind.transfer_size q)
