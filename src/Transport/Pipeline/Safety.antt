-- ===== src/Transport/Pipeline/Safety.antt =====
-- What every run of the pipeline guarantees, whatever the interleaving.
use btstack_rs.Common.{
  ℕ, zero, suc, ◌+◌, ◌≤◌, ◌≡◌, ◌⊎◌, true, some, List, [], ◌∷◌, ◌++◌, arith, length, get_elem?,
}
use btstack_rs.Transport.Constants.{outgoing_queue_depth, acl_out_in_flight}
use btstack_rs.Transport.Types.{OutgoingPacket}
use btstack_rs.Transport.Pipeline.{System, Event, start, run}
use btstack_rs.Transport.Pipeline.Send.{SendPc, idle, reserved, Request, send_step}
use btstack_rs.Transport.Pipeline.Writer.{WriterPc, exited}
use btstack_rs.Transport.Pipeline.Slots.{slot, slots}
use btstack_rs.Transport.Pipeline.Invariant.{AtPc, writer_slot, run-start-IsSound}

-- The counter never passes the queue depth, and at every moment it is the number of the slots held
-- by senders, of the packets queued, of the packet in the writer's hands, of the transfers in flight
-- and of the packets lost with the receiver. So no slot leaks, and none is given back twice.
pub run-counted :
    (n : ℕ) (es : List Event)
    → let s = run es (start n) in
      (s.mem.pending ≤ outgoing_queue_depth)
      × (s.mem.pending
          ≡ slots s.senders
            + length s.mem.queue
            + writer_slot s.writer.pc
            + s.writer.in_flight_out
            + length s.mem.dropped)
      × (s.writer.in_flight_out ≤ acl_out_in_flight)
run-counted n es = let v = run-start-IsSound n es in (v.bounded, v.counted, v.few)

slot-le-slots :
    (pcs : List SendPc) (i : ℕ) (pc : SendPc) → get_elem? pcs i ≡ some pc → slot pc ≤ slots pcs
slot-le-slots [] i pc h = ground arith
slot-le-slots (x ∷ pcs) zero pc h = ground arith
slot-le-slots (x ∷ pcs) (suc i) pc h = omega (arith, slot-le-slots pcs i pc h)

-- A sender that has reserved a slot for a packet never meets a full queue: while the receiver lives,
-- its `try_send` appends the packet.
reserved_never_full :
    (n : ℕ) (es : List Event) (i : ℕ) (packet : OutgoingPacket) (request : Request)
    → get_elem? (run es (start n)).senders i ≡ some (reserved (some packet))
    → (run es (start n)).mem.receiver_alive ≡ true
    → let m = (run es (start n)).mem in
      send_step request m (reserved (some packet))
      ≡ (record m { queue = m.queue ++ packet ∷ []; accepted = m.accepted ++ packet ∷ [] }, idle)
unfolding send_step
reserved_never_full n es i packet request h alive =
    let v = run-start-IsSound n es in
    let mine = slot-le-slots _ i (reserved (some packet)) h in
    ground (arith, v.counted, v.bounded, mine)

AtPc-lost :
    (pc : WriterPc) (s : System)
    → AtPc pc s.mem s.writer
    → (s.mem.dropped ≡ [])
      ⊎ ((pc ≡ exited) × (s.mem.stop ≡ true) × (s.mem.queue ≡ []) × (s.writer.in_flight_out ≡ 0))
AtPc-lost exited s h = ground arith
AtPc-lost _ s h = ground arith

-- Packets are handed to USB in the order in which the channel accepted them, each once: those
-- accepted are those handed over, then those in the queue, then those lost. None is lost unless the
-- writer has exited, which it does only after the stop flag is set and with no transfer in flight.
pub run-ordered :
    (n : ℕ) (es : List Event)
    → let s = run es (start n) in
      (s.mem.accepted ≡ s.mem.usb ++ (s.mem.queue ++ s.mem.dropped))
      × ((s.mem.dropped ≡ [])
          ⊎ ((s.writer.pc ≡ exited)
              × (s.mem.stop ≡ true)
              × (s.mem.queue ≡ [])
              × (s.writer.in_flight_out ≡ 0)))
run-ordered n es =
    let v = run-start-IsSound n es in (v.ordered, AtPc-lost _ (run es (start n)) v.at_pc)

-- There are never more packet-sent events than packets handed to USB that are no longer in flight.
run-sent_events :
    (n : ℕ) (es : List Event)
    → let s = run es (start n) in s.mem.sent_events + s.writer.in_flight_out ≤ length s.mem.usb
run-sent_events n es = let v = run-start-IsSound n es in omega (arith, v.decided)
