-- ===== src/Transport/Pipeline/Invariant/Sender.antt =====
-- A step of a sender keeps the invariant.
use btstack_rs.Common.{
  ℕ, ◌+◌, ◌≡◌, true, none, some, List, [], ◌∷◌, ◌++◌, arith, append_assoc, append-nil,
  length-append,
}
use btstack_rs.Transport.Types.{OutgoingPacket}
use btstack_rs.Transport.Pipeline.Send.{
  Shared, SendPc, idle, loaded, reserved, undo, Request, send_step,
}
use btstack_rs.Transport.Pipeline.Writer.{WriterState, WriterPc, exited}
use btstack_rs.Transport.Pipeline.Slots.{slot}
use btstack_rs.Transport.Pipeline.Invariant.Defs.{Inv, AtPc}

abbrev enqueue : Shared → OutgoingPacket → Shared
enqueue m p = record m { queue = m.queue ++ p ∷ []; accepted = m.accepted ++ p ∷ [] }

enqueue-ordered :
    (accepted usb queue dropped : List OutgoingPacket) (p : OutgoingPacket)
    → accepted ≡ usb ++ (queue ++ dropped)
    → dropped ≡ []
    → accepted ++ p ∷ [] ≡ usb ++ ((queue ++ p ∷ []) ++ dropped)
enqueue-ordered accepted usb queue dropped p h e = rw (h, e) (simp (append-nil, append_assoc))

-- While the receiver lives nothing has been dropped, and the queue may grow.
enqueue-AtPc :
    (pc : WriterPc) (m : Shared) (w : WriterState) (p : OutgoingPacket)
    → m.receiver_alive ≡ true
    → AtPc pc m w
    → (m.dropped ≡ []) × AtPc pc (enqueue m p) w
enqueue-AtPc exited m w p alive h = ground arith
enqueue-AtPc _ m w p alive h = ground arith

enqueue-Inv :
    (m : Shared) (w : WriterState) (p : OutgoingPacket) (others : ℕ)
    → m.receiver_alive ≡ true
    → Inv (others + 1) m w
    → Inv (others + 0) (enqueue m p) w
enqueue-Inv m w p others alive v =
    let (none_dropped, here) = enqueue-AtPc w.pc m w p alive v.at_pc in
    record {
      counted = omega (arith, length-append m.queue (p ∷ []), v.counted);
      bounded = v.bounded;
      ordered = enqueue-ordered m.accepted m.usb m.queue m.dropped p v.ordered none_dropped;
      few = v.few;
      decided = v.decided;
      connected = v.connected;
      at_pc = here;
    }

-- `others` is the number of slots that the other senders hold.
pub send_step-Inv :
    (r : Request) (m : Shared) (w : WriterState) (pc : SendPc) (others : ℕ)
    → Inv (others + slot pc) m w
    → Inv (others + slot (send_step r m pc).1) (send_step r m pc).0 w
unfolding send_step
send_step-Inv r m w idle others v = ground arith
send_step-Inv r m w (loaded current packet) others v = ground arith
send_step-Inv r m w (reserved none) others v = ground arith
send_step-Inv r m w (reserved (some packet)) others v =
    ground (arith, enqueue-Inv m w packet others)
send_step-Inv r m w undo others v = ground arith
