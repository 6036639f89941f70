-- ===== src/Transport/Pipeline/Accounts.antt =====
-- What becomes of the packets that the writer thread (btstack-hci-transport-nusb/src/io.rs) hands to
-- USB.
use btstack_rs.Common.{
  ℕ, ◌+◌, ◌≡◌, refl, ap, true, false, Option, none, some, List, [], ◌∷◌, arith, length,
  length-append, get_elem?,
}
use btstack_rs.Transport.Types.{OutgoingPacket, command, acl, iso}
use btstack_rs.Transport.Nusb.{ok, stall, failed}
use btstack_rs.Transport.Pipeline.{System, Event, sends, writes, closes, start, step, send_at, run}
use btstack_rs.Transport.Pipeline.Send.{
  Shared, SendPc, idle, loaded, reserved, undo, Request, send_step,
}
use btstack_rs.Transport.Pipeline.Writer.{
  WriterPc, receive, command_ack, poll, signal, exited, WriterState, Answers, received, step_at,
  writer_step,
}
use btstack_rs.Transport.Pipeline.Invariant.{
  IsSound, AtPc, undecided, run-start-IsSound, step-IsSound,
}

-- Whether this step of the writer passes over a packet whose transfer has not succeeded.
abbrev fails_at : WriterPc → ℕ
fails_at (signal stall) = 1
fails_at (signal failed) = 1
fails_at (command_ack false) = 1
fails_at _ = 0

abbrev fails : Event → System → ℕ
fails (writes _) s = fails_at s.writer.pc
fails _ s = 0

-- The failed transfers of a run.
abbrev pub failures : List Event → System → ℕ
failures [] s = 0
failures (e ∷ es) s = fails e s + failures es (step e s)

-- The packets reported as sent, in the writer's hands, or in flight.
abbrev pub known : Shared → WriterState → ℕ
known m w = m.sent_events + undecided w.pc + w.in_flight_out

abbrev IsBalanced : ℕ → Shared → WriterState → Shared × WriterState → Type 0
IsBalanced failed_now m w (m', w') =
    known m' w' + failed_now + length m.usb ≡ known m w + length m'.usb

received-IsBalanced :
    (queue : List OutgoingPacket) (a : Answers) (m : Shared) (w : WriterState)
    → w.pc ≡ receive
    → IsBalanced 0 m w (received queue a m w)
unfolding received
received-IsBalanced [] a m w e = ground arith
received-IsBalanced (command bytes ∷ rest) a m w e =
    ground (arith, length-append m.usb (command bytes ∷ []))
received-IsBalanced (acl bytes ∷ rest) a m w e =
    ground (arith, length-append m.usb (acl bytes ∷ []))
received-IsBalanced (iso bytes ∷ rest) a m w e =
    ground (arith, length-append m.usb (iso bytes ∷ []))

step_at-IsBalanced :
    (pc : WriterPc) (a : Answers) (m : Shared) (w : WriterState)
    → w.pc ≡ pc
    → AtPc pc m w
    → IsBalanced (fails_at pc) m w (step_at pc a m w)
unfolding step_at
step_at-IsBalanced receive a m w e at = received-IsBalanced m.queue a m w e
step_at-IsBalanced (signal ok) a m w e at = ground arith
step_at-IsBalanced (signal stall) a m w e at = ground arith
step_at-IsBalanced (signal failed) a m w e at = ground arith
step_at-IsBalanced (command_ack true) a m w e at = ground arith
step_at-IsBalanced (command_ack false) a m w e at = ground arith
step_at-IsBalanced exited a m w e at = ground arith
step_at-IsBalanced poll a m w e at = ground arith
step_at-IsBalanced _ a m w e at = ground arith

send_step-known :
    (r : Request) (m : Shared) (pc : SendPc)
    → ((send_step r m pc).0.sent_events ≡ m.sent_events) × ((send_step r m pc).0.usb ≡ m.usb)
unfolding send_step
send_step-known r m idle = (refl, refl)
send_step-known r m (loaded current packet) = ground arith
send_step-known r m (reserved none) = (refl, refl)
send_step-known r m (reserved (some packet)) = ground arith
send_step-known r m undo = (refl, refl)

send_at-IsBalanced :
    (i : ℕ) (r : Request) (s : System) (o : Option SendPc)
    → IsBalanced 0 s.mem s.writer ((send_at i r s o).mem, (send_at i r s o).writer)
unfolding send_at
send_at-IsBalanced i r s none = omega arith
send_at-IsBalanced i r s (some pc) =
    let (sent, usb) = send_step-known r s.mem pc in omega (arith, sent, ap length usb)

step-IsBalanced :
    (e : Event) (s : System)
    → IsSound s
    → IsBalanced (fails e s) s.mem s.writer ((step e s).mem, (step e s).writer)
unfolding step writer_step
step-IsBalanced (sends i r) s v = send_at-IsBalanced i r s (get_elem? s.senders i)
step-IsBalanced (writes a) s v = step_at-IsBalanced s.writer.pc a s.mem s.writer refl v.at_pc
step-IsBalanced closes s v = omega arith

run-IsBalanced :
    (es : List Event) (s : System)
    → IsSound s
    → IsBalanced (failures es s) s.mem s.writer ((run es s).mem, (run es s).writer)
unfolding run
run-IsBalanced [] s v = omega arith
run-IsBalanced (e ∷ es) s v =
    omega (arith, step-IsBalanced e s v, run-IsBalanced es (step e s) (step-IsSound e s v))

-- Each packet handed to USB is accounted for once: at every moment of every run, their number is that
-- of the packet-sent events, of the transfers that have failed, for which there is no event, of the
-- transfers in flight, and of the packet that the writer is about to decide, if any.
pub run-accounted :
    (n : ℕ) (es : List Event)
    → let s = run es (start n) in
      length s.mem.usb
      ≡ s.mem.sent_events + failures es (start n) + s.writer.in_flight_out + undecided s.writer.pc
run-accounted n es =
    let sound : IsSound (start n) = unfold run in run-start-IsSound n [] in
    let begun : (length (start n).mem.usb ≡ 0) × (known (start n).mem (start n).writer ≡ 0) =
      unfold start in (refl, refl) in
    omega (arith, run-IsBalanced es (start n) sound, begun)
