-- ===== src/Transport/Pipeline/Growth.antt =====
-- What a step of the pipeline only appends to.
use btstack_rs.Common.{
  ℕ, ◌≤◌, ◌≡◌, ◌∙◌, inl, inr, refl, true, false, Option, none, some, List, [], ◌∷◌, ◌++◌,
  append-nil, append_assoc, sym, ap, Bool-cases, ◌&&◌, arith, get_elem?, ltb, length, length-append,
}
use btstack_rs.Transport.Constants.{outgoing_queue_depth}
use btstack_rs.Transport.Types.{OutgoingPacket, command, acl, iso}
use btstack_rs.Transport.Nusb.{ok, stall, failed}
use btstack_rs.Transport.Pipeline.{System, Event, sends, writes, closes, step, send_at, run}
use btstack_rs.Transport.Pipeline.Send.{
  Shared, SendPc, idle, loaded, reserved, undo, Request, send_step,
}
use btstack_rs.Transport.Pipeline.Writer.{
  WriterPc, receive, command_ack, signal, WriterState, Answers, received, step_at, writer_step,
}
use btstack_rs.Transport.Pipeline.Shutdown.{send_at-stop, step_at-stop}

received-usb :
    (queue : List OutgoingPacket) (a : Answers) (m : Shared) (w : WriterState)
    → (length m.usb ≤ length (received queue a m w).0.usb)
      × ((received queue a m w).0.accepted ≡ m.accepted)
unfolding received
received-usb [] a m w = ground arith
received-usb (command bytes ∷ rest) a m w =
    (omega (arith, length-append m.usb (command bytes ∷ [])), refl)
received-usb (acl bytes ∷ rest) a m w = (omega (arith, length-append m.usb (acl bytes ∷ [])), refl)
received-usb (iso bytes ∷ rest) a m w = (omega (arith, length-append m.usb (iso bytes ∷ [])), refl)

pub step_at-usb :
    (pc : WriterPc) (a : Answers) (m : Shared) (w : WriterState)
    → (length m.usb ≤ length (step_at pc a m w).0.usb)
      × ((step_at pc a m w).0.accepted ≡ m.accepted)
unfolding step_at
step_at-usb receive a m w = received-usb m.queue a m w
step_at-usb (signal ok) a m w = ground arith
step_at-usb (signal stall) a m w = ground arith
step_at-usb (signal failed) a m w = ground arith
step_at-usb (command_ack true) a m w = ground arith
step_at-usb (command_ack false) a m w = ground arith
step_at-usb _ a m w = ground arith

-- What is accepted is only appended to.
abbrev pub Extends : List OutgoingPacket → List OutgoingPacket → Type 0
Extends xs ys = (more : List OutgoingPacket) × (ys ≡ xs ++ more)

Extends-refl : (xs : List OutgoingPacket) → Extends xs xs
Extends-refl xs = ([], sym (append-nil xs))

send_step-usb : (r : Request) (m : Shared) (pc : SendPc) → (send_step r m pc).0.usb ≡ m.usb
unfolding send_step
send_step-usb r m idle = refl
send_step-usb r m (loaded current packet) = ground arith
send_step-usb r m (reserved none) = refl
send_step-usb r m (reserved (some packet)) = ground arith
send_step-usb r m undo = refl

send_step-Extends :
    (r : Request) (m : Shared) (pc : SendPc) → Extends m.accepted (send_step r m pc).0.accepted
unfolding send_step
send_step-Extends r m idle = Extends-refl m.accepted
send_step-Extends r m (loaded current packet) = ([], ground (arith, append-nil m.accepted))
send_step-Extends r m (reserved none) = Extends-refl m.accepted
send_step-Extends r m (reserved (some packet)) =
    elim (Bool-cases (m.receiver_alive && ltb (length m.queue) outgoing_queue_depth)) [
      | inl room ↦ (packet ∷ [], rw room refl)
      | inr none_ ↦ ([], rw none_ (sym (append-nil m.accepted)))
    ]
send_step-Extends r m undo = Extends-refl m.accepted

pub send_at-grows :
    (i : ℕ) (r : Request) (s : System) (o : Option SendPc)
    → ((send_at i r s o).mem.usb ≡ s.mem.usb)
      × Extends s.mem.accepted (send_at i r s o).mem.accepted
unfolding send_at
send_at-grows i r s none = (refl, Extends-refl s.mem.accepted)
send_at-grows i r s (some pc) = (send_step-usb r s.mem pc, send_step-Extends r s.mem pc)

-- The transport is not closed by this event.
abbrev pub IsOpen : Event → Type 0
IsOpen closes = ⊥
IsOpen _ = Unit

pub step-stop_open : (e : Event) (s : System) → IsOpen e → (step e s).mem.stop ≡ s.mem.stop
unfolding step writer_step
step-stop_open (sends i r) s o = (send_at-stop i r s (get_elem? s.senders i)).0
step-stop_open (writes a) s o = step_at-stop s.writer.pc a s.mem s.writer
step-stop_open closes s o = absurd o

pub step-grows :
    (e : Event) (s : System)
    → (length s.mem.usb ≤ length (step e s).mem.usb)
      × Extends s.mem.accepted (step e s).mem.accepted
unfolding step writer_step
step-grows (sends i r) s =
    let (usb, accepted) = send_at-grows i r s (get_elem? s.senders i) in
    (omega (arith, ap length usb), accepted)
step-grows (writes a) s =
    let (usb, accepted) = step_at-usb s.writer.pc a s.mem s.writer in
    (usb, ([], accepted ∙ sym (append-nil s.mem.accepted)))
step-grows closes s = (omega arith, Extends-refl s.mem.accepted)

Extends-trans : (xs ys zs : List OutgoingPacket) → Extends xs ys → Extends ys zs → Extends xs zs
Extends-trans xs ys zs (a, p) (b, q) = (a ++ b, q ∙ ap (λ l. l ++ b) p ∙ append_assoc xs a b)

pub run-grows :
    (es : List Event) (s : System)
    → (length s.mem.usb ≤ length (run es s).mem.usb)
      × Extends s.mem.accepted (run es s).mem.accepted
unfolding run
run-grows [] s = (omega arith, Extends-refl s.mem.accepted)
run-grows (e ∷ es) s =
    let (usb, accepted) = step-grows e s in
    let (usb', accepted') = run-grows es (step e s) in
    (omega (arith, usb, usb'), Extends-trans _ _ _ accepted accepted')

pub length-Extends : (xs ys : List OutgoingPacket) → Extends xs ys → length xs ≤ length ys
length-Extends xs ys (more, e) = omega (arith, ap length e, length-append xs more)

-- What ends no later than the front of an equal list is a part of the front.
pub Extends-front :
    (xs ys us vs : List OutgoingPacket)
    → us ++ vs ≡ xs ++ ys
    → length xs ≤ length us
    → Extends xs us
Extends-front [] ys us vs e le = (us, refl)
Extends-front (x ∷ xs) ys [] vs e le = absurd (omega arith)
Extends-front (x ∷ xs) ys (u ∷ us) vs e le =
    let (more, same) = Extends-front xs ys us vs (ground arith) (omega arith) in
    (more, ground arith)
