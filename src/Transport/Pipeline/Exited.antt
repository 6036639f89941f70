-- ===== src/Transport/Pipeline/Exited.antt =====
-- The pipeline after the writer has exited, whatever its senders still do.
use btstack_rs.Common.{
  ℕ, ◌≡◌, ◌∙◌, refl, sym, ap, subst, false, Option, none, some, arith, get_elem?,
}
use btstack_rs.Transport.Pipeline.{System, Event, sends, writes, closes, step, send_at}
use btstack_rs.Transport.Pipeline.Send.{
  Shared, SendPc, idle, loaded, reserved, undo, Request, send_step,
}
use btstack_rs.Transport.Pipeline.Writer.{
  WriterPc, WriterState, exited, Answers, writer_step, step_at,
}
use btstack_rs.Transport.Pipeline.Invariant.{IsSound, AtPc}
use btstack_rs.Transport.Pipeline.Shutdown.{send_at-stop}

-- No packet has been accepted, handed to USB or reported as sent.
abbrev pub SameMemory : Shared → Shared → Type 0
SameMemory m m' = (m'.accepted ≡ m.accepted) × (m'.usb ≡ m.usb) × (m'.sent_events ≡ m.sent_events)

send_step-SameMemory :
    (r : Request) (m : Shared) (pc : SendPc)
    → m.receiver_alive ≡ false
    → SameMemory m (send_step r m pc).0
unfolding send_step
send_step-SameMemory r m idle gone = ground arith
send_step-SameMemory r m (loaded current packet) gone = ground arith
send_step-SameMemory r m (reserved none) gone = ground arith
send_step-SameMemory r m (reserved (some packet)) gone = ground arith
send_step-SameMemory r m undo gone = ground arith

send_at-SameMemory :
    (i : ℕ) (r : Request) (s : System) (o : Option SendPc)
    → s.mem.receiver_alive ≡ false
    → SameMemory s.mem (send_at i r s o).mem
unfolding send_at
send_at-SameMemory i r s none gone = (refl, refl, refl)
send_at-SameMemory i r s (some pc) gone = send_step-SameMemory r s.mem pc gone

step_at-exited :
    (pc : WriterPc) (a : Answers) (m : Shared) (w : WriterState)
    → exited ≡ pc
    → step_at pc a m w ≡ (m, w)
unfolding step_at
step_at-exited pc a m w e = subst (λ x. step_at x a m w ≡ (m, w)) e refl

pub step-exited :
    (e : Event) (s : System)
    → IsSound s
    → s.writer.pc ≡ exited
    → SameMemory s.mem (step e s).mem × ((step e s).writer.pc ≡ exited)
unfolding step writer_step
step-exited (sends i r) s v gone =
    let o = get_elem? s.senders i in
    let at : AtPc exited s.mem s.writer = subst (λ x. AtPc x s.mem s.writer) gone v.at_pc in
    (send_at-SameMemory i r s o at.0, ap (λ w. w.pc) (send_at-stop i r s o).1 ∙ gone)
step-exited (writes a) s v gone =
    let same = step_at-exited s.writer.pc a s.mem s.writer (sym gone) in
    (subst (λ x. SameMemory s.mem x.0) (sym same) (refl, refl, refl), ap (λ x. x.1.pc) same ∙ gone)
step-exited closes s v gone = ((refl, refl, refl), gone)
