-- ===== src/Transport/Pipeline/Invariant/WriterThread.antt =====
-- A step of the writer keeps the invariant.
use btstack_rs.Common.{
  ℕ, ◌≡◌, refl, sym, true, false, List, [], ◌∷◌, ◌++◌, arith, append_assoc, append-nil,
  length-append,
}
use btstack_rs.Transport.Types.{OutgoingPacket, command, acl, iso}
use btstack_rs.Transport.Pipeline.Send.{Shared}
use btstack_rs.Transport.Nusb.{ok, stall, failed}
use btstack_rs.Transport.Pipeline.Writer.{
  WriterPc, fill_test, receive, command_done, command_ack, cancel_test, empty_test, poll, completed,
  signal, exited, WriterState, Answers, received, step_at, writer_step,
}
use btstack_rs.Transport.Pipeline.Invariant.Defs.{Inv}

-- The packet at the head of the queue is handed to USB.
taken-ordered :
    (accepted usb queue rest dropped : List OutgoingPacket) (p : OutgoingPacket)
    → accepted ≡ usb ++ (queue ++ dropped)
    → queue ≡ p ∷ rest
    → accepted ≡ (usb ++ p ∷ []) ++ (rest ++ dropped)
taken-ordered accepted usb queue rest dropped p h e =
    rw (h, e) (sym (append_assoc usb (p ∷ []) (rest ++ dropped)))

-- What is left in the queue is dropped.
exit-ordered :
    (accepted usb queue dropped : List OutgoingPacket)
    → accepted ≡ usb ++ (queue ++ dropped)
    → dropped ≡ []
    → accepted ≡ usb ++ queue
exit-ordered accepted usb queue dropped h e = rw (h, e) (simp append-nil)

received-Inv :
    (queue : List OutgoingPacket) (a : Answers) (m : Shared) (w : WriterState) (held : ℕ)
    → m.queue ≡ queue
    → w.pc ≡ receive
    → Inv held m w
    → Inv held (received queue a m w).0 (received queue a m w).1
unfolding received
received-Inv [] a m w held q e v = ground arith
received-Inv (command bytes ∷ rest) a m w held q e v = ground (
  arith,
  length-append m.usb (command bytes ∷ []),
  taken-ordered m.accepted m.usb m.queue rest m.dropped (command bytes),
)
received-Inv (acl bytes ∷ rest) a m w held q e v = ground (
  arith,
  length-append m.usb (acl bytes ∷ []),
  taken-ordered m.accepted m.usb m.queue rest m.dropped (acl bytes),
)
received-Inv (iso bytes ∷ rest) a m w held q e v = ground (
  arith,
  length-append m.usb (iso bytes ∷ []),
  taken-ordered m.accepted m.usb m.queue rest m.dropped (iso bytes),
)

step_at-Inv :
    (pc : WriterPc) (a : Answers) (m : Shared) (w : WriterState) (held : ℕ)
    → w.pc ≡ pc
    → Inv held m w
    → Inv held (step_at pc a m w).0 (step_at pc a m w).1
unfolding step_at
step_at-Inv fill_test a m w held e v = ground arith
step_at-Inv receive a m w held e v = received-Inv m.queue a m w held refl e v
step_at-Inv (command_done succeeded) a m w held e v = ground arith
step_at-Inv (command_ack true) a m w held e v = ground arith
step_at-Inv (command_ack false) a m w held e v = ground arith
step_at-Inv cancel_test a m w held e v = ground arith
step_at-Inv empty_test a m w held e v =
    ground (arith, exit-ordered m.accepted m.usb m.queue m.dropped)
step_at-Inv poll a m w held e v = ground arith
step_at-Inv (completed status) a m w held e v = ground arith
step_at-Inv (signal ok) a m w held e v = ground arith
step_at-Inv (signal stall) a m w held e v = ground arith
step_at-Inv (signal failed) a m w held e v = ground arith
step_at-Inv exited a m w held e v = ground arith

pub writer_step-Inv :
    (a : Answers) (m : Shared) (w : WriterState) (held : ℕ)
    → Inv held m w
    → Inv held (writer_step a m w).0 (writer_step a m w).1
unfolding writer_step
writer_step-Inv a m w held v = step_at-Inv w.pc a m w held refl v
