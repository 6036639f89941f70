-- ===== src/Transport/Pipeline/Shutdown.antt =====
-- The writer ends after the stop flag is set.
use btstack_rs.Common.{
  ℕ, ◌+◌, ◌-◌, ◌*◌, ◌≤◌, ◌<◌, ◌≡◌, refl, true, false, Option, none, some, List, [], ◌∷◌, arith,
  is_some, get_elem?, All, ◌∙◌,
}
use btstack_rs.Transport.Types.{OutgoingPacket, command, acl, iso}
use btstack_rs.Transport.Nusb.{ok, stall, failed}
use btstack_rs.Transport.Pipeline.{System, Event, sends, writes, closes, start, step, send_at, run}
use btstack_rs.Transport.Pipeline.Send.{
  Shared, SendPc, idle, loaded, reserved, undo, Request, send_step,
}
use btstack_rs.Transport.Pipeline.Writer.{
  WriterPc, fill_test, receive, command_done, command_ack, cancel_test, empty_test, poll, completed,
  signal, exited, WriterState, Answers, received, step_at, writer_step,
}
use btstack_rs.Transport.Pipeline.Invariant.{Inv, AtPc, IsSound, run-start-IsSound, step-IsSound}

-- How many steps of the writer are left at most once the flag is set, besides six for each transfer
-- in flight.
abbrev rank : WriterPc → ℕ
rank exited = 0
rank poll = 0
rank empty_test = 1
rank cancel_test = 2
rank fill_test = 3
rank (signal _) = 4
rank (command_ack _) = 4
rank (completed _) = 5
rank (command_done _) = 5
rank receive = 10

abbrev pub steps_left : WriterState → ℕ
steps_left w = 6 * w.in_flight_out + rank w.pc

received-steps_left :
    (queue : List OutgoingPacket) (a : Answers) (m : Shared) (w : WriterState)
    → w.pc ≡ receive
    → m.sender_alive ≡ true
    → steps_left (received queue a m w).1 < steps_left w
unfolding received
received-steps_left [] a m w e s = ground arith
received-steps_left (command bytes ∷ rest) a m w e s = ground arith
received-steps_left (acl bytes ∷ rest) a m w e s = ground arith
received-steps_left (iso bytes ∷ rest) a m w e s = ground arith

step_at-steps_left :
    (pc : WriterPc) (a : Answers) (m : Shared) (w : WriterState)
    → w.pc ≡ pc
    → m.stop ≡ true
    → m.sender_alive ≡ true
    → AtPc pc m w
    → is_some a.completion ≡ true
    → steps_left (step_at pc a m w).1 ≤ steps_left w - 1
unfolding step_at
step_at-steps_left receive a m w e stop s at done =
    omega (arith, received-steps_left m.queue a m w e s)
step_at-steps_left exited a m w e stop s at done = ground arith
step_at-steps_left poll a m w e stop s at done = ground arith
step_at-steps_left (signal ok) a m w e stop s at done = ground arith
step_at-steps_left (signal stall) a m w e stop s at done = ground arith
step_at-steps_left (signal failed) a m w e stop s at done = ground arith
step_at-steps_left (command_ack true) a m w e stop s at done = ground arith
step_at-steps_left (command_ack false) a m w e stop s at done = ground arith
step_at-steps_left _ a m w e stop s at done = ground arith

pub send_at-stop :
    (i : ℕ) (r : Request) (s : System) (o : Option SendPc)
    → ((send_at i r s o).mem.stop ≡ s.mem.stop) × ((send_at i r s o).writer ≡ s.writer)
unfolding send_at send_step
send_at-stop i r s none = (refl, refl)
send_at-stop i r s (some idle) = ground arith
send_at-stop i r s (some (loaded current packet)) = ground arith
send_at-stop i r s (some (reserved none)) = ground arith
send_at-stop i r s (some (reserved (some packet))) = ground arith
send_at-stop i r s (some undo) = ground arith

received-stop :
    (queue : List OutgoingPacket) (a : Answers) (m : Shared) (w : WriterState)
    → (received queue a m w).0.stop ≡ m.stop
unfolding received
received-stop [] a m w = ground arith
received-stop (command bytes ∷ rest) a m w = refl
received-stop (acl bytes ∷ rest) a m w = refl
received-stop (iso bytes ∷ rest) a m w = refl

pub step_at-stop :
    (pc : WriterPc) (a : Answers) (m : Shared) (w : WriterState)
    → (step_at pc a m w).0.stop ≡ m.stop
unfolding step_at
step_at-stop receive a m w = received-stop m.queue a m w
step_at-stop (signal ok) a m w = refl
step_at-stop (signal stall) a m w = refl
step_at-stop (signal failed) a m w = refl
step_at-stop (command_ack true) a m w = refl
step_at-stop (command_ack false) a m w = refl
step_at-stop _ a m w = ground arith

-- The flag, once set, stays set.
pub step-stop : (e : Event) (s : System) → s.mem.stop ≡ true → (step e s).mem.stop ≡ true
unfolding step writer_step
step-stop (sends i r) s h = (send_at-stop i r s (get_elem? s.senders i)).0 ∙ h
step-stop (writes a) s h = step_at-stop s.writer.pc a s.mem s.writer ∙ h
step-stop closes s h = refl

pub closes-stop : (s : System) → (step closes s).mem.stop ≡ true
unfolding step
closes-stop s = refl

abbrev pub writes_in : List Event → ℕ
writes_in [] = 0
writes_in (writes _ ∷ es) = 1 + writes_in es
writes_in (_ ∷ es) = writes_in es

-- A poll of the writer in this step finds a completion.
abbrev pub Completes : Event → Type 0
Completes (writes a) = is_some a.completion ≡ true
Completes _ = Unit

abbrev pub cost : Event → ℕ
cost (writes _) = 1
cost _ = 0

step-steps_left :
    (e : Event) (s : System)
    → IsSound s
    → s.mem.stop ≡ true
    → Completes e
    → steps_left (step e s).writer ≤ steps_left s.writer - cost e
unfolding step writer_step
step-steps_left (sends i r) s v stop c =
    rw ((send_at-stop i r s (get_elem? s.senders i)).1) (omega arith)
step-steps_left (writes a) s v stop c =
    step_at-steps_left s.writer.pc a s.mem s.writer refl stop v.connected v.at_pc c
step-steps_left closes s v stop c = omega arith

run-steps_left :
    (es : List Event) (s : System)
    → IsSound s
    → s.mem.stop ≡ true
    → All Completes es
    → (steps_left (run es s).writer ≤ steps_left s.writer - writes_in es) × IsSound (run es s)
unfolding run
run-steps_left [] s v stop c = (omega arith, v)
run-steps_left (e ∷ es) s v stop c =
    let (later, sound) =
      run-steps_left es (step e s) (step-IsSound e s v) (step-stop e s stop) c.1 in
    (ground (arith, later, step-steps_left e s v stop c.0), sound)

steps_left-exited :
    (pc : WriterPc) (m : Shared) (w : WriterState)
    → w.pc ≡ pc
    → AtPc pc m w
    → steps_left w ≡ 0
    → pc ≡ exited
steps_left-exited exited m w e at z = refl
steps_left-exited poll m w e at z = ground arith
steps_left-exited _ m w e at z = ground arith

steps_left-le :
    (held : ℕ) (pc : WriterPc) (m : Shared) (w : WriterState)
    → w.pc ≡ pc
    → Inv held m w
    → steps_left w ≤ 29
steps_left-le held receive m w e v = ground arith
steps_left-le held _ m w e v = ground arith

pub exits_from :
    (after : List Event) (s : System)
    → IsSound s
    → s.mem.stop ≡ true
    → All Completes after
    → 29 ≤ writes_in after
    → (run after s).writer.pc ≡ exited
exits_from after s v stop c enough =
    let (left, v') = run-steps_left after s v stop c in
    steps_left-exited _ _ _ refl v'.at_pc
      (omega (arith, left, enough, steps_left-le _ _ _ s.writer refl v))

-- After `transport_close` has set the flag, the writer exits within 29 steps of its own, whatever
-- the senders do meanwhile, if each of its polls finds a completion, as after `cancel_all`.
run_exits :
    (n : ℕ) (before after : List Event)
    → All Completes after
    → 29 ≤ writes_in after
    → (run after (step closes (run before (start n)))).writer.pc ≡ exited
run_exits n before after c enough =
    let s = run before (start n) in
    exits_from after (step closes s) (step-IsSound closes s (run-start-IsSound n before))
      (closes-stop s) c enough
