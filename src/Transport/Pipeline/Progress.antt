-- ===== src/Transport/Pipeline/Progress.antt =====
-- The writer keeps up: what the channel has accepted reaches USB while the transport is open.
use btstack_rs.Common.{
  ℕ, ◌+◌, ◌-◌, ◌*◌, ◌≤◌, ◌<◌, ◌≡◌, ◌∙◌, ◌⊎◌, inl, inr, refl, true, false, List, [], ◌∷◌, ◌++◌, sym,
  ap, Bool-cases, ltb→lt, arith, is_some, get_elem?, All, ltb, if◌then◌else◌, length, length-append,
}
use btstack_rs.Transport.Constants.{acl_out_in_flight}
use btstack_rs.Transport.Types.{OutgoingPacket, command, acl, iso}
use btstack_rs.Transport.Nusb.{ok, stall, failed}
use btstack_rs.Transport.Pipeline.{System, Event, sends, writes, closes, start, step, run}
use btstack_rs.Transport.Pipeline.Send.{Shared}
use btstack_rs.Transport.Pipeline.Writer.{
  WriterPc, fill_test, receive, command_done, command_ack, cancel_test, empty_test, poll, completed,
  signal, exited, WriterState, Answers, received, step_at, writer_step,
}
use btstack_rs.Transport.Pipeline.Invariant.{
  Inv, AtPc, IsSound, run-start-IsSound, run-IsSound, step-IsSound,
}
use btstack_rs.Transport.Pipeline.Growth.{
  Extends, Extends-front, length-Extends, send_at-grows, IsOpen, step-stop_open, step-grows,
  run-grows,
}
use btstack_rs.Transport.Pipeline.Shutdown.{Completes, cost, writes_in, send_at-stop}

-- Six steps more if the bulk queue is full, since a completion has to come first.
abbrev full : WriterState → ℕ
full w = if ltb w.in_flight_out acl_out_in_flight then 0 else 6

-- How many steps of the writer it takes at most to hand over the next packet.
abbrev distance : WriterPc → WriterState → ℕ
distance receive w = 1
distance fill_test w = 2 + full w
distance (command_ack _) w = 3 + full w
distance (command_done _) w = 4 + full w
distance (signal _) w = 3 + full w
distance (completed _) w = 4 + full w
distance poll w = 5
distance empty_test w = 6
distance cancel_test w = 7
distance exited w = 0

-- The steps until `goal` packets have been handed over.
abbrev potential : ℕ → Shared → WriterState → ℕ
potential goal m w = 10 * (goal - length m.usb) + distance w.pc w

-- A step of the writer hands over the last packet that is missing, or comes nearer to it.
abbrev Advances : ℕ → ℕ → Shared × WriterState → Type 0
Advances goal before (m, w) = (goal ≤ length m.usb) ⊎ (potential goal m w + 1 ≤ before)

received-Advances :
    (queue : List OutgoingPacket) (a : Answers) (m : Shared) (w : WriterState) (goal : ℕ)
    → w.pc ≡ receive
    → goal ≤ length m.usb + length queue
    → length m.usb < goal
    → m.sender_alive ≡ true
    → w.in_flight_out < acl_out_in_flight
    → Advances goal (potential goal m w) (received queue a m w)
unfolding received
received-Advances [] a m w goal e enough more s few = absurd (omega arith)
received-Advances (command bytes ∷ rest) a m w goal e enough more s few =
    inr (ground (arith, length-append m.usb (command bytes ∷ [])))
received-Advances (acl bytes ∷ rest) a m w goal e enough more s few =
    inr (ground (arith, length-append m.usb (acl bytes ∷ [])))
received-Advances (iso bytes ∷ rest) a m w goal e enough more s few =
    inr (ground (arith, length-append m.usb (iso bytes ∷ [])))

step_at-Advances :
    (pc : WriterPc) (a : Answers) (m : Shared) (w : WriterState) (goal held : ℕ)
    → w.pc ≡ pc
    → m.stop ≡ false
    → Inv held m w
    → AtPc pc m w
    → is_some a.completion ≡ true
    → goal ≤ length m.accepted
    → length m.usb < goal
    → Advances goal (potential goal m w) (step_at pc a m w)
unfolding step_at
step_at-Advances receive a m w goal held e stop v at done enough more =
    received-Advances m.queue a m w goal e
      (ground (
        arith,
        v.ordered,
        length-append m.usb (m.queue ++ m.dropped),
        length-append m.queue m.dropped,
      ))
      more v.connected at.2
step_at-Advances exited a m w goal held e stop v at done enough more = ground arith
step_at-Advances poll a m w goal held e stop v at done enough more = inr (ground (arith, v.few))
step_at-Advances (signal ok) a m w goal held e stop v at done enough more = inr (ground arith)
step_at-Advances (signal stall) a m w goal held e stop v at done enough more = inr (ground arith)
step_at-Advances (signal failed) a m w goal held e stop v at done enough more = inr (ground arith)
step_at-Advances (command_ack true) a m w goal held e stop v at done enough more =
    inr (ground arith)
step_at-Advances (command_ack false) a m w goal held e stop v at done enough more =
    inr (ground arith)
step_at-Advances _ a m w goal held e stop v at done enough more = inr (ground arith)

step-Advances :
    (e : Event) (s : System) (goal : ℕ)
    → IsSound s
    → s.mem.stop ≡ false
    → Completes e
    → IsOpen e
    → goal ≤ length s.mem.accepted
    → length s.mem.usb < goal
    → (goal ≤ length (step e s).mem.usb)
      ⊎ (potential goal (step e s).mem (step e s).writer + cost e ≤ potential goal s.mem s.writer)
unfolding step writer_step
step-Advances (sends i r) s goal v stop c o enough more =
    let usb = ap length (send_at-grows i r s (get_elem? s.senders i)).0 in
    let same = (send_at-stop i r s (get_elem? s.senders i)).1 in inr (rw same (omega (arith, usb)))
step-Advances (writes a) s goal v stop c o enough more =
    step_at-Advances s.writer.pc a s.mem s.writer goal _ refl stop v v.at_pc c enough more
step-Advances closes s goal v stop c o enough more = absurd o

-- What one event takes off the steps that are given.
cost-left :
    (e : Event) (es : List Event) {before after : ℕ}
    → before ≤ writes_in (e ∷ es)
    → after + cost e ≤ before
    → after ≤ writes_in es
cost-left (sends i r) es p q = omega arith
cost-left (writes a) es p q = omega arith
cost-left closes es p q = omega arith

run-reaches :
    (es : List Event) (s : System) (goal : ℕ)
    → IsSound s
    → s.mem.stop ≡ false
    → All Completes es
    → All IsOpen es
    → goal ≤ length s.mem.accepted
    → potential goal s.mem s.writer ≤ writes_in es
    → goal ≤ length (run es s).mem.usb
unfolding run
run-reaches [] s goal v stop c o enough left = omega arith
run-reaches (e ∷ es) s goal v stop c o enough left =
    let s' : System = step e s in
    let (_, grown) = step-grows e s in
    let later = λ (left' : potential goal s'.mem s'.writer ≤ writes_in es).
      run-reaches es s' goal (step-IsSound e s v) (step-stop_open e s o.0 ∙ stop) c.1 o.1
        (omega (arith, enough, length-Extends _ _ grown)) left' in
    elim (Bool-cases (ltb (length s.mem.usb) goal)) [
      | inr there ↦ ground (arith, (run-grows (e ∷ es) s).0)
      | inl more ↦ elim (step-Advances e s goal v stop c.0 o.0 enough (ltb→lt _ _ more)) [
        | inl reached ↦ omega (arith, reached, (run-grows es s').0)
        | inr nearer ↦ later (cost-left e es left nearer)
      ]
    ]

pub run-stop_open :
    (es : List Event) (s : System) → All IsOpen es → (run es s).mem.stop ≡ s.mem.stop
unfolding run
run-stop_open [] s o = refl
run-stop_open (e ∷ es) s (o, os) = run-stop_open es (step e s) os ∙ step-stop_open e s o

distance-le : (pc : WriterPc) (w : WriterState) → distance pc w ≤ 10
distance-le receive w = ground arith
distance-le _ w = ground arith

AtPc-dropped :
    (pc : WriterPc) (m : Shared) (w : WriterState) → m.stop ≡ false → AtPc pc m w → m.dropped ≡ []
AtPc-dropped exited m w stop at = ground arith
AtPc-dropped _ m w stop at = ground arith

-- While the transport is open, the writer hands over what the channel has accepted, in that order,
-- whatever the senders do meanwhile: ten steps of its own for each packet in the queue and ten more
-- are enough, if each of its polls finds a completion.
pub run_delivers :
    (n : ℕ) (before after : List Event)
    → All IsOpen before
    → All IsOpen after
    → All Completes after
    → 10 * length (run before (start n)).mem.queue + 10 ≤ writes_in after
    → Extends (run before (start n)).mem.accepted (run after (run before (start n))).mem.usb
run_delivers n before after o o' c enough =
    let s : System = run before (start n) in
    let v = run-start-IsSound n before in
    let v' = run-IsSound after s v in
    let open_ : s.mem.stop ≡ false = run-stop_open before (start n) o ∙ (unfold start in refl) in
    let kept = AtPc-dropped s.writer.pc s.mem s.writer open_ v.at_pc in
    let counted = ap length v.ordered ∙ length-append s.mem.usb (s.mem.queue ++ s.mem.dropped) in
    let waiting = length-append s.mem.queue s.mem.dropped in
    let lost = ap length kept in
    let (more, grown) = (run-grows after s).1 in
    Extends-front s.mem.accepted more (run after s).mem.usb _ (sym v'.ordered ∙ grown) (
      run-reaches after s (length s.mem.accepted) v open_ c o' (omega arith)
        (omega (arith, counted, waiting, lost, enough, distance-le s.writer.pc s.writer)))
