-- ===== src/Transport/Pipeline/Granted.antt =====
-- One sending thread, as BTstack is, beside the writer: between a test for room and the end of the
-- send that follows, the writer may take any number of steps.
use btstack_rs.Common.{
  ℕ, ◌+◌, ◌≤◌, ◌<◌, ◌≡◌, ◌∙◌, inl, inr, refl, sym, ap, ap₂, subst, true, false, some, pos, List, [],
  ◌∷◌, ◌++◌, arith, All, length, Option-cases, is_some,
}
use btstack_rs.Transport.Constants.{outgoing_queue_depth}
use btstack_rs.Transport.Types.{ActiveTransport, TransportState, OutgoingPacket}
use btstack_rs.Transport.Api.{outgoing_packet}
use btstack_rs.Transport.Api.Send.{outgoing_packet-is_some}
use btstack_rs.Transport.Pipeline.Progress.{run-stop_open}
use btstack_rs.Transport.Pipeline.{System, Event, sends, writes, closes, start, step, send_at, run}
use btstack_rs.Transport.Pipeline.Send.{SendPc, idle, reserved, Request, send_step}
use btstack_rs.Transport.Pipeline.Writer.{Answers, writer_step}
use btstack_rs.Transport.Pipeline.Slots.{slot, slots}
use btstack_rs.Transport.Pipeline.Growth.{IsOpen, step-stop_open, step_at-usb}
use btstack_rs.Transport.Pipeline.Alone.{Corresponds}
use btstack_rs.Transport.Api.{transport_can_send_packet_now}
use btstack_rs.Transport.Pipeline.Invariant.{IsSound, step-IsSound, run-start-IsSound}
use btstack_rs.Transport.Pipeline.Waiting.{
  step_at-pending, AtPc-alive, Waiting, left, tick, send_step-Nearer, Waiting-le, left-positive,
}

-- A step of the thread in its one send of this packet, or of the writer.
abbrev pub IsOwn : ℕ → List ℕ → Event → Type 0
IsOwn t packet (sends i r) = (i ≡ 0) × (r.packet_type ≡ t) × (r.packet ≡ packet)
IsOwn t packet (writes _) = Unit
IsOwn t packet closes = ⊥

-- The thread's steps, without those in which its compare-exchange may fail for no reason.
abbrev pub tries : List Event → ℕ
tries [] = 0
tries (sends _ r ∷ es) = tick r + tries es
tries (_ ∷ es) = tries es

abbrev pub Returned : OutgoingPacket → List OutgoingPacket → System → Type 0
Returned p accepted s = (s.senders ≡ idle ∷ []) × (s.mem.accepted ≡ accepted ++ p ∷ [])

-- A moment of a run at which the thread has returned.
abbrev pub Returns : OutgoingPacket → List OutgoingPacket → List Event → System → Type 0
Returns p accepted es s =
    (during : List Event) × (rest : List Event) × (es ≡ during ++ rest)
    × Returned p accepted (run during s)

Returns-now :
    (p : OutgoingPacket) (accepted : List OutgoingPacket) (e : Event) (es : List Event) (s : System)
    → Returned p accepted (step e s)
    → Returns p accepted (e ∷ es) s
unfolding run
Returns-now p accepted e es s now = (e ∷ [], es, refl, now)

Returns-later :
    (p : OutgoingPacket) (accepted : List OutgoingPacket) (e : Event) (es : List Event) (s : System)
    → Returns p accepted es (step e s)
    → Returns p accepted (e ∷ es) s
unfolding run
Returns-later p accepted e es s (during, rest, cut, returned) =
    (e ∷ during, rest, ap (λ l. e ∷ l) cut, returned)

-- A step of the only thread.
step-one :
    (i : ℕ) (r : Request) (s : System) (pc : SendPc)
    → i ≡ 0
    → s.senders ≡ pc ∷ []
    → step (sends i r) s
      ≡ (let (m, pc') = send_step r s.mem pc in record s { mem = m; senders = pc' ∷ [] })
unfolding step send_at
step-one i r s pc first one =
    ap₂ (λ j l. step (sends j r) (record s { senders = l })) first one ∙ refl

step-writes :
    (a : Answers) (s : System)
    → IsSound s
    → ((step (writes a) s).mem.pending ≤ s.mem.pending)
      × ((step (writes a) s).mem.accepted ≡ s.mem.accepted)
      × ((step (writes a) s).senders ≡ s.senders)
unfolding step writer_step
step-writes a s v = (
  step_at-pending s.writer.pc a s.mem s.writer _ refl v,
  (step_at-usb s.writer.pc a s.mem s.writer).1,
  refl,
)

room_reserved :
    (s : System) (pc : SendPc) (q : OutgoingPacket)
    → IsSound s
    → s.senders ≡ pc ∷ []
    → pc ≡ reserved (some q)
    → length s.mem.queue < outgoing_queue_depth
room_reserved s pc q v one at = omega (arith, v.counted, v.bounded, ap slots one, ap slot at)

run-Returns :
    (t : ℕ) (packet : List ℕ) (p : OutgoingPacket) (accepted : List OutgoingPacket)
    (es : List Event) (pc : SendPc) (s : System)
    → outgoing_packet t packet ≡ some p
    → IsSound s
    → s.mem.stop ≡ false
    → s.senders ≡ pc ∷ []
    → s.mem.accepted ≡ accepted
    → Waiting p pc s.mem
    → All (IsOwn t packet) es
    → left pc s.mem ≤ tries es
    → Returns p accepted es s
run-Returns t packet p accepted [] pc s known v stop one acc waits own enough =
    absurd (omega (arith, left-positive p pc s.mem waits))
run-Returns t packet p accepted (sends i r ∷ es) pc s known v stop one acc waits own enough =
    let m' = (send_step r s.mem pc).0 in
    let pc' = (send_step r s.mem pc).1 in
    let next : step (sends i r) s ≡ record s { mem = m'; senders = pc' ∷ [] } =
      step-one i r s pc own.0.0 one in
    let same : outgoing_packet r.packet_type r.packet ≡ some p =
      ap₂ outgoing_packet own.0.1 own.0.2 ∙ known in
    elim (send_step-Nearer p r pc s.mem same (AtPc-alive s.writer.pc s.mem s.writer stop v.at_pc)
      (λ q at. room_reserved s pc q v one at) waits) [
        | inl (outside, last) ↦ Returns-now p accepted (sends i r) es s (
          ap (λ x. x.senders) next ∙ ap (λ x. x ∷ []) outside,
          ap (λ x. x.mem.accepted) next ∙ last ∙ ap (λ l. l ++ p ∷ []) acc,
        )
        | inr (waits', acc', less) ↦ Returns-later p accepted (sends i r) es s (
            run-Returns t packet p accepted es pc' (step (sends i r) s) known
              (step-IsSound (sends i r) s v) (step-stop_open (sends i r) s tt ∙ stop)
              (ap (λ x. x.senders) next) (ap (λ x. x.mem.accepted) next ∙ acc' ∙ acc)
              (subst (λ x. Waiting p pc' x.mem) (sym next) waits') own.1
              (subst (λ x. left pc' x.mem ≤ tries es) (sym next) (omega (arith, less, enough))))
      ]
run-Returns t packet p accepted (writes a ∷ es) pc s known v stop one acc waits own enough =
    let (le, acc', one') = step-writes a s v in
    let (waits', less) = Waiting-le p pc s.mem (step (writes a) s).mem le waits in
    Returns-later p accepted (writes a) es s (
      run-Returns t packet p accepted es pc (step (writes a) s) known (step-IsSound (writes a) s v)
        (step-stop_open (writes a) s tt ∙ stop) (one' ∙ one) (acc' ∙ acc) waits' own.1
        (omega (arith, less, enough)))
run-Returns t packet p accepted (closes ∷ es) pc s known v stop one acc waits own enough =
    absurd own.0

-- What a positive answer of `transport_can_send_packet_now` says.
can_send-granted :
    (state : TransportState) (a : ActiveTransport) (t : ℕ) (packet : List ℕ)
    → state.active ≡ some a
    → transport_can_send_packet_now state t ≡ pos 1
    → (a.outgoing_pending < a.outgoing_queue_depth) × (is_some (outgoing_packet t packet) ≡ true)
unfolding transport_can_send_packet_now
can_send-granted state a t packet open_ yes_code = ground (arith, outgoing_packet-is_some t packet)

-- The flow control for one sending thread, with interference: if at some moment of an open transport
-- the thread is outside the sending function and `transport_can_send_packet_now` answers 1 for a
-- packet type, then, however the thread's next send of that type and the steps of the writer are
-- interleaved, the send returns within six steps of the thread, besides those in which its
-- compare-exchange may fail for no reason; and its packet has been accepted by the channel, last.
pub run_granted :
    (before after : List Event) (state : TransportState) (a : ActiveTransport) (t : ℕ)
    (packet : List ℕ)
    → All IsOpen before
    → (run before (start 1)).senders ≡ idle ∷ []
    → state.active ≡ some a
    → Corresponds a (run before (start 1)).mem
    → transport_can_send_packet_now state t ≡ pos 1
    → All (IsOwn t packet) after
    → 6 ≤ tries after
    → (p : OutgoingPacket) × (outgoing_packet t packet ≡ some p)
      × Returns p (run before (start 1)).mem.accepted after (run before (start 1))
run_granted before after state a t packet o one open_ c yes_code own enough =
    let s : System = run before (start 1) in
    let (room, known) = can_send-granted state a t packet open_ yes_code in
    let free : s.mem.pending < outgoing_queue_depth = omega (arith, room, c.pending, c.depth) in
    elim (Option-cases (outgoing_packet t packet)) [
      | inl unknown ↦ absurd (ground (arith, known, unknown))
      | inr (p, same) ↦ (
        p,
        same,
        run-Returns t packet p s.mem.accepted after idle s same (run-start-IsSound 1 before)
            (run-stop_open before (start 1) o ∙ (unfold start in refl)) one refl free own
            (omega (arith, free, enough)),
      )
    ]
