-- ===== src/Transport/Pipeline/Drain.antt =====
-- The writer thread (btstack-hci-transport-nusb/src/io.rs) gives every slot back while nobody sends.
use btstack_rs.Common.{
  ℕ, ◌+◌, ◌≡◌, ◌≤◌, ◌<◌, ◌∙◌, ◌⊎◌, inl, inr, refl, ap, true, false, List, [], ◌∷◌, arith, length,
  is_some, All,
}
use btstack_rs.Transport.Types.{OutgoingPacket}
use btstack_rs.Transport.Pipeline.{System, Event, sends, writes, closes, start, step, run}
use btstack_rs.Transport.Pipeline.Writer.{writer_step}
use btstack_rs.Transport.Pipeline.Invariant.{IsSound, writer_slot, run-start-IsSound, step-IsSound}
use btstack_rs.Transport.Pipeline.Slots.{slots}
use btstack_rs.Transport.Pipeline.Growth.{IsOpen, step-stop_open}
use btstack_rs.Transport.Pipeline.Progress.{run-stop_open}
use btstack_rs.Transport.Pipeline.WorkLeft.{
  work_left, IsDrained, step_at-work_left, step_at-IsDrained, work_left-positive, IsDrained-or,
  work_left-le, AtPc-dropped,
}

-- A step of the writer in which its poll, if any, finds a completion.
abbrev pub Finishes : Event → Type 0
Finishes (writes a) = is_some a.completion ≡ true
Finishes _ = ⊥

abbrev HasDrained : System → Type 0
HasDrained s = IsDrained s.mem s.writer

Finishes-IsOpen : (e : Event) → Finishes e → IsOpen e
Finishes-IsOpen (writes a) c = tt
Finishes-IsOpen (sends i r) c = absurd c
Finishes-IsOpen closes c = absurd c

-- One such step: the senders stay where they are, what is drained stays so, and what is not comes
-- nearer to it.
step-Drains :
    (e : Event) (s : System)
    → IsSound s
    → s.mem.stop ≡ false
    → Finishes e
    → ((step e s).senders ≡ s.senders)
      × (HasDrained s → HasDrained (step e s))
      × (0 < length s.mem.queue + s.writer.in_flight_out + writer_slot s.writer.pc
          → work_left (step e s).mem (step e s).writer < work_left s.mem s.writer)
unfolding step writer_step
step-Drains (writes a) s v stop c = (
  refl,
  λ d. step_at-IsDrained s.writer.pc a s.mem s.writer _ refl stop v v.at_pc d,
  λ more. step_at-work_left s.writer.pc a s.mem s.writer _ refl stop v v.at_pc c more,
)
step-Drains (sends i r) s v stop c = absurd c
step-Drains closes s v stop c = absurd c

run-Drains :
    (es : List Event) (s : System)
    → IsSound s
    → s.mem.stop ≡ false
    → All Finishes es
    → HasDrained s ⊎ (work_left s.mem s.writer ≤ length es)
    → ((run es s).senders ≡ s.senders)
      × HasDrained (run es s)
      × IsSound (run es s)
      × ((run es s).mem.stop ≡ false)
unfolding run
run-Drains [] s v stop c (inl drained) = (refl, drained, v, stop)
run-Drains [] s v stop c (inr left) =
    absurd (omega (arith, left, work_left-positive s.writer.pc s.mem s.writer refl stop v.at_pc))
run-Drains (e ∷ es) s v stop c d =
    let (one, stays, nearer) = step-Drains e s v stop c.0 in
    let stop' = step-stop_open e s (Finishes-IsOpen e c.0) ∙ stop in
    let next : HasDrained (step e s) ⊎ (work_left (step e s).mem (step e s).writer ≤ length es) =
      elim (IsDrained-or s.mem s.writer) [
        | inl drained ↦ inl (stays drained)
        | inr more ↦ elim d [
          | inl drained ↦ inl (stays drained)
          | inr left ↦ inr (omega (arith, left, nearer more))
        ]
      ] in
    let (same, drained, v', open_) = run-Drains es (step e s) (step-IsSound e s v) stop' c.1 next in
    (same ∙ one, drained, v', open_)

length-zero : (queue : List OutgoingPacket) → length queue ≡ 0 → queue ≡ []
length-zero [] h = refl
length-zero (p ∷ queue) h = absurd (ground arith)

-- While the transport is open and nobody sends, every slot comes back: after 48 steps of the writer,
-- whose polls find completions, the counter is the number of slots that the senders hold, the channel
-- is empty and no transfer is in flight. So if no sender holds a slot, the counter is 0 again.
pub run_drains :
    (n : ℕ) (before after : List Event)
    → All IsOpen before
    → All Finishes after
    → 48 ≤ length after
    → let s = run after (run before (start n)) in
      (s.mem.pending ≡ slots (run before (start n)).senders)
      × (s.mem.queue ≡ [])
      × (s.writer.in_flight_out ≡ 0)
run_drains n before after o c enough =
    let s : System = run before (start n) in
    let v = run-start-IsSound n before in
    let stop : s.mem.stop ≡ false = run-stop_open before (start n) o ∙ (unfold start in refl) in
    let left = work_left-le s.writer.pc s.mem s.writer _ refl v v.at_pc in
    let (same, (queue, flight, slot_), v', open_) =
      run-Drains after s v stop c (inr (omega (arith, left, enough))) in
    let kept = ap length (AtPc-dropped _ (run after s).mem (run after s).writer open_ v'.at_pc) in
    (
      omega (arith, v'.counted, queue, flight, slot_, kept, ap slots same),
      length-zero (run after s).mem.queue queue,
      flight,
    )
