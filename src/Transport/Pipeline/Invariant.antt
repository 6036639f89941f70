-- ===== src/Transport/Pipeline/Invariant.antt =====
-- What holds along every run of the pipeline.
mod Defs
mod Sender
mod WriterThread
pub use Defs.*
use btstack_rs.Common.{
  ℕ, ◌+◌, ◌≡◌, refl, subst, Option, none, some, List, [], ◌∷◌, arith, get_elem?, set, replicate,
  Option-cases,
}
use btstack_rs.Transport.Pipeline.{System, Event, sends, writes, closes, start, send_at, step, run}
use btstack_rs.Transport.Pipeline.Send.{SendPc, idle, Request, send_step}
use btstack_rs.Transport.Pipeline.Writer.{WriterState, writer_step}
use btstack_rs.Transport.Pipeline.Slots.{slot, slots, slots-set, slots-replicate}
use Sender.{send_step-Inv}
use WriterThread.{writer_step-Inv}

-- The invariant of a system: its senders hold as many slots as they stand for.
abbrev pub IsSound : System → Type 0
IsSound s = Inv (slots s.senders) s.mem s.writer

start-IsSound : (n : ℕ) → IsSound (start n)
unfolding start
start-IsSound n = rw (slots-replicate n) (ground arith)

-- One slot count for the sender that moves, one for the others.
send_at-IsSound :
    (i : ℕ) (request : Request) (s : System) (o : Option SendPc)
    → get_elem? s.senders i ≡ o
    → IsSound s
    → IsSound (send_at i request s o)
unfolding send_at
send_at-IsSound i request s none e v = v
send_at-IsSound i request s (some pc) e v =
    subst (λ held. Inv held (send_step request s.mem pc).0 s.writer) after
      (send_step-Inv request s.mem s.writer pc others
        (subst (λ held. Inv held s.mem s.writer) before v))
  where
    others : ℕ
    others = slots (set s.senders i idle)

    before : slots s.senders ≡ others + slot pc
    before = omega (arith, slots-set s.senders i pc idle e)

    pc' : SendPc
    pc' = (send_step request s.mem pc).1

    after : others + slot pc' ≡ slots (set s.senders i pc')
    after = omega (arith, before, slots-set s.senders i pc pc' e)

pub step-IsSound : (e : Event) (s : System) → IsSound s → IsSound (step e s)
unfolding step
step-IsSound (sends i request) s v = send_at-IsSound i request s (get_elem? s.senders i) refl v
step-IsSound (writes answers) s v = writer_step-Inv answers s.mem s.writer (slots s.senders) v
step-IsSound closes s v = ground arith

-- The invariant holds along every run of any number of senders.
pub run-IsSound : (es : List Event) (s : System) → IsSound s → IsSound (run es s)
unfolding run
run-IsSound [] s v = v
run-IsSound (e ∷ es) s v = run-IsSound es (step e s) (step-IsSound e s v)

pub run-start-IsSound : (n : ℕ) (es : List Event) → IsSound (run es (start n))
run-start-IsSound n es = run-IsSound es (start n) (start-IsSound n)
