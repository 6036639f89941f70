-- ===== src/Transport/Workers/Tests.antt =====
-- Runs of the threads over counting queues.
use btstack_rs.Common.{ℕ, zero, suc, ◌≡◌, refl, true, false, none, some, List, [], ◌∷◌, ◌++◌, arith}
use btstack_rs.Transport.Types.{TransportState, initial_state}
use btstack_rs.Transport.Events.{emit_packet}
use btstack_rs.Transport.Api.{outgoing_packet}
use btstack_rs.Transport.Nusb.{ok, Completion, counting_queue}
use btstack_rs.Transport.Reader.{
  deliver, submit_times, drain, cancel_and_drain_reader_queue, complete, iterate,
}
use btstack_rs.Transport.Reader.Stream.{delivery_to}
use btstack_rs.Transport.Pipeline.{start, step}
use btstack_rs.Transport.Pipeline.Send.{Request, send_step}
use btstack_rs.Transport.Pipeline.Writer.{exited, Answers, writer_step}
use btstack_rs.Transport.Workers.{
  uncalled, join_events, returned, Workers, Task, sending, writing, reading_events, reading_acl,
  closing, read_step, close_step, work, works, opened,
}
use btstack_rs.Transport.Workers.Closing.{SameOutput, returned-quiet}
use btstack_rs.Transport.Workers.Joined.{close-returned, close-waits}

abbrev served : TransportState
served = record initial_state { packet_handler = some 9 }

abbrev arrived : Completion
arrived = record { status = ok; bytes = 14 ∷ 1 ∷ [] }

abbrev send_acl : Request
send_acl = record { packet_type = 2; packet = 7 ∷ []; spurious = false }

abbrev answers : Answers
answers = record { control_out = λ _. true; completion = some ok }

abbrev write_times : ℕ → List Task
write_times zero = []
write_times (suc n) = writing answers ∷ write_times n

-- A packet is sent and taken by the writer, and an event arrives.
abbrev traffic : List Task
traffic =
    sending 0 send_acl
    ∷ sending 0 send_acl
    ∷ sending 0 send_acl
    ∷ reading_events (some arrived) served
    ∷ writing answers
    ∷ writing answers
    ∷ []

-- What happens beside the close.
abbrev ending : List Task
ending =
    closing
    ∷ reading_acl none served
    ∷ reading_events (some arrived) served
    ∷ closing
    ∷ reading_acl (some arrived) served
    ∷ write_times 29

abbrev after_open : Workers ℕ
after_open = works counting_queue traffic (opened counting_queue 1 0 0)

traffic-uncalled : after_open.closer ≡ uncalled
unfolding works opened work close_step
traffic-uncalled = refl

close-returned_example :
    (works counting_queue (closing ∷ ending ++ closing ∷ closing ∷ closing ∷ []) after_open).closer
    ≡ returned
close-returned_example =
    close-returned counting_queue 1 0 0 traffic ending traffic-uncalled refl refl (ground arith)
      (omega arith) refl refl

-- The readers poll, and nothing arrives on the event endpoint.
abbrev silence : List Task
silence =
    reading_events none served ∷ reading_acl (some arrived) served ∷ closing ∷ write_times 29
    ++ reading_events none served ∷ closing ∷ []

close-waits_example : (works counting_queue (closing ∷ silence) after_open).closer ≡ join_events
close-waits_example =
    close-waits counting_queue 1 0 0 traffic silence traffic-uncalled refl refl refl

abbrev closed : List Task
closed = traffic ++ closing ∷ ending ++ closing ∷ closing ∷ closing ∷ []

closed-returned : (works counting_queue closed (opened counting_queue 1 0 0)).closer ≡ returned
unfolding works opened work
closed-returned = close-returned_example

closed_result :
    let w = works counting_queue closed (opened counting_queue 1 0 0) in
    w.delivered
    ≡ delivery_to 9 4 (14 ∷ 1 ∷ [])
      ∷ delivery_to 9 4 (14 ∷ 1 ∷ [])
      ∷ delivery_to 9 2 (14 ∷ 1 ∷ [])
      ∷ []
unfolding works opened work close_step start step send_step writer_step outgoing_packet read_step
    iterate complete drain cancel_and_drain_reader_queue submit_times deliver emit_packet
closed_result = refl

returned-quiet_example :
    let w = works counting_queue closed (opened counting_queue 1 0 0) in
    (w.events ≡ 0)
    × (w.acl ≡ 0)
    × (w.system.writer.pc ≡ exited)
    × SameOutput w (works counting_queue traffic w)
returned-quiet_example =
    returned-quiet counting_queue 1 0 0 closed traffic refl refl closed-returned
