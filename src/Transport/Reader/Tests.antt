-- ===== src/Transport/Reader/Tests.antt =====
-- A reader over a counting queue.
use btstack_rs.Common.{◌≡◌, refl, true, false, none, some, List, [], ◌∷◌, arith, All}
use btstack_rs.Transport.Types.{TransportState, initial_state}
use btstack_rs.Transport.Events.{emit_packet}
use btstack_rs.Transport.Nusb.{ok, stall, counting_queue}
use btstack_rs.Transport.Reader.{
  Observed, event_kind, acl_kind, deliver, submit_times, drain, cancel_and_drain_reader_queue,
  complete, iterate, run, reader,
}
use btstack_rs.Transport.Reader.Stream.{IsServed, delivery_to, reader-arrivals}

abbrev served : TransportState
served = record initial_state { packet_handler = some 9 }

-- A packet, an idle poll, a stall, an empty transfer, and a packet with the stop flag set.
abbrev session : List Observed
session =
    record {
      poll = some (record { status = ok; bytes = 14 ∷ 1 ∷ [] });
      stop = false;
      state = served;
    }
    ∷ record { poll = none; stop = false; state = served }
    ∷ record { poll = some (record { status = stall; bytes = [] }); stop = false; state = served }
    ∷ record { poll = some (record { status = ok; bytes = [] }); stop = false; state = served }
    ∷ record { poll = some (record { status = ok; bytes = 5 ∷ [] }); stop = true; state = served }
    ∷ record { poll = some (record { status = ok; bytes = 6 ∷ [] }); stop = true; state = served }
    ∷ []

-- The flag is set, and nothing arrives.
abbrev silence : List Observed
silence =
    record { poll = none; stop = true; state = served }
    ∷ record { poll = none; stop = true; state = served }
    ∷ []

session_result :
    reader counting_queue event_kind session 0
    ≡ (true, 0, delivery_to 9 4 (14 ∷ 1 ∷ []) ∷ delivery_to 9 4 (5 ∷ []) ∷ [])
unfolding reader run iterate complete drain cancel_and_drain_reader_queue submit_times deliver
    emit_packet
session_result = refl

silence_result : reader counting_queue acl_kind silence 0 ≡ (false, 3, [])
unfolding reader run iterate complete drain cancel_and_drain_reader_queue submit_times
silence_result = refl

session-IsServed : All (IsServed event_kind 9) session
session-IsServed = (
  (refl, λ c e. ground arith),
  (
    (refl, λ c e. ground arith),
    (
      (refl, λ c e. ground arith),
      (
        (refl, λ c e. ground arith),
        ((refl, λ c e. ground arith), ((refl, λ c e. ground arith), tt)),
      ),
    ),
  ),
)

reader-arrivals_example :
    (reader counting_queue event_kind session 0).2
    ≡ delivery_to 9 4 (14 ∷ 1 ∷ []) ∷ delivery_to 9 4 (5 ∷ []) ∷ []
reader-arrivals_example =
    reader-arrivals counting_queue event_kind 9 session 0 (omega arith) (omega arith) refl
      session-IsServed
