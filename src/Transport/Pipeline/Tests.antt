-- ===== src/Transport/Pipeline/Tests.antt =====
-- Runs of the pipeline, and its theorems at them.
use btstack_rs.Common.{
  ℕ, zero, suc, ◌+◌, ◌*◌, ◌≤◌, ◌≡◌, ◌⊎◌, refl, true, some, List, [], ◌∷◌, ◌++◌, arith, length, All,
}
use btstack_rs.Transport.Constants.{outgoing_queue_depth, acl_out_in_flight}
use btstack_rs.Transport.Types.{command, acl}
use btstack_rs.Transport.Api.{outgoing_packet}
use btstack_rs.Transport.Nusb.{stall}
use btstack_rs.Transport.Pipeline.{Event, sends, writes, start, step, run}
use btstack_rs.Transport.Pipeline.Send.{send_step}
use btstack_rs.Transport.Pipeline.Writer.{exited, send_hci_command, writer_step}
use btstack_rs.Transport.Pipeline.Slots.{slots}
use btstack_rs.Transport.Pipeline.Invariant.{writer_slot, undecided}
use btstack_rs.Transport.Pipeline.Accounts.{failures, run-accounted}
use btstack_rs.Transport.Pipeline.Safety.{run-counted, run-ordered}
use btstack_rs.Transport.Pipeline.Shutdown.{Completes}
use btstack_rs.Transport.Pipeline.Growth.{Extends, IsOpen}
use btstack_rs.Transport.Pipeline.Progress.{run_delivers}
use btstack_rs.Transport.Pipeline.LockFree.{losses, changes, run_lock_free}
use btstack_rs.Transport.Pipeline.Drain.{Finishes, run_drains}
use btstack_rs.Transport.Pipeline.Samples.{send_acl, send_command, answers, write_times}

-- Two senders race for slots: one loads the counter, the other reserves, the first must try again.
abbrev race : List Event
race =
    sends 0 send_acl
    ∷ sends 1 send_command
    ∷ sends 1 send_command
    ∷ sends 0 send_acl
    ∷ sends 0 send_acl
    ∷ []

-- Both packets are queued; the writer takes both; the first transfer completes.
abbrev busy : List Event
busy = race ++ sends 0 send_acl ∷ sends 1 send_command ∷ write_times 12

busy_result :
    ((run busy (start 2)).mem.usb ≡ acl (7 ∷ []) ∷ command (3 ∷ 12 ∷ 0 ∷ []) ∷ [])
    × ((run busy (start 2)).mem.pending ≡ 0)
    × ((run busy (start 2)).mem.sent_events ≡ 1)
unfolding run start send_step writer_step outgoing_packet send_hci_command
busy_result = (refl, refl, refl)

run-counted_example :
    ((run busy (start 2)).mem.pending ≤ outgoing_queue_depth)
    × ((run busy (start 2)).mem.pending
        ≡ slots (run busy (start 2)).senders
          + length (run busy (start 2)).mem.queue
          + writer_slot (run busy (start 2)).writer.pc
          + (run busy (start 2)).writer.in_flight_out
          + length (run busy (start 2)).mem.dropped)
    × ((run busy (start 2)).writer.in_flight_out ≤ acl_out_in_flight)
run-counted_example = run-counted 2 busy

run-ordered_example :
    ((run busy (start 2)).mem.accepted
      ≡ (run busy (start 2)).mem.usb
        ++ ((run busy (start 2)).mem.queue ++ (run busy (start 2)).mem.dropped))
    × (((run busy (start 2)).mem.dropped ≡ [])
        ⊎ (((run busy (start 2)).writer.pc ≡ exited)
            × ((run busy (start 2)).mem.stop ≡ true)
            × ((run busy (start 2)).mem.queue ≡ [])
            × ((run busy (start 2)).writer.in_flight_out ≡ 0)))
run-ordered_example = run-ordered 2 busy

-- As `busy`, but the transfer stalls.
abbrev stalled : List Event
stalled =
    race
    ++ sends 0 send_acl ∷ sends 1 send_command ∷ write_times 10
    ++ writes (record answers { completion = some stall }) ∷ write_times 2

run_lock_free_example : losses race (start 2) ≤ 2 * changes race (start 2)
run_lock_free_example = run_lock_free 2 race

race_result : (losses race (start 2) ≡ 1) × (changes race (start 2) ≡ 2)
unfolding start step send_step
race_result = (refl, refl)

run-accounted_example :
    length (run stalled (start 2)).mem.usb
    ≡ (run stalled (start 2)).mem.sent_events
      + failures stalled (start 2)
      + (run stalled (start 2)).writer.in_flight_out
      + undecided (run stalled (start 2)).writer.pc
run-accounted_example = run-accounted 2 stalled

stalled_result :
    (failures stalled (start 2) ≡ 1)
    × ((run stalled (start 2)).mem.sent_events ≡ 1)
    × (length (run stalled (start 2)).mem.usb ≡ 2)
unfolding run start send_step writer_step outgoing_packet send_hci_command
stalled_result = (refl, refl, refl)

write_times-Completes : (n : ℕ) → All Completes (write_times n)
write_times-Completes zero = tt
write_times-Completes (suc n) = (refl, write_times-Completes n)

-- Both packets are queued, and the writer has not begun.
abbrev queued : List Event
queued = race ++ sends 0 send_acl ∷ sends 1 send_command ∷ []

write_times-IsOpen : (n : ℕ) → All IsOpen (write_times n)
write_times-IsOpen zero = tt
write_times-IsOpen (suc n) = (tt, write_times-IsOpen n)

run_delivers_example :
    Extends
      (run queued (start 2)).mem.accepted
      (run (write_times 30) (run queued (start 2))).mem.usb
unfolding run start send_step outgoing_packet
run_delivers_example =
    run_delivers 2 queued (write_times 30) (tt, (tt, (tt, (tt, (tt, (tt, (tt, tt)))))))
      (write_times-IsOpen 30) (write_times-Completes 30) (omega arith)

write_times-Finishes : (n : ℕ) → All Finishes (write_times n)
write_times-Finishes zero = tt
write_times-Finishes (suc n) = (refl, write_times-Finishes n)

length-write_times : (n : ℕ) → length (write_times n) ≡ n
length-write_times zero = refl
length-write_times (suc n) = omega (arith, length-write_times n)

run_drains_example :
    let s = run (write_times 48) (run queued (start 2)) in
    (s.mem.pending ≡ slots (run queued (start 2)).senders)
    × (s.mem.queue ≡ [])
    × (s.writer.in_flight_out ≡ 0)
run_drains_example =
    run_drains 2 queued (write_times 48) (tt, (tt, (tt, (tt, (tt, (tt, (tt, tt)))))))
      (write_times-Finishes 48) (omega (arith, length-write_times 48))
