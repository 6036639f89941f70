-- ===== src/Transport/Reader/Stopping.antt =====
-- When a reader thread ends.
use btstack_rs.Common.{
  ℕ, zero, suc, ◌+◌, ◌≤◌, ◌<◌, ◌≡◌, inl, inr, Bool, true, ◌&&◌, List, [], ◌∷◌, arith, if◌then◌else◌,
  is_some, any, Option-cases,
}
use btstack_rs.Transport.Nusb.{Completion, TransferQueue}
use btstack_rs.Transport.Reader.{
  Kind, Observed, is_stall, submit_times, drain, cancel_and_drain_reader_queue, complete, iterate,
  run, reader,
}

module _ (𝓠 : TransferQueue) where
  open 𝓠 use {
    Queue, pending, submit, next_complete, clear_halt, cancel_all, pending-submit,
    pending-next_complete, pending-clear_halt, pending-cancel_all,
  }

  drain-pending : (fuel : ℕ) (q : Queue) → pending q ≤ fuel → pending (drain 𝓠 fuel q) ≡ 0
  unfolding drain
  drain-pending zero q h = omega arith
  drain-pending (suc fuel) q h =
      ground (arith, pending-next_complete q, drain-pending fuel (next_complete q))

  -- The drain ends with no transfer pending.
  cancel_and_drain-pending : (q : Queue) → pending (cancel_and_drain_reader_queue 𝓠 q) ≡ 0
  unfolding cancel_and_drain_reader_queue
  cancel_and_drain-pending q = drain-pending (pending (cancel_all q)) (cancel_all q) (omega arith)

  complete-pending :
      (kind : Kind) (stop : Bool) (c : Completion) (q : Queue)
      → 0 < pending q
      → pending (complete 𝓠 kind stop c q) ≡ (if stop then 0 else pending q)
  unfolding complete
  complete-pending kind stop c q h =
      let taken = pending-next_complete q h in
      let next = if is_stall c.status then clear_halt (next_complete q) else next_complete q in
      let kept : pending next ≡ pending (next_complete q) =
        ground (arith, pending-clear_halt (next_complete q)) in
      ground (arith, cancel_and_drain-pending next, pending-submit next kind.transfer_size)

  -- Whether an iteration is the last: the flag is set and the poll has returned a completion.
  abbrev pub ends : Observed → Bool
  ends o = o.stop && is_some o.poll

  pub iterate-pending :
      (kind : Kind) (o : Observed) (q : Queue)
      → 0 < pending q
      → pending (iterate 𝓠 kind o q).0 ≡ (if ends o then 0 else pending q)
  unfolding iterate
  iterate-pending kind o q h = elim (Option-cases o.poll) [
    | inl idle ↦ rw (idle, iterate) (ground arith)
    | inr (c, e) ↦ rw (e, iterate) (ground (arith, complete-pending kind o.stop c q h))
  ]

  pub run-empty :
      (kind : Kind) (os : List Observed) (q : Queue)
      → pending q ≡ 0
      → run 𝓠 kind os q ≡ (true, q, [])
  unfolding run
  run-empty kind [] q h = ground arith
  run-empty kind (o ∷ os) q h = ground arith

  run-exited :
      (kind : Kind) (os : List Observed) (q : Queue)
      → 0 < pending q
      → (run 𝓠 kind os q).0 ≡ any ends os
  unfolding run
  run-exited kind [] q h = ground arith
  run-exited kind (o ∷ os) q h = ground (
    arith,
    iterate-pending kind o q h,
    run-exited kind os (iterate 𝓠 kind o q).0,
    run-empty kind os (iterate 𝓠 kind o q).0,
  )

  run-pending :
      (kind : Kind) (os : List Observed) (q : Queue)
      → 0 < pending q
      → pending (run 𝓠 kind os q).1 ≡ (if any ends os then 0 else pending q)
  unfolding run
  run-pending kind [] q h = ground arith
  run-pending kind (o ∷ os) q h = ground (
    arith,
    iterate-pending kind o q h,
    run-pending kind os (iterate 𝓠 kind o q).0,
    run-empty kind os (iterate 𝓠 kind o q).0,
  )

  pub submit_times-pending :
      (n size : ℕ) (q : Queue) → pending (submit_times 𝓠 n size q) ≡ pending q + n
  unfolding submit_times
  submit_times-pending zero size q = omega arith
  submit_times-pending (suc n) size q =
      omega (arith, submit_times-pending n size (submit q size), pending-submit q size)

  -- A reader that starts with an empty queue and at least one transfer has exited exactly if, at
  -- some iteration, it has seen the stop flag and a completion together; until then it has as many
  -- transfers pending as at its start, and then none. In particular, while no transfer completes it
  -- goes on, whatever the flag says.
  reader-exited :
      (kind : Kind) (os : List Observed) (q : Queue)
      → pending q ≡ 0
      → 0 < kind.in_flight
      → ((reader 𝓠 kind os q).0 ≡ any ends os)
        × (pending (reader 𝓠 kind os q).1 ≡ (if any ends os then 0 else kind.in_flight))
  unfolding reader
  reader-exited kind os q h k =
      let start = submit_times 𝓠 kind.in_flight kind.transfer_size q in
      let full = submit_times-pending kind.in_flight kind.transfer_size q in
      let more : 0 < pending start = omega (arith, full) in
      (run-exited kind os start more, ground (arith, full, run-pending kind os start more))
