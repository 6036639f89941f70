-- ===== src/Transport/Workers/Joined.antt =====
-- Whether `transport_close` (btstack-hci-transport-nusb/src/lib.rs) returns: it waits for the readers,
-- which wait for a completion, and for the writer.
use btstack_rs.Common.{
  ℕ, ◌≤◌, ◌<◌, ◌≡◌, ◌∙◌, refl, ap, true, false, none, some, List, [], ◌∷◌, ◌++◌, All, any, arith,
  ◌==◌,
}
use btstack_rs.Transport.Nusb.{TransferQueue}
use btstack_rs.Transport.Reader.{event_kind}
use btstack_rs.Transport.Pipeline.{closes, step}
use btstack_rs.Transport.Pipeline.Invariant.{IsSound, step-IsSound}
use btstack_rs.Transport.Pipeline.Shutdown.{Completes, writes_in, closes-stop, exits_from}
use btstack_rs.Transport.Workers.{
  uncalled, join_events, returned, Workers, Task, sending, writing, reading_events, reading_acl,
  closing, has_exited, close_step, work, works, opened,
}
use btstack_rs.Transport.Workers.Stages.{
  read_step-pending, works-IsRunning, opened-IsRunning, StageOf-uncalled,
}
use btstack_rs.Transport.Workers.Called.{
  pipeline_events, completes_events, completes_acl, IsCalled, works-IsCalled, works-append,
  HaveEnded, joins, called,
}

module _ (𝓠 : TransferQueue) where
  open 𝓠 use {Queue, pending}

  -- From the moment at which the flag has been set.
  called-returned :
      (after : List Task) (w : Workers Queue)
      → IsSound w.system
      → w.system.mem.stop ≡ true
      → IsCalled w.closer
      → any completes_events after ≡ true
      → any completes_acl after ≡ true
      → All Completes (pipeline_events after)
      → 29 ≤ writes_in (pipeline_events after)
      → (works 𝓠 (after ++ closing ∷ closing ∷ closing ∷ []) w).closer ≡ returned
  called-returned after w v stop c events acl completes enough =
      let (same, events', acl', c') = works-IsCalled 𝓠 after w stop c in
      let gone = exits_from (pipeline_events after) w.system v stop completes enough in
      let none_left : HaveEnded 𝓠 (works 𝓠 after w) = (
        ground (arith, events, events'),
        ground (arith, acl, acl'),
        ap (λ s. has_exited s.writer.pc) same ∙ ap has_exited gone,
      ) in
      ap (λ x. x.closer) (works-append 𝓠 after (closing ∷ closing ∷ closing ∷ []) w)
      ∙ joins 𝓠 (works 𝓠 after w) c' none_left

  close_step-waits :
      (w : Workers Queue)
      → 0 < pending w.events
      → close_step 𝓠 join_events w ≡ record w { closer = join_events }
  unfolding close_step
  close_step-waits w more =
      let busy : (pending w.events == 0) ≡ false = ground arith in rw busy refl

  -- The closer in its first `join`.
  works-waits :
      (ts : List Task) (w : Workers Queue)
      → w.closer ≡ join_events
      → 0 < pending w.events
      → any completes_events ts ≡ false
      → (works 𝓠 ts w).closer ≡ join_events
  unfolding works work
  works-waits [] w at more none_ = at
  works-waits (sending i r ∷ ts) w at more none_ =
      works-waits ts (work 𝓠 (sending i r) w) at more none_
  works-waits (writing a ∷ ts) w at more none_ = works-waits ts (work 𝓠 (writing a) w) at more none_
  works-waits (reading_events none state ∷ ts) w at more none_ =
      works-waits ts (work 𝓠 (reading_events none state) w) at
        (ground (arith, read_step-pending 𝓠 event_kind none state w.system.mem.stop w.events)) none_
  works-waits (reading_events (some c) state ∷ ts) w at more none_ = absurd (ground arith)
  works-waits (reading_acl poll state ∷ ts) w at more none_ =
      works-waits ts (work 𝓠 (reading_acl poll state) w) at more none_
  works-waits (closing ∷ ts) w at more none_ =
      let same : work 𝓠 closing w ≡ record w { closer = join_events } =
        ap (λ c. close_step 𝓠 c w) at ∙ close_step-waits w more in
      ap (λ x. (works 𝓠 ts x).closer) same
      ∙ works-waits ts (record w { closer = join_events }) refl more none_

  -- Over reader queues that were empty when the transport was opened, whatever has happened before the
  -- first call of `transport_close`: it returns, if after it has set the flag each of the two readers
  -- gets a completion from one of its polls and the writer takes at least 29 steps, in which its polls
  -- find completions. The order of all these steps, and of those of the senders, is free; at the end
  -- the closer takes three steps, one for each `join`.
  pub close-returned :
      (n : ℕ) (q q' : Queue) (before after : List Task)
      → (works 𝓠 before (opened 𝓠 n q q')).closer ≡ uncalled
      → any completes_events after ≡ true
      → any completes_acl after ≡ true
      → All Completes (pipeline_events after)
      → 29 ≤ writes_in (pipeline_events after)
      → pending q ≡ 0
      → pending q' ≡ 0
      → (works 𝓠
          (closing ∷ after ++ closing ∷ closing ∷ closing ∷ [])
          (works 𝓠 before (opened 𝓠 n q q'))).closer
        ≡ returned
  unfolding works
  close-returned n q q' before after open_ events acl completes enough e e' =
      let w = works 𝓠 before (opened 𝓠 n q q') in
      let v = works-IsRunning 𝓠 before (opened 𝓠 n q q') (opened-IsRunning 𝓠 n q q' e e') in
      ap (λ x. (works 𝓠 (after ++ closing ∷ closing ∷ closing ∷ []) x).closer) (called 𝓠 w open_)
      ∙ called-returned after (record w { system = step closes w.system; closer = join_events })
          (step-IsSound closes w.system v.0) (closes-stop w.system) tt events acl completes enough

  -- Over reader queues that were empty when the transport was opened, whatever has happened before the
  -- first call of `transport_close`: while no poll of the event reader finds a completion, it does not
  -- return from its first `join`, whatever else happens.
  pub close-waits :
      (n : ℕ) (q q' : Queue) (before after : List Task)
      → (works 𝓠 before (opened 𝓠 n q q')).closer ≡ uncalled
      → any completes_events after ≡ false
      → pending q ≡ 0
      → pending q' ≡ 0
      → (works 𝓠 (closing ∷ after) (works 𝓠 before (opened 𝓠 n q q'))).closer ≡ join_events
  unfolding works
  close-waits n q q' before after open_ none_ e e' =
      let w = works 𝓠 before (opened 𝓠 n q q') in
      let v = works-IsRunning 𝓠 before (opened 𝓠 n q q') (opened-IsRunning 𝓠 n q q' e e') in
      ap (λ x. (works 𝓠 after x).closer) (called 𝓠 w open_)
      ∙ works-waits after (record w { system = step closes w.system; closer = join_events }) refl
          (StageOf-uncalled 𝓠 w v.1 open_) none_
