-- ===== src/Transport/Workers/Called.antt =====
-- The threads after `transport_close` (btstack-hci-transport-nusb/src/lib.rs) has set the flag.
use btstack_rs.Common.{
  ◌≡◌, ◌∙◌, refl, ap, Bool, true, false, List, [], ◌∷◌, ◌++◌, any, arith, is_some, if◌then◌else◌,
}
use btstack_rs.Transport.Nusb.{TransferQueue}
use btstack_rs.Transport.Reader.{event_kind, acl_kind}
use btstack_rs.Transport.Pipeline.{Event, sends, writes, closes, step, run}
use btstack_rs.Transport.Pipeline.Shutdown.{step-stop}
use btstack_rs.Transport.Workers.{
  CloserPc, uncalled, join_events, join_acl, join_writer, returned, Workers, Task, sending, writing,
  reading_events, reading_acl, closing, has_exited, close_step, work, works,
}
use btstack_rs.Transport.Workers.Stages.{read_step-pending}

-- The steps of the senders and of the writer.
abbrev pub pipeline_events : List Task → List Event
pipeline_events [] = []
pipeline_events (sending i r ∷ ts) = sends i r ∷ pipeline_events ts
pipeline_events (writing a ∷ ts) = writes a ∷ pipeline_events ts
pipeline_events (_ ∷ ts) = pipeline_events ts

-- The reader's poll returns a completion in this step.
abbrev pub completes_events : Task → Bool
completes_events (reading_events poll _) = is_some poll
completes_events _ = false

abbrev pub completes_acl : Task → Bool
completes_acl (reading_acl poll _) = is_some poll
completes_acl _ = false

abbrev pub IsCalled : CloserPc → Type 0
IsCalled uncalled = ⊥
IsCalled _ = Unit

-- The next `join`.
abbrev next : CloserPc → CloserPc
next join_events = join_acl
next join_acl = join_writer
next _ = returned

next-IsCalled : (closer : CloserPc) → IsCalled closer → IsCalled (next closer)
next-IsCalled uncalled c = tt
next-IsCalled join_events c = tt
next-IsCalled join_acl c = tt
next-IsCalled _ c = tt

next-returned : (closer : CloserPc) → IsCalled closer → next (next (next closer)) ≡ returned
next-returned uncalled c = absurd c
next-returned _ c = refl

module _ (𝓠 : TransferQueue) where
  open 𝓠 use {Queue, pending}

  close_step-IsCalled :
      (closer : CloserPc) (w : Workers Queue)
      → IsCalled closer
      → ((close_step 𝓠 closer w).system ≡ w.system)
        × ((close_step 𝓠 closer w).events ≡ w.events)
        × ((close_step 𝓠 closer w).acl ≡ w.acl)
        × IsCalled (close_step 𝓠 closer w).closer
  unfolding close_step
  close_step-IsCalled uncalled w c = absurd c
  close_step-IsCalled join_events w c = (refl, refl, refl, ground arith)
  close_step-IsCalled join_acl w c = (refl, refl, refl, ground arith)
  close_step-IsCalled join_writer w c = (refl, refl, refl, ground arith)
  close_step-IsCalled returned w c = (refl, refl, refl, tt)

  -- One step after `transport_close` has set the flag.
  pub works-IsCalled :
      (ts : List Task) (w : Workers Queue)
      → w.system.mem.stop ≡ true
      → IsCalled w.closer
      → let w' = works 𝓠 ts w in
        (w'.system ≡ run (pipeline_events ts) w.system)
        × (pending w'.events ≡ (if any completes_events ts then 0 else pending w.events))
        × (pending w'.acl ≡ (if any completes_acl ts then 0 else pending w.acl))
        × IsCalled w'.closer
  unfolding works work run
  works-IsCalled [] w stop c = (refl, refl, refl, c)
  works-IsCalled (sending i r ∷ ts) w stop c =
      works-IsCalled ts (work 𝓠 (sending i r) w) (step-stop (sends i r) w.system stop) c
  works-IsCalled (writing a ∷ ts) w stop c =
      works-IsCalled ts (work 𝓠 (writing a) w) (step-stop (writes a) w.system stop) c
  works-IsCalled (reading_events poll state ∷ ts) w stop c =
      let (same, events, acl, c') =
        works-IsCalled ts (work 𝓠 (reading_events poll state) w) stop c in
      let now = read_step-pending 𝓠 event_kind poll state w.system.mem.stop w.events in
      (same, ground (arith, events, now, stop), acl, c')
  works-IsCalled (reading_acl poll state ∷ ts) w stop c =
      let (same, events, acl, c') = works-IsCalled ts (work 𝓠 (reading_acl poll state) w) stop c in
      let now = read_step-pending 𝓠 acl_kind poll state w.system.mem.stop w.acl in
      (same, events, ground (arith, acl, now, stop), c')
  works-IsCalled (closing ∷ ts) w stop c =
      let (system, events, acl, called) = close_step-IsCalled w.closer w c in
      let (same, events', acl', c') =
        works-IsCalled ts (work 𝓠 closing w) (ap (λ s. s.mem.stop) system ∙ stop) called in
      (
        same ∙ ap (run (pipeline_events ts)) system,
        events' ∙ ap (λ q. if any completes_events ts then 0 else pending q) events,
        acl' ∙ ap (λ q. if any completes_acl ts then 0 else pending q) acl,
        c',
      )

  pub works-append :
      (ts us : List Task) (w : Workers Queue) → works 𝓠 (ts ++ us) w ≡ works 𝓠 us (works 𝓠 ts w)
  unfolding works
  works-append [] us w = refl
  works-append (t ∷ ts) us w = works-append ts us (work 𝓠 t w)

  -- All three threads have ended.
  abbrev pub HaveEnded : Workers Queue → Type 0
  HaveEnded w =
      (pending w.events ≡ 0) × (pending w.acl ≡ 0) × (has_exited w.system.writer.pc ≡ true)

  close_step-next :
      (closer : CloserPc) (w : Workers Queue)
      → IsCalled closer
      → HaveEnded w
      → close_step 𝓠 closer w ≡ record w { closer = next closer }
  unfolding close_step
  close_step-next uncalled w c (events, acl, gone) = absurd c
  close_step-next join_events w c (events, acl, gone) = rw events refl
  close_step-next join_acl w c (events, acl, gone) = rw acl refl
  close_step-next join_writer w c (events, acl, gone) = rw gone refl
  close_step-next returned w c (events, acl, gone) = refl

  -- Then three steps of the closer are enough.
  pub joins :
      (w : Workers Queue)
      → IsCalled w.closer
      → HaveEnded w
      → (works 𝓠 (closing ∷ closing ∷ closing ∷ []) w).closer ≡ returned
  unfolding works work
  joins w c h =
      let w1 : Workers Queue = record w { closer = next w.closer } in
      let w2 : Workers Queue = record w { closer = next (next w.closer) } in
      let c1 : IsCalled (next w.closer) = next-IsCalled w.closer c in
      let one : works 𝓠 (closing ∷ closing ∷ closing ∷ []) w ≡ works 𝓠 (closing ∷ closing ∷ []) w1 =
        ap (works 𝓠 (closing ∷ closing ∷ [])) (close_step-next w.closer w c h) in
      let two : works 𝓠 (closing ∷ closing ∷ []) w1 ≡ works 𝓠 (closing ∷ []) w2 =
        ap (works 𝓠 (closing ∷ [])) (close_step-next (next w.closer) w1 c1 h) in
      let three : works 𝓠 (closing ∷ []) w2 ≡ record w { closer = next (next (next w.closer)) } =
        close_step-next (next (next w.closer)) w2 (next-IsCalled (next w.closer) c1) h in
      ap (λ x. x.closer) (one ∙ two ∙ three) ∙ next-returned w.closer c

  pub called :
      (w : Workers Queue)
      → w.closer ≡ uncalled
      → work 𝓠 closing w ≡ record w { system = step closes w.system; closer = join_events }
  unfolding work close_step
  called w e = ap (λ c. close_step 𝓠 c w) e
