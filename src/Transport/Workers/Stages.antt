-- ===== src/Transport/Workers/Stages.antt =====
-- Where the threads stand at each moment of `transport_close`
-- (btstack-hci-transport-nusb/src/lib.rs).
use btstack_rs.Common.{
  ℕ, ◌<◌, ◌≡◌, inl, inr, refl, sym, subst, Bool, true, false, Option, List, [], ◌∷◌, Bool-cases,
  arith, ◌&&◌, is_some, if◌then◌else◌,
}
use btstack_rs.Transport.Types.{TransportState}
use btstack_rs.Transport.Nusb.{Completion, TransferQueue}
use btstack_rs.Transport.Reader.{Kind, event_kind, acl_kind}
use btstack_rs.Transport.Reader.Stopping.{iterate-pending, submit_times-pending}
use btstack_rs.Transport.Pipeline.{Event, sends, writes, closes, start, step, run}
use btstack_rs.Transport.Pipeline.Writer.{WriterPc, exited}
use btstack_rs.Transport.Pipeline.Invariant.{IsSound, step-IsSound, run-start-IsSound}
use btstack_rs.Transport.Pipeline.Growth.{IsOpen, step-stop_open}
use btstack_rs.Transport.Pipeline.Exited.{step-exited}
use btstack_rs.Transport.Workers.{
  CloserPc, uncalled, join_events, join_acl, join_writer, returned, Workers, Task, sending, writing,
  reading_events, reading_acl, closing, has_exited, read_step, close_step, work, works, opened,
}

-- Where the threads stand at each moment of `transport_close`: the flag, the transfers pending of both
-- readers, the writer.
abbrev pub Stage : CloserPc → Bool → ℕ → ℕ → WriterPc → Type 0
Stage uncalled stop n m pc = (stop ≡ false) × (0 < n) × (0 < m)
Stage join_events stop n m pc = stop ≡ true
Stage join_acl stop n m pc = (stop ≡ true) × (n ≡ 0)
Stage join_writer stop n m pc = (stop ≡ true) × (n ≡ 0) × (m ≡ 0)
Stage returned stop n m pc = (stop ≡ true) × (n ≡ 0) × (m ≡ 0) × (pc ≡ exited)

-- The readers only stop, and only after the flag is set.
Stage-mono :
    (closer : CloserPc) (stop : Bool) (n m n' m' : ℕ) (pc pc' : WriterPc) (b c : Bool)
    → n' ≡ (if stop && b then 0 else n)
    → m' ≡ (if stop && c then 0 else m)
    → (pc ≡ exited → pc' ≡ exited)
    → Stage closer stop n m pc
    → Stage closer stop n' m' pc'
Stage-mono uncalled stop n m n' m' pc pc' b c en em ep st = ground arith
Stage-mono join_events stop n m n' m' pc pc' b c en em ep st = st
Stage-mono join_acl stop n m n' m' pc pc' b c en em ep st = ground arith
Stage-mono join_writer stop n m n' m' pc pc' b c en em ep st = ground arith
Stage-mono returned stop n m n' m' pc pc' b c en em ep (st, z, z', gone) =
    (st, ground arith, ground arith, ep gone)

has_exited-exited : (pc : WriterPc) → has_exited pc ≡ true → pc ≡ exited
has_exited-exited exited h = refl
has_exited-exited _ h = ground arith

module _ (𝓠 : TransferQueue) where
  open 𝓠 use {Queue, pending}

  pub read_step-ended :
      (kind : Kind) (poll : Option Completion) (state : TransportState) (stop : Bool) (q : Queue)
      → pending q ≡ 0
      → read_step 𝓠 kind poll state stop q ≡ (q, [])
  unfolding read_step
  read_step-ended kind poll state stop q e = ground arith

  pub read_step-pending :
      (kind : Kind) (poll : Option Completion) (state : TransportState) (stop : Bool) (q : Queue)
      → pending (read_step 𝓠 kind poll state stop q).0
        ≡ (if stop && is_some poll then 0 else pending q)
  unfolding read_step
  read_step-pending kind poll state stop q =
      ground (arith, iterate-pending 𝓠 kind (record { poll = poll; stop = stop; state = state }) q)

  abbrev pub StageOf : Workers Queue → Type 0
  StageOf w = Stage w.closer w.system.mem.stop (pending w.events) (pending w.acl) w.system.writer.pc

  close_step-Stage :
      (closer : CloserPc) (w : Workers Queue)
      → Stage closer w.system.mem.stop (pending w.events) (pending w.acl) w.system.writer.pc
      → StageOf (close_step 𝓠 closer w)
  unfolding close_step step
  close_step-Stage uncalled w st = refl
  close_step-Stage join_events w st = ground arith
  close_step-Stage join_acl w st = ground arith
  close_step-Stage join_writer w st = elim (Bool-cases (has_exited w.system.writer.pc)) [
    | inl gone ↦ rw gone (st.0, st.1, st.2, has_exited-exited w.system.writer.pc gone)
    | inr stays ↦ rw stays st
  ]
  close_step-Stage returned w st = st

  -- A step of the senders or of the writer.
  system-Stage :
      (e : Event) (w : Workers Queue)
      → IsSound w.system
      → IsOpen e
      → StageOf w
      → StageOf (record w { system = step e w.system })
  system-Stage e w v o st =
      subst
        (λ stop. Stage w.closer stop (pending w.events) (pending w.acl) (step e w.system).writer.pc)
        (sym (step-stop_open e w.system o))
        (Stage-mono w.closer w.system.mem.stop (pending w.events) (pending w.acl) (pending w.events)
          (pending w.acl) w.system.writer.pc (step e w.system).writer.pc false false (ground arith)
          (ground arith) (λ gone. (step-exited e w.system v gone).1) st)

  pub work-Stage :
      (t : Task) (w : Workers Queue) → IsSound w.system → StageOf w → StageOf (work 𝓠 t w)
  unfolding work
  work-Stage (sending i r) w v st = system-Stage (sends i r) w v tt st
  work-Stage (writing a) w v st = system-Stage (writes a) w v tt st
  work-Stage (reading_events poll state) w v st =
      Stage-mono w.closer w.system.mem.stop (pending w.events) (pending w.acl) _ (pending w.acl)
        w.system.writer.pc w.system.writer.pc (is_some poll) false
        (read_step-pending event_kind poll state w.system.mem.stop w.events) (ground arith) (λ h. h)
        st
  work-Stage (reading_acl poll state) w v st =
      Stage-mono w.closer w.system.mem.stop (pending w.events) (pending w.acl) (pending w.events) _
        w.system.writer.pc w.system.writer.pc false (is_some poll) (ground arith)
        (read_step-pending acl_kind poll state w.system.mem.stop w.acl) (λ h. h) st
  work-Stage closing w v st = close_step-Stage w.closer w st

  -- The threads of a run: a sound pipeline, and the stage of the close.
  abbrev pub IsRunning : Workers Queue → Type 0
  IsRunning w = IsSound w.system × StageOf w

  close_step-IsSound :
      (closer : CloserPc) (w : Workers Queue)
      → IsSound w.system
      → IsSound (close_step 𝓠 closer w).system
  unfolding close_step
  close_step-IsSound uncalled w v = step-IsSound closes w.system v
  close_step-IsSound _ w v = v

  pub work-IsSound : (t : Task) (w : Workers Queue) → IsSound w.system → IsSound (work 𝓠 t w).system
  unfolding work
  work-IsSound (sending i r) w v = step-IsSound (sends i r) w.system v
  work-IsSound (writing a) w v = step-IsSound (writes a) w.system v
  work-IsSound (reading_events poll state) w v = v
  work-IsSound (reading_acl poll state) w v = v
  work-IsSound closing w v = close_step-IsSound w.closer w v

  pub works-IsRunning :
      (ts : List Task) (w : Workers Queue) → IsRunning w → IsRunning (works 𝓠 ts w)
  unfolding works
  works-IsRunning [] w v = v
  works-IsRunning (t ∷ ts) w (v, st) =
      works-IsRunning ts (work 𝓠 t w) (work-IsSound t w v, work-Stage t w v st)

  pub opened-IsRunning :
      (n : ℕ) (q q' : Queue) → pending q ≡ 0 → pending q' ≡ 0 → IsRunning (opened 𝓠 n q q')
  unfolding opened start run
  opened-IsRunning n q q' e e' = (
    run-start-IsSound n [],
    (
      refl,
      omega (arith, submit_times-pending 𝓠 event_kind.in_flight event_kind.transfer_size q),
      omega (arith, submit_times-pending 𝓠 acl_kind.in_flight acl_kind.transfer_size q'),
    ),
  )

  pub StageOf-uncalled :
      (w : Workers Queue) → StageOf w → w.closer ≡ uncalled → 0 < pending w.events
  StageOf-uncalled w st open_ =
      let at : Stage uncalled w.system.mem.stop (pending w.events) (pending w.acl)
          w.system.writer.pc =
        subst (λ c. Stage c w.system.mem.stop (pending w.events) (pending w.acl) w.system.writer.pc)
          open_ st in
      at.1
