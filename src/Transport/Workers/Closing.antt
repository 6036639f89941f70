-- ===== src/Transport/Workers/Closing.antt =====
-- What holds after `transport_close` (btstack-hci-transport-nusb/src/lib.rs) has returned.
use btstack_rs.Common.{ℕ, ◌≡◌, ◌∙◌, refl, ap, subst, List, [], ◌∷◌, ◌++◌, append-nil, arith}
use btstack_rs.Transport.Nusb.{TransferQueue}
use btstack_rs.Transport.Reader.{event_kind, acl_kind}
use btstack_rs.Transport.Pipeline.{sends, writes}
use btstack_rs.Transport.Pipeline.Writer.{exited}
use btstack_rs.Transport.Pipeline.Exited.{SameMemory, step-exited}
use btstack_rs.Transport.Workers.{
  CloserPc, returned, Workers, Task, sending, writing, reading_events, reading_acl, closing,
  close_step, work, works, opened,
}
use btstack_rs.Transport.Workers.Stages.{
  Stage, StageOf, read_step-ended, IsRunning, work-IsSound, work-Stage, works-IsRunning,
  opened-IsRunning,
}

-- No packet has been accepted, handed to USB, reported as sent or handed to the packet handler.
abbrev pub SameOutput : {Queue : Type 0} → Workers Queue → Workers Queue → Type 0
SameOutput w w' = SameMemory w.system.mem w'.system.mem × (w'.delivered ≡ w.delivered)

module _ (𝓠 : TransferQueue) where
  open 𝓠 use {Queue, pending}

  StageOf-returned :
      (w : Workers Queue)
      → StageOf 𝓠 w
      → w.closer ≡ returned
      → (pending w.events ≡ 0) × (pending w.acl ≡ 0) × (w.system.writer.pc ≡ exited)
  StageOf-returned w st done =
      let at : Stage returned w.system.mem.stop (pending w.events) (pending w.acl)
          w.system.writer.pc =
        subst (λ c. Stage c w.system.mem.stop (pending w.events) (pending w.acl) w.system.writer.pc)
          done st in
      (at.1, at.2, at.3)

  close_step-returned :
      (closer : CloserPc) (w : Workers Queue)
      → closer ≡ returned
      → SameOutput w (close_step 𝓠 closer w) × ((close_step 𝓠 closer w).closer ≡ returned)
  unfolding close_step
  close_step-returned returned w e = (((refl, refl, refl), refl), refl)
  close_step-returned _ w e = absurd (ground arith)

  work-SameOutput :
      (t : Task) (w : Workers Queue)
      → IsRunning 𝓠 w
      → w.closer ≡ returned
      → SameOutput w (work 𝓠 t w) × ((work 𝓠 t w).closer ≡ returned)
  unfolding work
  work-SameOutput (sending i r) w (v, st) done =
      (((step-exited (sends i r) w.system v (StageOf-returned w st done).2).0, refl), done)
  work-SameOutput (writing a) w (v, st) done =
      (((step-exited (writes a) w.system v (StageOf-returned w st done).2).0, refl), done)
  work-SameOutput (reading_events poll state) w (v, st) done =
      let e =
        read_step-ended 𝓠 event_kind poll state w.system.mem.stop w.events
          (StageOf-returned w st done).0 in
      (((refl, refl, refl), ap (λ r. w.delivered ++ r.1) e ∙ append-nil w.delivered), done)
  work-SameOutput (reading_acl poll state) w (v, st) done =
      let e =
        read_step-ended 𝓠 acl_kind poll state w.system.mem.stop w.acl
          (StageOf-returned w st done).1 in
      (((refl, refl, refl), ap (λ r. w.delivered ++ r.1) e ∙ append-nil w.delivered), done)
  work-SameOutput closing w (v, st) done = close_step-returned w.closer w done

  works-SameOutput :
      (ts : List Task) (w : Workers Queue)
      → IsRunning 𝓠 w
      → w.closer ≡ returned
      → SameOutput w (works 𝓠 ts w)
  unfolding works
  works-SameOutput [] w v done = ((refl, refl, refl), refl)
  works-SameOutput (t ∷ ts) w v done =
      let ((acc, usb, sent), del) = (work-SameOutput t w v done).0 in
      let ((acc', usb', sent'), del') =
        works-SameOutput ts (work 𝓠 t w) (work-IsSound 𝓠 t w v.0, work-Stage 𝓠 t w v.0 v.1)
          (work-SameOutput t w v done).1 in
      ((acc' ∙ acc, usb' ∙ usb, sent' ∙ sent), del' ∙ del)

  -- Over reader queues that were empty when the transport was opened, in every run of any number of
  -- senders, the writer, the readers and `transport_close`: once `transport_close` has returned, the
  -- readers have no transfer pending, the writer has exited, and whatever steps follow, no further
  -- packet is accepted, handed to USB, reported as sent or handed to the packet handler.
  pub returned-quiet :
      (n : ℕ) (q q' : Queue) (before after : List Task)
      → pending q ≡ 0
      → pending q' ≡ 0
      → (works 𝓠 before (opened 𝓠 n q q')).closer ≡ returned
      → let w = works 𝓠 before (opened 𝓠 n q q') in
        (pending w.events ≡ 0)
        × (pending w.acl ≡ 0)
        × (w.system.writer.pc ≡ exited)
        × SameOutput w (works 𝓠 after w)
  returned-quiet n q q' before after e e' done =
      let w = works 𝓠 before (opened 𝓠 n q q') in
      let v = works-IsRunning 𝓠 before (opened 𝓠 n q q') (opened-IsRunning 𝓠 n q q' e e') in
      let (events, acl, gone) = StageOf-returned w v.1 done in
      (events, acl, gone, works-SameOutput after w v done)
