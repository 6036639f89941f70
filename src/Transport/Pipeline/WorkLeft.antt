-- ===== src/Transport/Pipeline/WorkLeft.antt =====
-- How much the writer thread (btstack-hci-transport-nusb/src/io.rs) still has to do.
use btstack_rs.Common.{
  ℕ, ◌+◌, ◌*◌, ◌≡◌, ◌≤◌, ◌<◌, ◌⊎◌, inl, inr, refl, ap, true, false, List, [], ◌∷◌, arith, length,
  Bool-cases, is_some, if◌then◌else◌, ◌==◌,
}
use btstack_rs.Transport.Types.{OutgoingPacket, command, acl, iso}
use btstack_rs.Transport.Nusb.{ok, stall, failed}
use btstack_rs.Transport.Pipeline.Send.{Shared}
use btstack_rs.Transport.Pipeline.Writer.{
  WriterPc, fill_test, receive, command_done, command_ack, cancel_test, empty_test, poll, completed,
  signal, exited, WriterState, Answers, received, step_at,
}
use btstack_rs.Transport.Pipeline.Invariant.{Inv, AtPc, writer_slot}

-- How many steps it takes from here to the next place at which a packet is taken or one is finished.
abbrev rank : WriterPc → ℕ → ℕ
rank fill_test f = 6
rank receive f = 5
rank cancel_test f = if f == 0 then 8 else 4
rank empty_test f = if f == 0 then 7 else 3
rank poll f = 2
rank (command_done _) f = 8
rank (completed _) f = 8
rank (command_ack _) f = 7
rank (signal _) f = 7
rank exited f = 0

abbrev pub work_left : Shared → WriterState → ℕ
work_left m w = 10 * length m.queue + 8 * w.in_flight_out + rank w.pc w.in_flight_out

-- Nothing is queued, in flight or in the writer's hands.
abbrev pub IsDrained : Shared → WriterState → Type 0
IsDrained m w = (length m.queue ≡ 0) × (w.in_flight_out ≡ 0) × (writer_slot w.pc ≡ 0)

received-work_left :
    (queue : List OutgoingPacket) (a : Answers) (m : Shared) (w : WriterState)
    → w.pc ≡ receive
    → m.queue ≡ queue
    → m.sender_alive ≡ true
    → 0 < length queue + w.in_flight_out
    → work_left (received queue a m w).0 (received queue a m w).1 < work_left m w
unfolding received
received-work_left [] a m w e q alive more = ground (arith, ap length q)
received-work_left (command bytes ∷ rest) a m w e q alive more = ground (arith, ap length q)
received-work_left (acl bytes ∷ rest) a m w e q alive more = ground (arith, ap length q)
received-work_left (iso bytes ∷ rest) a m w e q alive more = ground (arith, ap length q)

-- As long as something is left, each step of the writer gets on with it.
pub step_at-work_left :
    (pc : WriterPc) (a : Answers) (m : Shared) (w : WriterState) (held : ℕ)
    → w.pc ≡ pc
    → m.stop ≡ false
    → Inv held m w
    → AtPc pc m w
    → is_some a.completion ≡ true
    → 0 < length m.queue + w.in_flight_out + writer_slot pc
    → work_left (step_at pc a m w).0 (step_at pc a m w).1 < work_left m w
unfolding step_at
step_at-work_left receive a m w held e stop v at done more =
    received-work_left m.queue a m w e refl v.connected (omega (arith, more))
step_at-work_left exited a m w held e stop v at done more = ground arith
step_at-work_left poll a m w held e stop v at done more = ground (arith, v.few)
step_at-work_left (signal ok) a m w held e stop v at done more = ground arith
step_at-work_left (signal stall) a m w held e stop v at done more = ground arith
step_at-work_left (signal failed) a m w held e stop v at done more = ground arith
step_at-work_left (command_ack true) a m w held e stop v at done more = ground arith
step_at-work_left (command_ack false) a m w held e stop v at done more = ground arith
step_at-work_left _ a m w held e stop v at done more = ground arith

received-IsDrained :
    (queue : List OutgoingPacket) (a : Answers) (m : Shared) (w : WriterState)
    → m.queue ≡ queue
    → m.sender_alive ≡ true
    → length queue ≡ 0
    → w.in_flight_out ≡ 0
    → IsDrained (received queue a m w).0 (received queue a m w).1
unfolding received
received-IsDrained [] a m w q alive z few = ground (arith, ap length q)
received-IsDrained (p ∷ rest) a m w q alive z few = absurd (ground arith)

-- And when nothing is left, nothing comes back.
pub step_at-IsDrained :
    (pc : WriterPc) (a : Answers) (m : Shared) (w : WriterState) (held : ℕ)
    → w.pc ≡ pc
    → m.stop ≡ false
    → Inv held m w
    → AtPc pc m w
    → IsDrained m w
    → IsDrained (step_at pc a m w).0 (step_at pc a m w).1
unfolding step_at
step_at-IsDrained receive a m w held e stop v at (q, f, z) =
    received-IsDrained m.queue a m w refl v.connected q f
step_at-IsDrained poll a m w held e stop v at (q, f, z) = ground arith
step_at-IsDrained (completed status) a m w held e stop v at (q, f, z) = ground arith
step_at-IsDrained (command_done b) a m w held e stop v at (q, f, z) = ground arith
step_at-IsDrained (signal ok) a m w held e stop v at (q, f, z) = ground arith
step_at-IsDrained (signal stall) a m w held e stop v at (q, f, z) = ground arith
step_at-IsDrained (signal failed) a m w held e stop v at (q, f, z) = ground arith
step_at-IsDrained (command_ack true) a m w held e stop v at (q, f, z) = ground arith
step_at-IsDrained (command_ack false) a m w held e stop v at (q, f, z) = ground arith
step_at-IsDrained _ a m w held e stop v at (q, f, z) = ground arith

-- An open transport's writer has always something to do.
pub work_left-positive :
    (pc : WriterPc) (m : Shared) (w : WriterState)
    → w.pc ≡ pc
    → m.stop ≡ false
    → AtPc pc m w
    → 0 < work_left m w
work_left-positive exited m w e stop at = ground arith
work_left-positive _ m w e stop at = ground arith

pub IsDrained-or :
    (m : Shared) (w : WriterState)
    → IsDrained m w ⊎ (0 < length m.queue + w.in_flight_out + writer_slot w.pc)
IsDrained-or m w = elim (Bool-cases (length m.queue + w.in_flight_out + writer_slot w.pc == 0)) [
  | inl zero_ ↦ inl (ground arith)
  | inr more ↦ inr (ground arith)
]

pub work_left-le :
    (pc : WriterPc) (m : Shared) (w : WriterState) (held : ℕ)
    → w.pc ≡ pc
    → Inv held m w
    → AtPc pc m w
    → work_left m w ≤ 48
work_left-le receive m w held e v at = ground (arith, v.counted, v.bounded)
work_left-le (command_done b) m w held e v at = ground (arith, v.counted, v.bounded)
work_left-le (completed b) m w held e v at = ground (arith, v.counted, v.bounded)
work_left-le _ m w held e v at = ground (arith, v.counted, v.bounded)

pub AtPc-dropped :
    (pc : WriterPc) (m : Shared) (w : WriterState) → m.stop ≡ false → AtPc pc m w → m.dropped ≡ []
AtPc-dropped receive m w stop at = at.1
AtPc-dropped poll m w stop at = at.1
AtPc-dropped exited m w stop at = ground arith
AtPc-dropped _ m w stop at = at.1
