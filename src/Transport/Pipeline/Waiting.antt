-- ===== src/Transport/Pipeline/Waiting.antt =====
-- One thread waiting in `transport_send_packet` (lib.rs, with io.rs:`try_reserve_send_slot`) for its
-- packet to be accepted, beside the writer: where it can stand, and how far it still has to go.
use btstack_rs.Common.{
  ℕ, ◌+◌, ◌≤◌, ◌<◌, ◌≡◌, ◌⊎◌, inl, inr, refl, sym, subst, true, false, Option, none, some, List, [],
  ◌∷◌, ◌++◌, arith, length, fetch_sub_one, if◌then◌else◌, Bool-cases, not, ◌&&◌, ◌==◌,
}
use btstack_rs.Transport.Constants.{outgoing_queue_depth}
use btstack_rs.Transport.Types.{OutgoingPacket, command, acl, iso}
use btstack_rs.Transport.Nusb.{ok, stall, failed}
use btstack_rs.Transport.Api.{outgoing_packet}
use btstack_rs.Transport.Pipeline.Send.{
  Shared, SendPc, idle, loaded, reserved, undo, Request, send_step,
}
use btstack_rs.Transport.Pipeline.Writer.{
  WriterPc, receive, command_done, command_ack, poll, completed, signal, exited, WriterState,
  Answers, received, step_at,
}
use btstack_rs.Transport.Pipeline.Invariant.{Inv, AtPc}

-- The writer only takes slots back.
received-pending :
    (queue : List OutgoingPacket) (a : Answers) (m : Shared) (w : WriterState)
    → (received queue a m w).0.pending ≡ m.pending
unfolding received
received-pending [] a m w = ground arith
received-pending (command bytes ∷ rest) a m w = refl
received-pending (acl bytes ∷ rest) a m w = refl
received-pending (iso bytes ∷ rest) a m w = refl

fetch_sub_one-le : (n : ℕ) → 0 < n → fetch_sub_one n ≤ n
fetch_sub_one-le n h = omega arith

pub step_at-pending :
    (pc : WriterPc) (a : Answers) (m : Shared) (w : WriterState) (held : ℕ)
    → w.pc ≡ pc
    → Inv held m w
    → (step_at pc a m w).0.pending ≤ m.pending
unfolding step_at
step_at-pending receive a m w held e v = omega (arith, received-pending m.queue a m w)
step_at-pending (command_done succeeded) a m w held e v =
    ground (arith, v.counted, fetch_sub_one-le m.pending)
step_at-pending (completed status) a m w held e v =
    ground (arith, v.counted, fetch_sub_one-le m.pending)
step_at-pending (signal ok) a m w held e v = omega arith
step_at-pending (signal stall) a m w held e v = omega arith
step_at-pending (signal failed) a m w held e v = omega arith
step_at-pending (command_ack true) a m w held e v = omega arith
step_at-pending (command_ack false) a m w held e v = omega arith
step_at-pending _ a m w held e v = ground arith

-- While the flag is not set the receiver lives.
pub AtPc-alive :
    (pc : WriterPc) (m : Shared) (w : WriterState)
    → m.stop ≡ false
    → AtPc pc m w
    → m.receiver_alive ≡ true
AtPc-alive receive m w stop at = at.0
AtPc-alive poll m w stop at = at.0
AtPc-alive exited m w stop at = ground arith
AtPc-alive _ m w stop at = at.0

-- Where the thread can stand with the packet `p`, before it is accepted: a slot is free, or was free
-- when the counter was loaded, or is reserved.
abbrev pub Waiting : OutgoingPacket → SendPc → Shared → Type 0
Waiting p idle m = m.pending < outgoing_queue_depth
Waiting p (loaded c none) m = ⊥
Waiting p (loaded c (some q)) m = (q ≡ p) × (m.pending ≤ c) × (c < outgoing_queue_depth)
Waiting p (reserved none) m = ⊥
Waiting p (reserved (some q)) m = q ≡ p
Waiting p undo m = ⊥

-- How many steps it still takes at most, not counting spurious failures.
abbrev pub left : SendPc → Shared → ℕ
left idle m = m.pending + 3
left (loaded c _) m = c + 2
left (reserved _) m = 1
left undo m = 0

abbrev pub tick : Request → ℕ
tick r = if r.spurious then 0 else 1

-- Either it has returned with the packet accepted, or it is nearer to that.
abbrev Nearer : OutgoingPacket → Request → SendPc → Shared → Shared × SendPc → Type 0
Nearer p r pc m (m', pc') =
    ((pc' ≡ idle) × (m'.accepted ≡ m.accepted ++ p ∷ []))
    ⊎ (Waiting p pc' m' × (m'.accepted ≡ m.accepted) × (left pc' m' + tick r ≤ left pc m))

tick-le : (r : Request) (a b : ℕ) → a < b → a + tick r ≤ b
tick-le r a b h = ground arith

cas-wins :
    (r : Request) (m : Shared) (c : ℕ) (o : Option OutgoingPacket)
    → c < outgoing_queue_depth
    → m.pending == c && not r.spurious ≡ true
    → send_step r m (loaded c o) ≡ (record m { pending = c + 1 }, reserved o)
unfolding send_step
cas-wins r m c o room wins = ground arith

cas-loses :
    (r : Request) (m : Shared) (c : ℕ) (o : Option OutgoingPacket)
    → c < outgoing_queue_depth
    → m.pending == c && not r.spurious ≡ false
    → send_step r m (loaded c o) ≡ (m, loaded m.pending o)
unfolding send_step
cas-loses r m c o room loses = ground arith

pub send_step-Nearer :
    (p : OutgoingPacket) (r : Request) (pc : SendPc) (m : Shared)
    → outgoing_packet r.packet_type r.packet ≡ some p
    → m.receiver_alive ≡ true
    → ((q : OutgoingPacket) → pc ≡ reserved (some q) → length m.queue < outgoing_queue_depth)
    → Waiting p pc m
    → Nearer p r pc m (send_step r m pc)
unfolding send_step
send_step-Nearer p r idle m known alive room waits =
    subst (λ o. Nearer p r idle m (m, loaded m.pending o)) (sym known)
      (inr
        ((refl, omega arith, waits), refl, tick-le r (m.pending + 2) (m.pending + 3) (omega arith)))
send_step-Nearer p r (loaded c none) m known alive room waits = absurd waits
send_step-Nearer p r (loaded c (some q)) m known alive room waits =
    elim (Bool-cases (m.pending == c && not r.spurious)) [
      | inl wins ↦
          subst (Nearer p r (loaded c (some q)) m) (sym (cas-wins r m c (some q) waits.2 wins))
            (inr (waits.0, refl, tick-le r 1 (c + 2) (omega arith)))
      | inr loses ↦
          subst (Nearer p r (loaded c (some q)) m) (sym (cas-loses r m c (some q) waits.2 loses)) (
            inr (
              (waits.0, omega arith, omega (arith, waits.1, waits.2)),
              refl,
              ground (arith, waits.1, loses),
            ))
    ]
send_step-Nearer p r (reserved none) m known alive room waits = absurd waits
send_step-Nearer p r (reserved (some q)) m known alive room waits =
    inl (ground (arith, room q refl))
send_step-Nearer p r undo m known alive room waits = absurd waits

-- The writer keeps a thread waiting where it stands.
pub Waiting-le :
    (p : OutgoingPacket) (pc : SendPc) (m m' : Shared)
    → m'.pending ≤ m.pending
    → Waiting p pc m
    → Waiting p pc m' × (left pc m' ≤ left pc m)
Waiting-le p idle m m' le waits = (omega arith, omega arith)
Waiting-le p (loaded c none) m m' le waits = absurd waits
Waiting-le p (loaded c (some q)) m m' le (same, was, room) =
    ((same, omega arith, room), omega arith)
Waiting-le p (reserved none) m m' le waits = absurd waits
Waiting-le p (reserved (some q)) m m' le waits = (waits, omega arith)
Waiting-le p undo m m' le waits = absurd waits

pub left-positive : (p : OutgoingPacket) (pc : SendPc) (m : Shared) → Waiting p pc m → 0 < left pc m
left-positive p idle m waits = omega arith
left-positive p (loaded c o) m waits = omega arith
left-positive p (reserved o) m waits = omega arith
left-positive p undo m waits = absurd waits
