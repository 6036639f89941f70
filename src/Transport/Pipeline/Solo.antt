-- ===== src/Transport/Pipeline/Solo.antt =====
-- One sender of the pipeline that nothing interrupts, from its call to its return.
use btstack_rs.Common.{
  ℕ, zero, suc, ◌+◌, ◌≤◌, ◌<◌, ◌≡◌, ◌∙◌, inl, inr, refl, ap, Bool, true, false, Option, none, some,
  List, [], ◌∷◌, ◌++◌, arith, ltb, if◌then◌else◌, ◌&&◌, length, usize_mod, fetch_sub_one-suc,
  Bool-cases, dec_lt,
}
use btstack_rs.Transport.Constants.{outgoing_queue_depth}
use btstack_rs.Transport.Types.{OutgoingPacket}
use btstack_rs.Transport.Api.{outgoing_packet}
use btstack_rs.Transport.Pipeline.Send.{
  Shared, Request, SendPc, idle, loaded, reserved, undo, send_step,
}

abbrev request : ℕ → List ℕ → Bool → Request
request t packet spurious = record { packet_type = t; packet = packet; spurious = spurious }

-- Steps until the sender is outside the function, at most so many.
settle : ℕ → ℕ → List ℕ → Shared × SendPc → Shared × SendPc
settle zero t packet s = s
settle (suc n) t packet (m, idle) = (m, idle)
settle (suc n) t packet (m, pc) = settle n t packet (send_step (request t packet false) m pc)

-- The compare-exchange fails so often for no reason, before it is settled.
retries : ℕ → ℕ → List ℕ → Shared × SendPc → Shared × SendPc
unfolding settle
retries zero t packet s = settle 3 t packet s
retries (suc n) t packet (m, idle) = (m, idle)
retries (suc n) t packet (m, pc) = retries n t packet (send_step (request t packet true) m pc)

-- One thread runs through the function, and no other does anything.
pub send_alone : ℕ → ℕ → List ℕ → Shared → Shared × SendPc
unfolding retries
send_alone spurious t packet m =
    retries spurious t packet (send_step (request t packet false) m idle)

abbrev pub takes : Shared → Bool
takes m =
    ltb m.pending outgoing_queue_depth
    && m.receiver_alive
    && ltb (length m.queue) outgoing_queue_depth

abbrev pub accepting : Shared → OutgoingPacket → Shared
accepting m p = record m {
  pending = m.pending + 1;
  queue = m.queue ++ p ∷ [];
  accepted = m.accepted ++ p ∷ [];
}

-- The whole of a send as one test.
abbrev pub sent : Shared → Option OutgoingPacket → Shared × SendPc
sent m none = (m, idle)
sent m (some p) = if takes m then (accepting m p, idle) else (m, idle)

sent-refused :
    (m : Shared) (o : Option OutgoingPacket)
    → ((m.pending < outgoing_queue_depth)
        → m.receiver_alive && ltb (length m.queue) outgoing_queue_depth ≡ false)
    → (m, idle) ≡ sent m o
sent-refused m none h = refl
sent-refused m (some p) h = ground arith

module _ (t : ℕ) (packet : List ℕ) where
  load-full :
      (m : Shared) (o : Option OutgoingPacket) (spurious : Bool)
      → outgoing_queue_depth ≤ m.pending
      → send_step (request t packet spurious) m (loaded m.pending o) ≡ (m, idle)
  unfolding send_step
  load-full m o spurious full = ground arith

  load-room :
      (m : Shared) (o : Option OutgoingPacket)
      → m.pending < outgoing_queue_depth
      → send_step (request t packet false) m (loaded m.pending o)
        ≡ (record m { pending = m.pending + 1 }, reserved o)
  unfolding send_step
  load-room m o room = ground arith

  load-spurious :
      (m : Shared) (o : Option OutgoingPacket)
      → m.pending < outgoing_queue_depth
      → send_step (request t packet true) m (loaded m.pending o) ≡ (m, loaded m.pending o)
  unfolding send_step
  load-spurious m o room = ground arith

  undo-settle :
      (m : Shared)
      → m.pending < usize_mod
      → settle 1 t packet (record m { pending = m.pending + 1 }, undo) ≡ (m, idle)
  unfolding settle send_step
  undo-settle m small =
      ap (λ n. (record m { pending = n }, idle)) (fetch_sub_one-suc m.pending small)

  accepted-step :
      (m : Shared) (p : OutgoingPacket)
      → m.pending < outgoing_queue_depth
      → m.receiver_alive && ltb (length m.queue) outgoing_queue_depth ≡ true
      → send_step
          (request t packet false)
          (record m { pending = m.pending + 1 })
          (reserved (some p))
        ≡ sent m (some p)
  unfolding send_step
  accepted-step m p room open_ = ground arith

  refused-step :
      (m : Shared) (p : OutgoingPacket)
      → m.receiver_alive && ltb (length m.queue) outgoing_queue_depth ≡ false
      → send_step
          (request t packet false)
          (record m { pending = m.pending + 1 })
          (reserved (some p))
        ≡ (record m { pending = m.pending + 1 }, undo)
  unfolding send_step
  refused-step m p shut = ground arith

  settle-idle : (n : ℕ) (m : Shared) → settle n t packet (m, idle) ≡ (m, idle)
  unfolding settle
  settle-idle zero m = refl
  settle-idle (suc n) m = refl

  retries-idle : (n : ℕ) (m : Shared) → retries n t packet (m, idle) ≡ (m, idle)
  unfolding retries settle
  retries-idle zero m = refl
  retries-idle (suc n) m = refl

  settle-if :
      (b : Bool) (x y : Shared)
      → settle 1 t packet (if b then (x, idle) else (y, idle))
        ≡ (if b then (x, idle) else (y, idle))
  settle-if true x y = settle-idle 1 x
  settle-if false x y = settle-idle 1 y

  sent-settle : (m : Shared) (o : Option OutgoingPacket) → settle 1 t packet (sent m o) ≡ sent m o
  sent-settle m none = settle-idle 1 m
  sent-settle m (some p) = settle-if (takes m) (accepting m p) m

  reserved-settle :
      (m : Shared) (o : Option OutgoingPacket)
      → m.pending < outgoing_queue_depth
      → settle 2 t packet (record m { pending = m.pending + 1 }, reserved o) ≡ sent m o
  unfolding settle
  reserved-settle m none room = unfold send_step in undo-settle m (omega (arith, room))
  reserved-settle m (some p) room =
      elim (Bool-cases (m.receiver_alive && ltb (length m.queue) outgoing_queue_depth)) [
        | inl open_ ↦ ap (settle 1 t packet) (accepted-step m p room open_) ∙ sent-settle m (some p)
        | inr shut ↦
            ap (settle 1 t packet) (refused-step m p shut)
            ∙ undo-settle m (omega (arith, room))
            ∙ sent-refused m (some p) (λ _. shut)
      ]

  settle-sent :
      (m : Shared) (o : Option OutgoingPacket)
      → m.pending < usize_mod
      → settle 3 t packet (m, loaded m.pending o) ≡ sent m o
  unfolding settle
  settle-sent m o small = elim (dec_lt m.pending outgoing_queue_depth) [
    | yes room ↦ ap (settle 2 t packet) (load-room m o room) ∙ reserved-settle m o room
    | no full ↦
        ap (settle 2 t packet) (load-full m o false (omega (arith, full)))
        ∙ sent-refused m o (λ room. absurd (full room))
  ]

  retries-sent :
      (n : ℕ) (m : Shared) (o : Option OutgoingPacket)
      → m.pending < usize_mod
      → retries n t packet (m, loaded m.pending o) ≡ sent m o
  unfolding retries
  retries-sent zero m o small = settle-sent m o small
  retries-sent (suc n) m o small = elim (dec_lt m.pending outgoing_queue_depth) [
    | yes room ↦ ap (retries n t packet) (load-spurious m o room) ∙ retries-sent n m o small
    | no full ↦
        ap (retries n t packet) (load-full m o true (omega (arith, full)))
        ∙ retries-idle n m
        ∙ sent-refused m o (λ room. absurd (full room))
  ]

  pub send_alone-sent :
      (spurious : ℕ) (m : Shared)
      → m.pending < usize_mod
      → send_alone spurious t packet m ≡ sent m (outgoing_packet t packet)
  unfolding send_alone send_step
  send_alone-sent spurious m small = retries-sent spurious m (outgoing_packet t packet) small
