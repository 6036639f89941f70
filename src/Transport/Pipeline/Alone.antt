-- ===== src/Transport/Pipeline/Alone.antt =====
-- A send of the pipeline that nothing interrupts is the send of Transport.Api.
use btstack_rs.Common.{
  ℕ, ◌+◌, ◌<◌, ◌≡◌, ◌∙◌, refl, sym, ap, ap₂, subst, Bool, true, false, Option, none, some, List, [],
  ◌∷◌, ◌++◌, arith, ltb, if◌then◌else◌, ◌&&◌, length, take, ℤ, pos, success, failure, usize_mod,
}
use btstack_rs.Transport.Constants.{outgoing_queue_depth}
use btstack_rs.Transport.Types.{OutgoingPacket, ActiveTransport, TransportState}
use btstack_rs.Transport.Api.{outgoing_packet, transport_send_packet}
use btstack_rs.Transport.Api.Send.{enqueued, send_result, send-send_result}
use btstack_rs.Transport.Pipeline.Send.{Shared, SendPc, idle}
use btstack_rs.Transport.Pipeline.Solo.{takes, accepting, sent, send_alone, send_alone-sent}

-- The shared memory of the pipeline is that of an open transport.
pub record Corresponds (a : ActiveTransport) (m : Shared) : Type 0 where
  pub stop : a.stop ≡ m.stop
  pub pending : a.outgoing_pending ≡ m.pending
  pub queue : a.outgoing.queue ≡ m.queue
  pub alive : a.outgoing.receiver_alive ≡ m.receiver_alive
  pub capacity : a.outgoing.capacity ≡ outgoing_queue_depth
  pub depth : a.outgoing_queue_depth ≡ outgoing_queue_depth

-- The two outcomes of a send: the packet is accepted, last in the channel, with one more slot; or
-- nothing has changed.
pub data Outcome (a : ActiveTransport) (m : Shared) : ActiveTransport → Shared → ℤ → Type 0 where
  accepts :
      (p : OutgoingPacket) (a' : ActiveTransport) (m' : Shared)
      → Corresponds a' m'
      → m'.accepted ≡ m.accepted ++ p ∷ []
      → Outcome a m a' m' success
  refuses : Outcome a m a m failure

agree-if :
    (a : ActiveTransport) (m : Shared) (p : OutgoingPacket) (b : Bool)
    → Corresponds a m
    → let (a', code) : ActiveTransport × ℤ = if b then (enqueued a p, success) else (a, failure) in
      let (m', pc) : Shared × SendPc = if b then (accepting m p, idle) else (m, idle) in
      Outcome a m a' m' code × (pc ≡ idle)
agree-if a m p true c = (
  accepts p (enqueued a p) (accepting m p)
      (record {
        stop = c.stop;
        pending = ap (λ n. n + 1) c.pending;
        queue = ap (λ q. q ++ p ∷ []) c.queue;
        alive = c.alive;
        capacity = c.capacity;
        depth = c.depth;
      })
      refl,
  refl,
)
agree-if a m p false c = (refuses, refl)

abbrev room_in : ActiveTransport → Bool
room_in a =
    ltb a.outgoing_pending a.outgoing_queue_depth
    && a.outgoing.receiver_alive
    && ltb (length a.outgoing.queue) a.outgoing.capacity

room_in-takes : (a : ActiveTransport) (m : Shared) → Corresponds a m → room_in a ≡ takes m
room_in-takes a m c =
    ap₂ (λ x y. x && y) (ap₂ (λ x y. x && y) (ap₂ ltb c.pending c.depth) c.alive)
      (ap₂ (λ q n. ltb (length q) n) c.queue c.capacity)

-- The two descriptions of a whole send agree.
agree :
    (a : ActiveTransport) (m : Shared) (o : Option OutgoingPacket)
    → Corresponds a m
    → Outcome a m (send_result a o).0 (sent m o).0 (send_result a o).1 × ((sent m o).1 ≡ idle)
agree a m none c = (refuses, refl)
agree a m (some p) c =
    let (a', code) = send_result a (some p) in
    subst
      (λ b.
        let (m', pc) : Shared × SendPc = if b then (accepting m p, idle) else (m, idle) in
        Outcome a m a' m' code × (pc ≡ idle))
      (room_in-takes a m c) (agree-if a m p (room_in a) c)

-- A thread that runs through the sending function alone, its compare-exchange failing any number of
-- times for no reason, returns; and it does to the counter and the channel what
-- `transport_send_packet` of Transport.Api does to the open transport, with the same return code: the
-- packet is accepted, last, exactly if the code is 0, and nothing has changed if it is -1.
pub send_alone-transport_send_packet :
    (spurious : ℕ) (state : TransportState) (a : ActiveTransport) (m : Shared) (t : ℕ)
    (bytes : List ℕ) (n : ℕ)
    → state.active ≡ some a
    → Corresponds a m
    → m.pending < usize_mod
    → (a' : ActiveTransport) × (code : ℤ) × (transport_send_packet spurious state t
          (some bytes)
          (pos n)
        ≡ (record state { active = some a' }, code))
      × Outcome a m a' (send_alone spurious t (take n bytes) m).0 code
      × ((send_alone spurious t (take n bytes) m).1 ≡ idle)
send_alone-transport_send_packet spurious state a m t bytes n open_ c small =
    let o = outgoing_packet t (take n bytes) in
    let (outcome, outside) = agree a m o c in
    let alone = send_alone-sent t (take n bytes) spurious m small in
    (
      (send_result a o).0,
      (send_result a o).1,
      send-send_result spurious state a t bytes n open_ (omega (arith, small, c.pending)),
      subst (λ s. Outcome a m (send_result a o).0 s.0 (send_result a o).1) (sym alone) outcome,
      ap (λ s. s.1) alone ∙ outside,
    )
