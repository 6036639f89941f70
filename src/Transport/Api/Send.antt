-- ===== src/Transport/Api/Send.antt =====
-- Sending: the flow control between `transport_can_send_packet_now` and `transport_send_packet`.
use btstack_rs.Common.{
  ℕ, zero, suc, ◌+◌, ◌≤◌, ◌<◌, ◌≡◌, ◌⊎◌, inl, inr, refl, true, false, ◌&&◌, Option, none, some,
  List, [], ◌∷◌, ◌++◌, arith, ltb, if◌then◌else◌, length, length-append, take, ℤ, pos, negsuc,
  success, failure, usize_mod, fetch_sub_one-suc, is_some, Option-cases, ap, dec_lt,
}
use btstack_rs.Transport.Types.{OutgoingPacket, ActiveTransport, TransportState}
use btstack_rs.Transport.Api.{
  is_outgoing_type, transport_can_send_packet_now, try_reserve_send_slot, outgoing_packet, try_send,
  send_active, transport_send_packet,
}

-- Between calls: every packet queued has its slot, and the queue has room for every slot.
pub record IsConsistent (active : ActiveTransport) : Type 0 where
  pub alive : active.outgoing.receiver_alive ≡ true
  pub counted : length active.outgoing.queue ≤ active.outgoing_pending
  pub bounded : active.outgoing_pending ≤ active.outgoing_queue_depth
  pub fits : active.outgoing_queue_depth ≤ active.outgoing.capacity
  pub small : active.outgoing_queue_depth < usize_mod

-- Spurious failures of the compare-exchange do not change the outcome.
try_reserve_send_slot_lem :
    (spurious pending depth : ℕ)
    → try_reserve_send_slot spurious pending depth
      ≡ (if ltb pending depth then (true, pending + 1) else (false, pending))
unfolding try_reserve_send_slot
try_reserve_send_slot_lem zero pending depth = ground arith
try_reserve_send_slot_lem (suc spurious) pending depth =
    ground (arith, try_reserve_send_slot_lem spurious pending depth)

pub outgoing_packet-is_some :
    (t : ℕ) (bytes : List ℕ) → is_some (outgoing_packet t bytes) ≡ is_outgoing_type t
unfolding outgoing_packet
outgoing_packet-is_some t bytes = ground arith

-- What an accepted packet does to the transport: it stands last in the queue, with one more slot.
abbrev pub enqueued : ActiveTransport → OutgoingPacket → ActiveTransport
enqueued a packet = record a {
  outgoing_pending = a.outgoing_pending + 1;
  outgoing = record a.outgoing { queue = a.outgoing.queue ++ packet ∷ [] };
}

-- The whole of a send as one test: a slot, a live receiver, a queue that is not full and a packet of
-- a known type. Otherwise nothing changes: a slot taken is given back.
abbrev pub send_result : ActiveTransport → Option OutgoingPacket → ActiveTransport × ℤ
send_result a none = (a, failure)
send_result a (some packet) =
    if ltb a.outgoing_pending a.outgoing_queue_depth
      && a.outgoing.receiver_alive
      && ltb (length a.outgoing.queue) a.outgoing.capacity
    then (enqueued a packet, success)
    else (a, failure)

send_active_lem :
    (spurious : ℕ) (a : ActiveTransport) (t : ℕ) (bytes : List ℕ)
    → a.outgoing_pending < usize_mod
    → send_active spurious a t bytes ≡ send_result a (outgoing_packet t bytes)
unfolding send_active try_send
send_active_lem spurious a t bytes small = elim (Option-cases (outgoing_packet t bytes)) [
  | inl unknown ↦
      rw (unknown, try_reserve_send_slot_lem spurious a.outgoing_pending a.outgoing_queue_depth)
        (ground (arith, fetch_sub_one-suc a.outgoing_pending small))
  | inr (packet, e) ↦
      rw (e, try_reserve_send_slot_lem spurious a.outgoing_pending a.outgoing_queue_depth)
        (ground (arith, fetch_sub_one-suc a.outgoing_pending small))
]

-- `state` with the transport `a`, and a return code.
abbrev pub with_active : TransportState → ActiveTransport × ℤ → TransportState × ℤ
with_active state (a, code) = (record state { active = some a }, code)

pub send-send_result :
    (spurious : ℕ) (state : TransportState) (a : ActiveTransport) (t : ℕ) (bytes : List ℕ) (n : ℕ)
    → state.active ≡ some a
    → a.outgoing_pending < usize_mod
    → transport_send_packet spurious state t (some bytes) (pos n)
      ≡ with_active state (send_result a (outgoing_packet t (take n bytes)))
unfolding transport_send_packet
send-send_result spurious state a t bytes n e small =
    rw (e, transport_send_packet) (rw (send_active_lem spurious a t (take n bytes) small) refl)

send_result_unchanged :
    (state : TransportState) (a : ActiveTransport) (o : Option OutgoingPacket)
    → state.active ≡ some a
    → (with_active state (send_result a o)).1 ≡ failure
    → (with_active state (send_result a o)).0 ≡ state
send_result_unchanged state a none e h = ground arith
send_result_unchanged state a (some p) e h = ground arith

-- A send that fails, for whatever reason, leaves the whole state as it was: a slot that it had
-- reserved is given back. The counter must not be at the end of its range.
pub send_failure_unchanged :
    (spurious : ℕ) (state : TransportState) (t : ℕ) (packet : Option (List ℕ)) (size : ℤ)
    → ((a : ActiveTransport) → state.active ≡ some a → a.outgoing_pending < usize_mod)
    → (transport_send_packet spurious state t packet size).1 ≡ failure
    → (transport_send_packet spurious state t packet size).0 ≡ state
send_failure_unchanged spurious state t none size small h = unfold transport_send_packet in refl
send_failure_unchanged spurious state t (some bytes) (negsuc n) small h =
    unfold transport_send_packet in refl
send_failure_unchanged spurious state t (some bytes) (pos n) small h =
    elim (Option-cases state.active) [
      | inl closed ↦ unfold transport_send_packet in rw (closed, transport_send_packet)
      | inr (a, e) ↦
          let eq = send-send_result spurious state a t bytes n e (small a e) in
          rw eq (send_result_unchanged state a (outgoing_packet t (take n bytes)) e (rw eq at h))
    ]

-- A state in which sending works as promised: a transport is open and consistent.
pub record IsReady (state : TransportState) (a : ActiveTransport) : Type 0 where
  pub is_active : state.active ≡ some a
  pub consistent : IsConsistent a

-- The flow control, for an open and consistent transport. If `transport_can_send_packet_now` says
-- yes, the next send of that packet type succeeds, whatever spurious failures its loop meets: the
-- packet, its first `n` bytes, stands last in the queue with one more slot in use. If it says no,
-- the send fails and changes nothing.
pub can_send-send :
    (spurious : ℕ) (state : TransportState) (a : ActiveTransport) (t : ℕ) (bytes : List ℕ) (n : ℕ)
    → IsReady state a
    → ((transport_can_send_packet_now state t ≡ pos 1)
        × ((p : OutgoingPacket) × (outgoing_packet t (take n bytes) ≡ some p)
            × (transport_send_packet spurious state t (some bytes) (pos n)
                ≡ (record state { active = some (enqueued a p) }, success))))
      ⊎ ((transport_can_send_packet_now state t ≡ pos 0)
          × (transport_send_packet spurious state t (some bytes) (pos n) ≡ (state, failure)))
unfolding transport_can_send_packet_now
can_send-send spurious state a t bytes n ready =
    elim (Option-cases (outgoing_packet t (take n bytes))) [
      | inl unknown ↦
          inr (ground (arith, type_known, ap is_some unknown), rw (eq, unknown) (ground arith))
      | inr (p, known) ↦ elim (dec_lt a.outgoing_pending a.outgoing_queue_depth) [
        | yes room ↦ inl (
          ground (arith, type_known, ap is_some known),
          (p, known, rw (eq, known) (ground arith)),
        )
        | no full ↦
            inr (ground (arith, type_known, ap is_some known), rw (eq, known) (ground arith))
      ]
    ]
  where
    type_known : is_some (outgoing_packet t (take n bytes)) ≡ is_outgoing_type t
    type_known = outgoing_packet-is_some t (take n bytes)

    eq :
        transport_send_packet spurious state t (some bytes) (pos n)
        ≡ with_active state (send_result a (outgoing_packet t (take n bytes)))
    eq =
        send-send_result spurious state a t bytes n ready.is_active
          (let c = ready.consistent in omega (arith, c.bounded, c.small))

-- The open transport is consistent, and so many slots, besides those of the queue, are in use at least.
abbrev pub Holds : TransportState → ActiveTransport → ℕ → Type 0
Holds state a held = IsReady state a × (length a.outgoing.queue + held ≤ a.outgoing_pending)

send_result-Holds :
    (state : TransportState) (a : ActiveTransport) (o : Option OutgoingPacket) (held : ℕ)
    → Holds state a held
    → Holds (with_active state (send_result a o)).0 (send_result a o).0 held
send_result-Holds state a none held (r, few) =
    (record { is_active = refl; consistent = r.consistent }, few)
send_result-Holds state a (some p) held (r, few) =
    let c = r.consistent in
    let more = length-append a.outgoing.queue (p ∷ []) in
    (record { is_active = refl; consistent = ground (arith, more) }, ground (arith, more))

-- A send keeps the open transport consistent and those slots in use, whatever its arguments and its
-- outcome.
pub send-Holds :
    (spurious : ℕ) (state : TransportState) (a : ActiveTransport) (t : ℕ) (packet : Option (List ℕ))
    (size : ℤ) (held : ℕ)
    → Holds state a held
    → (a' : ActiveTransport) × Holds (transport_send_packet spurious state t packet size).0 a' held
send-Holds spurious state a t none size held r = (a, unfold transport_send_packet in r)
send-Holds spurious state a t (some bytes) (negsuc n) held r =
    (a, unfold transport_send_packet in r)
send-Holds spurious state a t (some bytes) (pos n) held r = (
  (send_result a (outgoing_packet t (take n bytes))).0,
  rw eq (send_result-Holds state a (outgoing_packet t (take n bytes)) held r),
)
  where
    eq :
        transport_send_packet spurious state t (some bytes) (pos n)
        ≡ with_active state (send_result a (outgoing_packet t (take n bytes)))
    eq =
        send-send_result spurious state a t bytes n r.0.is_active
          (let c = r.0.consistent in omega (arith, c.bounded, c.small))
