-- ===== src/Transport/Instance/Lifecycle.antt =====
-- Whatever BTstack calls through the table, in whatever order.
use btstack_rs.Common.{
  ℕ, ◌≡◌, ◌∙◌, sym, subst, ◌↔◌, ◌⊎◌, inl, inr, refl, Option, none, some, List, [], ◌∷◌, arith, ℤ,
  pos, negsuc, success, failure, length, zero, suc, ap,
}
use mathlib.Core.Option.{some-injective}
use btstack_rs.Transport.Types.{OutgoingPacket, ActiveTransport, TransportState, Config}
use btstack_rs.Transport.Api.{
  transport_init, transport_open, transport_close, transport_register_packet_handler,
  transport_can_send_packet_now, transport_send_packet, Nusb,
}
use btstack_rs.Transport.Api.Open.{transport_open-outcome}
use btstack_rs.Transport.Api.Send.{Holds, can_send-send, send-Holds}
use btstack_rs.Transport.Instance.{
  hci_transport_nusb, hci_transport_nusb_instance, Event, initialised, opened, closed, registered,
  asked, sent, packet_taken, packet_done, take_packet, finish_packet, by_writer, step, run_from,
  run, InstanceState, initial_instance, Task, takes, finishes,
}

-- Closed, with nothing in the writer's hands; or open and consistent, with a slot in use for every
-- packet in the channel and in the writer's hands.
abbrev pub IsLegal : InstanceState → Type 0
IsLegal s =
    ((s.state.active ≡ none) × (s.held ≡ 0)) ⊎ ((a : ActiveTransport) × Holds s.state a s.held)

-- A change of anything but the transport.
same_active-IsLegal :
    (s : InstanceState) (state' : TransportState)
    → state'.active ≡ s.state.active
    → IsLegal s
    → IsLegal (record s { state = state' })
same_active-IsLegal s state' e (inl (off, idle)) = inl (e ∙ off, idle)
same_active-IsLegal s state' e (inr (a, (r, few))) =
    inr (a, (record { is_active = e ∙ r.is_active; consistent = r.consistent }, few))

transport_init-active :
    (s : TransportState) (config : Option Config) → (transport_init s config).active ≡ s.active
unfolding transport_init
transport_init-active s none = refl
transport_init-active s (some config) = ground arith

IsLegal-idle : (s : InstanceState) → s.state.active ≡ none → IsLegal s → s.held ≡ 0
IsLegal-idle s off (inl (_, idle)) = idle
IsLegal-idle s off (inr (a, (r, _))) = absurd (ground (arith, r.is_active))

opened-IsLegal :
    (nusb : Nusb) (s : InstanceState)
    → IsLegal s
    → IsLegal (record s { state = (transport_open nusb s.state).0 })
opened-IsLegal nusb s v = elim (transport_open-outcome nusb s.state) [
  | inl (_, e) ↦ rw e v
  | inr (off, inl (_, e, _, _)) ↦ rw e v
  | inr (off, inr (_, (device, a, o))) ↦
      let idle : s.held ≡ 0 = IsLegal-idle s off v in
      let queue : a.outgoing.queue ≡ [] = ap (λ c. c.queue) o.started.channel in
      inr (a, (o.ready, ground arith))
]

transport_close-active : (s : TransportState) → (transport_close s).0.active ≡ none
unfolding transport_close
transport_close-active s = refl

send-closed :
    (spurious : ℕ) (s : TransportState) (t : ℕ) (packet : Option (List ℕ)) (size : ℤ)
    → s.active ≡ none
    → transport_send_packet spurious s t packet size ≡ (s, failure)
unfolding transport_send_packet
send-closed spurious s t none size off = refl
send-closed spurious s t (some bytes) (negsuc n) off = refl
send-closed spurious s t (some bytes) (pos n) off = rw (off, transport_send_packet) refl

send-IsLegal :
    (spurious : ℕ) (s : InstanceState) (t : ℕ) (packet : Option (List ℕ)) (size : ℤ)
    → IsLegal s
    → IsLegal (record s { state = (transport_send_packet spurious s.state t packet size).0 })
send-IsLegal spurious s t packet size (inl (off, idle)) =
    rw (send-closed spurious s.state t packet size off) (inl (off, idle))
send-IsLegal spurious s t packet size (inr (a, r)) =
    inr (send-Holds spurious s.state a t packet size s.held r)

take_packet-IsLegal :
    (s : InstanceState) (a : ActiveTransport) (queue : List OutgoingPacket)
    → a.outgoing.queue ≡ queue
    → Holds s.state a s.held
    → IsLegal (take_packet a queue s)
take_packet-IsLegal s a [] e r = inr (a, r)
take_packet-IsLegal s a (p ∷ queue) e (r, few) =
    let c = r.consistent in
    let longer : length a.outgoing.queue ≡ suc (length queue) = ap length e in
    inr (_, (record { is_active = refl; consistent = ground arith }, ground arith))

finish_packet-IsLegal :
    (s : InstanceState) (a : ActiveTransport) (held : ℕ)
    → s.held ≡ held
    → Holds s.state a s.held
    → IsLegal (finish_packet a held s)
finish_packet-IsLegal s a zero e r = inr (a, r)
finish_packet-IsLegal s a (suc held) e (r, few) =
    let c = r.consistent in
    inr (_, (record { is_active = refl; consistent = ground arith }, ground arith))

by_writer-IsLegal :
    (task : Task) (o : Option ActiveTransport) (s : InstanceState)
    → s.state.active ≡ o
    → IsLegal s
    → IsLegal (by_writer task o s)
unfolding by_writer
by_writer-IsLegal task none s e v = v
by_writer-IsLegal task (some a) s e (inl (off, _)) = absurd (ground (arith, e))
by_writer-IsLegal takes (some a) s e (inr (a', r)) =
    take_packet-IsLegal s a a.outgoing.queue refl
      (subst (λ x. Holds s.state x s.held) (some-injective a' a (sym r.0.is_active ∙ e)) r)
by_writer-IsLegal finishes (some a) s e (inr (a', r)) =
    finish_packet-IsLegal s a s.held refl
      (subst (λ x. Holds s.state x s.held) (some-injective a' a (sym r.0.is_active ∙ e)) r)

step-IsLegal :
    (e : Event) (s : InstanceState)
    → IsLegal s
    → (s' : InstanceState) × (step hci_transport_nusb e s ≡ some s') × IsLegal s'
unfolding step hci_transport_nusb
step-IsLegal (initialised config) s v =
    (_, refl, same_active-IsLegal s _ (transport_init-active s.state config) v)
step-IsLegal (opened nusb) s v = (_, refl, opened-IsLegal nusb s v)
step-IsLegal closed s v = (_, refl, inl (transport_close-active s.state, refl))
step-IsLegal (registered handler) s v =
    (_, refl, same_active-IsLegal s _ (unfold transport_register_packet_handler in refl) v)
step-IsLegal (asked t) s v = (_, refl, v)
step-IsLegal (sent spurious t packet size) s v = (_, refl, send-IsLegal spurious s t packet size v)
step-IsLegal packet_taken s v = (_, refl, by_writer-IsLegal takes s.state.active s refl v)
step-IsLegal packet_done s v = (_, refl, by_writer-IsLegal finishes s.state.active s refl v)

run-IsLegal :
    (events : List Event) (s : InstanceState)
    → IsLegal s
    → (s' : InstanceState) × (run_from hci_transport_nusb events (some s) ≡ some s') × IsLegal s'
unfolding run_from
run-IsLegal [] s v = (s, refl, v)
run-IsLegal (e ∷ events) s v =
    let (s', eq, v') = step-IsLegal e s v in rw (eq, run_from) (run-IsLegal events s' v')

can_send-success :
    (spurious : ℕ) (s : InstanceState) (t : ℕ) (bytes : List ℕ) (n : ℕ)
    → IsLegal s
    → (transport_can_send_packet_now s.state t ≡ pos 1)
      ↔ ((transport_send_packet spurious s.state t (some bytes) (pos n)).1 ≡ success)
unfolding transport_can_send_packet_now
can_send-success spurious s t bytes n (inl (off, _)) = (
  λ yes_code. ground arith,
  λ e. absurd (ground (arith, send-closed spurious s.state t (some bytes) (pos n) off)),
)
can_send-success spurious s t bytes n (inr (a, (r, _))) =
    elim (can_send-send spurious s.state a t bytes n r) [
      | inl (room, (p, _, e)) ↦ (λ _. rw e refl, λ _. room)
      | inr (full, e) ↦ (λ room. ground arith, λ ok. ground arith)
    ]

-- From the start of the program, whatever BTstack calls of the six functions init, open, close,
-- register_packet_handler, can_send_packet_now and send_packet through the table, in any order and
-- with any arguments, and whatever the writer takes and finishes in between: none of those six
-- pointers is null; the transport is closed with nothing in the writer's hands, or open and
-- consistent with a slot in use for every packet in the channel or in the writer's hands; and
-- `can_send_packet_now` says 1 for a packet type exactly if sending a packet of that type then
-- succeeds.
pub run-flow_control :
    (events : List Event) (spurious t : ℕ) (bytes : List ℕ) (n : ℕ)
    → (s : InstanceState) × (run hci_transport_nusb_instance events initial_instance ≡ some s)
      × IsLegal s
      × ((transport_can_send_packet_now s.state t ≡ pos 1)
          ↔ ((transport_send_packet spurious s.state t (some bytes) (pos n)).1 ≡ success))
unfolding run hci_transport_nusb_instance
run-flow_control events spurious t bytes n =
    let (s, eq, v) = run-IsLegal events initial_instance (inl (refl, refl)) in
    (s, eq, v, can_send-success spurious s t bytes n v)
