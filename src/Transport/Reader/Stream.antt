-- ===== src/Transport/Reader/Stream.antt =====
-- What a reader thread hands to the packet handler.
use btstack_rs.Common.{
  ℕ, ◌≤◌, ◌<◌, ◌^◌, ◌≡◌, inl, inr, refl, ap, ap₂, false, ◌&&◌, not, Option, none, some, List, [],
  ◌∷◌, ◌++◌, map, map-append, arith, ◌==◌, if◌then◌else◌, length, is_some, All, Bool-cases,
  Option-cases,
}
use btstack_rs.Transport.Events.{Delivery, emit_packet}
use btstack_rs.Transport.Types.{TransportState}
use btstack_rs.Transport.Nusb.{Completion, TransferQueue}
use btstack_rs.Transport.Reader.{
  Kind, Observed, is_ok, is_empty, deliver, submit_times, iterate, run, reader,
}
use btstack_rs.Transport.Reader.Stopping.{iterate-pending, run-empty, submit_times-pending}

-- The bytes that a transfer has brought, if any: it is `Ok` and has some.
abbrev pub arrival : Option Completion → List (List ℕ)
arrival none = []
arrival (some c) = if is_ok c.status && not (is_empty c.bytes) then c.bytes ∷ [] else []

-- The packets that arrive up to the iteration that ends the loop, that one included.
abbrev pub arrivals : List Observed → List (List ℕ)
arrivals [] = []
arrivals (o ∷ os) = arrival o.poll ++ (if o.stop && is_some o.poll then [] else arrivals os)

-- The handler is registered throughout, and no transfer is longer than its buffer.
abbrev pub IsServed : Kind → ℕ → Observed → Type 0
IsServed kind h o =
    (o.state.packet_handler ≡ some h)
    × ((c : Completion) → o.poll ≡ some c → length c.bytes ≤ kind.transfer_size)

abbrev pub delivery_to : ℕ → ℕ → List ℕ → Delivery
delivery_to h packet_type bytes = record {
  handler = h;
  packet_type = packet_type;
  packet = bytes;
  size = length bytes;
}

deliver-arrival :
    (kind : Kind) (h : ℕ) (state : TransportState) (c : Completion)
    → kind.transfer_size < 2 ^ 16
    → state.packet_handler ≡ some h
    → length c.bytes ≤ kind.transfer_size
    → deliver kind state c ≡ map (delivery_to h kind.packet_type) (arrival (some c))
unfolding deliver emit_packet
deliver-arrival kind h state c fits served short = ground arith

module _ (𝓠 : TransferQueue) where
  open 𝓠 use {Queue, pending}

  iterate-arrival :
      (kind : Kind) (h : ℕ) (o : Observed) (q : Queue)
      → kind.transfer_size < 2 ^ 16
      → IsServed kind h o
      → (iterate 𝓠 kind o q).1 ≡ map (delivery_to h kind.packet_type) (arrival o.poll)
  unfolding iterate
  iterate-arrival kind h o q fits served = elim (Option-cases o.poll) [
    | inl idle ↦ rw (idle, iterate)
    | inr (c, e) ↦ rw (e, iterate) (deliver-arrival kind h o.state c fits served.0 (served.1 c e))
  ]

  run-arrivals :
      (kind : Kind) (h : ℕ) (os : List Observed) (q : Queue)
      → kind.transfer_size < 2 ^ 16
      → 0 < pending q
      → All (IsServed kind h) os
      → (run 𝓠 kind os q).2 ≡ map (delivery_to h kind.packet_type) (arrivals os)
  unfolding run
  run-arrivals kind h [] q fits more served = refl
  run-arrivals kind h (o ∷ os) q fits more served =
      let open_loop : (pending q == 0) ≡ false = ground arith in
      rw (open_loop, run, map-append)
        (ap₂ ◌++◌ (iterate-arrival kind h o q fits served.0)
          (elim (Bool-cases (o.stop && is_some o.poll)) [
            | inl last ↦ rw (last) (
                ap (λ r. r.2)
                  (run-empty 𝓠 kind os (iterate 𝓠 kind o q).0
                    (ground (arith, iterate-pending 𝓠 kind o q more))))
            | inr goes_on ↦ rw (goes_on) (
                run-arrivals kind h os (iterate 𝓠 kind o q).0 fits
                  (ground (arith, iterate-pending 𝓠 kind o q more)) served.1)
          ]))

  -- A reader that starts with an empty queue, with the handler `h` registered throughout and no
  -- transfer longer than its 16-bit buffer size, hands `h` the bytes of every successful, non-empty
  -- completion, in order and each with its length, up to the one at which it stops, and nothing else.
  pub reader-arrivals :
      (kind : Kind) (h : ℕ) (os : List Observed) (q : Queue)
      → kind.transfer_size < 2 ^ 16
      → 0 < kind.in_flight
      → pending q ≡ 0
      → All (IsServed kind h) os
      → (reader 𝓠 kind os q).2 ≡ map (delivery_to h kind.packet_type) (arrivals os)
  unfolding reader
  reader-arrivals kind h os q fits more empty served =
      run-arrivals kind h os (submit_times 𝓠 kind.in_flight kind.transfer_size q) fits
        (omega (arith, submit_times-pending 𝓠 kind.in_flight kind.transfer_size q)) served
