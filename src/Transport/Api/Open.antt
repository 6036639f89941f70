-- ===== src/Transport/Api/Open.antt =====
-- Opening and closing: which device a configuration leads to, and what is left after a close.
use btstack_rs.Common.{
  ℕ, ◌+◌, ◌%◌, ◌/◌, ◌^◌, ◌≤◌, ◌<◌, ◌≡◌, ◌≢◌, ◌↔◌, ◌⊎◌, inl, inr, refl, ap, true, false, Option,
  none, some, get_or, List, [], ◌∷◌, arith, Option-cases, Bool-cases, length, take, ℤ, pos, negsuc,
  success, failure, is_some,
}
use btstack_rs.Transport.Types.{
  Config, EndpointConfig, event_reader, acl_reader, ActiveTransport, TransportState,
}
use btstack_rs.Transport.Usb.{DeviceInfo, Interface, detect_endpoints, usb_path}
use btstack_rs.Transport.Usb.Selection.{
  IsBluetooth, IsCandidate, IsSelected, select_device-IsSelected,
}
use btstack_rs.Transport.Events.{Delivery, emit_packet, usb_info_event, emit_usb_info}
use btstack_rs.Transport.Api.{
  Nusb, transport_init, transport_open, transport_close, transport_can_send_packet_now,
  transport_send_packet, start_transport, open_device, stop_flag_set, reader_joined, writer_joined,
}
use btstack_rs.Transport.Api.Send.{IsReady}

-- The path that a configuration asks for: none if its length is 0 or more than the array holds.
abbrev pub HasPath : Config → Type 0
HasPath config = (0 < config.path_len) × (config.path_len ≤ length config.path)

-- What a configuration means, read off its numbers: each field that is 0 accepts any device, and
-- one with no field set accepts the Bluetooth controllers.
pub record Accepts (config : Config) (device : DeviceInfo) : Type 0 where
  pub vendor : config.vendor_id ≢ 0 → device.vendor_id ≡ config.vendor_id
  pub product : config.product_id ≢ 0 → device.product_id ≡ config.product_id
  pub bus : config.bus_number ≢ 0 → device.bus_number ≡ config.bus_number
  pub path : HasPath config → usb_path device ≡ some (take config.path_len config.path)
  pub kind :
      (config.vendor_id ≢ 0)
      ⊎ (config.product_id ≢ 0)
      ⊎ (config.bus_number ≢ 0)
      ⊎ HasPath config
      ⊎ IsBluetooth device

-- After `transport_init` with a configuration, the candidates are the devices that it accepts, and
-- nothing but the selection has changed.
pub transport_init-IsCandidate :
    (state : TransportState) (config : Config) (device : DeviceInfo)
    → (IsCandidate device (transport_init state (some config)).selected ↔ Accepts config device)
      × (record (transport_init state (some config)) { selected = state.selected } ≡ state)
unfolding transport_init
transport_init-IsCandidate state config device =
    ((λ c. ground arith, λ c. ground arith), ground arith)

-- No listed device is a candidate for the selection, or the first one that is cannot be opened or
-- claimed.
abbrev pub IsUnusable : Nusb → TransportState → Type 0
IsUnusable nusb state =
    IsSelected (get_or nusb.list_devices []) state.selected none
    ⊎ ((device : DeviceInfo) × IsSelected (get_or nusb.list_devices []) state.selected (some device)
        × ((nusb.opens device ≡ false) ⊎ (nusb.claims device ≡ false)))

-- A transport just started: running, without packets, with four slots free and a channel for four,
-- and each thread on its endpoint.
pub record IsStarted (endpoints : EndpointConfig) (a : ActiveTransport) : Type 0 where
  pub running : a.stop ≡ false
  pub idle : a.outgoing_pending ≡ 0
  pub depth : a.outgoing_queue_depth ≡ 4
  pub channel : a.outgoing ≡ record { queue = []; capacity = 4; receiver_alive = true }
  pub readers :
      a.reader_threads ≡ event_reader endpoints.event_in ∷ acl_reader endpoints.acl_in ∷ []
  pub writer : a.writer_thread ≡ endpoints.acl_out

-- The USB info event byte by byte: code, length of the rest, the two identifiers with the low byte
-- first, the bus, the length of the path, the path.
abbrev pub info_bytes : DeviceInfo → List ℕ → List ℕ
info_bytes device path =
    106
    ∷ (6 + length path) % 256
    ∷ device.vendor_id % 256
    ∷ device.vendor_id / 256 % 256
    ∷ device.product_id % 256
    ∷ device.product_id / 256 % 256
    ∷ device.bus_number
    ∷ length path % 256
    ∷ path

-- What the packet handler is given: that event, or nothing where none is registered.
abbrev pub IsTold : Option ℕ → DeviceInfo → List ℕ → List Delivery → Type 0
IsTold none device path deliveries = deliveries ≡ []
IsTold (some handler) device path deliveries =
    deliveries
    ≡ record {
      handler = handler;
      packet_type = 4;
      packet = info_bytes device path;
      size = length (info_bytes device path) % 2 ^ 16;
    }
      ∷ []

-- The first candidate of the listing has been opened: a transport just started, ready to send, on
-- the endpoints detected, and one USB info event to the packet handler. Nothing else of the state has
-- changed.
pub record IsOpened (nusb : Nusb) (state state' : TransportState) (deliveries : List Delivery)
    (device : DeviceInfo) (a : ActiveTransport) : Type 0 where
  pub selected : IsSelected (get_or nusb.list_devices []) state.selected (some device)
  pub opens : nusb.opens device ≡ true
  pub claims : nusb.claims device ≡ true
  pub after : state' ≡ record state { active = some a }
  pub started : IsStarted (detect_endpoints (nusb.interface device)) a
  pub ready : IsReady state' a
  pub told : IsTold state.packet_handler device (get_or (usb_path device) []) deliveries

abbrev pub OpenOutcome : Nusb → TransportState → TransportState × ℤ × List Delivery → Type 0
OpenOutcome nusb state (state', code, deliveries) =
    ((code ≡ failure) × (state' ≡ state) × (deliveries ≡ []) × IsUnusable nusb state)
    ⊎ ((code ≡ success)
        × ((device : DeviceInfo) × (a : ActiveTransport) × IsOpened nusb state state' deliveries
              device a))

emit_usb_info-IsTold :
    (state : TransportState) (o : Option ℕ) (device : DeviceInfo) (path : List ℕ)
    → state.packet_handler ≡ o
    → IsTold o device path (emit_usb_info state device path)
unfolding emit_usb_info emit_packet usb_info_event
emit_usb_info-IsTold state none device path e = rw e refl
emit_usb_info-IsTold state (some handler) device path e = rw e refl

start_transport-IsStarted :
    (interface : Interface) → IsStarted (detect_endpoints interface) (start_transport interface)
start_transport-IsStarted interface = record {
  running = refl;
  idle = refl;
  depth = refl;
  channel = refl;
  readers = refl;
  writer = refl;
}

started-IsReady :
    (state : TransportState) (endpoints : EndpointConfig) (a : ActiveTransport)
    → IsStarted endpoints a
    → IsReady (record state { active = some a }) a
started-IsReady state endpoints a st = record { is_active = refl; consistent = ground arith }

open_device-IsOpened :
    (nusb : Nusb) (state : TransportState) (device : DeviceInfo)
    → IsSelected (get_or nusb.list_devices []) state.selected (some device)
    → nusb.opens device ≡ true
    → nusb.claims device ≡ true
    → IsOpened nusb state
        (record state { active = some (start_transport (nusb.interface device)) })
        (emit_usb_info state device (get_or (usb_path device) []))
        device
        (start_transport (nusb.interface device))
open_device-IsOpened nusb state device sel opens claims =
    let st = start_transport-IsStarted (nusb.interface device) in
    record {
      selected = sel;
      opens = opens;
      claims = claims;
      after = refl;
      started = st;
      ready = started-IsReady state _ _ st;
      told = emit_usb_info-IsTold state state.packet_handler device _ refl;
    }

open_device-outcome :
    (nusb : Nusb) (state : TransportState) (o : Option DeviceInfo)
    → IsSelected (get_or nusb.list_devices []) state.selected o
    → OpenOutcome nusb state (open_device nusb state o)
unfolding open_device
open_device-outcome nusb state none sel = inl (refl, refl, refl, inl sel)
open_device-outcome nusb state (some device) sel = elim (Bool-cases (nusb.opens device)) [
  | inr shut ↦ rw (shut, open_device) (inl (refl, refl, refl, inr (device, sel, inl shut)))
  | inl opens ↦ elim (Bool-cases (nusb.claims device)) [
    | inr busy ↦ rw (opens, busy, open_device) (inl (refl, refl, refl, inr (device, sel, inr busy)))
    | inl claims ↦
        rw (opens, claims, open_device)
          (inr (refl, (device, _, open_device-IsOpened nusb state device sel opens claims)))
  ]
]

-- Where a transport is open already, opening again changes nothing and succeeds. Otherwise it fails
-- without a trace, and no listed device is a candidate or the first one cannot be opened or claimed;
-- or it succeeds, the first candidate has been opened and claimed, the transport runs without packets
-- and with four slots free, ready to send, its threads are on the endpoints detected, and the packet
-- handler, if there is one, is given one USB info event, whose bytes are written out.
pub transport_open-outcome :
    (nusb : Nusb) (state : TransportState)
    → ((is_some state.active ≡ true) × (transport_open nusb state ≡ (state, success, [])))
      ⊎ ((state.active ≡ none) × OpenOutcome nusb state (transport_open nusb state))
unfolding transport_open
transport_open-outcome nusb state = elim (Option-cases state.active) [
  | inr (a, e) ↦ inl (ap is_some e, ground arith)
  | inl idle ↦
      let closed : is_some state.active ≡ false = ap is_some idle in
      inr (
        idle,
        rw (closed, transport_open)
            (open_device-outcome nusb state _
              (select_device-IsSelected nusb.list_devices state.selected)),
      )
]

-- A close stops and joins both readers and then the writer, once; after it no packet type can be
-- sent, every send fails and changes nothing, a second close does nothing, and the handler and the
-- selection are as before.
transport_close-refuses :
    (state : TransportState) (event_in acl_in : ℕ) (a : ActiveTransport) (spurious t : ℕ)
    (packet : Option (List ℕ)) (size : ℤ)
    → state.active ≡ some a
    → a.reader_threads ≡ event_reader event_in ∷ acl_reader acl_in ∷ []
    → let (state', code, events) = transport_close state in
      (code ≡ success)
      × (events
          ≡ stop_flag_set
            ∷ reader_joined (event_reader event_in)
            ∷ reader_joined (acl_reader acl_in)
            ∷ writer_joined a.writer_thread
            ∷ [])
      × (transport_can_send_packet_now state' t ≡ pos 0)
      × (transport_send_packet spurious state' t packet size ≡ (state', failure))
      × (transport_close state' ≡ (state', success, []))
      × (record state' { active = some a } ≡ state)
unfolding transport_close transport_can_send_packet_now transport_send_packet
transport_close-refuses state event_in acl_in a spurious t none size e f = ground arith
transport_close-refuses state event_in acl_in a spurious t (some bytes) (pos n) e f = ground arith
transport_close-refuses state event_in acl_in a spurious t (some bytes) (negsuc n) e f =
    ground arith
