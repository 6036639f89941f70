-- ===== src/Gatt/Peripheral/Callbacks/Abstract.antt =====
-- An abstract GATT server, for the callbacks of btstack-gatt/src/peripheral.rs: what a client can tell
-- of the state, and what each call of BTstack does to that. The tables of the code are functions
-- here, so their order and representation are forgotten.
use mathlib.Core.Option
use Prim.Native.Nat.{bit_and}
use btstack_rs.Common.{
  ℕ, ◌+◌, ◌-◌, ◌*◌, ◌%◌, Bool, true, false, not, refl, ◌≡◌, ◌||◌, ◌&&◌, Option, none, some, get_or,
  List, [], ◌∷◌, ◌==◌, ltb, if◌then◌else◌, length, get_elem?, take, as_u8,
}
use btstack_rs.Common.Dict.{lookup}
use btstack_rs.Sys.{hci_event_packet, att_event_connected, att_event_disconnected}
use btstack_rs.Gatt.Peripheral.Types.{RuntimeCharacteristic, RuntimeState, contains}
use btstack_rs.Gatt.Peripheral.Callbacks.{is_writable}
use btstack_rs.Gatt.Peripheral.Callbacks.Events.{Event, packet, write}

-- What stays the same: the characteristic that a CCC handle belongs to, and which can be written.
pub record Profile : Type 0 where
  pub owner : ℕ → Option ℕ
  pub writable : ℕ → Bool

-- What changes: the bytes of each value, the notification flags, the connection.
pub record View : Type 0 where
  pub byte : (handle position : ℕ) → Option ℕ
  pub notifies : ℕ → Option Bool
  pub connected : Option ℕ

abbrev pub byte_of : Option RuntimeCharacteristic → ℕ → Option ℕ
byte_of none i = none
byte_of (some ch) i = get_elem? ch.value i

-- The bits of the properties of a characteristic by the Core Specification: 0x08 is Write, 0x04 Write
-- Without Response.
abbrev pub has_bit : ℕ → ℕ → Bool
has_bit bits bit = bit_and bits bit == bit

abbrev pub writable_of : Option RuntimeCharacteristic → Bool
writable_of none = false
writable_of (some ch) = has_bit ch.spec.properties.bits 0x08 || has_bit ch.spec.properties.bits 0x04

de_morgan : (a b : Bool) → (a || b) ≡ not (not a && not b)
de_morgan true b = refl
de_morgan false true = refl
de_morgan false false = refl

-- The code's own test says the same.
pub writable_of-is_writable : (ch : RuntimeCharacteristic) → writable_of (some ch) ≡ is_writable ch
unfolding contains
writable_of-is_writable ch =
    de_morgan (has_bit ch.spec.properties.bits 0x08) (has_bit ch.spec.properties.bits 0x04)

abbrev pub profile : RuntimeState → Profile
profile rt = record {
  owner = λ ccc. lookup ccc rt.ccc_to_value_handle;
  writable = λ h. writable_of (lookup h rt.characteristics_by_value_handle);
}

abbrev pub view : RuntimeState → View
view rt = record {
  byte = λ h i. byte_of (lookup h rt.characteristics_by_value_handle) i;
  notifies = λ v. lookup v rt.notification_enabled;
  connected = rt.connected_handle;
}

-- The bytes after a write at an offset: a gap before it is filled with zeros.
abbrev pub spliced : (ℕ → Option ℕ) → ℕ → List ℕ → ℕ → Option ℕ
spliced old offset bytes i =
    if ltb i offset
    then some (get_or (old i) 0)
    else if ltb i (offset + length bytes)
    then get_elem? bytes (i - offset)
    else old i

abbrev pub spec_value : Profile → ℕ → ℕ → List ℕ → View → View
spec_value p h offset bytes w =
    if p.writable h
    then record w { byte = λ k i. if h == k then spliced (w.byte h) offset bytes i else w.byte k i }
    else w

-- Bit 0 of a configuration of two bytes or more; a shorter one is ignored.
abbrev pub spec_ccc : ℕ → List ℕ → View → View
spec_ccc v [] w = w
spec_ccc v (lo ∷ []) w = w
spec_ccc v (lo ∷ hi ∷ rest) w = record w {
  notifies = λ k. if v == k then some (not (lo % 2 == 0)) else w.notifies k;
}

abbrev pub spec_write : Option ℕ → Profile → ℕ → ℕ → List ℕ → View → View
spec_write (some v) p h offset bytes w = spec_ccc v bytes w
spec_write none p h offset bytes w = spec_value p h offset bytes w

-- A connection takes its handle from bytes 2 and 3 of the event.
abbrev pub spec_connected : List ℕ → View → View
spec_connected (_ ∷ lo ∷ hi ∷ _) w = record w { connected = some (lo + 256 * hi) }
spec_connected _ w = w

abbrev pub spec_packet : List ℕ → View → View
spec_packet [] w = w
spec_packet (code ∷ rest) w =
    if code == as_u8 att_event_connected
    then spec_connected rest w
    else if code == as_u8 att_event_disconnected
    then record w { connected = none; notifies = λ v. Option.map (λ _. false) (w.notifies v) }
    else w

abbrev pub spec_step : Profile → Event → View → View
spec_step p (packet packet_type none) w = w
spec_step p (packet packet_type (some data_)) w =
    if packet_type == as_u8 hci_event_packet then spec_packet data_ w else w
spec_step p (write h offset none size) w = w
spec_step p (write h offset (some buffer) size) w =
    spec_write (p.owner h) p h offset (take size buffer) w

unfoldable pub spec_run : Profile → List Event → View → View
spec_run p [] w = w
spec_run p (e ∷ events) w = spec_run p events (spec_step p e w)
