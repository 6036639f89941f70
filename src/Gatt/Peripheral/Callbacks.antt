-- ===== src/Gatt/Peripheral/Callbacks.antt =====
-- The callbacks that btstack-gatt/src/peripheral.rs registers with BTstack. C's memory is a list:
-- a read past its end is a fault, and the whole result is then `none`.
pub mod Values
pub mod Write
pub mod Events
pub mod Invariant
pub mod Subscriptions
pub mod Abstract
mod Shown
pub mod Refinement
pub mod Read
use btstack_rs.Common.{
  ℕ, ◌+◌, ◌-◌, ◌%◌, Bool, true, false, not, ◌&&◌, Option, none, some, List, [], ◌∷◌, ◌++◌, ◌==◌,
  ltb, leb, if◌then◌else◌, length, get_elem?, take, drop, replicate, as_u8, as_u16, from_le_bytes,
  ℤ, pos,
}
use btstack_rs.Common.Dict.{Dict, lookup, insert, map_values}
use btstack_rs.Sys.{hci_event_packet, att_event_connected, att_event_disconnected}
use btstack_rs.Gatt.Peripheral.Types.{
  contains, write, write_without_response, RuntimeCharacteristic, RuntimeState,
}
use btstack_rs.Gatt.Peripheral.Btstack.{Btstack}

-- `Vec::resize(n, 0)`, only to grow.
unfoldable pub grow : List ℕ → ℕ → List ℕ
grow value n = if ltb (length value) n then value ++ replicate (n - length value) 0 else value

-- `copy_nonoverlapping` into the value at `offset`.
unfoldable pub overwrite : List ℕ → ℕ → List ℕ → List ℕ
unfolding grow
overwrite value offset bytes =
    let grown = grow value (offset + length bytes) in
    take offset grown ++ (bytes ++ drop (offset + length bytes) grown)

-- `size` bytes of the buffer.
abbrev pub read_bytes : List ℕ → ℕ → Option (List ℕ)
read_bytes buffer size = if leb size (length buffer) then some (take size buffer) else none

abbrev pub is_writable : RuntimeCharacteristic → Bool
is_writable ch = not (
    not (contains ch.spec.properties write)
    && not (contains ch.spec.properties write_without_response))

-- A CCC write: `|` of a byte and a shifted byte is their sum, and `& 0x0001` is the remainder by 2.
unfoldable pub write_ccc : RuntimeState → ℕ → List ℕ → ℕ → Option RuntimeState
write_ccc rt value_handle buffer size =
    if leb 2 size
    then elim (get_elem? buffer 0) [
      | none ↦ none
      | some lo ↦ elim (get_elem? buffer 1) [
        | none ↦ none
        | some hi ↦ some (record rt {
          notification_enabled =
              insert value_handle (not (from_le_bytes lo hi % 2 == 0)) rt.notification_enabled;
        })
      ]
    ]
    else some rt

abbrev pub with_value : RuntimeState → ℕ → RuntimeCharacteristic → List ℕ → RuntimeState
with_value rt handle ch value = record rt {
  characteristics_by_value_handle =
      insert handle (record ch { value = value }) rt.characteristics_by_value_handle;
}

-- A write to the characteristic found, if any.
unfoldable pub write_value :
    RuntimeState → ℕ → ℕ → List ℕ → ℕ → Option RuntimeCharacteristic → Option RuntimeState
write_value rt handle offset buffer size none = some rt
write_value rt handle offset buffer size (some ch) =
    if is_writable ch
    then elim (read_bytes buffer size) [
      | none ↦ none
      | some bytes ↦ some (with_value rt handle ch (overwrite ch.value offset bytes))
    ]
    else some rt

unfoldable pub write_runtime : RuntimeState → ℕ → ℕ → List ℕ → ℕ → Option RuntimeState
write_runtime rt handle offset buffer size = elim (lookup handle rt.ccc_to_value_handle) [
  | some value_handle ↦ write_ccc rt value_handle buffer size
  | none ↦
      write_value rt handle offset buffer size (lookup handle rt.characteristics_by_value_handle)
]

-- The return code is always 0.
unfoldable pub att_write_callback :
    Option RuntimeState → ℕ → ℕ → Option (List ℕ) → ℕ → Option (Option RuntimeState × ℤ)
att_write_callback runtime handle offset none size = some (runtime, pos 0)
att_write_callback none handle offset (some buffer) size = some (none, pos 0)
att_write_callback (some rt) handle offset (some buffer) size =
    elim (write_runtime rt handle offset buffer size) [
      | none ↦ none
      | some rt' ↦ some (some rt', pos 0)
    ]

-- The return code and the bytes copied; the buffer is null, or has so many bytes.
unfoldable pub read_found : Btstack → ℕ → Option ℕ → Option RuntimeCharacteristic → ℕ × List ℕ
read_found 𝓑 offset buffer none = (0, [])
read_found 𝓑 offset buffer (some ch) = 𝓑.read_blob ch.value (as_u16 (length ch.value)) offset buffer

unfoldable pub att_read_callback : Btstack → Option RuntimeState → ℕ → ℕ → Option ℕ → ℕ × List ℕ
unfolding read_found
att_read_callback 𝓑 none handle offset buffer = (0, [])
att_read_callback 𝓑 (some rt) handle offset buffer =
    read_found 𝓑 offset buffer (lookup handle rt.characteristics_by_value_handle)

-- The `match` on the event code.
unfoldable pub handle_event : RuntimeState → ℕ → List ℕ → Option RuntimeState
handle_event rt code packet =
    if code == as_u8 att_event_connected
    then elim (get_elem? packet 2) [
      | none ↦ none
      | some lo ↦ elim (get_elem? packet 3) [
        | none ↦ none
        | some hi ↦ some (record rt { connected_handle = some (from_le_bytes lo hi) })
      ]
    ]
    else if code == as_u8 att_event_disconnected
    then some (record rt {
      connected_handle = none;
      notification_enabled = map_values (λ _. false) rt.notification_enabled;
    })
    else some rt

unfoldable pub event_at : RuntimeState → List ℕ → Option (Option RuntimeState)
unfolding handle_event
event_at rt [] = none
event_at rt (code ∷ rest) = elim (handle_event rt code (code ∷ rest)) [
  | none ↦ none
  | some rt' ↦ some (some rt')
]

unfoldable pub packet_handler :
    Option RuntimeState → ℕ → Option (List ℕ) → Option (Option RuntimeState)
unfolding event_at
packet_handler runtime packet_type none = some runtime
packet_handler none packet_type (some packet) = some none
packet_handler (some rt) packet_type (some packet) =
    if packet_type == as_u8 hci_event_packet then event_at rt packet else some (some rt)
