-- ===== src/Gatt/Counter/Access.antt =====
-- Writes to the counter example.
use btstack_rs.Common.{
  ℕ, ◌<◌, ◌≡◌, ◌↔◌, ◌+◌, ◌*◌, refl, true, false, none, some, List, [], ◌∷◌, ◌==◌, length, pos,
  arith,
}
use btstack_rs.Sys.{hci_event_packet, hci_event_disconnection_complete}
use btstack_rs.Gatt.Counter.{
  Counter, Printer, att_counter_client_configuration_handle, handle_event, packet_handler,
  write_configuration, att_write_callback,
}
use btstack_rs.Gatt.Counter.Beats.{heartbeats, heartbeats-off}

-- A write whose buffer is as long as its size reads beyond the buffer exactly if it writes one byte
-- to the client configuration.
pub att_write_callback-fault :
    (c : Counter) (connection_handle handle : ℕ) (buffer : List ℕ)
    → (att_write_callback c connection_handle handle (some buffer) (length buffer) ≡ none)
      ↔ ((handle ≡ att_counter_client_configuration_handle) × (length buffer ≡ 1))
unfolding att_write_callback write_configuration
att_write_callback-fault c connection_handle handle [] = ground arith
att_write_callback-fault c connection_handle handle (lo ∷ []) = ground arith
att_write_callback-fault c connection_handle handle (lo ∷ hi ∷ rest) = ground arith

-- A write of two bytes or more to the client configuration, for which BTstack gives the connection,
-- turns notifications on for the bytes 1 and 0, off for all others; after a disconnection they are
-- off, and no number of heartbeats changes the state.
att_write_callback-packet_handler :
    (𝓟 : Printer) (c : Counter) (connection_handle lo hi : ℕ) (rest data_ : List ℕ) (n : ℕ)
    → lo < 256
    → (c' : Counter) × (att_write_callback c connection_handle
          att_counter_client_configuration_handle
          (some (lo ∷ hi ∷ rest))
          (length (lo ∷ hi ∷ rest))
        ≡ some (c', pos 0))
      × (c'.connection_handle ≡ connection_handle)
      × ((c'.notification_enabled ≡ true) ↔ ((lo ≡ 1) × (hi ≡ 0)))
      × ((gone : Counter) × (packet_handler c' hci_event_packet
              (some (hci_event_disconnection_complete ∷ data_))
            ≡ some (gone, []))
          × (heartbeats 𝓟 n gone ≡ gone))
unfolding att_write_callback write_configuration packet_handler handle_event
att_write_callback-packet_handler 𝓟 c connection_handle lo hi rest data_ n byte = (
  record c { notification_enabled = (lo + 256 * hi) == 1; connection_handle = connection_handle },
  ground arith,
  refl,
  ground arith,
  (
    record c { notification_enabled = false; connection_handle = connection_handle },
    refl,
    heartbeats-off 𝓟
        (record c { notification_enabled = false; connection_handle = connection_handle }) n refl,
  ),
)
