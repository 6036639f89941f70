-- ===== src/Gatt/Peripheral/Btstack.antt =====
-- What the server relies on of BTstack: the look-ups in the ATT database that `att_server_init` has
-- installed, and the helper that serves a read from a blob, with its documented result. The calls
-- that only have an effect are logged.
use btstack_rs.Common.{ℕ, ◌≡◌, Option, none, some, List, [], length, drop, take}
use btstack_rs.Sys.Structs.{PacketCallbackRegistration, ContextCallbackRegistration}
use btstack_rs.Gatt.Peripheral.Types.{Function}

-- A read that returns the number of the bytes copied.
abbrev pub copied : List ℕ → ℕ × List ℕ
copied bytes = (length bytes, bytes)

pub record Btstack : Type 0 where
  -- `none` where the function returns false
  pub service_range16 : ℕ → Option (ℕ × ℕ)
  pub service_range128 : List ℕ → Option (ℕ × ℕ)
  -- the handles are 0 where nothing is found
  pub value_handle16 : ℕ → ℕ → ℕ → ℕ
  pub value_handle128 : ℕ → ℕ → List ℕ → ℕ
  pub ccc_handle16 : ℕ → ℕ → ℕ → ℕ
  pub ccc_handle128 : ℕ → ℕ → List ℕ → ℕ
  -- `att_read_callback_handle_blob` with a null buffer, `none`, or one of so many bytes: what it
  -- returns, and the bytes copied
  pub read_blob : (blob : List ℕ) (size offset : ℕ) (buffer : Option ℕ) → ℕ × List ℕ
  pub read_blob_null :
      (blob : List ℕ) (size offset : ℕ) → read_blob blob size offset none ≡ (size, [])
  pub read_blob_lem :
      (blob : List ℕ) (size offset buffer_size : ℕ)
      → read_blob blob size offset (some buffer_size)
        ≡ copied (take buffer_size (drop offset (take size blob)))

-- The effects on BTstack.
pub data Call : Type 0 where
  l2cap_init sm_init : Call
  att_server_init : (profile_data : List ℕ) (read_callback write_callback : Function) → Call
  att_server_register_packet_handler : Function → Call
  -- the records are those whose addresses are given
  hci_add_event_handler : PacketCallbackRegistration Function → Call
  execute_on_main_thread : ContextCallbackRegistration Function → Call
  set_params :
      (interval_min interval_max adv_type direct_address_type channel_map filter_policy : ℕ) → Call
  set_data : (length : ℕ) (data_ : List ℕ) → Call
  enable : ℕ → Call
  -- Rust frees the buffer whose address `att_server_init` has been given.
