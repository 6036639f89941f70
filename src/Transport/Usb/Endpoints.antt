-- ===== src/Transport/Usb/Endpoints.antt =====
-- Which endpoints `detect_endpoints` picks.
use btstack_rs.Common.{ℕ, Bool, true, false, List, [], ◌∷◌, ◌++◌, if◌then◌else◌}
use btstack_rs.Transport.Types.{EndpointConfig}
use btstack_rs.Transport.Usb.{
  TransferType, bulk, interrupt, Direction, out_dir, in_dir, Endpoint, AltSetting, Scan,
}

abbrev pub is_event_in : TransferType → Direction → Bool
is_event_in interrupt in_dir = true
is_event_in _ _ = false

abbrev pub is_acl_in : TransferType → Direction → Bool
is_acl_in bulk in_dir = true
is_acl_in _ _ = false

abbrev pub is_acl_out : TransferType → Direction → Bool
is_acl_out bulk out_dir = true
is_acl_out _ _ = false

-- The endpoints of all alternate settings, in order.
abbrev pub all_endpoints : List AltSetting → List Endpoint
all_endpoints [] = []
all_endpoints (alt ∷ alts) = alt.endpoints ++ all_endpoints alts

-- The address of the first endpoint of a kind, or a default.
abbrev pub first_address : (TransferType → Direction → Bool) → ℕ → List Endpoint → ℕ
first_address kind default [] = default
first_address kind default (e ∷ es) =
    if kind e.transfer_type e.direction then e.address else first_address kind default es

-- What the scan makes of each field: an address found is kept, otherwise the first is taken.
abbrev pending_address : Bool → (TransferType → Direction → Bool) → ℕ → List Endpoint → ℕ
pending_address found kind address es = if found then address else first_address kind address es

abbrev Scanned : Scan → List Endpoint → EndpointConfig
Scanned s es = record {
  event_in = pending_address s.found_event is_event_in s.config.event_in es;
  acl_in = pending_address s.found_acl_in is_acl_in s.config.acl_in es;
  acl_out = pending_address s.found_acl_out is_acl_out s.config.acl_out es;
}
