-- ===== src/Gatt/Counter/Abstract.antt =====
-- An abstract counter for btstack-gatt/src/gatt_counter.rs: who is subscribed, how many beats there
-- have been, and what each call of BTstack does. It has no buffer and no length.
use btstack_rs.Common.{
  ℕ, ◌+◌, ◌*◌, ◌%◌, ◌^◌, Bool, false, Option, none, some, List, [], ◌∷◌, ◌++◌, ◌==◌, if◌then◌else◌,
  length, ◌≢◌, ℤ,
}
use btstack_rs.Sys.{hci_event_packet, hci_event_disconnection_complete, att_event_can_send_now}
use btstack_rs.Gatt.Counter.{
  heartbeat_period_ms, att_counter_value_handle, att_counter_client_configuration_handle, Counter,
  Printer, Call, set_timer, add_timer, request_can_send_now_event, notify, heartbeat_handler,
  packet_handler, att_write_callback,
}

-- What BTstack calls: the timer's handler, the packet handler, a write, a read.
pub data Event : Type 0 where
  ticks : Event
  packet : (packet_type : ℕ) (data_ : Option (List ℕ)) → Event
  write : (connection_handle handle : ℕ) (buffer : Option (List ℕ)) → Event

-- What BTstack promises of the buffers: an event has its code, and a configuration has two bytes.
abbrev pub IsSound : Event → Type 0
IsSound ticks = Unit
IsSound (packet packet_type (some [])) = packet_type ≢ hci_event_packet
IsSound (packet packet_type _) = Unit
IsSound (write connection_handle handle (some (_ ∷ []))) =
    handle ≢ att_counter_client_configuration_handle
IsSound (write connection_handle handle _) = Unit

-- A call into the code; a write has the size of its buffer.
abbrev pub size_of : Option (List ℕ) → ℕ
size_of none = 0
size_of (some buffer) = length buffer

abbrev pub written : Option (Counter × ℤ) → Option (Counter × List Call)
written none = none
written (some (c, code)) = some (c, [])

unfoldable pub callback : Printer → Event → Counter → Option (Counter × List Call)
callback 𝓟 ticks c = some (heartbeat_handler 𝓟 c)
callback 𝓟 (packet packet_type data_) c = packet_handler c packet_type data_
callback 𝓟 (write connection_handle handle buffer) c =
    written (att_write_callback c connection_handle handle buffer (size_of buffer))

abbrev pub prefixed : List Call → Option (Counter × List Call) → Option (Counter × List Call)
prefixed now none = none
prefixed now (some (c, later)) = some (c, now ++ later)

abbrev pub continued :
    (Counter → Option (Counter × List Call))
    → Option (Counter × List Call)
    → Option (Counter × List Call)
continued rest none = none
continued rest (some (c, now)) = prefixed now (rest c)

-- Any number of calls: the state and the calls of BTstack, or `none` after a fault.
unfoldable pub run : Printer → List Event → Counter → Option (Counter × List Call)
run 𝓟 [] c = some (c, [])
run 𝓟 (e ∷ es) c = continued (run 𝓟 es) (callback 𝓟 e c)

-- The abstract counter: the beats are not bounded.
pub record Abstract : Type 0 where
  pub subscribed : Bool
  pub connection : ℕ
  pub beats : ℕ

-- After `setup`, which beats once.
abbrev pub opened : Abstract
opened = record { subscribed = false; connection = 0; beats = 1 }

-- The text shown to clients.
abbrev pub shown : Printer → Abstract → List ℕ
shown 𝓟 w = 𝓟.print (w.beats % 2 ^ 32)

abbrev pub timer_calls : List Call
timer_calls = set_timer heartbeat_period_ms ∷ add_timer ∷ []

abbrev pub spec_event : Printer → ℕ → Abstract → Abstract × List Call
spec_event 𝓟 code w =
    if code == hci_event_disconnection_complete
    then (record w { subscribed = false }, [])
    else if code == att_event_can_send_now
    then (w, notify w.connection att_counter_value_handle (shown 𝓟 w) ∷ [])
    else (w, [])

abbrev pub spec_step : Printer → Event → Abstract → Abstract × List Call
spec_step 𝓟 ticks w =
    if w.subscribed
    then (record w { beats = w.beats + 1 }, request_can_send_now_event w.connection ∷ timer_calls)
    else (w, timer_calls)
spec_step 𝓟 (packet packet_type (some (code ∷ _))) w =
    if packet_type == hci_event_packet then spec_event 𝓟 code w else (w, [])
spec_step 𝓟 (packet packet_type _) w = (w, [])
spec_step 𝓟 (write connection_handle handle (some (lo ∷ hi ∷ _))) w =
    if handle == att_counter_client_configuration_handle
    then (record w { subscribed = (lo + 256 * hi) == 1; connection = connection_handle }, [])
    else (w, [])
spec_step 𝓟 (write connection_handle handle _) w = (w, [])

unfoldable pub spec_run : Printer → List Event → Abstract → Abstract × List Call
spec_run 𝓟 [] w = (w, [])
spec_run 𝓟 (e ∷ es) w =
    let (w', now) = spec_step 𝓟 e w in let (w'', later) = spec_run 𝓟 es w' in (w'', now ++ later)
