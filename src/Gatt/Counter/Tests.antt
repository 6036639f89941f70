-- ===== src/Gatt/Counter/Tests.antt =====
-- The counter example with a printer of one character.
use btstack_rs.Common.{
  ℕ, ◌<◌, ◌+◌, ◌%◌, ◌≡◌, ◌↔◌, refl, true, none, some, [], ◌∷◌, length, take, drop, arith, replicate,
  List, false,
}
use btstack_rs.Gatt.Peripheral.Btstack.{copied, Btstack}
use btstack_rs.Gatt.Counter.{
  counter_buffer_capacity, att_counter_client_configuration_handle, Counter, Printer, initial, beat,
  no_timer, no_event_cb, heartbeat_handler_of, packet_handler_of, setup, att_write_callback, notify,
  set_timer, add_timer, request_can_send_now_event,
}
use btstack_rs.Gatt.Counter.Abstract.{Event, ticks, packet, write, opened, spec_run}
use btstack_rs.Gatt.Counter.Access.{att_write_callback-fault}

one_fits : 1 < counter_buffer_capacity
one_fits = ground arith

-- The last digit of the number.
abbrev digit : Printer
digit = record { print = λ n. (n % 10 + 48) ∷ []; print_fits = λ n. one_fits }

abbrev bt : Btstack
bt = record {
  service_range16 = λ _. none;
  service_range128 = λ _. none;
  value_handle16 = λ _ _ _. 0;
  value_handle128 = λ _ _ _. 0;
  ccc_handle16 = λ _ _ _. 0;
  ccc_handle128 = λ _ _ _. 0;
  read_blob = λ blob size offset buffer. elim buffer [
    | none ↦ (size, [])
    | some n ↦ copied (take n (drop offset (take size blob)))
  ];
  read_blob_null = λ _ _ _. refl;
  read_blob_lem = λ _ _ _ _. refl;
}

abbrev subscribed : Counter
subscribed = record {
  notification_enabled = true;
  connection_handle = 64;
  counter = 1;
  buffer = 49 ∷ 0 ∷ replicate 28 0;
  len = 1;
  heartbeat_timer = record no_timer { process = some heartbeat_handler_of };
  hci_event_cb = record no_event_cb { callback = some packet_handler_of };
}

started :
    (setup digit (record initial { notification_enabled = true; connection_handle = 64 })).0
    ≡ subscribed
unfolding setup beat
started = refl

-- A client subscribes, a beat is notified, the client goes, and the timer runs on.
abbrev visit : List Event
visit =
    ticks
    ∷ write 64 12 (some (1 ∷ 0 ∷ []))
    ∷ ticks
    ∷ packet 4 (some (183 ∷ 0 ∷ []))
    ∷ packet 4 (some (5 ∷ 4 ∷ []))
    ∷ ticks
    ∷ []

visit_result : spec_run digit visit opened ≡ (
  record { subscribed = false; connection = 64; beats = 2 },
  set_timer 1000
      ∷ add_timer
      ∷ request_can_send_now_event 64
      ∷ set_timer 1000
      ∷ add_timer
      ∷ notify 64 11 (50 ∷ [])
      ∷ set_timer 1000
      ∷ add_timer
      ∷ [],
)
unfolding spec_run
visit_result = refl

-- The configuration that asks for notifications.
abbrev lo : ℕ
lo = 1

abbrev hi : ℕ
hi = 0

att_write_callback-fault_example :
    (att_write_callback initial 64 12 (some (1 ∷ [])) 1 ≡ none)
    ↔ ((att_counter_client_configuration_handle ≡ 12) × (length (lo ∷ []) ≡ 1))
att_write_callback-fault_example = att_write_callback-fault initial 64 12 (1 ∷ [])
