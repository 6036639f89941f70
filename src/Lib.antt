-- ===== src/Lib.antt =====
-- btstack-rs: the Rust side of a Bluetooth stack on BTstack.
--
-- BTstack itself is C code in a submodule and reaches the program through generated bindings
-- (btstack-sys). BTstack drives a Bluetooth controller through a table of functions, the HCI
-- transport; the crate btstack-hci-transport-nusb implements it with nusb and three threads: two that
-- read events and ACL data and hand them to BTstack's packet handler, and one that writes what
-- `transport_send_packet` has put into a bounded channel. The crate btstack-gatt starts BTstack with
-- that table and runs its loop on a thread of its own; on that thread BTstack calls the callbacks of a
-- GATT server, either the counter example or one that is built from a specification.
--
-- Which module models which part:
--   Common          tests, lists, machine words that the others share
--   Sys             the constants of btstack-sys/src/generated/libusb_main_bindings.rs that are used;
--                   Sys.Structs its records that the program fills in
--   Transport.Constants, Transport.Types
--                   constants.rs, types.rs and state.rs of btstack-hci-transport-nusb/src
--   Transport.Usb   usb.rs: `select_device`, `is_candidate_device`, `detect_endpoints`; its child Path
--                   has `parse_usb_path` over lists of character codes, with the parts of Rust's `str`
--                   that it calls (`split_once`, `split`, `parse::<u8>`)
--   Transport.Events
--                   the `emit_...` functions of io.rs; a call of the handler is a value, Delivery
--   Transport.Api   lib.rs: `transport_init`, `_open`, `_close`, `_register_packet_handler`,
--                   `_can_send_packet_now`, `_send_packet`, each as a function of the state behind the
--                   mutex STATE, run without interference
--   Transport.Instance
--                   lib.rs: the table `HCI_TRANSPORT_NUSB`, and calls through it in any order, between
--                   which the writer thread takes and finishes packets
--   Transport.Nusb  what is relied on of nusb's transfer queues, as an interface with laws
--   Transport.Reader
--                   io.rs: `spawn_event_reader`, `spawn_acl_reader`, `cancel_and_drain_reader_queue`;
--                   what each iteration observes (poll, flag, state) is an input
--   Transport.Pipeline
--                   the same sends with interference: any number of threads in
--                   `transport_send_packet` and `try_reserve_send_slot`, the writer thread
--                   `spawn_writer`, and the store of the stop flag by `transport_close`, one shared
--                   access to a step; a run is a list of steps in any order. Progress is about
--                   the delivery of packets, by how far a run has come (Growth); Drain about the
--                   return of the slots, by what is left to do (WorkLeft); Accounts about what becomes
--                   of each packet; LockFree about senders that compete; Granted about one sending
--                   thread that has found room, by where it can wait (Waiting); Solo and Alone
--                   compare a sender that nothing interrupts with Transport.Api
--   Transport.Workers
--                   the pipeline, both readers and the thread in `transport_close`, with its `join`
--                   of one after the other; an iteration of a reader is a step
--   Gatt.Runtime    runtime.rs and gatt_counter_main.rs of btstack-gatt/src: the flag RUNTIME_ACTIVE and
--                   a log of the calls of BTstack and of the loop thread; how that thread ends is an
--                   argument. Protocol is the order in which the parts of BTstack are initialised
--                   and deinitialised, as a state machine, and owners that act in any order; Orderly is about those that keep to it, Broken about
--                   the others
--   Gatt.Peripheral peripheral.rs of btstack-gatt/src; its static RUNTIME is an argument and a result.
--                   Types has the specification and the state, Btstack what is relied on of BTstack's
--                   look-ups, Resolve the `resolve_...` functions (its child
--                   Entries says by the look-ups what the map has to hold), Server `new`, advertising and drop,
--                   Callbacks `packet_handler`, `att_read_callback` and `att_write_callback`, Valid the
--                   agreement between the maps of the state. Callbacks.Abstract is an abstract server,
--                   whose tables are functions; Callbacks.Refinement compares the code with it,
--                   Server.Construction from `new` on. In Server.Advertising the requests of one
--                   server, the updates on the run loop and the callbacks come in any order, in
--                   Server.Lifecycle constructions and drops as well
--   Gatt.Counter    gatt_counter.rs of btstack-gatt/src: its static variables are a record, the
--                   formatting of the counter by BTstack's snprintf is an interface, Printer. Abstract
--                   is a counter without buffers, Refinement compares the code with it
--   Build           btstack-sys/build.rs: the script prints directives and returns or panics; the
--                   machine with its environment, files, programs and the crates cmake and cc is a
--                   record. Cmake has the search for CMake, Settings what a build has to
--                   be, Outcome the whole run
--   Common.Dict     Rust's hash map as an association list; the order in which one is iterated is a
--                   parameter
--
-- Numbers are natural numbers with the casts of the source written out; `usize` has 64 bits. A null
-- pointer is `none`. The drain of a reader has the number of pending transfers as its fuel, which is
-- enough since each round takes one. The order of steps in a pipeline run and the answers of USB are
-- arbitrary lists, so no fuel bounds a run.
--
-- Not modelled: nusb, the operating system and BTstack, which are inputs, interfaces or logs of calls;
-- real time (the poll interval); the memory order of atomics, taken as sequentially consistent; the
-- rest of the generated declarations, which the program does not use. In Gatt.Peripheral a buffer that
-- BTstack passes to be read is a list, and a read beyond its end makes the result of the callback
-- `none`; a buffer to be filled is known by its size. Parameters that the source ignores are left out:
-- the connection handle and the transaction mode of the read and write callbacks (so prepared,
-- validated and cancelled writes are not told apart), the channel and the size of a packet handler.
-- That BTstack keeps the address of data that Rust frees (the profile data after `new`, the handler's
-- registration after a drop) is outside the model, which has no addresses.
pub mod Common
pub mod Sys
pub mod Transport
pub mod Gatt
pub mod Build
