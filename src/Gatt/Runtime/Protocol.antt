-- ===== src/Gatt/Runtime/Protocol.antt =====
-- The order in which btstack-gatt/src/runtime.rs calls BTstack, whatever its owners do: a state machine
-- of what BTstack allows, and any sequence of operations of any number of owners.
use btstack_rs.Common.{
  ℕ, ◌+◌, ◌≡◌, Bool, true, false, not, ◌&&◌, Option, none, some, List, [], ◌∷◌, ◌++◌, get_elem?,
  set, if◌then◌else◌, is_some,
}
use btstack_rs.Gatt.Runtime.{
  Init, Os, Call, memory_init, hci_init, loop_spawned, run_loop_init, trigger_exit, loop_joined,
  hci_close, hci_deinit, run_loop_deinit, memory_deinit, Process, BtstackRuntime, Result, ok, err,
  start_with_init, join, shutdown, drop,
}

-- How far BTstack is initialised: each part only after the one before it, and the other way round.
pub data Phase : Type 0 where
  stack_off memory_ready run_loop_ready stack_on hci_closed hci_gone run_loop_gone : Phase

-- The phase, and whether the loop thread runs.
pub record Stack : Type 0 where
  pub phase : Phase
  pub thread : Bool

-- What a call that initialises or deinitialises a part does; `none` where it is out of order.
abbrev pub next : Call → Phase → Option Phase
next memory_init stack_off = some memory_ready
next (run_loop_init _) memory_ready = some run_loop_ready
next hci_init run_loop_ready = some stack_on
next hci_close stack_on = some hci_closed
next hci_deinit hci_closed = some hci_gone
next run_loop_deinit hci_gone = some run_loop_gone
next memory_deinit run_loop_gone = some stack_off
next _ _ = none

abbrev pub is_on : Phase → Bool
is_on stack_on = true
is_on _ = false

abbrev only_if : Bool → Stack → Option Stack
only_if b s = if b then some s else none

abbrev pub moved : Stack → Option Phase → Option Stack
moved s none = none
moved s (some phase) = some (record s { phase = phase })

-- What BTstack allows: its parts are initialised in order, and deinitialised in the opposite order,
-- while no thread runs its loop; one thread runs the loop, from when all is initialised until it is
-- joined; the loop is told to exit only while all is initialised.
abbrev pub allow : Call → Stack → Option Stack
allow (loop_spawned _) s = only_if (is_on s.phase && not s.thread) (record s { thread = true })
allow trigger_exit s = only_if (is_on s.phase) s
allow loop_joined s = only_if s.thread (record s { thread = false })
allow c s = if s.thread then none else moved s (next c s.phase)

abbrev pub allowed : List Call → Option Stack → Option Stack
allowed calls none = none
allowed [] (some s) = some s
allowed (c ∷ calls) (some s) = allowed calls (allow c s)

abbrev pub down : Stack
down = record { phase = stack_off; thread = false }

-- The phase that RUNTIME_ACTIVE stands for between the operations.
abbrev pub phase_of : Bool → Phase
phase_of active = if active then stack_on else stack_off

-- The process with all the owners there have been; one that has been dropped is `none`.
pub record Host : Type 0 where
  pub process : Process
  pub owners : List (Option BtstackRuntime)

-- An operation of an owner, with how the loop thread ends if it is joined.
pub data Op : Type 0 where
  starts : Init → Op
  joins shuts drops : (owner : ℕ) (panicked : Bool) → Op

abbrev pub fresh : Os → Host
fresh os = record { process = record { os = os; active = false; log = [] }; owners = [] }

abbrev pub started : List (Option BtstackRuntime) → Process × Result BtstackRuntime → Host
started owners (p, ok r) = record { process = p; owners = owners ++ some r ∷ [] }
started owners (p, err e) = record { process = p; owners = owners }

abbrev pub owner_at : Host → ℕ → Option BtstackRuntime
owner_at h i = elim (get_elem? h.owners i) [ none ↦ none | some o ↦ o ]

abbrev pub updated : Host → ℕ → Process × BtstackRuntime × Result (Unit {0}) → Host
updated h i (p, r, _) = record { process = p; owners = set h.owners i (some r) }

abbrev pub act : Host → Op → Option BtstackRuntime → Host
act h (starts init) o = started h.owners (start_with_init init h.process)
act h (joins i panicked) none = h
act h (joins i panicked) (some r) = updated h i (join panicked h.process r)
act h (shuts i panicked) none = h
act h (shuts i panicked) (some r) = updated h i (shutdown panicked h.process r)
act h (drops i panicked) none = h
act h (drops i panicked) (some r) = record {
  process = drop panicked h.process r;
  owners = set h.owners i none;
}

abbrev pub target : Host → Op → Option BtstackRuntime
target h (starts init) = none
target h (joins i _) = owner_at h i
target h (shuts i _) = owner_at h i
target h (drops i _) = owner_at h i

abbrev pub step : Op → Host → Host
step op h = act h op (target h op)

unfoldable pub run : List Op → Host → Host
run [] h = h
run (op ∷ ops) h = run ops (step op h)

abbrev pub holds : Option BtstackRuntime → ℕ
holds none = 0
holds (some r) = if is_some r.loop_thread then 1 else 0

-- How many owners hold a loop thread.
abbrev pub threads : List (Option BtstackRuntime) → ℕ
threads [] = 0
threads (o ∷ os) = holds o + threads os

-- A shutdown through an owner whose thread has been joined is made only while BTstack is initialised
-- and no thread runs.
abbrev pub IsTimely : Op → Host → Type 0
IsTimely (shuts i _) h =
    (r : BtstackRuntime)
    → owner_at h i ≡ some r
    → r.loop_thread ≡ none
    → (h.process.active ≡ true) × (threads h.owners ≡ 0)
IsTimely _ h = Unit

abbrev pub AllTimely : List Op → Host → Type 0
AllTimely [] h = Unit
AllTimely (op ∷ ops) h = IsTimely op h × AllTimely ops (step op h)
