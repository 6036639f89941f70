-- ===== src/Gatt/Runtime.antt =====
-- btstack-gatt/src/runtime.rs and gatt_counter_main.rs: who starts and ends BTstack's globals and
-- its run loop. The calls of BTstack and of the thread are a log, newest last.
pub mod Misuse
pub mod Protocol
mod Calls
pub mod Orderly
pub mod Broken
mod Tests
use btstack_rs.Common.{
  ℕ, Bool, true, false, Option, none, some, List, [], ◌∷◌, ◌++◌, if◌then◌else◌, is_some, ℤ, success,
  failure,
}

-- The target that the program is compiled for.
pub data Os : Type 0 where
  windows linux other : Os

-- The run loops of BTstack that the program names.
pub data RunLoop : Type 0 where
  windows_loop posix_loop : RunLoop

unfoldable pub run_loop_instance : Os → RunLoop
run_loop_instance windows = windows_loop
run_loop_instance linux = posix_loop
run_loop_instance other = posix_loop

-- What the loop thread does before it runs the loop: nothing, or `gatt_counter::btstack_main`.
pub data Init : Type 0 where
  no_init counter_main : Init

pub data Call : Type 0 where
  memory_init hci_init : Call
  loop_spawned : Init → Call
  run_loop_init : RunLoop → Call
  trigger_exit loop_joined : Call
  hci_close hci_deinit run_loop_deinit memory_deinit : Call

-- `active` is RUNTIME_ACTIVE.
pub record Process : Type 0 where
  pub os : Os
  pub active : Bool
  pub log : List Call

-- A handle of the loop thread; nothing else is known of it.
pub record BtstackRuntime : Type 0 where
  pub loop_thread : Option (Unit {0})

pub data BtstackRuntimeError : Type 0 where
  already_started loop_thread_panicked : BtstackRuntimeError

pub data Result (A : Type 0) : Type 0 where
  ok : A → Result A
  err : BtstackRuntimeError → Result A

abbrev pub start_calls : Init → Os → List Call
start_calls init os =
    memory_init ∷ run_loop_init (run_loop_instance os) ∷ hci_init ∷ loop_spawned init ∷ []

abbrev pub deinit_calls : List Call
deinit_calls = hci_close ∷ hci_deinit ∷ run_loop_deinit ∷ memory_deinit ∷ []

abbrev pub logged : Process → List Call → Process
logged p calls = record p { log = p.log ++ calls }

-- The flag is swapped first. What `init` does runs on the loop thread.
unfoldable pub start_with_init : Init → Process → Process × Result BtstackRuntime
start_with_init init p = if p.active then (record p { active = true }, err already_started) else (
  logged (record p { active = true }) (start_calls init p.os),
  ok (record { loop_thread = some tt }),
)

unfoldable pub start : Process → Process × Result BtstackRuntime
unfolding start_with_init
start p = start_with_init no_init p

join_thread :
    Option (Unit {0})
    → Bool
    → Process
    → BtstackRuntime
    → Process × BtstackRuntime × Result (Unit {0})
join_thread none panicked p r = (p, r, ok tt)
join_thread (some thread) panicked p r = (
  logged p (loop_joined ∷ []),
  record r { loop_thread = none },
  if panicked then err loop_thread_panicked else ok tt,
)

-- `panicked` says how the loop thread has ended.
unfoldable pub join : Bool → Process → BtstackRuntime → Process × BtstackRuntime × Result (Unit {0})
unfolding join_thread
join panicked p r = join_thread r.loop_thread panicked p r

-- The rest of `shutdown`, after its `join()?`.
deinit : Process × BtstackRuntime × Result (Unit {0}) → Process × BtstackRuntime × Result (Unit {0})
deinit (p, r, err e) = (p, r, err e)
deinit (p, r, ok done) = (record (logged p deinit_calls) { active = false }, r, ok done)

unfoldable pub shutdown :
    Bool → Process → BtstackRuntime → Process × BtstackRuntime × Result (Unit {0})
unfolding join deinit
shutdown panicked p r = deinit (join panicked (logged p (trigger_exit ∷ [])) r)

-- `Drop::drop`
unfoldable pub drop : Bool → Process → BtstackRuntime → Process
unfolding shutdown
drop panicked p r = if is_some r.loop_thread then (shutdown panicked p r).0 else p

exit_code : Result (Unit {0}) → ℤ
exit_code (ok _) = success
exit_code (err _) = failure

run_main : Bool → Process × Result BtstackRuntime → Process × ℤ
unfolding join drop exit_code
run_main panicked (p, err e) = (p, failure)
run_main panicked (p, ok r) =
    let (p', r', result) = join panicked p r in (drop panicked p' r', exit_code result)

-- `gatt_counter_main`: start, join, and the drop of the owner at the end.
unfoldable pub gatt_counter_main : Bool → Process → Process × ℤ
unfolding start_with_init run_main
gatt_counter_main panicked p = run_main panicked (start_with_init counter_main p)
