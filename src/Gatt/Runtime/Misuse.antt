-- ===== src/Gatt/Runtime/Misuse.antt =====
-- What the runtime does when its owners do not follow one session: second starts, panics, handles
-- that are used or dropped after a join.
use btstack_rs.Common.{
  ◌≡◌, Bool, true, false, none, some, [], ◌∷◌, ◌++◌, arith, success, failure, if◌then◌else◌,
}
use btstack_rs.Gatt.Runtime.{
  loop_joined, trigger_exit, Process, Init, counter_main, BtstackRuntime, already_started, ok, err,
  start_calls, deinit_calls, logged, start_with_init, join, shutdown, drop, gatt_counter_main,
}

-- Dropping an owner after a join that found no panic does nothing: the four calls of the end are
-- never made, and no later start succeeds.
drop-join :
    (init : Init) (p : Process) (r : BtstackRuntime) (panicked : Bool)
    → r.loop_thread ≡ some tt
    → p.active ≡ true
    → let (p', r', result) = join false p r in
      (result ≡ ok tt)
      × (drop panicked p' r' ≡ logged p (loop_joined ∷ []))
      × (start_with_init init (drop panicked p' r') ≡ (drop panicked p' r', err already_started))
unfolding drop join start_with_init
drop-join init p r panicked running on = ground arith

-- So `gatt_counter_main`, in a process with no runtime, leaves BTstack initialised and the process
-- marked, with the code 0 or, after a panic, -1; where a runtime is active it fails and does nothing.
gatt_counter_main_lem :
    (p : Process) (panicked : Bool)
    → gatt_counter_main panicked p ≡ (
        if p.active then (p, failure) else (
          logged
              (logged (record p { active = true }) (start_calls counter_main p.os))
              (loop_joined ∷ []),
          if panicked then failure else success,
        ))
unfolding gatt_counter_main
gatt_counter_main_lem p true = ground arith
gatt_counter_main_lem p false = ground arith

-- A handle whose thread has been joined can still shut down the process, whoever runs in it: the
-- flag is cleared and the four calls of the end are made, though no thread has been joined; a second
-- runtime can then start beside the one that was running.
shutdown-stale :
    (init : Init) (p : Process) (r : BtstackRuntime) (panicked : Bool)
    → r.loop_thread ≡ none
    → let (p', r', result) = shutdown panicked p r in
      (result ≡ ok tt)
      × (p'.log ≡ (p.log ++ trigger_exit ∷ []) ++ deinit_calls)
      × ((start_with_init init p').1 ≡ ok (record { loop_thread = some tt }))
unfolding shutdown join start_with_init
shutdown-stale init p r panicked stale = ground arith
