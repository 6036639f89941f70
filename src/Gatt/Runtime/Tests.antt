-- ===== src/Gatt/Runtime/Tests.antt =====
-- The runtime's theorems in a fresh process.
use btstack_rs.Common.{
  ◌≢◌, ◌↔◌, arith, none, some, List, not, ◌==◌, ◌≤◌, ◌≡◌, refl, true, false, [], ◌∷◌,
}
use btstack_rs.Gatt.Runtime.{counter_main, linux, start_with_init, join, shutdown, drop}
use btstack_rs.Gatt.Runtime.Protocol
use btstack_rs.Gatt.Runtime.Protocol.{
  phase_of, stack_on, stack_off, Op, starts, joins, shuts, drops, down, allowed, threads, AllTimely,
  run,
}
use btstack_rs.Gatt.Runtime.Orderly.{run-IsOrderly}
use btstack_rs.Gatt.Runtime.Broken.{run-allowed}

-- Two sessions: the first is joined and then shut down, the second is dropped; a start in between is
-- refused, and the first owner is dropped while the second runs.
abbrev two_sessions : List Op
two_sessions =
    starts counter_main
    ∷ starts counter_main
    ∷ joins 0 false
    ∷ shuts 0 false
    ∷ starts counter_main
    ∷ drops 0 false
    ∷ drops 1 true
    ∷ []

two_sessions-AllTimely : AllTimely two_sessions (Protocol.fresh linux)
unfolding start_with_init join shutdown drop
two_sessions-AllTimely = ground arith

run-IsOrderly_example :
    let h = run two_sessions (Protocol.fresh linux) in
    (allowed h.process.log (some down)
      ≡ some (record { phase = phase_of h.process.active; thread = not (threads h.owners == 0) }))
    × (threads h.owners ≤ 1)
run-IsOrderly_example = run-IsOrderly linux two_sessions two_sessions-AllTimely

-- A shutdown that is not timely: the second session is shut down by the first owner.
abbrev stale : List Op
stale =
    starts counter_main ∷ joins 0 false ∷ shuts 0 false ∷ starts counter_main ∷ shuts 0 false ∷ []

stale_result : allowed (run stale (Protocol.fresh linux)).process.log (some down) ≡ none
unfolding run start_with_init join shutdown
stale_result = refl

run-allowed_example :
    (allowed (run stale (Protocol.fresh linux)).process.log (some down) ≢ none)
    ↔ AllTimely stale (Protocol.fresh linux)
run-allowed_example = run-allowed linux stale
