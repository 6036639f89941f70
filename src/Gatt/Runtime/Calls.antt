-- ===== src/Gatt/Runtime/Calls.antt =====
-- What each operation of btstack-gatt/src/runtime.rs does to a process that has kept BTstack's protocol.
use btstack_rs.Common.{
  ℕ, ◌≤◌, ◌<◌, ◌≡◌, ◌∙◌, refl, sym, ap, ap₂, subst, Bool, true, false, not, ◌==◌, Option, none,
  some, List, [], ◌∷◌, ◌++◌, if◌then◌else◌, is_some, arith,
}
use btstack_rs.Gatt.Runtime.{
  Init, already_started, Call, trigger_exit, loop_joined, loop_thread_panicked, Process,
  BtstackRuntime, ok, err, start_calls, deinit_calls, logged, start_with_init, join, shutdown,
}
use btstack_rs.Gatt.Runtime.Protocol.{phase_of, stack_on, Stack, allow, allowed, down, holds}

pub allowed-none : (calls : List Call) → allowed calls none ≡ none
allowed-none [] = refl
allowed-none (c ∷ calls) = refl

pub allowed-append :
    (xs ys : List Call) (o : Option Stack) → allowed (xs ++ ys) o ≡ allowed ys (allowed xs o)
allowed-append xs ys none = sym (ap (allowed ys) (allowed-none xs) ∙ allowed-none ys) ∙ refl
allowed-append [] ys (some s) = refl
allowed-append (c ∷ xs) ys (some s) = allowed-append xs ys (allow c s)

-- With `n` owners that hold a thread: the calls so far are allowed, and leave BTstack as the flag and
-- the owners say.
abbrev pub IsOrderly : Process → ℕ → Type 0
IsOrderly p n =
    (allowed p.log (some down) ≡ some (record { phase = phase_of p.active; thread = not (n == 0) }))
    × (n ≤ 1)
    × (0 < n → p.active ≡ true)

-- What more calls do.
more-calls :
    (p : Process) (calls : List Call) (s s' : Stack)
    → allowed p.log (some down) ≡ some s
    → allowed calls (some s) ≡ some s'
    → allowed (p.log ++ calls) (some down) ≡ some s'
more-calls p calls s s' before now =
    allowed-append p.log calls (some down) ∙ ap (allowed calls) before ∙ now

-- The order, with the flag and the number of threads known.
order_at :
    (p : Process) (n m : ℕ) (b : Bool)
    → IsOrderly p n
    → p.active ≡ b
    → n ≡ m
    → allowed p.log (some down) ≡ some (record { phase = phase_of b; thread = not (m == 0) })
order_at p n m b (order, few, on) flag count =
    order ∙ ap₂ (λ c k. some (record { phase = phase_of c; thread = not (k == 0) })) flag count

pub start-IsOrderly :
    (init : Init) (p : Process) (n : ℕ)
    → IsOrderly p n
    → p.active ≡ false
    → (n ≡ 0) × IsOrderly (logged (record p { active = true }) (start_calls init p.os)) 1
start-IsOrderly init p n v off =
    let (order, few, on) = v in
    let no_thread : n ≡ 0 = ground (arith, on) in
    (
      no_thread,
      (
        more-calls p (start_calls init p.os) down (record { phase = stack_on; thread = true })
            (order_at p n 0 false v off no_thread) refl,
        omega arith,
        λ h. refl,
      ),
    )

-- A start that finds the flag set leaves it set.
pub refused-IsOrderly :
    (p : Process) (n : ℕ)
    → IsOrderly p n
    → p.active ≡ true
    → IsOrderly (record p { active = true }) n
refused-IsOrderly p n v on = (order_at p n n true v on refl, v.1, λ h. refl)

trigger-IsOrderly :
    (p : Process) (n : ℕ)
    → IsOrderly p n
    → p.active ≡ true
    → IsOrderly (logged p (trigger_exit ∷ [])) n
trigger-IsOrderly p n v on = (
  more-calls p (trigger_exit ∷ []) (record { phase = stack_on; thread = not (n == 0) })
        (record { phase = stack_on; thread = not (n == 0) }) (order_at p n n true v on refl) refl
      ∙ ap (λ b. some (record { phase = phase_of b; thread = not (n == 0) })) (sym on),
  v.1,
  v.2,
)

pub join-IsOrderly : (p : Process) → IsOrderly p 1 → IsOrderly (logged p (loop_joined ∷ [])) 0
join-IsOrderly p v = (
  more-calls p (loop_joined ∷ []) (record { phase = phase_of p.active; thread = true })
      (record { phase = phase_of p.active; thread = false }) v.0 refl,
  omega arith,
  λ h. ground arith,
)

deinit-IsOrderly :
    (p : Process)
    → IsOrderly p 0
    → p.active ≡ true
    → IsOrderly (record (logged p deinit_calls) { active = false }) 0
deinit-IsOrderly p v on = (
  more-calls p deinit_calls (record { phase = stack_on; thread = false }) down
      (order_at p 0 0 true v on refl) refl,
  omega arith,
  λ h. ground arith,
)

pub join-none :
    (panicked : Bool) (p : Process) (r : BtstackRuntime)
    → r.loop_thread ≡ none
    → join panicked p r ≡ (p, r, ok tt)
unfolding join
join-none panicked p r joined = ground arith

pub join-some :
    (panicked : Bool) (p : Process) (r : BtstackRuntime)
    → r.loop_thread ≡ some tt
    → join panicked p r ≡ (
      logged p (loop_joined ∷ []),
      record { loop_thread = none },
      if panicked then err loop_thread_panicked else ok tt,
    )
unfolding join
join-some panicked p r running = ground arith

-- After `shutdown`, whatever the thread: BTstack is shut down, or left initialised after a panic.
pub shutdown-none :
    (panicked : Bool) (p : Process) (r : BtstackRuntime)
    → r.loop_thread ≡ none
    → shutdown panicked p r
      ≡ (record (logged (logged p (trigger_exit ∷ [])) deinit_calls) { active = false }, r, ok tt)
unfolding shutdown join
shutdown-none panicked p r joined = ground arith

pub shutdown-some :
    (panicked : Bool) (p : Process) (r : BtstackRuntime)
    → r.loop_thread ≡ some tt
    → shutdown panicked p r ≡ (
        let p' = logged (logged p (trigger_exit ∷ [])) (loop_joined ∷ []) in
        if panicked then (p', record { loop_thread = none }, err loop_thread_panicked) else (
          record (logged p' deinit_calls) { active = false },
          record { loop_thread = none },
          ok tt,
        ))
unfolding shutdown join
shutdown-some true p r running = ground arith
shutdown-some false p r running = ground arith

pub start-idle :
    (init : Init) (p : Process)
    → p.active ≡ false
    → start_with_init init p ≡ (
      logged (record p { active = true }) (start_calls init p.os),
      ok (record { loop_thread = some tt }),
    )
unfolding start_with_init
start-idle init p off = ground arith

pub start-busy :
    (init : Init) (p : Process)
    → p.active ≡ true
    → start_with_init init p ≡ (record p { active = true }, err already_started)
unfolding start_with_init
start-busy init p on = ground arith

-- A shutdown by the owner of the thread.
pub shutdown-IsOrderly :
    (panicked : Bool) (p : Process) (r : BtstackRuntime)
    → IsOrderly p 1
    → p.active ≡ true
    → r.loop_thread ≡ some tt
    → IsOrderly (shutdown panicked p r).0 0 × (holds (some (shutdown panicked p r).1) ≡ 0)
shutdown-IsOrderly true p r v on running =
    let joined = join-IsOrderly (logged p (trigger_exit ∷ [])) (trigger-IsOrderly p 1 v on) in
    subst (λ x. IsOrderly x.0 0 × (holds (some x.1) ≡ 0)) (sym (shutdown-some true p r running))
      (joined, refl)
shutdown-IsOrderly false p r v on running =
    let joined = join-IsOrderly (logged p (trigger_exit ∷ [])) (trigger-IsOrderly p 1 v on) in
    subst (λ x. IsOrderly x.0 0 × (holds (some x.1) ≡ 0)) (sym (shutdown-some false p r running))
      (deinit-IsOrderly (logged (logged p (trigger_exit ∷ [])) (loop_joined ∷ [])) joined on, refl)

-- A shutdown after the thread has been joined, with no other.
pub late-IsOrderly :
    (panicked : Bool) (p : Process) (r : BtstackRuntime)
    → IsOrderly p 0
    → p.active ≡ true
    → r.loop_thread ≡ none
    → IsOrderly (shutdown panicked p r).0 0 × (holds (some (shutdown panicked p r).1) ≡ 0)
late-IsOrderly panicked p r v on joined =
    subst (λ x. IsOrderly x.0 0 × (holds (some x.1) ≡ 0)) (sym (shutdown-none panicked p r joined))
      (
        deinit-IsOrderly (logged p (trigger_exit ∷ [])) (trigger-IsOrderly p 0 v on) on,
        ap (λ t. if is_some t then 1 else 0) joined,
      )
