-- ===== src/Gatt/Runtime/Broken.antt =====
-- When the owners of btstack-gatt/src/runtime.rs break BTstack's protocol: exactly when one shuts it
-- down too late.
use btstack_rs.Common.{
  ℕ, ◌≡◌, ◌≢◌, ◌↔◌, ◌∙◌, refl, sym, ap, subst, Bool, true, false, not, ◌&&◌, ◌==◌, Option, none,
  some, List, [], ◌∷◌, append_assoc, is_some, if◌then◌else◌, arith, Option-cases, Bool-cases, inl,
  inr,
}
use btstack_rs.Gatt.Runtime.{
  Init, Os, Result, ok, err, Call, trigger_exit, Process, BtstackRuntime, deinit_calls, start_calls,
  logged, start_with_init, join, shutdown, drop, loop_joined,
}
use btstack_rs.Gatt.Runtime.Protocol.{
  phase_of, allowed, down, fresh, Host, Op, starts, joins, shuts, drops, act, step, run, threads,
  started, IsTimely, AllTimely,
}
use btstack_rs.Gatt.Runtime.Calls.{
  allowed-none, allowed-append, IsOrderly, join-none, join-some, shutdown-none, shutdown-some,
  start-idle, start-busy,
}
use btstack_rs.Gatt.Runtime.Orderly.{IsOrderlyHost, act-IsOrderlyHost, run-IsOrderly}

-- Some call was not allowed.
abbrev IsBroken : Process → Type 0
IsBroken p = allowed p.log (some down) ≡ none

logged-IsBroken : (p : Process) (calls : List Call) → IsBroken p → IsBroken (logged p calls)
logged-IsBroken p calls b =
    allowed-append p.log calls (some down) ∙ ap (allowed calls) b ∙ allowed-none calls

start-IsBroken : (init : Init) (p : Process) → IsBroken p → IsBroken (start_with_init init p).0
start-IsBroken init p b = elim (Bool-cases p.active) [
  | inl on ↦ subst (λ x. IsBroken x.0) (sym (start-busy init p on)) b
  | inr off ↦
      subst (λ x. IsBroken x.0) (sym (start-idle init p off))
        (logged-IsBroken p (start_calls init p.os) b)
]

join-IsBroken :
    (panicked : Bool) (p : Process) (r : BtstackRuntime)
    → IsBroken p
    → IsBroken (join panicked p r).0
join-IsBroken panicked p r b = elim (Option-cases r.loop_thread) [
  | inl joined ↦ subst (λ x. IsBroken x.0) (sym (join-none panicked p r joined)) b
  | inr (_, running) ↦
      subst (λ x. IsBroken x.0) (sym (join-some panicked p r running))
        (logged-IsBroken p (loop_joined ∷ []) b)
]

running-IsBroken :
    (panicked : Bool) (p : Process) (r : BtstackRuntime)
    → r.loop_thread ≡ some tt
    → IsBroken p
    → IsBroken (shutdown panicked p r).0
running-IsBroken true p r running b =
    subst (λ x. IsBroken x.0) (sym (shutdown-some true p r running))
      (logged-IsBroken (logged p (trigger_exit ∷ [])) (loop_joined ∷ [])
        (logged-IsBroken p (trigger_exit ∷ []) b))
running-IsBroken false p r running b =
    subst (λ x. IsBroken x.0) (sym (shutdown-some false p r running))
      (logged-IsBroken (logged (logged p (trigger_exit ∷ [])) (loop_joined ∷ [])) deinit_calls (
        logged-IsBroken (logged p (trigger_exit ∷ [])) (loop_joined ∷ [])
          (logged-IsBroken p (trigger_exit ∷ []) b)))

shutdown-IsBroken :
    (panicked : Bool) (p : Process) (r : BtstackRuntime)
    → IsBroken p
    → IsBroken (shutdown panicked p r).0
shutdown-IsBroken panicked p r b = elim (Option-cases r.loop_thread) [
  | inl joined ↦
      subst (λ x. IsBroken x.0) (sym (shutdown-none panicked p r joined))
        (logged-IsBroken (logged p (trigger_exit ∷ [])) deinit_calls
          (logged-IsBroken p (trigger_exit ∷ []) b))
  | inr (_, running) ↦ running-IsBroken panicked p r running b
]

IsBroken-if : (c : Bool) (p q : Process) → IsBroken p → IsBroken q → IsBroken (if c then p else q)
IsBroken-if true p q b b' = b
IsBroken-if false p q b b' = b'

started-process :
    (owners : List (Option BtstackRuntime)) (x : Process × Result BtstackRuntime)
    → (started owners x).process ≡ x.0
started-process owners (p, ok r) = refl
started-process owners (p, err e) = refl

act-IsBroken :
    (op : Op) (h : Host) (o : Option BtstackRuntime)
    → IsBroken h.process
    → IsBroken (act h op o).process
act-IsBroken (starts init) h o b =
    subst IsBroken (sym (started-process h.owners (start_with_init init h.process)))
      (start-IsBroken init h.process b)
act-IsBroken (joins i panicked) h none b = b
act-IsBroken (joins i panicked) h (some r) b = join-IsBroken panicked h.process r b
act-IsBroken (shuts i panicked) h none b = b
act-IsBroken (shuts i panicked) h (some r) b = shutdown-IsBroken panicked h.process r b
act-IsBroken (drops i panicked) h none b = b
act-IsBroken (drops i panicked) h (some r) b =
    unfold drop in
    IsBroken-if (is_some r.loop_thread) _ _ (shutdown-IsBroken panicked h.process r b) b

step-IsBroken : (op : Op) (h : Host) → IsBroken h.process → IsBroken (step op h).process
step-IsBroken op h b = act-IsBroken op h _ b

run-IsBroken : (ops : List Op) (h : Host) → IsBroken h.process → IsBroken (run ops h).process
unfolding run
run-IsBroken [] h b = b
run-IsBroken (op ∷ ops) h b = run-IsBroken ops (step op h) (step-IsBroken op h b)

-- The calls of a late shutdown where BTstack is not initialised, or a thread runs.
late_calls :
    (up thread : Bool)
    → (up && not thread) ≡ false
    → allowed (trigger_exit ∷ deinit_calls) (some (record { phase = phase_of up; thread = thread }))
      ≡ none
late_calls true true e = refl
late_calls true false e = absurd (ground arith)
late_calls false true e = refl
late_calls false false e = refl

late-IsBroken :
    (panicked : Bool) (p : Process) (n : ℕ) (r : BtstackRuntime)
    → IsOrderly p n
    → r.loop_thread ≡ none
    → (p.active && n == 0) ≡ false
    → IsBroken (shutdown panicked p r).0
late-IsBroken panicked p n r (order, _, _) joined late =
    subst (λ x. IsBroken x.0) (sym (shutdown-none panicked p r joined))
      (ap (λ l. allowed l (some down)) (append_assoc p.log (trigger_exit ∷ []) deinit_calls)
        ∙ allowed-append p.log (trigger_exit ∷ deinit_calls) (some down)
        ∙ ap (allowed (trigger_exit ∷ deinit_calls)) order
        ∙ late_calls p.active (not (n == 0)) (ground arith))

-- Where the protocol is kept in the end, the step was timely.
step-IsTimely :
    (op : Op) (h : Host) → IsOrderlyHost h → ¬ IsBroken (step op h).process → IsTimely op h
step-IsTimely (shuts i panicked) h v kept = λ r at joined.
    elim (Bool-cases (h.process.active && threads h.owners == 0)) [
      | inl timely ↦ (ground arith, ground arith)
      | inr late ↦ absurd (
          kept (
            subst (λ o. IsBroken (act h (shuts i panicked) o).process) (sym at)
              (late-IsBroken panicked h.process (threads h.owners) r v joined late)))
    ]
step-IsTimely (starts init) h v kept = tt
step-IsTimely (joins i panicked) h v kept = tt
step-IsTimely (drops i panicked) h v kept = tt

run-AllTimely :
    (ops : List Op) (h : Host) → IsOrderlyHost h → ¬ IsBroken (run ops h).process → AllTimely ops h
unfolding run
run-AllTimely [] h v kept = tt
run-AllTimely (op ∷ ops) h v kept =
    let timely = step-IsTimely op h v (λ b. kept (run-IsBroken ops (step op h) b)) in
    (timely, run-AllTimely ops (step op h) (act-IsOrderlyHost op h timely v) kept)

-- From a fresh process, whatever any number of owners start, join, shut down and drop, and however the
-- loop threads end: a call of BTstack breaks its protocol exactly if some owner whose thread has been
-- joined shuts down while BTstack is not initialised or a loop thread runs.
pub run-allowed :
    (os : Os) (ops : List Op)
    → (allowed (run ops (fresh os)).process.log (some down) ≢ none) ↔ AllTimely ops (fresh os)
run-allowed os ops = (
  λ kept. run-AllTimely ops (fresh os) (refl, omega arith, λ h. ground arith) kept,
  λ timely b. (let good = (run-IsOrderly os ops timely).0 in ground (arith, good, b)),
)
