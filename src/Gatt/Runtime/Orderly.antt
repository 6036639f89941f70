-- ===== src/Gatt/Runtime/Orderly.antt =====
-- The owners of btstack-gatt/src/runtime.rs keep BTstack's protocol.
use btstack_rs.Common.{
  ℕ, zero, suc, ◌+◌, ◌≤◌, ◌≡◌, refl, sym, ap, subst, Bool, true, not, ◌==◌, Option, none, some,
  List, [], ◌∷◌, ◌++◌, get_elem?, set, if◌then◌else◌, is_some, arith, Option-cases, Bool-cases, inl,
  inr,
}
use mathlib.Core.Option.{some-injective}
use btstack_rs.Gatt.Runtime.{
  Init, Os, loop_joined, Process, BtstackRuntime, start_calls, logged, start_with_init, join,
  shutdown, drop,
}
use btstack_rs.Gatt.Runtime.Protocol.{
  phase_of, fresh, allowed, down, Host, Op, starts, joins, shuts, drops, owner_at, step, run, holds,
  threads, IsTimely, AllTimely, act, updated, started,
}
use btstack_rs.Gatt.Runtime.Calls.{
  start-IsOrderly, refused-IsOrderly, join-IsOrderly, join-none, join-some, start-idle, start-busy,
  shutdown-IsOrderly, late-IsOrderly, IsOrderly,
}

threads-append :
    (os : List (Option BtstackRuntime)) (o : Option BtstackRuntime)
    → threads (os ++ o ∷ []) ≡ threads os + holds o
threads-append [] o = omega arith
threads-append (x ∷ os) o = omega (arith, threads-append os o)

threads-set :
    (os : List (Option BtstackRuntime)) (i : ℕ) (o o' : Option BtstackRuntime)
    → get_elem? os i ≡ some o
    → threads (set os i o') + holds o ≡ threads os + holds o'
threads-set [] i o o' h = ground arith
threads-set (x ∷ os) zero o o' h = omega (arith, ap holds (some-injective x o h))
threads-set (x ∷ os) (suc i) o o' h = omega (arith, threads-set os i o o' h)

-- The number of threads when one owner is looked at: what it holds, and the rest.
abbrev pub IsOrderlyHost : Host → Type 0
IsOrderlyHost h = IsOrderly h.process (threads h.owners)

owner_at-get_elem? :
    (h : Host) (i : ℕ) (r : BtstackRuntime)
    → owner_at h i ≡ some r
    → get_elem? h.owners i ≡ some (some r)
owner_at-get_elem? h i r e = ground arith

-- An owner that is replaced by one without a thread.
replaced-IsOrderly :
    (h : Host) (i : ℕ) (r : BtstackRuntime) (o : Option BtstackRuntime) (p : Process) (n : ℕ)
    → owner_at h i ≡ some r
    → holds o ≡ 0
    → threads h.owners ≡ n + holds (some r)
    → IsOrderly p n
    → IsOrderlyHost (record { process = p; owners = set h.owners i o })
replaced-IsOrderly h i r o p n at gone count v =
    subst (IsOrderly p)
      (omega (arith, threads-set h.owners i (some r) o (owner_at-get_elem? h i r at), gone, count))
      v

holds-le-threads :
    (os : List (Option BtstackRuntime)) (i : ℕ) (o : Option BtstackRuntime)
    → get_elem? os i ≡ some o
    → holds o ≤ threads os
holds-le-threads [] i o h = ground arith
holds-le-threads (x ∷ os) zero o h = omega (arith, ap holds (some-injective x o h))
holds-le-threads (x ∷ os) (suc i) o h = omega (arith, holds-le-threads os i o h)

-- If the owner holds a thread, it is the only one.
one_thread :
    (h : Host) (i : ℕ) (r : BtstackRuntime)
    → IsOrderlyHost h
    → owner_at h i ≡ some r
    → r.loop_thread ≡ some tt
    → (threads h.owners ≡ 1) × (h.process.active ≡ true) × (holds (some r) ≡ 1)
one_thread h i r v at running =
    let held : holds (some r) ≡ 1 = ap (λ t. if is_some t then 1 else 0) running in
    let some_ : threads h.owners ≡ 1 =
      omega
        (arith, held, v.1, holds-le-threads h.owners i (some r) (owner_at-get_elem? h i r at)) in
    (some_, v.2 (omega (arith, some_)), held)

join-IsOrderlyHost :
    (h : Host) (i : ℕ) (panicked : Bool) (r : BtstackRuntime)
    → IsOrderlyHost h
    → owner_at h i ≡ some r
    → IsOrderlyHost (updated h i (join panicked h.process r))
join-IsOrderlyHost h i panicked r v at = elim (Option-cases r.loop_thread) [
  | inl joined ↦
      let none_held : holds (some r) ≡ 0 = ap (λ t. if is_some t then 1 else 0) joined in
      subst (λ x. IsOrderlyHost (updated h i x)) (sym (join-none panicked h.process r joined))
        (replaced-IsOrderly h i r (some r) h.process (threads h.owners) at none_held
          (omega (arith, none_held)) v)
  | inr (_, running) ↦
      let (one, on, held) = one_thread h i r v at running in
      subst (λ x. IsOrderlyHost (updated h i x)) (sym (join-some panicked h.process r running))
        (replaced-IsOrderly h i r (some (record { loop_thread = none }))
          (logged h.process (loop_joined ∷ [])) 0 at refl (omega (arith, one, held))
          (join-IsOrderly h.process (subst (IsOrderly h.process) one v)))
]

shutdown-IsOrderlyHost :
    (h : Host) (i : ℕ) (panicked : Bool) (r : BtstackRuntime)
    → IsOrderlyHost h
    → owner_at h i ≡ some r
    → (r.loop_thread ≡ none → (h.process.active ≡ true) × (threads h.owners ≡ 0))
    → IsOrderlyHost (updated h i (shutdown panicked h.process r))
shutdown-IsOrderlyHost h i panicked r v at timely = elim (Option-cases r.loop_thread) [
  | inl joined ↦
      let (on, zero_) = timely joined in
      let (v', gone) =
        late-IsOrderly panicked h.process r (subst (IsOrderly h.process) zero_ v) on joined in
      let none_held : holds (some r) ≡ 0 = ap (λ t. if is_some t then 1 else 0) joined in
      replaced-IsOrderly h i r (some (shutdown panicked h.process r).1)
        (shutdown panicked h.process r).0 0 at gone (omega (arith, none_held, zero_)) v'
  | inr (_, running) ↦
      let (one, on, held) = one_thread h i r v at running in
      let (v', gone) =
        shutdown-IsOrderly panicked h.process r (subst (IsOrderly h.process) one v) on running in
      replaced-IsOrderly h i r (some (shutdown panicked h.process r).1)
        (shutdown panicked h.process r).0 0 at gone (omega (arith, held, one)) v'
]

drop-IsOrderlyHost :
    (h : Host) (i : ℕ) (panicked : Bool) (r : BtstackRuntime)
    → IsOrderlyHost h
    → owner_at h i ≡ some r
    → IsOrderlyHost (record { process = drop panicked h.process r; owners = set h.owners i none })
drop-IsOrderlyHost h i panicked r v at = elim (Option-cases r.loop_thread) [
  | inl joined ↦
      let none_held : holds (some r) ≡ 0 = ap (λ t. if is_some t then 1 else 0) joined in
      let same : drop panicked h.process r ≡ h.process =
        unfold drop in
        ap (λ t. if is_some t then (shutdown panicked h.process r).0 else h.process) joined in
      subst (λ x. IsOrderlyHost (record { process = x; owners = set h.owners i none })) (sym same)
        (replaced-IsOrderly h i r none h.process (threads h.owners) at refl
          (omega (arith, none_held)) v)
  | inr (_, running) ↦
      let (one, on, held) = one_thread h i r v at running in
      let (v', gone) =
        shutdown-IsOrderly panicked h.process r (subst (IsOrderly h.process) one v) on running in
      let same : drop panicked h.process r ≡ (shutdown panicked h.process r).0 =
        unfold drop in
        ap (λ t. if is_some t then (shutdown panicked h.process r).0 else h.process) running in
      subst (λ x. IsOrderlyHost (record { process = x; owners = set h.owners i none })) (sym same)
        (replaced-IsOrderly h i r none (shutdown panicked h.process r).0 0 at refl
          (omega (arith, held, one)) v')
]

start-IsOrderlyHost :
    (init : Init) (h : Host)
    → IsOrderlyHost h
    → IsOrderlyHost (started h.owners (start_with_init init h.process))
start-IsOrderlyHost init h v = elim (Bool-cases h.process.active) [
  | inl on ↦
      subst (λ x. IsOrderlyHost (started h.owners x)) (sym (start-busy init h.process on))
        (refused-IsOrderly h.process (threads h.owners) v on)
  | inr off ↦
      let (zero_, v') = start-IsOrderly init h.process (threads h.owners) v off in
      subst (λ x. IsOrderlyHost (started h.owners x)) (sym (start-idle init h.process off))
        (subst
          (IsOrderly (logged (record h.process { active = true }) (start_calls init h.process.os)))
          (omega (arith, zero_, threads-append h.owners (some (record { loop_thread = some tt }))))
          v')
]

pub act-IsOrderlyHost :
    (op : Op) (h : Host) → IsTimely op h → IsOrderlyHost h → IsOrderlyHost (step op h)
act-IsOrderlyHost (starts init) h timely v = start-IsOrderlyHost init h v
act-IsOrderlyHost (joins i panicked) h timely v = elim (Option-cases (owner_at h i)) [
  | inl gone ↦ subst (λ o. IsOrderlyHost (act h (joins i panicked) o)) (sym gone) v
  | inr (r, at) ↦
      subst (λ o. IsOrderlyHost (act h (joins i panicked) o)) (sym at)
        (join-IsOrderlyHost h i panicked r v at)
]
act-IsOrderlyHost (shuts i panicked) h timely v = elim (Option-cases (owner_at h i)) [
  | inl gone ↦ subst (λ o. IsOrderlyHost (act h (shuts i panicked) o)) (sym gone) v
  | inr (r, at) ↦
      subst (λ o. IsOrderlyHost (act h (shuts i panicked) o)) (sym at)
        (shutdown-IsOrderlyHost h i panicked r v at (timely r at))
]
act-IsOrderlyHost (drops i panicked) h timely v = elim (Option-cases (owner_at h i)) [
  | inl gone ↦ subst (λ o. IsOrderlyHost (act h (drops i panicked) o)) (sym gone) v
  | inr (r, at) ↦
      subst (λ o. IsOrderlyHost (act h (drops i panicked) o)) (sym at)
        (drop-IsOrderlyHost h i panicked r v at)
]

run-IsOrderlyHost :
    (ops : List Op) (h : Host) → AllTimely ops h → IsOrderlyHost h → IsOrderlyHost (run ops h)
unfolding run
run-IsOrderlyHost [] h timely v = v
run-IsOrderlyHost (op ∷ ops) h (timely, rest) v =
    run-IsOrderlyHost ops (step op h) rest (act-IsOrderlyHost op h timely v)

-- From a fresh process, whatever any number of owners start, join, shut down and drop, in any order
-- and with any panics of the loop threads, if a shutdown through an owner whose thread has been
-- joined is made only while BTstack is initialised and no thread runs: the parts of BTstack are
-- initialised and deinitialised in order, with at most one loop thread in between; after the run all
-- of them are initialised if RUNTIME_ACTIVE is set and none if it is not; and at most one owner holds
-- a loop thread, which runs.
pub run-IsOrderly :
    (os : Os) (ops : List Op)
    → AllTimely ops (fresh os)
    → let h = run ops (fresh os) in
      (allowed h.process.log (some down)
        ≡ some (record { phase = phase_of h.process.active; thread = not (threads h.owners == 0) }))
      × (threads h.owners ≤ 1)
run-IsOrderly os ops timely =
    let v = run-IsOrderlyHost ops (fresh os) timely (refl, omega arith, λ h. ground arith) in
    (v.0, v.1)
