-- ===== src/Transport/Pipeline/LockFree.antt =====
-- The loop of `try_reserve_send_slot` (btstack-hci-transport-nusb/src/io.rs) is lock-free: a sender
-- that loses its compare-exchange loses it to a thread that has changed the counter.
use btstack_rs.Common.{
  ℕ, zero, suc, ◌+◌, ◌*◌, ◌≡◌, ◌≤◌, ◌<◌, inl, inr, refl, ap, not, ◌&&◌, Option, none, some, List,
  [], ◌∷◌, arith, length, get_elem?, set, ◌==◌, ltb, if◌then◌else◌, Bool-cases, replicate,
  length-replicate,
}
use mathlib.Core.Option.{some-injective}
use native.Mathlib.Nat.{mul-add}
use btstack_rs.Transport.Constants.{outgoing_queue_depth}
use btstack_rs.Transport.Pipeline.{System, Event, sends, writes, closes, start, step, send_at}
use btstack_rs.Transport.Pipeline.Send.{
  Shared, SendPc, idle, loaded, reserved, undo, Request, send_step,
}

-- Whether a sender has loaded a value that the counter no longer has.
abbrev stale : ℕ → SendPc → ℕ
stale pending (loaded c _) = if pending == c then 0 else 1
stale pending _ = 0

abbrev stales : ℕ → List SendPc → ℕ
stales pending [] = 0
stales pending (pc ∷ pcs) = stale pending pc + stales pending pcs

-- Whether a sender's next step is a compare-exchange that fails because the counter has another value.
abbrev loses_at : ℕ → Option SendPc → ℕ
loses_at pending (some (loaded c _)) =
    if ltb c outgoing_queue_depth && not (pending == c) then 1 else 0
loses_at pending _ = 0

abbrev loses : Event → System → ℕ
loses (sends i _) s = loses_at s.mem.pending (get_elem? s.senders i)
loses _ s = 0

-- The compare-exchanges lost in a run, and the changes of the counter.
abbrev pub losses : List Event → System → ℕ
losses [] s = 0
losses (e ∷ es) s = loses e s + losses es (step e s)

abbrev changes_at : Event → System → ℕ
changes_at e s = if (step e s).mem.pending == s.mem.pending then 0 else 1

abbrev pub changes : List Event → System → ℕ
changes [] s = 0
changes (e ∷ es) s = changes_at e s + changes es (step e s)

stale-le : (p : ℕ) (pc : SendPc) → stale p pc ≤ 1
stale-le p (loaded c _) = ground arith
stale-le p idle = omega arith
stale-le p (reserved _) = omega arith
stale-le p undo = omega arith

stales-le : (p : ℕ) (pcs : List SendPc) → stales p pcs ≤ length pcs
stales-le p [] = omega arith
stales-le p (pc ∷ pcs) = omega (arith, stale-le p pc, stales-le p pcs)

stales-set :
    (p : ℕ) (pcs : List SendPc) (i : ℕ) (pc pc' : SendPc)
    → get_elem? pcs i ≡ some pc
    → stales p (set pcs i pc') + stale p pc ≡ stales p pcs + stale p pc'
stales-set p [] i pc pc' h = ground arith
stales-set p (x ∷ pcs) zero pc pc' h = omega (arith, ap (stale p) (some-injective x pc h))
stales-set p (x ∷ pcs) (suc i) pc pc' h = omega (arith, stales-set p pcs i pc pc' h)

length-set : (pcs : List SendPc) (i : ℕ) (pc : SendPc) → length (set pcs i pc) ≡ length pcs
length-set [] i pc = ground arith
length-set (x ∷ pcs) zero pc = ground arith
length-set (x ∷ pcs) (suc i) pc = omega (arith, length-set pcs i pc)

-- A sender's step: if the counter does not change, a loss makes it fresh.
send_step-stale :
    (r : Request) (m : Shared) (pc : SendPc)
    → (send_step r m pc).0.pending ≡ m.pending
    → loses_at m.pending (some pc) + stale m.pending (send_step r m pc).1 ≤ stale m.pending pc
unfolding send_step
send_step-stale r m idle same = ground arith
send_step-stale r m (loaded c o) same = ground arith
send_step-stale r m (reserved none) same = ground arith
send_step-stale r m (reserved (some p)) same = ground arith
send_step-stale r m undo same = ground arith

-- And a loss does not change the counter.
send_step-loses :
    (r : Request) (m : Shared) (pc : SendPc)
    → 0 < loses_at m.pending (some pc)
    → (send_step r m pc).0.pending ≡ m.pending
unfolding send_step
send_step-loses r m idle lost = ground arith
send_step-loses r m (loaded c o) lost = ground arith
send_step-loses r m (reserved none) lost = ground arith
send_step-loses r m (reserved (some p)) lost = ground arith
send_step-loses r m undo lost = ground arith

-- What a step does to the senders that are behind.
abbrev IsPaid : ℕ → System → System → Type 0
IsPaid lost s s' =
    (s'.mem.pending ≡ s.mem.pending
      → lost + stales s'.mem.pending s'.senders ≤ stales s.mem.pending s.senders)
    × (0 < lost → s'.mem.pending ≡ s.mem.pending)
    × (lost ≤ 1)
    × (length s'.senders ≡ length s.senders)

loses_at-le : (p : ℕ) (o : Option SendPc) → loses_at p o ≤ 1
loses_at-le p none = omega arith
loses_at-le p (some idle) = omega arith
loses_at-le p (some (loaded c _)) = ground arith
loses_at-le p (some (reserved _)) = omega arith
loses_at-le p (some undo) = omega arith

send_at-IsPaid :
    (i : ℕ) (r : Request) (s : System) (o : Option SendPc)
    → get_elem? s.senders i ≡ o
    → IsPaid (loses_at s.mem.pending o) s (send_at i r s o)
unfolding send_at
send_at-IsPaid i r s none at = (λ h. omega arith, λ h. refl, omega arith, refl)
send_at-IsPaid i r s (some pc) at =
    let pc' : SendPc = (send_step r s.mem pc).1 in
    let p' : ℕ = (send_step r s.mem pc).0.pending in
    (
      λ same.
          (let count = stales-set s.mem.pending s.senders i pc pc' at in
            let own = send_step-stale r s.mem pc same in
            let now = ap (λ p. stales p (set s.senders i pc')) same in
            omega (arith, count, own, now)),
      λ lost. send_step-loses r s.mem pc lost,
      loses_at-le s.mem.pending (some pc),
      length-set s.senders i pc',
    )

step-IsPaid : (e : Event) (s : System) → IsPaid (loses e s) s (step e s)
unfolding step
step-IsPaid (sends i r) s = send_at-IsPaid i r s (get_elem? s.senders i) refl
step-IsPaid (writes a) s =
    (λ same. omega (arith, ap (λ p. stales p s.senders) same), λ h. ground arith, omega arith, refl)
step-IsPaid closes s = (λ same. omega arith, λ h. refl, omega arith, refl)

step-losses :
    (e : Event) (s : System) (n : ℕ)
    → length s.senders ≤ n
    → loses e s + stales (step e s).mem.pending (step e s).senders
      ≤ stales s.mem.pending s.senders + n * changes_at e s
step-losses e s n few =
    let (paid, loser, one, same) = step-IsPaid e s in
    elim (Bool-cases ((step e s).mem.pending == s.mem.pending)) [
      | inl kept ↦
          let kept' : (step e s).mem.pending ≡ s.mem.pending = ground arith in
          omega (arith, paid kept')
      | inr changed ↦
          let once : n * changes_at e s ≡ n * 1 = ap (λ b. n * (if b then 0 else 1)) changed in
          let none_lost : loses e s ≡ 0 = ground (arith, loser) in
          omega
            (arith, once, none_lost, same, few, stales-le (step e s).mem.pending (step e s).senders)
    ]

run-losses :
    (n : ℕ) (es : List Event) (s : System)
    → length s.senders ≤ n
    → losses es s ≤ stales s.mem.pending s.senders + n * changes es s
run-losses n [] s few = omega arith
run-losses n (e ∷ es) s few =
    let (_, _, _, same) = step-IsPaid e s in
    let later = run-losses n es (step e s) (omega (arith, same, few)) in
    let now = step-losses e s n few in
    omega (arith, later, now, mul-add n (changes_at e s) (changes es (step e s)))

start-length : (n : ℕ) → length (start n).senders ≤ n
unfolding start
start-length n = omega (arith, length-replicate n idle)

stales-replicate : (p n : ℕ) → stales p (replicate n idle) ≡ 0
stales-replicate p zero = refl
stales-replicate p (suc n) = omega (arith, stales-replicate p n)

start-stales : (n : ℕ) → stales (start n).mem.pending (start n).senders ≡ 0
unfolding start
start-stales n = stales-replicate 0 n

-- In every run of `n` senders, the writer and `transport_close`: compare-exchanges that fail because
-- the counter has another value than the one loaded are at most `n` for each change of the counter.
-- So, besides spurious failures, a sender goes around the loop again only because another thread has
-- got on.
pub run_lock_free : (n : ℕ) (es : List Event) → losses es (start n) ≤ n * changes es (start n)
run_lock_free n es = omega (arith, run-losses n es (start n) (start-length n), start-stales n)
