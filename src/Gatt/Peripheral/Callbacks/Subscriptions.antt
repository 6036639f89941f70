-- ===== src/Gatt/Peripheral/Callbacks/Subscriptions.antt =====
-- Who is notified: a flag is on only for a client that has asked since the last disconnection.
use btstack_rs.Common.{
  ℕ, ◌≡◌, ◌∙◌, sym, refl, ap, subst, Bool, true, false, some, List, [], ◌∷◌, Bool-cases, inl, inr,
}
use btstack_rs.Common.Dict.{Dict, lookup, lookup-insert_cases, lookup-map_values_cases}
use btstack_rs.Sys.{att_event_disconnected, hci_event_packet}
use btstack_rs.Gatt.Peripheral.Types.{RuntimeState}
use btstack_rs.Gatt.Peripheral.Callbacks.{handle_event, event_at, packet_handler}
use btstack_rs.Gatt.Peripheral.Callbacks.Events.{
  flagged, disconnected, Event, packet, Asks, Step, stay, subscribe, store, connect, disconnect,
  callback, run, callback-Step,
}
use btstack_rs.Gatt.Peripheral.Callbacks.Invariant.{Step-IsKept, AllSound, run-cons}

abbrev pub IsOff : RuntimeState → ℕ → Type 0
IsOff rt v = (b : Bool) → lookup v rt.notification_enabled ≡ some b → b ≡ false

-- The event does not turn the notifications of `v` on.
abbrev pub IsQuiet : Dict ℕ → ℕ → Event → Type 0
IsQuiet cccs v e = (h : ℕ) → lookup h cccs ≡ some v → Asks e h true → ⊥

abbrev pub AllQuiet : Dict ℕ → ℕ → List Event → Type 0
AllQuiet cccs v [] = Unit
AllQuiet cccs v (e ∷ events) = IsQuiet cccs v e × AllQuiet cccs v events

disconnected-IsOff : (rt : RuntimeState) (v : ℕ) → IsOff (disconnected rt) v
disconnected-IsOff rt v b found =
    let (_, _, off) = lookup-map_values_cases v (λ _. false) b rt.notification_enabled found in off

subscribe-IsOff :
    (rt : RuntimeState) (e : Event) (v h w : ℕ) (b : Bool)
    → IsQuiet rt.ccc_to_value_handle v e
    → IsOff rt v
    → lookup h rt.ccc_to_value_handle ≡ some w
    → Asks e h b
    → IsOff (flagged rt w b) v
subscribe-IsOff rt e v h w b quiet off ccc asks b' found =
    elim (lookup-insert_cases w v b b' rt.notification_enabled found) [
      | inr (_, before) ↦ off b' before
      | inl (same, here) ↦ elim (Bool-cases b) [
        | inr no_ ↦ sym here ∙ no_
        | inl on ↦ absurd (quiet h (ccc ∙ ap some same) (subst (Asks e h) on asks))
      ]
    ]

Step-IsOff :
    (rt rt' : RuntimeState) (e : Event) (v : ℕ)
    → IsQuiet rt.ccc_to_value_handle v e
    → IsOff rt v
    → Step rt e rt'
    → IsOff rt' v
Step-IsOff rt rt' e v quiet off stay = off
Step-IsOff rt rt' e v quiet off (subscribe h w b ccc asks) =
    subscribe-IsOff rt e v h w b quiet off ccc asks
Step-IsOff rt rt' e v quiet off (store h ch value found _) = off
Step-IsOff rt rt' e v quiet off (connect c) = off
Step-IsOff rt rt' e v quiet off disconnect = disconnected-IsOff rt v

run-IsOff :
    (rt : RuntimeState) (cccs : Dict ℕ) (v : ℕ) (events : List Event)
    → rt.ccc_to_value_handle ≡ cccs
    → AllSound events
    → AllQuiet cccs v events
    → IsOff rt v
    → (rt' : RuntimeState) × (run events (some rt) ≡ some (some rt')) × IsOff rt' v
run-IsOff rt cccs v [] same sound quiet off = (rt, unfold run in refl, off)
run-IsOff rt cccs v (e ∷ events) same (sound, all) (quiet, later) off =
    let (rt₁, once, s) = callback-Step rt e sound in
    let kept = Step-IsKept rt rt₁ e s in
    let off₁ = Step-IsOff rt rt₁ e v (subst (λ m. IsQuiet m v e) (sym same) quiet) off s in
    let (rt', rest, off') = run-IsOff rt₁ cccs v events (kept.0 ∙ same) all later off₁ in
    (rt', run-cons rt rt₁ e events once ∙ rest, off')

callback-disconnected :
    (rt : RuntimeState) (rest : List ℕ)
    → callback (packet hci_event_packet (some (att_event_disconnected ∷ rest))) (some rt)
      ≡ some (some (disconnected rt))
unfolding packet_handler event_at handle_event
callback-disconnected rt rest = refl

-- After a disconnection, an event of any length, no notification of `v` is on, whatever was before, and
-- none is after any further packets and writes, if each event packet holds its code, each
-- ATT_EVENT_CONNECTED its handle, and each buffer is as long as its size, and none is a write of at
-- least two bytes with the lowest bit set to a CCC handle of `v`.
pub run-disconnected :
    (rt : RuntimeState) (v : ℕ) (rest : List ℕ) (events : List Event)
    → AllSound events
    → AllQuiet rt.ccc_to_value_handle v events
    → (rt' : RuntimeState) × (run
          (packet hci_event_packet (some (att_event_disconnected ∷ rest)) ∷ events)
          (some rt)
        ≡ some (some rt'))
      × IsOff rt' v
run-disconnected rt v rest events sound quiet =
    let (rt', later, off) =
      run-IsOff (disconnected rt) rt.ccc_to_value_handle v events refl sound quiet
        (disconnected-IsOff rt v) in
    let e : Event = packet hci_event_packet (some (att_event_disconnected ∷ rest)) in
    let once : callback e (some rt) ≡ some (some (disconnected rt)) =
      callback-disconnected rt rest in
    (rt', run-cons rt (disconnected rt) e events once ∙ later, off)
