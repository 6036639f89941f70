-- ===== src/Gatt/Peripheral/Server/Advertising.antt =====
-- Advertising as it runs: the application asks for it or for its end, BTstack's thread runs the
-- update some time later and calls the packet handler and the write callback at any time.
use btstack_rs.Common.{
  ◌≡◌, ◌∙◌, refl, ap, Bool, true, false, not, Option, none, some, List, [], ◌∷◌, ◌++◌, ◌⊎◌, inl,
  inr, ◌==◌, arith,
}
use btstack_rs.Gatt.Peripheral.Types.{RuntimeState}
use btstack_rs.Gatt.Peripheral.Btstack.{Call, enable}
use btstack_rs.Gatt.Peripheral.Server.{
  start_advertising, stop, set_advertising, run_loop_advertising_update,
}
use btstack_rs.Gatt.Peripheral.Callbacks.Events.{callback, IsSound, callback-Step}
use btstack_rs.Gatt.Peripheral.Callbacks.Events as Callbacks
use btstack_rs.Gatt.Peripheral.Callbacks.Invariant.{Step-IsKept}

-- `advertising`: what the controller has been told last.
pub record System : Type 0 where
  pub runtime : Option RuntimeState
  pub advertising : Bool

pub data Event : Type 0 where
  asks : Bool → Event  -- `start_advertising` or `stop`
  updates : Event  -- `run_loop_advertising_update`
  calls : Callbacks.Event → Event

-- The last `gap_advertisements_enable` of some calls counts.
abbrev pub told : List Call → Bool → Bool
told [] on = on
told (enable n ∷ rest) on = told rest (not (n == 0))
told (_ ∷ rest) on = told rest on

abbrev pub ask : Bool → Option RuntimeState → Option RuntimeState
ask true runtime = (start_advertising runtime).0
ask false runtime = (stop runtime).0

unfoldable pub step : Event → System → Option System
step (asks b) s = some (record s { runtime = ask b s.runtime })
step updates s =
    some (record s { advertising = told (run_loop_advertising_update s.runtime) s.advertising })
step (calls e) s = elim (callback e s.runtime) [
  | none ↦ none
  | some runtime ↦ some (record s { runtime = runtime })
]

unfoldable pub run : List Event → System → Option System
run [] s = some s
run (e ∷ events) s = elim (step e s) [ none ↦ none | some s' ↦ run events s' ]

abbrev pub AllSound : List Event → Type 0
AllSound [] = Unit
AllSound (calls e ∷ events) = IsSound e × AllSound events
AllSound (_ ∷ events) = AllSound events

-- No further request, and at least one update.
abbrev pub Waits : List Event → Type 0
Waits [] = Unit
Waits (asks _ ∷ events) = ⊥
Waits (_ ∷ events) = Waits events

abbrev pub HasUpdate : List Event → Type 0
HasUpdate [] = ⊥
HasUpdate (updates ∷ events) = Unit
HasUpdate (_ ∷ events) = HasUpdate events

abbrev pub with_runtime : RuntimeState → Bool → System
with_runtime rt on = record { runtime = some rt; advertising = on }

update-told :
    (rt : RuntimeState) (on : Bool)
    → told (run_loop_advertising_update (some rt)) on ≡ rt.advertising_enabled
unfolding run_loop_advertising_update
update-told rt on = ground arith

-- What one event does to a running server.
step-next :
    (e : Event) (rt : RuntimeState) (on : Bool)
    → AllSound (e ∷ [])
    → (rt' : RuntimeState) × (on' : Bool) × (step e (with_runtime rt on)
        ≡ some (with_runtime rt' on'))
unfolding step
step-next (asks true) rt on sound =
    unfold start_advertising set_advertising in (record rt { advertising_enabled = true }, on, refl)
step-next (asks false) rt on sound =
    unfold stop set_advertising in (record rt { advertising_enabled = false }, on, refl)
step-next updates rt on sound = (rt, told (run_loop_advertising_update (some rt)) on, refl)
step-next (calls e) rt on sound =
    let (rt', once, _) = callback-Step rt e sound.0 in (rt', on, rw (once, step) refl)

run-cons :
    (e : Event) (events : List Event) (s s' : System)
    → step e s ≡ some s'
    → run (e ∷ events) s ≡ run events s'
run-cons e events s s' once = unfold run in rw (once, run) refl

AllSound-head :
    (e : Event) (events : List Event) → AllSound (e ∷ events) → AllSound (e ∷ []) × AllSound events
AllSound-head (asks b) events sound = (tt, sound)
AllSound-head updates events sound = (tt, sound)
AllSound-head (calls e) events (sound, rest) = ((sound, tt), rest)

-- The rest of a run without requests, once the flag is set.
Waits-settles :
    (events : List Event) (rt : RuntimeState) (on b : Bool)
    → AllSound events
    → Waits events
    → rt.advertising_enabled ≡ b
    → HasUpdate events ⊎ (on ≡ b)
    → (rt' : RuntimeState) × (run events (with_runtime rt on) ≡ some (with_runtime rt' b))
Waits-settles [] rt on b sound waits flag (inl none_) = absurd none_
Waits-settles [] rt on b sound waits flag (inr same) =
    (rt, unfold run in ap (λ x. some (with_runtime rt x)) same)
Waits-settles (asks _ ∷ events) rt on b sound waits flag cause = absurd waits
Waits-settles (updates ∷ events) rt on b sound waits flag cause =
    let now : told (run_loop_advertising_update (some rt)) on ≡ b = update-told rt on ∙ flag in
    let (rt', rest) =
      Waits-settles events rt (told (run_loop_advertising_update (some rt)) on) b sound waits flag
        (inr now) in
    (
      rt',
      run-cons updates events (with_runtime rt on)
            (with_runtime rt (told (run_loop_advertising_update (some rt)) on))
            (unfold step in refl)
          ∙ rest,
    )
Waits-settles (calls e ∷ events) rt on b (sound, others) waits flag cause =
    let (rt₁, once, s) = callback-Step rt e sound in
    let kept = Step-IsKept rt rt₁ e s in
    let (rt', rest) = Waits-settles events rt₁ on b others waits (kept.2 ∙ flag) cause in
    (
      rt',
      run-cons (calls e) events (with_runtime rt on) (with_runtime rt₁ on)
            (unfold step in rw (once, step) refl)
          ∙ rest,
    )

ask-flag :
    (b : Bool) (rt : RuntimeState) (on : Bool)
    → step (asks b) (with_runtime rt on)
      ≡ some (with_runtime (record rt { advertising_enabled = b }) on)
unfolding step start_advertising stop set_advertising
ask-flag true rt on = refl
ask-flag false rt on = refl

-- Whatever requests, updates and calls of BTstack come before, if in each call an event packet holds
-- its code, an ATT_EVENT_CONNECTED its handle, and a buffer is as long as its size: once an update has run after the last
-- request the controller advertises exactly if that request asked for it, and no later call of
-- BTstack or update changes that.
pub advertising_settles :
    (before after : List Event) (b : Bool) (rt : RuntimeState) (on : Bool)
    → AllSound before
    → AllSound after
    → Waits after
    → HasUpdate after
    → (rt' : RuntimeState) × (run (before ++ (asks b ∷ after)) (with_runtime rt on)
        ≡ some (with_runtime rt' b))
advertising_settles [] after b rt on sound sound' waits update =
    let rt₁ : RuntimeState = record rt { advertising_enabled = b } in
    let (rt', rest) = Waits-settles after rt₁ on b sound' waits refl (inl update) in
    (
      rt',
      run-cons (asks b) after (with_runtime rt on) (with_runtime rt₁ on) (ask-flag b rt on) ∙ rest,
    )
advertising_settles (e ∷ before) after b rt on sound sound' waits update =
    let (first, others) = AllSound-head e before sound in
    let (rt₁, on₁, once) = step-next e rt on first in
    let (rt', rest) = advertising_settles before after b rt₁ on₁ others sound' waits update in
    (
      rt',
      run-cons e (before ++ (asks b ∷ after)) (with_runtime rt on) (with_runtime rt₁ on₁) once
          ∙ rest,
    )
