-- ===== src/Gatt/Peripheral/Callbacks/Invariant.antt =====
-- What every sequence of callbacks keeps of the runtime state.
use mathlib.Core.Option
use btstack_rs.Common.{
  ℕ, ◌≡◌, ◌≢◌, ◌∙◌, sym, refl, ap, subst, Bool, false, some, List, [], ◌∷◌, arith, inl, inr,
  ℕ_discrete,
}
use btstack_rs.Common.Dict.{
  lookup, lookup-insert_same, lookup-insert_other, lookup-insert_cases, lookup-insert_found,
  lookup-map_values, lookup-map_values_cases,
}
use btstack_rs.Gatt.Peripheral.Types.{RuntimeCharacteristic, RuntimeState}
use btstack_rs.Gatt.Peripheral.Valid.{IsValid, IsCccOf}
use btstack_rs.Gatt.Peripheral.Callbacks.{with_value}
use btstack_rs.Gatt.Peripheral.Callbacks.Events.{
  flagged, disconnected, Step, stay, subscribe, store, connect, disconnect, Event, callback, run,
  IsSound, callback-Step,
}

some-injective : {A : Type 0} {a b : A} → some a ≡ some b → a ≡ b
some-injective e = ground arith

-- A step keeps the maps in agreement.
module _ (rt : RuntimeState) (valid : IsValid rt) where
  flagged-IsValid :
      (h v : ℕ) (b : Bool) → lookup h rt.ccc_to_value_handle ≡ some v → IsValid (flagged rt v b)
  flagged-IsValid h v b ccc = record {
    handles = valid.handles;
    cccs = λ c w e.
        let (of_, (b', flag)) = valid.cccs c w e in
        (of_, lookup-insert_found v w b b' rt.notification_enabled flag);
    flags = λ w b' e. elim (lookup-insert_cases v w b b' rt.notification_enabled e) [
      | inl (same, _) ↦ (
        h,
        subst (λ x. IsCccOf rt.characteristics_by_value_handle x h) same (valid.cccs h v ccc).0,
      )
      | inr (_, before) ↦ valid.flags w b' before
    ];
  }

  disconnected-IsValid : IsValid (disconnected rt)
  disconnected-IsValid = record {
    handles = valid.handles;
    cccs = λ c w e.
        let (of_, (b, flag)) = valid.cccs c w e in
        (
          of_,
          (
            false,
            lookup-map_values w (λ _. false) rt.notification_enabled
                ∙ ap (Option.map (λ _. false)) flag,
          ),
        );
    flags = λ w b e.
        let (b', flag, _) = lookup-map_values_cases w (λ _. false) b rt.notification_enabled e in
        valid.flags w b' flag;
  }

  IsCccOf-with_value :
      (h w ccc : ℕ) (ch : RuntimeCharacteristic) (value : List ℕ)
      → lookup h rt.characteristics_by_value_handle ≡ some ch
      → IsCccOf rt.characteristics_by_value_handle w ccc
      → IsCccOf (with_value rt h ch value).characteristics_by_value_handle w ccc
  IsCccOf-with_value h w ccc ch value found (ch', there, of_) = elim (ℕ_discrete h w) [
    | yes same ↦
        let one : ch ≡ ch' =
          some-injective
            (sym found ∙ ap (λ i. lookup i rt.characteristics_by_value_handle) same ∙ there) in
        (
          record ch { value = value },
          ap (λ i. lookup i (with_value rt h ch value).characteristics_by_value_handle) (sym same)
              ∙ lookup-insert_same h (record ch { value = value })
                  rt.characteristics_by_value_handle,
          ap (λ c. c.ccc_handle) one ∙ of_,
        )
    | no ne ↦ (
      ch',
      lookup-insert_other h w (record ch { value = value }) rt.characteristics_by_value_handle ne
          ∙ there,
      of_,
    )
  ]

  with_value-IsValid :
      (h : ℕ) (ch : RuntimeCharacteristic) (value : List ℕ)
      → lookup h rt.characteristics_by_value_handle ≡ some ch
      → IsValid (with_value rt h ch value)
  with_value-IsValid h ch value found = record {
    handles = λ k ch' e.
        elim (lookup-insert_cases h k (record ch { value = value }) ch'
          rt.characteristics_by_value_handle e) [
            | inl (same, changed) ↦
                subst (λ x. (x.value_handle ≡ k) × (k ≢ 0)) changed
                  (subst (λ i. (ch.value_handle ≡ i) × (i ≢ 0)) same (valid.handles h ch found))
            | inr (_, before) ↦ valid.handles k ch' before
          ];
    cccs = λ c w e.
        let (of_, flag) = valid.cccs c w e in (IsCccOf-with_value h w c ch value found of_, flag);
    flags = λ w b e.
        let (c, of_) = valid.flags w b e in (c, IsCccOf-with_value h w c ch value found of_);
  }

pub Step-IsValid : (rt rt' : RuntimeState) (e : Event) → IsValid rt → Step rt e rt' → IsValid rt'
Step-IsValid rt rt' e valid stay = valid
Step-IsValid rt rt' e valid (subscribe h v b ccc _) = flagged-IsValid rt valid h v b ccc
Step-IsValid rt rt' e valid (store h ch value found _) =
    with_value-IsValid rt valid h ch value found
Step-IsValid rt rt' e valid (connect c) = record {
  handles = valid.handles;
  cccs = valid.cccs;
  flags = valid.flags;
}
Step-IsValid rt rt' e valid disconnect = disconnected-IsValid rt valid

-- What no callback touches: the table of CCC handles and what advertising is to do.
abbrev pub IsKept : RuntimeState → RuntimeState → Type 0
IsKept rt rt' =
    (rt'.ccc_to_value_handle ≡ rt.ccc_to_value_handle)
    × (rt'.advertising ≡ rt.advertising)
    × (rt'.advertising_enabled ≡ rt.advertising_enabled)

pub Step-IsKept : (rt rt' : RuntimeState) (e : Event) → Step rt e rt' → IsKept rt rt'
Step-IsKept rt rt' e stay = (refl, refl, refl)
Step-IsKept rt rt' e (subscribe h v b ccc _) = (refl, refl, refl)
Step-IsKept rt rt' e (store h ch value found _) = (refl, refl, refl)
Step-IsKept rt rt' e (connect c) = (refl, refl, refl)
Step-IsKept rt rt' e disconnect = (refl, refl, refl)

abbrev pub AllSound : List Event → Type 0
AllSound [] = Unit
AllSound (e ∷ events) = IsSound e × AllSound events

pub run-cons :
    (rt rt' : RuntimeState) (e : Event) (events : List Event)
    → callback e (some rt) ≡ some (some rt')
    → run (e ∷ events) (some rt) ≡ run events (some rt')
unfolding run
run-cons rt rt' e events once = rw (once, run) refl

-- Every sequence of packets and writes, if each event packet holds its code, each ATT_EVENT_CONNECTED
-- its handle, and each buffer is as long as its size, is handled to its end without a read beyond a
-- buffer; the three maps agree with each other after it if they did
-- before, and the CCC table and the advertising settings are untouched.
pub run-IsValid :
    (rt : RuntimeState) (events : List Event)
    → AllSound events
    → IsValid rt
    → (rt' : RuntimeState) × (run events (some rt) ≡ some (some rt')) × IsValid rt' × IsKept rt rt'
run-IsValid rt [] sound valid = (rt, unfold run in refl, valid, (refl, refl, refl))
run-IsValid rt (e ∷ events) (sound, all) valid =
    let (rt₁, once, s) = callback-Step rt e sound in
    let (a, b, c) = Step-IsKept rt rt₁ e s in
    let (rt', rest, valid', (a', b', c')) =
      run-IsValid rt₁ events all (Step-IsValid rt rt₁ e valid s) in
    (rt', run-cons rt rt₁ e events once ∙ rest, valid', (a' ∙ a, b' ∙ b, c' ∙ c))
