-- ===== src/Gatt/Peripheral/Callbacks/Refinement.antt =====
-- The callbacks refine the abstract server.
use mathlib.Core.Path.{fun_ext}
use mathlib.Core.Option
use mathlib.Core.Option.{some-injective}
use btstack_rs.Common.{
  sym, refl, inl, inr, ℕ, ◌≡◌, ◌∙◌, ap, ap₂, Bool, true, false, Option, none, some, List, [], ◌∷◌,
  arith, ◌==◌, if◌then◌else◌, as_u8, from_le_bytes,
}
use btstack_rs.Common.Dict.{Dict, lookup, insert, lookup-insert, lookup-map_values}
use btstack_rs.Sys.{att_event_connected, att_event_disconnected, hci_event_packet}
use btstack_rs.Gatt.Peripheral.Types.{RuntimeCharacteristic, RuntimeState}
use btstack_rs.Gatt.Peripheral.Callbacks.{
  att_write_callback, handle_event, event_at, packet_handler,
}
use btstack_rs.Gatt.Peripheral.Callbacks.Write.{att_write_callback-some}
use btstack_rs.Gatt.Peripheral.Callbacks.Events.{
  Event, packet, write, IsSound, HasFields, callback, run, state_of, disconnected, Step, stay,
  subscribe, store, connect, disconnect, callback-Step,
}
use btstack_rs.Gatt.Peripheral.Callbacks.Invariant.{AllSound, run-cons}
use btstack_rs.Gatt.Peripheral.Callbacks.Abstract.{
  View, writable_of, profile, view, spec_packet, spec_step, spec_run,
}
use btstack_rs.Gatt.Peripheral.Callbacks.Shown.{Shows, view-write_runtime}

Shows-if :
    (b : Bool) (x y : Option RuntimeState) (v w : View)
    → Shows x v
    → Shows y w
    → Shows (if b then x else y) (if b then v else w)
Shows-if true x y v w p q = p
Shows-if false x y v w p q = q

view-disconnected :
    (rt : RuntimeState)
    → view (disconnected rt) ≡ record (view rt) {
      connected = none;
      notifies = λ v. Option.map (λ _. false) (lookup v rt.notification_enabled);
    }
view-disconnected rt =
    ap (λ f. record (view rt) { connected = none; notifies = f })
      (fun_ext λ v. lookup-map_values v (λ _. false) rt.notification_enabled)

view-other_event :
    (rt : RuntimeState) (code : ℕ)
    → Shows (if code == as_u8 att_event_disconnected then some (disconnected rt) else some rt) (
        if code == as_u8 att_event_disconnected
        then record (view rt) {
          connected = none;
          notifies = λ v. Option.map (λ _. false) (lookup v rt.notification_enabled);
        }
        else view rt)
view-other_event rt code =
    Shows-if (code == as_u8 att_event_disconnected) _ _ _ _
      (disconnected rt, refl, view-disconnected rt) (rt, refl, refl)

Shows-or_else :
    (b : Bool) (x y : Option RuntimeState) (v w : View)
    → (b ≡ true → Shows x v)
    → Shows y w
    → Shows (if b then x else y) (if b then v else w)
Shows-or_else true x y v w p q = p refl
Shows-or_else false x y v w p q = q

view-handle_event :
    (rt : RuntimeState) (code : ℕ) (rest : List ℕ)
    → HasFields (code ∷ rest)
    → Shows (handle_event rt code (code ∷ rest)) (spec_packet (code ∷ rest) (view rt))
unfolding handle_event
view-handle_event rt code (_ ∷ lo ∷ hi ∷ rest) fields =
    Shows-or_else (code == as_u8 att_event_connected) _ _ _ _
      (λ is. (record rt { connected_handle = some (from_le_bytes lo hi) }, refl, refl))
      (view-other_event rt code)
view-handle_event rt code [] fields =
    Shows-or_else (code == as_u8 att_event_connected) _ _ _ _ (λ is. ground arith)
      (view-other_event rt code)
view-handle_event rt code (_ ∷ []) fields =
    Shows-or_else (code == as_u8 att_event_connected) _ _ _ _ (λ is. ground arith)
      (view-other_event rt code)
view-handle_event rt code (_ ∷ _ ∷ []) fields =
    Shows-or_else (code == as_u8 att_event_connected) _ _ _ _ (λ is. ground arith)
      (view-other_event rt code)

-- The same of the state that a whole callback leaves.
abbrev Leaves : Option (Option RuntimeState) → View → Type 0
Leaves o w = (rt' : RuntimeState) × (o ≡ some (some rt')) × (view rt' ≡ w)

view-event_at :
    (rt : RuntimeState) (data_ : List ℕ)
    → HasFields data_
    → Leaves (event_at rt data_) (spec_packet data_ (view rt))
view-event_at rt [] fields = absurd fields
view-event_at rt (code ∷ rest) fields =
    let (rt', returns, shown) = view-handle_event rt code rest fields in
    (rt', unfold event_at in rw (returns, event_at) refl, shown)

Leaves-packet :
    (b : Bool) (x : Option (Option RuntimeState)) (rt : RuntimeState) (v : View)
    → (b ≡ true → Leaves x v)
    → Leaves (if b then x else some (some rt)) (if b then v else view rt)
Leaves-packet true x rt v p = p refl
Leaves-packet false x rt v p = (rt, refl, refl)

sound_fields :
    (packet_type : ℕ) (data_ : List ℕ)
    → (packet_type == as_u8 hci_event_packet) ≡ true
    → IsSound (packet packet_type (some data_))
    → HasFields data_
sound_fields packet_type data_ event (inl other) = ground arith
sound_fields packet_type data_ event (inr fields) = fields

-- One call of BTstack.
view-callback :
    (rt : RuntimeState) (e : Event)
    → IsSound e
    → Leaves (callback e (some rt)) (spec_step (profile rt) e (view rt))
view-callback rt (packet packet_type none) sound = (rt, unfold packet_handler in refl, refl)
view-callback rt (packet packet_type (some data_)) sound =
    unfold packet_handler in
    Leaves-packet (packet_type == as_u8 hci_event_packet) _ rt _
      (λ event. view-event_at rt data_ (sound_fields packet_type data_ event sound))
view-callback rt (write h offset none size) sound = (rt, unfold att_write_callback in refl, refl)
view-callback rt (write h offset (some buffer) size) sound =
    let (rt', returns, shown) = view-write_runtime rt h offset buffer size sound in
    (rt', ap state_of (att_write_callback-some rt rt' h offset buffer size returns), shown)

Leaves-view :
    (rt : RuntimeState) (o : Option (Option RuntimeState)) (w : View)
    → o ≡ some (some rt)
    → Leaves o w
    → view rt ≡ w
Leaves-view rt o w e (rt', e', shown) =
    let same : rt ≡ rt' =
      some-injective rt rt' (some-injective (some rt) (some rt') (sym e ∙ e')) in
    ap view same ∙ shown

writable_of-if :
    (b : Bool) (ch : RuntimeCharacteristic) (o : Option RuntimeCharacteristic)
    → (b ≡ true → writable_of o ≡ writable_of (some ch))
    → writable_of (if b then some ch else o) ≡ writable_of o
writable_of-if true ch o h = sym (h refl)
writable_of-if false ch o h = refl

writable_of-insert :
    (chars : Dict RuntimeCharacteristic) (h : ℕ) (ch : RuntimeCharacteristic) (value : List ℕ)
    → lookup h chars ≡ some ch
    → (k : ℕ)
    → writable_of (lookup k (insert h (record ch { value = value }) chars))
      ≡ writable_of (lookup k chars)
writable_of-insert chars h ch value found k =
    let ch' : RuntimeCharacteristic = record ch { value = value } in
    ap writable_of (lookup-insert h k ch' chars)
    ∙ writable_of-if (h == k) ch' (lookup k chars) (λ same.
      let key : h ≡ k = ground arith in ap writable_of (ap (λ i. lookup i chars) (sym key) ∙ found))

-- No step changes the profile.
Step-profile : (rt rt' : RuntimeState) (e : Event) → Step rt e rt' → profile rt' ≡ profile rt
Step-profile rt rt' e stay = refl
Step-profile rt rt' e (subscribe h v b ccc _) = refl
Step-profile rt rt' e (store h ch value found _) =
    ap (λ f. record (profile rt) { writable = f })
      (fun_ext λ k. writable_of-insert rt.characteristics_by_value_handle h ch value found k)
Step-profile rt rt' e (connect c) = refl
Step-profile rt rt' e disconnect = refl

-- Whatever packets and writes BTstack passes to the callbacks, in any order, if each event packet holds
-- its code, each ATT_EVENT_CONNECTED its handle, and each buffer is as long as its size: every call
-- returns, and what a client can tell of the state afterwards (each byte of each value, each
-- notification flag, the connection) is what the abstract server says.
pub run-spec_run :
    (rt : RuntimeState) (events : List Event)
    → AllSound events
    → (rt' : RuntimeState) × (run events (some rt) ≡ some (some rt'))
      × (view rt' ≡ spec_run (profile rt) events (view rt))
run-spec_run rt [] sound = (rt, unfold run in refl, unfold spec_run in refl)
run-spec_run rt (e ∷ events) (sound, all) =
    let (rt₁, once, s) = callback-Step rt e sound in
    let (rt', rest, shown) = run-spec_run rt₁ events all in
    (
      rt',
      run-cons rt rt₁ e events once ∙ rest,
      shown
          ∙ ap₂ (λ p w. spec_run p events w) (Step-profile rt rt₁ e s)
              (Leaves-view rt₁ _ _ once (view-callback rt e sound))
          ∙ unfold spec_run in refl,
    )
