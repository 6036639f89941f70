-- ===== src/Gatt/Peripheral/Callbacks/Events.antt =====
-- The callbacks as steps of a state machine, and what every sequence of them keeps.
use btstack_rs.Common.{
  leb→le, ◌*◌, ◌+◌, ℕ, ◌%◌, ◌≡◌, ◌≢◌, ◌⊎◌, sym, refl, ap, subst, Bool, true, false, not, Option,
  none, some, List, [], ◌∷◌, arith, ◌==◌, leb, if◌then◌else◌, length, ◌≤◌, ℤ, Option-cases,
  Bool-cases, inl, inr, as_u8, from_le_bytes,
}
use btstack_rs.Common.Dict.{lookup, insert, map_values}
use btstack_rs.Sys.{att_event_connected, att_event_disconnected, hci_event_packet}
use btstack_rs.Gatt.Peripheral.Types.{RuntimeCharacteristic, RuntimeState}
use btstack_rs.Gatt.Peripheral.Callbacks.{
  overwrite, is_writable, write_ccc, with_value, write_value, write_runtime, att_write_callback,
  handle_event, event_at, packet_handler, read_bytes,
}
use btstack_rs.Gatt.Peripheral.Callbacks.Write.{
  write_runtime-ccc, write_runtime-value, write_runtime-total, att_write_callback-some,
}

abbrev pub flagged : RuntimeState → ℕ → Bool → RuntimeState
flagged rt v b = record rt { notification_enabled = insert v b rt.notification_enabled }

abbrev pub disconnected : RuntimeState → RuntimeState
disconnected rt = record rt {
  connected_handle = none;
  notification_enabled = map_values (λ _. false) rt.notification_enabled;
}

-- One call of BTstack into the server.
pub data Event : Type 0 where
  packet : (packet_type : ℕ) (data_ : Option (List ℕ)) → Event
  write : (handle offset : ℕ) (buffer : Option (List ℕ)) (size : ℕ) → Event

-- The event is a write to `h` that asks for notifications, or for none.
abbrev pub Asks : Event → ℕ → Bool → Type 0
Asks (packet _ _) h b = ⊥
Asks (write _ _ none _) h b = ⊥
Asks (write _ _ (some []) _) h b = ⊥
Asks (write _ _ (some (_ ∷ [])) _) h b = ⊥
Asks (write handle _ (some (lo ∷ _ ∷ _)) size) h b =
    (handle ≡ h) × (2 ≤ size) × (b ≡ not (lo % 2 == 0))

-- What one callback can do to the state.
pub data Step (rt : RuntimeState) (e : Event) : RuntimeState → Type 0 where
  stay : Step rt e rt
  subscribe :
      (h v : ℕ) (b : Bool)
      → lookup h rt.ccc_to_value_handle ≡ some v
      → Asks e h b
      → Step rt e (flagged rt v b)
  store :
      (h : ℕ) (ch : RuntimeCharacteristic) (value : List ℕ)
      → lookup h rt.characteristics_by_value_handle ≡ some ch
      → is_writable ch ≡ true
      → Step rt e (with_value rt h ch value)
  connect : (c : ℕ) → Step rt e (record rt { connected_handle = some c })
  disconnect : Step rt e (disconnected rt)

-- The same of a handler's result; a fault goes nowhere.
abbrev pub StepTo : RuntimeState → Event → Option RuntimeState → Type 0
StepTo rt e none = Unit
StepTo rt e (some rt') = Step rt e rt'

StepTo-if :
    (rt : RuntimeState) (e : Event) (b : Bool) (x y : Option RuntimeState)
    → (b ≡ true → StepTo rt e x)
    → (b ≡ false → StepTo rt e y)
    → StepTo rt e (if b then x else y)
StepTo-if rt e true x y f g = f refl
StepTo-if rt e false x y f g = g refl

write_ccc-Step :
    (rt : RuntimeState) (h v offset : ℕ) (buffer : List ℕ) (size : ℕ)
    → lookup h rt.ccc_to_value_handle ≡ some v
    → StepTo rt (write h offset (some buffer) size) (write_ccc rt v buffer size)
unfolding write_ccc
write_ccc-Step rt h v offset [] size ccc =
    StepTo-if rt _ (leb 2 size) none (some rt) (λ _. tt) (λ _. stay)
write_ccc-Step rt h v offset (lo ∷ []) size ccc =
    StepTo-if rt _ (leb 2 size) none (some rt) (λ _. tt) (λ _. stay)
write_ccc-Step rt h v offset (lo ∷ hi ∷ rest) size ccc =
    let b : Bool = not (from_le_bytes lo hi % 2 == 0) in
    let even : (lo + 256 * hi) % 2 ≡ lo % 2 = omega arith in
    StepTo-if rt _ (leb 2 size) (some (flagged rt v b)) (some rt)
      (λ long. subscribe h v b ccc (refl, leb→le 2 size long, ap (λ n. not (n == 0)) even))
      (λ _. stay)

write_found-Step :
    (rt : RuntimeState) (e : Event) (h offset : ℕ) (ch : RuntimeCharacteristic)
    (o : Option (List ℕ))
    → lookup h rt.characteristics_by_value_handle ≡ some ch
    → is_writable ch ≡ true
    → StepTo rt e (elim o [
      | none ↦ none
      | some bytes ↦ some (with_value rt h ch (overwrite ch.value offset bytes))
    ])
write_found-Step rt e h offset ch none found open_ = tt
write_found-Step rt e h offset ch (some bytes) found open_ =
    store h ch (overwrite ch.value offset bytes) found open_

write_value-Step :
    (rt : RuntimeState) (e : Event) (h offset : ℕ) (buffer : List ℕ) (size : ℕ)
    (o : Option RuntimeCharacteristic)
    → lookup h rt.characteristics_by_value_handle ≡ o
    → StepTo rt e (write_value rt h offset buffer size o)
unfolding write_value
write_value-Step rt e h offset buffer size none found = stay
write_value-Step rt e h offset buffer size (some ch) found =
    StepTo-if rt e (is_writable ch) _ (some rt)
      (λ open_. write_found-Step rt e h offset ch (read_bytes buffer size) found open_) (λ _. stay)

write_runtime-Step :
    (rt : RuntimeState) (h offset : ℕ) (buffer : List ℕ) (size : ℕ)
    → StepTo rt (write h offset (some buffer) size) (write_runtime rt h offset buffer size)
write_runtime-Step rt h offset buffer size =
    let e : Event = write h offset (some buffer) size in
    elim (Option-cases (lookup h rt.ccc_to_value_handle)) [
      | inl other ↦ subst (StepTo rt e) (sym (write_runtime-value rt h offset buffer size other)) (
          write_value-Step rt e h offset buffer size (lookup h rt.characteristics_by_value_handle)
            refl)
      | inr (v, ccc) ↦
          subst (StepTo rt e) (sym (write_runtime-ccc rt h offset buffer size v ccc))
            (write_ccc-Step rt h v offset buffer size ccc)
    ]

abbrev pub state_of : Option (Option RuntimeState × ℤ) → Option (Option RuntimeState)
state_of none = none
state_of (some (runtime, _)) = some runtime

abbrev pub callback : Event → Option RuntimeState → Option (Option RuntimeState)
callback (packet packet_type data_) runtime = packet_handler runtime packet_type data_
callback (write handle offset buffer size) runtime =
    state_of (att_write_callback runtime handle offset buffer size)

unfoldable pub run : List Event → Option RuntimeState → Option (Option RuntimeState)
run [] runtime = some runtime
run (e ∷ events) runtime = elim (callback e runtime) [
  | none ↦ none
  | some runtime' ↦ run events runtime'
]

-- An event packet holds its code, and one with the code ATT_EVENT_CONNECTED its connection handle, at
-- bytes 2 and 3.
abbrev pub HasFields : List ℕ → Type 0
HasFields [] = ⊥
HasFields (code ∷ rest) = (code ≢ as_u8 att_event_connected) ⊎ (3 ≤ length rest)

-- What BTstack passes: event packets with their fields, other packets of any length, and a buffer as
-- long as its size says.
abbrev pub IsSound : Event → Type 0
IsSound (packet packet_type none) = Unit
IsSound (packet packet_type (some data_)) = (packet_type ≢ as_u8 hci_event_packet) ⊎ HasFields data_
IsSound (write handle offset none size) = Unit
IsSound (write handle offset (some buffer) size) = size ≤ length buffer

other_event-Step :
    (rt : RuntimeState) (e : Event) (code : ℕ) (rest : List ℕ)
    → (code == as_u8 att_event_connected) ≡ false
    → (rt' : RuntimeState) × (handle_event rt code (code ∷ rest) ≡ some rt') × Step rt e rt'
unfolding handle_event
other_event-Step rt e code rest other = elim (Bool-cases (code == as_u8 att_event_disconnected)) [
  | inl gone ↦ (disconnected rt, rw (other, gone) refl, disconnect)
  | inr ignored ↦ (rt, rw (other, ignored) refl, stay)
]

connected-Step :
    (rt : RuntimeState) (e : Event) (code : ℕ) (rest : List ℕ)
    → (code == as_u8 att_event_connected) ≡ true
    → 3 ≤ length rest
    → (rt' : RuntimeState) × (handle_event rt code (code ∷ rest) ≡ some rt') × Step rt e rt'
unfolding handle_event
connected-Step rt e code [] is long = ground arith
connected-Step rt e code (_ ∷ []) is long = ground arith
connected-Step rt e code (_ ∷ _ ∷ []) is long = ground arith
connected-Step rt e code (_ ∷ lo ∷ hi ∷ rest) is long = (
  record rt { connected_handle = some (from_le_bytes lo hi) },
  rw is refl,
  connect (from_le_bytes lo hi),
)

handle_event-Step :
    (rt : RuntimeState) (e : Event) (code : ℕ) (rest : List ℕ)
    → HasFields (code ∷ rest)
    → (rt' : RuntimeState) × (handle_event rt code (code ∷ rest) ≡ some rt') × Step rt e rt'
handle_event-Step rt e code rest fields = elim (Bool-cases (code == as_u8 att_event_connected)) [
  | inl is ↦ connected-Step rt e code rest is (ground arith)
  | inr other ↦ other_event-Step rt e code rest other
]

event_at-Step :
    (rt : RuntimeState) (e : Event) (data_ : List ℕ)
    → HasFields data_
    → (rt' : RuntimeState) × (event_at rt data_ ≡ some (some rt')) × Step rt e rt'
event_at-Step rt e [] fields = absurd fields
event_at-Step rt e (code ∷ rest) fields =
    let (rt', eq, s) = handle_event-Step rt e code rest fields in
    (rt', unfold event_at in rw (eq, event_at) refl, s)

packet_handler-Step :
    (rt : RuntimeState) (e : Event) (packet_type : ℕ) (data_ : List ℕ)
    → IsSound (packet packet_type (some data_))
    → (rt' : RuntimeState) × (packet_handler (some rt) packet_type (some data_) ≡ some (some rt'))
      × Step rt e rt'
unfolding packet_handler
packet_handler-Step rt e packet_type data_ (inl other) = (rt, ground arith, stay)
packet_handler-Step rt e packet_type data_ (inr fields) =
    elim (Bool-cases (packet_type == as_u8 hci_event_packet)) [
      | inl event ↦ let (rt', eq, s) = event_at-Step rt e data_ fields in (rt', rw event eq, s)
      | inr other ↦ (rt, rw other refl, stay)
    ]

-- Each such call returns, and its effect on the state is a step.
pub callback-Step :
    (rt : RuntimeState) (e : Event)
    → IsSound e
    → (rt' : RuntimeState) × (callback e (some rt) ≡ some (some rt')) × Step rt e rt'
callback-Step rt (packet packet_type none) sound = (rt, unfold packet_handler in refl, stay)
callback-Step rt (packet packet_type (some data_)) sound =
    packet_handler-Step rt (packet packet_type (some data_)) packet_type data_ sound
callback-Step rt (write handle offset none size) sound =
    (rt, unfold att_write_callback in refl, stay)
callback-Step rt (write handle offset (some buffer) size) sound =
    let (rt', e) = write_runtime-total rt handle offset buffer size sound in
    (
      rt',
      ap state_of (att_write_callback-some rt rt' handle offset buffer size e),
      subst (StepTo rt (write handle offset (some buffer) size)) e
          (write_runtime-Step rt handle offset buffer size),
    )
