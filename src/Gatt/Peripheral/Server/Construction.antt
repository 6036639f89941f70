-- ===== src/Gatt/Peripheral/Server/Construction.antt =====
-- The server from its construction on: `new` and the callbacks of btstack-gatt/src/peripheral.rs
-- together, against the abstract server.
use mathlib.Core.Path.{fun_ext}
use mathlib.Core.Option.{some-injective}
use btstack_rs.Common.{
  ℕ, ◌≡◌, ◌≢◌, ◌∙◌, refl, ap, ap₂, Bool, false, Option, none, some, List, [], get_elem?, arith, inl,
  inr, Option-cases,
}
use btstack_rs.Common.Dict.{Dict, lookup}
use btstack_rs.Common.Dict.Every.{Every, Distinct, Every-lookup, Distinct-Every}
use btstack_rs.Gatt.Peripheral.Types.{
  ok, AdvertisingConfig, PeripheralSpec, RuntimeCharacteristic, RuntimeState,
}
use btstack_rs.Gatt.Peripheral.Btstack.{Btstack}
use btstack_rs.Gatt.Peripheral.Valid.{Iteration, IsCccOf}
use btstack_rs.Gatt.Peripheral.Resolve.{resolve_characteristics}
use btstack_rs.Gatt.Peripheral.Resolve.Handles.{IsResolved, resolve_characteristics-ok}
use btstack_rs.Gatt.Peripheral.Server.{new_state, finish_new, new}
use btstack_rs.Gatt.Peripheral.Server.Life.{tables, tables-Filled, new_state-IsFresh}
use btstack_rs.Gatt.Peripheral.Server.Initial.{
  initial_flag, initial_byte, find_owner, initial_view, initial_profile, HasOwners,
  find_owner-IsCccOf, find_owner-Every, fill_ccc-Every, same_owner,
}
use btstack_rs.Gatt.Peripheral.Callbacks.Abstract.{byte_of, writable_of, profile, view, spec_run}
use btstack_rs.Gatt.Peripheral.Callbacks.Events.{Event, run}
use btstack_rs.Gatt.Peripheral.Callbacks.Invariant.{AllSound}
use btstack_rs.Gatt.Peripheral.Callbacks.Refinement.{run-spec_run}

byte_of-initial_byte :
    (o : Option RuntimeCharacteristic) (i : ℕ)
    → ((ch : RuntimeCharacteristic) → o ≡ some ch → ch.value ≡ ch.spec.initial_value)
    → byte_of o i ≡ initial_byte o i
byte_of-initial_byte none i h = refl
byte_of-initial_byte (some ch) i h = ap (λ v. get_elem? v i) (h ch refl)

-- A flag table that is off throughout, and has a flag exactly for a characteristic with a CCC.
flag-initial_flag :
    (f : Option Bool) (o : Option RuntimeCharacteristic)
    → ((b : Bool)
        → f ≡ some b
        → (b ≡ false)
          × ((ch : RuntimeCharacteristic) × (ccc : ℕ) × (o ≡ some ch) × (ch.ccc_handle ≡ some ccc)))
    → ((ch : RuntimeCharacteristic) (ccc : ℕ)
        → o ≡ some ch
        → ch.ccc_handle ≡ some ccc
        → f ≡ some false)
    → f ≡ initial_flag o
flag-initial_flag none none off on = refl
flag-initial_flag none (some ch) off on = elim (Option-cases ch.ccc_handle) [
  | inl without ↦ rw without refl
  | inr (ccc, with_) ↦ absurd (ground (arith, on ch ccc refl with_))
]
flag-initial_flag (some b) none off on =
    let (_, (_, _, there, _)) = off b refl in absurd (ground (arith, there))
flag-initial_flag (some b) (some ch) off on =
    let (off_, (ch', ccc, there, own)) = off b refl in
    let with_ : ch.ccc_handle ≡ some ccc =
      ap (λ c. c.ccc_handle) (some-injective ch ch' there) ∙ own in
    rw with_ (ap some off_)

module _ (it : Iteration) (m : Dict RuntimeCharacteristic) where
  lookup-find_owner :
      (ccc : ℕ) → Distinct m → HasOwners m → lookup ccc (tables it m).0 ≡ find_owner ccc m
  unfolding tables
  lookup-find_owner ccc once one =
      same_owner (λ v. IsCccOf m v ccc) (lookup ccc (tables it m).0) (find_owner ccc m)
        (λ v v' own own'. one v v' ccc own own')
        (λ v found. ((tables-Filled it m once).sound ccc v found).0)
        (λ v found. find_owner-IsCccOf m m ccc v (Distinct-Every m once) found)
        (λ v (ch, there, own) missing.
          Every-lookup (λ h c. c.ccc_handle ≢ some ccc) (it.entries m) v ch
            (fill_ccc-Every (it.entries m) [] [] ccc missing) (it.lookup-entries v m ∙ there) own)
        (λ v (ch, there, own) missing.
          Every-lookup (λ h c. c.ccc_handle ≢ some ccc) m v ch (find_owner-Every m ccc missing)
            there own)

  profile-new_state :
      (a : AdvertisingConfig)
      → Distinct m
      → HasOwners m
      → profile (new_state m (it.entries m) a) ≡ initial_profile m
  unfolding new_state tables
  profile-new_state a once one =
      ap (λ f. record { owner = f; writable = λ h. writable_of (lookup h m) })
        (fun_ext λ ccc. lookup-find_owner ccc once one)

  view-new_state :
      (spec : PeripheralSpec)
      → Every IsResolved m
      → Distinct m
      → view (new_state m (it.entries m) spec.advertising) ≡ initial_view m
  unfolding new_state tables
  view-new_state spec all once =
      let fresh = new_state-IsFresh it m spec all once in
      let filled = tables-Filled it m once in
      ap₂ (λ f g. record { byte = f; notifies = g; connected = none })
        (fun_ext
          λ h. fun_ext λ i. byte_of-initial_byte (lookup h m) i (λ ch e. fresh.initial h ch e))
        (fun_ext λ v.
          flag-initial_flag (lookup v (tables it m).1) (lookup v m)
            (λ b set.
              (let (off, (ccc, (ch, there, own))) = filled.off v b set in
                (off, (ch, ccc, there, own))))
            (λ ch ccc there own. fresh.flagged v ch there ccc own))

-- From the construction on, for every specification whose characteristics resolve to `m`, no two of
-- them with one CCC handle, and whatever order the hash map is iterated in: `new` succeeds, every
-- sequence of packets and writes that follows returns, if each event packet holds its code, each
-- ATT_EVENT_CONNECTED its handle, and each buffer is as long as its size, and what a client can tell of the state is what
-- the abstract server says, started with the initial value at each handle, every flag off and no
-- connection.
pub new-spec_run :
    (it : Iteration) (𝓑 : Btstack) (spec : PeripheralSpec) (m : Dict RuntimeCharacteristic)
    (events : List Event)
    → resolve_characteristics 𝓑 spec.services ≡ ok m
    → HasOwners m
    → AllSound events
    → ((new 𝓑 it.entries spec none).1 ≡ ok tt)
      × ((rt : RuntimeState) × (run events (new 𝓑 it.entries spec none).0 ≡ some (some rt))
          × (view rt ≡ spec_run (initial_profile m) events (initial_view m)))
unfolding new finish_new
new-spec_run it 𝓑 spec m events resolved one sound =
    let (all, once) = resolve_characteristics-ok 𝓑 spec.services m resolved in
    let start : RuntimeState = new_state m (it.entries m) spec.advertising in
    let (rt, ran, shown) = run-spec_run start events sound in
    (
      ap (λ r. (finish_new 𝓑 it.entries spec r).1) resolved,
      (
        rt,
        ap (λ r. run events (finish_new 𝓑 it.entries spec r).0) resolved ∙ ran,
        shown
            ∙ ap₂ (λ p w. spec_run p events w) (profile-new_state it m spec.advertising once one)
                (view-new_state it m spec all once),
      ),
    )
