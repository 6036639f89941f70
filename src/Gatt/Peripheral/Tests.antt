-- ===== src/Gatt/Peripheral/Tests.antt =====
-- The theorems about the server, at the one of Samples.
use btstack_rs.Common.{
  replicate, length-replicate, subst, get_elem?, ap, ◌∙◌, ℕ, ◌≡◌, ◌≢◌, refl, true, false, none,
  some, List, [], ◌∷◌, ◌++◌, take, pos, arith, All, inl, inr,
}
use btstack_rs.Common.Dict.{lookup, insert}
use btstack_rs.Common.Dict.Every.{Every, Distinct}
use btstack_rs.Gatt.Peripheral.Types.{read, notify, bitor, contains, RuntimeState, ok}
use btstack_rs.Gatt.Peripheral.Valid.{IsValid}
use btstack_rs.Gatt.Peripheral.Resolve.{
  resolve_service_handle_range, resolve_value_handle, resolve_ccc_handle, resolve_ccc,
  resolve_characteristic, resolve_service, resolve_services, resolve_characteristics,
}
use btstack_rs.Gatt.Peripheral.Resolve.Handles.{IsResolved}
use btstack_rs.Gatt.Peripheral.Resolve.Entries.{latest, IsCovered}
use btstack_rs.Gatt.Peripheral.Resolve.Complete.{resolve_characteristics-latest}
use btstack_rs.Gatt.Peripheral.Server.{fill_ccc, new_state, finish_new, new}
use btstack_rs.Gatt.Peripheral.Server.Life.{IsFresh, new-IsValid}
use btstack_rs.Gatt.Peripheral.Callbacks.{att_write_callback, att_read_callback, is_writable}
use btstack_rs.Gatt.Peripheral.Callbacks.Write.{IsSpliced, att_read_callback-att_write_callback}
use btstack_rs.Gatt.Peripheral.Callbacks.Events.{packet, Event, run}
use btstack_rs.Gatt.Peripheral.Server.Advertising
use btstack_rs.Gatt.Peripheral.Server.Lifecycle
use btstack_rs.Gatt.Peripheral.Callbacks.Subscriptions.{AllQuiet, IsOff, run-disconnected}
use btstack_rs.Gatt.Peripheral.Server.Initial.{initial_profile, initial_view, HasOwners}
use btstack_rs.Gatt.Peripheral.Server.Construction.{new-spec_run}
use btstack_rs.Gatt.Peripheral.Callbacks.Abstract.{profile, view, spec_run}
use btstack_rs.Gatt.Peripheral.Callbacks.Refinement.{run-spec_run}
use btstack_rs.Gatt.Peripheral.Callbacks.Read.{IsLength, get_elem?-IsLength, att_read_callback-view}
use btstack_rs.Gatt.Peripheral.Callbacks.Invariant.{AllSound, run-IsValid, IsKept}
use btstack_rs.Gatt.Peripheral.Samples.{
  bt, in_order, counter_spec, services, spec, counter, name, by_handle, rt,
}

resolved : resolve_characteristics bt services ≡ ok by_handle
unfolding resolve_characteristics resolve_services resolve_service resolve_characteristic
    resolve_ccc resolve_ccc_handle resolve_value_handle resolve_service_handle_range contains insert
resolved = refl

installed : (new bt in_order.entries spec none).0 ≡ some rt
unfolding new finish_new new_state fill_ccc resolve_characteristics resolve_services resolve_service
    resolve_characteristic resolve_ccc resolve_ccc_handle resolve_value_handle
    resolve_service_handle_range contains insert
installed = refl

flags_joined : bitor read notify ≡ counter_spec.properties
unfolding bitor
flags_joined = refl

resolve_characteristics-latest_example :
    ((h : ℕ) → lookup h by_handle ≡ latest bt h services)
    × All (IsCovered bt by_handle) services
    × Every IsResolved by_handle
    × Distinct by_handle
resolve_characteristics-latest_example =
    resolve_characteristics-latest bt services by_handle resolved

new-IsValid_example : IsValid rt × IsFresh spec rt
new-IsValid_example = new-IsValid in_order bt spec rt installed

ccc_found : lookup 11 rt.ccc_to_value_handle ≡ some 10
unfolding lookup
ccc_found = refl

no_ccc : (lookup 20 rt.ccc_to_value_handle ≡ none) × (lookup 10 rt.ccc_to_value_handle ≡ none)
unfolding lookup
no_ccc = (refl, refl)

both_found : (lookup 20 by_handle ≡ some name) × (lookup 10 by_handle ≡ some counter)
unfolding lookup
both_found = (refl, refl)

writable : (is_writable name ≡ true) × (is_writable counter ≡ false)
unfolding contains
writable = (refl, refl)

att_read_callback-att_write_callback_example :
    (rt' : RuntimeState) × (att_write_callback (some rt) 20 2 (some (8 ∷ 9 ∷ [])) 2
      ≡ some (some rt', pos 0))
    × (att_read_callback bt (some rt') 20 2 (some 2) ≡ (2, take 2 (8 ∷ 9 ∷ [])))
    × ((k : ℕ)
        → k ≢ 20
        → lookup k rt'.characteristics_by_value_handle
          ≡ lookup k rt.characteristics_by_value_handle)
    × ((value : List ℕ) × (lookup 20 rt'.characteristics_by_value_handle
          ≡ some (record name { value = value }))
        × IsSpliced name.value 2 2 (8 ∷ 9 ∷ []) value)
    × (record rt' { characteristics_by_value_handle = rt.characteristics_by_value_handle } ≡ rt)
att_read_callback-att_write_callback_example =
    att_read_callback-att_write_callback bt rt 20 2 (8 ∷ 9 ∷ []) 2 name no_ccc.0 both_found.0
      writable.0 (ground arith) (ground arith) (ground arith)

-- A client connects, subscribes and leaves.
abbrev visit : List Event
visit =
    packet 4 (some (110 ∷ 0 ∷ []))
    ∷ packet 4 (some (179 ∷ 9 ∷ 64 ∷ 0 ∷ []))
    ∷ Event.write 11 0 (some (1 ∷ 0 ∷ [])) 2
    ∷ packet 4 (some (180 ∷ 2 ∷ 64 ∷ 0 ∷ []))
    ∷ []

visit-AllSound : AllSound visit
visit-AllSound = (
  inr (inl (ground arith)),
  (inr (inr (ground arith)), (ground arith, (inr (inl (ground arith)), tt))),
)

run-IsValid_example :
    (rt' : RuntimeState) × (run visit (some rt) ≡ some (some rt')) × IsValid rt' × IsKept rt rt'
run-IsValid_example = run-IsValid rt visit visit-AllSound new-IsValid_example.0

-- After leaving, the client connects again and writes to the name.
abbrev return_ : List Event
return_ = packet 4 (some (179 ∷ 9 ∷ 64 ∷ 0 ∷ [])) ∷ Event.write 20 0 (some (1 ∷ 0 ∷ [])) 2 ∷ []

not_its_ccc : lookup 20 rt.ccc_to_value_handle ≢ some 10
unfolding lookup
not_its_ccc e = ground arith

return-AllQuiet : AllQuiet rt.ccc_to_value_handle 10 return_
return-AllQuiet = (
  λ h found asks. asks,
  (λ h found asks. not_its_ccc (ap (λ i. lookup i rt.ccc_to_value_handle) asks.0 ∙ found), tt),
)

run-disconnected_example :
    (rt' : RuntimeState) × (run (packet 4 (some (180 ∷ 2 ∷ 64 ∷ 0 ∷ [])) ∷ return_) (some rt)
      ≡ some (some rt'))
    × IsOff rt' 10
run-disconnected_example =
    run-disconnected rt 10 (2 ∷ 64 ∷ 0 ∷ []) return_ (inr (inr (ground arith)), (ground arith, tt))
      return-AllQuiet

-- Advertising is asked for, a client subscribes before the update has run, and it runs twice.
advertising_settles_example :
    (rt' : RuntimeState) × (Advertising.run
        ((Advertising.asks false ∷ Advertising.updates ∷ [])
          ++ (Advertising.asks true
              ∷ Advertising.calls (Event.write 11 0 (some (1 ∷ 0 ∷ [])) 2)
              ∷ Advertising.updates
              ∷ Advertising.updates
              ∷ []))
        (Advertising.with_runtime rt true)
      ≡ some (Advertising.with_runtime rt' true))
advertising_settles_example =
    Advertising.advertising_settles (Advertising.asks false ∷ Advertising.updates ∷ [])
      (Advertising.calls (Event.write 11 0 (some (1 ∷ 0 ∷ [])) 2)
        ∷ Advertising.updates
        ∷ Advertising.updates
        ∷ [])
      true rt true tt (ground arith, tt) tt tt

run-spec_run_example :
    (rt' : RuntimeState) × (run visit (some rt) ≡ some (some rt'))
    × (view rt' ≡ spec_run (profile rt) visit (view rt))
run-spec_run_example = run-spec_run rt visit visit-AllSound

one_owner : HasOwners by_handle
unfolding lookup
one_owner v v' ccc (ch, there, own) (ch', there', own') = ground arith

new-spec_run_example :
    ((new bt in_order.entries spec none).1 ≡ ok tt)
    × ((rt' : RuntimeState) × (run visit (new bt in_order.entries spec none).0 ≡ some (some rt'))
        × (view rt' ≡ spec_run (initial_profile by_handle) visit (initial_view by_handle)))
new-spec_run_example =
    new-spec_run in_order bt spec by_handle visit resolved one_owner visit-AllSound

-- A value that writes have made longer than a 16-bit length can say.
abbrev long_rt : RuntimeState
long_rt = record rt {
  characteristics_by_value_handle = (20, record name { value = replicate 65537 0 }) ∷ [];
}

long_bytes : IsLength ((view long_rt).byte 20) 65537
unfolding lookup
long_bytes =
    subst (IsLength (get_elem? (replicate 65537 0))) (length-replicate {A = ℕ} 65537 0)
      (get_elem?-IsLength (replicate 65537 0))

att_read_callback-view_example :
    (get_elem? (att_read_callback bt (some long_rt) 20 1 (some 8)).1 0 ≡ none)
    × ((att_read_callback bt (some long_rt) 20 1 none).0 ≡ 1)
att_read_callback-view_example = att_read_callback-view bt long_rt 20 1 8 0 65537 long_bytes

-- A server is constructed and advertises; a client subscribes; the server is dropped before an update
-- that is still to come.
run-drops_example :
    (s : Advertising.System) × (Lifecycle.run in_order bt
        (Lifecycle.constructs spec
          ∷ Lifecycle.starts
          ∷ Lifecycle.updates
          ∷ Lifecycle.calls (Event.write 11 0 (some (1 ∷ 0 ∷ [])) 2)
          ∷ [])
        Lifecycle.nothing
      ≡ some s)
    × Lifecycle.IsLegal s.runtime
    × (Lifecycle.run in_order bt
          ((Lifecycle.constructs spec
              ∷ Lifecycle.starts
              ∷ Lifecycle.updates
              ∷ Lifecycle.calls (Event.write 11 0 (some (1 ∷ 0 ∷ [])) 2)
              ∷ [])
            ++ Lifecycle.drops
              ∷ Lifecycle.updates
              ∷ Lifecycle.calls (Event.write 11 0 (some (1 ∷ [])) 2)
              ∷ [])
          Lifecycle.nothing
        ≡ some Lifecycle.nothing)
run-drops_example =
    Lifecycle.run-drops in_order bt
      (Lifecycle.constructs spec
        ∷ Lifecycle.starts
        ∷ Lifecycle.updates
        ∷ Lifecycle.calls (Event.write 11 0 (some (1 ∷ 0 ∷ [])) 2)
        ∷ [])
      (Lifecycle.updates ∷ Lifecycle.calls (Event.write 11 0 (some (1 ∷ [])) 2) ∷ [])
      (ground arith, tt) tt
