-- ===== src/Gatt/Peripheral/Server/Life.antt =====
-- The life of the server: what `new` leaves behind, a second `new`, advertising.
use btstack_rs.Common.{
  ℕ, ◌≡◌, ◌≢◌, ◌<◌, ◌^◌, refl, subst, ◌∙◌, Bool, false, Option, none, some, [], ◌∷◌, arith, length,
  ◌⊎◌, inl, inr,
}
use btstack_rs.Common.Dict.{Dict, lookup}
use btstack_rs.Common.Dict.Every.{Every, Distinct, Every-lookup, Distinct-Every}
use btstack_rs.Gatt.Peripheral.Types.{
  server_already_initialized, Result, ok, err, AdvertisingConfig, PeripheralSpec,
  RuntimeCharacteristic, RuntimeState,
}
use btstack_rs.Gatt.Peripheral.Btstack.{
  Btstack, execute_on_main_thread, set_params, set_data, enable,
}
use btstack_rs.Gatt.Peripheral.Valid.{Iteration, IsValid}
use btstack_rs.Gatt.Peripheral.Resolve.{resolve_characteristics}
use btstack_rs.Gatt.Peripheral.Resolve.Handles.{IsResolved, resolve_characteristics-ok}
use btstack_rs.Gatt.Peripheral.Server.{
  fill_ccc, event_cb, advertising_cb, new_state, finish_new, new, set_advertising,
  start_advertising, stop, run_loop_advertising_update,
}
use btstack_rs.Gatt.Peripheral.Server.Ccc.{
  Filled, Filled-empty, fill_ccc-Filled, IsFlagged, fill_ccc-IsFlagged,
}

-- No connection, every flag off, and one for each characteristic with a CCC.
pub record IsFresh (spec : PeripheralSpec) (rt : RuntimeState) : Type 0 where
  pub unconnected : rt.connected_handle ≡ none
  pub silent : rt.advertising_enabled ≡ false
  pub configured : rt.advertising ≡ spec.advertising
  pub registered : (rt.hci_event_cb ≡ event_cb) × (rt.run_loop_callback ≡ advertising_cb)
  pub off : (v : ℕ) (b : Bool) → lookup v rt.notification_enabled ≡ some b → b ≡ false
  pub flagged :
      (v : ℕ) (ch : RuntimeCharacteristic)
      → lookup v rt.characteristics_by_value_handle ≡ some ch
      → IsFlagged rt.notification_enabled v ch
  pub initial :
      (v : ℕ) (ch : RuntimeCharacteristic)
      → lookup v rt.characteristics_by_value_handle ≡ some ch
      → ch.value ≡ ch.spec.initial_value

module _ (it : Iteration) where
  unfoldable pub tables : Dict RuntimeCharacteristic → Dict ℕ × Dict Bool
  tables m = fill_ccc (it.entries m) ([], [])

  pub tables-Filled :
      (m : Dict RuntimeCharacteristic) → Distinct m → Filled m (tables m).0 (tables m).1
  unfolding tables
  tables-Filled m once =
      fill_ccc-Filled m (it.entries m) [] []
        (it.Every-entries (λ h ch. lookup h m ≡ some ch) m (Distinct-Every m once)) (Filled-empty m)

  new_state-IsValid :
      (m : Dict RuntimeCharacteristic) (a : AdvertisingConfig)
      → Every IsResolved m
      → Distinct m
      → IsValid (new_state m (it.entries m) a)
  unfolding tables new_state
  new_state-IsValid m a all once =
      let filled = tables-Filled m once in
      record {
        handles = λ h ch e. let r = Every-lookup IsResolved m h ch all e in (r.0, r.1);
        cccs = λ ccc v e. let s = filled.sound ccc v e in (s.0, (false, s.1));
        flags = λ v b e. (filled.off v b e).1;
      }

  pub new_state-IsFresh :
      (m : Dict RuntimeCharacteristic) (spec : PeripheralSpec)
      → Every IsResolved m
      → Distinct m
      → IsFresh spec (new_state m (it.entries m) spec.advertising)
  unfolding tables new_state
  new_state-IsFresh m spec all once =
      let filled = tables-Filled m once in
      record {
        unconnected = refl;
        silent = refl;
        configured = refl;
        registered = (refl, refl);
        off = λ v b e. (filled.off v b e).0;
        flagged = λ v ch e.
            Every-lookup (IsFlagged (tables m).1) (it.entries m) v ch
              (fill_ccc-IsFlagged (it.entries m) [] []) (it.lookup-entries v m ∙ e);
        initial = λ v ch e. (let r = Every-lookup IsResolved m v ch all e in r.2);
      }

  finish_new-ok :
      (𝓑 : Btstack) (spec : PeripheralSpec) (r : Result (Dict RuntimeCharacteristic))
      (rt : RuntimeState)
      → (finish_new 𝓑 it.entries spec r).0 ≡ some rt
      → (m : Dict RuntimeCharacteristic) × (r ≡ ok m)
        × (new_state m (it.entries m) spec.advertising ≡ rt)
  unfolding finish_new
  finish_new-ok 𝓑 spec (ok m) rt e = (m, refl, ground arith)
  finish_new-ok 𝓑 spec (err x) rt e = ground arith

  -- Where `new` installs a state, its three maps agree with each other, nobody is connected, no
  -- notification is on though each characteristic with a CCC has its flag, each value is the
  -- initial one, and the advertising configuration is that of the specification.
  pub new-IsValid :
      (𝓑 : Btstack) (spec : PeripheralSpec) (rt : RuntimeState)
      → (new 𝓑 it.entries spec none).0 ≡ some rt
      → IsValid rt × IsFresh spec rt
  unfolding new
  new-IsValid 𝓑 spec rt e =
      let (m, resolved, made) =
        finish_new-ok 𝓑 spec (resolve_characteristics 𝓑 spec.services) rt e in
      let (all, once) = resolve_characteristics-ok 𝓑 spec.services m resolved in
      subst (λ s. IsValid s × IsFresh spec s) made
        (new_state-IsValid m spec.advertising all once, new_state-IsFresh m spec all once)

finish_new-cases :
    (𝓑 : Btstack) (order : Dict RuntimeCharacteristic → Dict RuntimeCharacteristic)
    (spec : PeripheralSpec) (r : Result (Dict RuntimeCharacteristic))
    → ((rt : RuntimeState) × ((finish_new 𝓑 order spec r).0 ≡ some rt)
        × ((finish_new 𝓑 order spec r).1 ≡ ok tt))
      ⊎ (((finish_new 𝓑 order spec r).0 ≡ none) × ((finish_new 𝓑 order spec r).1 ≢ ok tt))
unfolding finish_new
finish_new-cases 𝓑 order spec (ok m) = inl (new_state m (order m) spec.advertising, refl, refl)
finish_new-cases 𝓑 order spec (err e) = inr (refl, λ h. ground arith)

-- In every state, `new` either finds a server and does nothing but fail; or there is none, and it
-- installs a state exactly if it succeeds.
new-total :
    (𝓑 : Btstack) (order : Dict RuntimeCharacteristic → Dict RuntimeCharacteristic)
    (spec : PeripheralSpec) (runtime : Option RuntimeState)
    → ((rt : RuntimeState) × (runtime ≡ some rt)
        × (new 𝓑 order spec runtime ≡ (some rt, err server_already_initialized, [])))
      ⊎ ((runtime ≡ none)
          × (((rt : RuntimeState) × ((new 𝓑 order spec runtime).0 ≡ some rt)
                × ((new 𝓑 order spec runtime).1 ≡ ok tt))
              ⊎ (((new 𝓑 order spec runtime).0 ≡ none) × ((new 𝓑 order spec runtime).1 ≢ ok tt))))
unfolding new
new-total 𝓑 order spec (some rt) = inl (rt, refl, refl)
new-total 𝓑 order spec none =
    inr (refl, finish_new-cases 𝓑 order spec (resolve_characteristics 𝓑 spec.services))

-- The run loop's callback, after a start, gives BTstack the configured parameters and the whole
-- payload, if that is shorter than 256 bytes, and turns advertising on; after a stop it turns it off.
-- A stop takes a start back, and each of them schedules the callback once.
run_loop_advertising_update-start_advertising :
    (rt : RuntimeState)
    → rt.advertising_enabled ≡ false
    → length rt.advertising.payload < 2 ^ 8
    → (run_loop_advertising_update (start_advertising (some rt)).0
        ≡ set_params rt.advertising.interval_min rt.advertising.interval_max rt.advertising.adv_type
            0 rt.advertising.channel_map rt.advertising.filter_policy
          ∷ set_data (length rt.advertising.payload) rt.advertising.payload
          ∷ enable 1
          ∷ [])
      × ((start_advertising (some rt)).1 ≡ execute_on_main_thread rt.run_loop_callback ∷ [])
      × (stop (start_advertising (some rt)).0
          ≡ (some rt, execute_on_main_thread rt.run_loop_callback ∷ []))
      × (run_loop_advertising_update (stop (start_advertising (some rt)).0).0 ≡ enable 0 ∷ [])
unfolding run_loop_advertising_update start_advertising stop set_advertising
run_loop_advertising_update-start_advertising rt off short =
    (ground arith, refl, ground arith, refl)
