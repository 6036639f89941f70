-- ===== src/Gatt/Peripheral/Resolve/Handles.antt =====
-- What a resolution that succeeds has put into the map.
use btstack_rs.Common.{
  ℕ, ◌≡◌, ◌≢◌, refl, ap, subst, Bool, true, false, ◌||◌, Option, none, some, List, [], ◌∷◌, arith,
  if◌then◌else◌,
}
use btstack_rs.Common.Dict.{Dict, insert}
use btstack_rs.Common.Dict.Every.{Every, Distinct, Every-insert, Distinct-insert}
use btstack_rs.Gatt.Peripheral.Types.{
  Result, ok, err, ◌>>=◌, GattUuid, uuid16, uuid128, notify, indicate, contains, CharacteristicSpec,
  ServiceSpec, RuntimeCharacteristic,
}
use btstack_rs.Gatt.Peripheral.Btstack.{Btstack}
use btstack_rs.Gatt.Peripheral.Resolve.{
  found, resolve_value_handle, resolve_ccc_handle, resolve_ccc, resolve_characteristic,
  resolve_service, resolve_services, resolve_service_handle_range, resolve_characteristics,
}

-- An entry under its own handle, which is not 0, with the initial value, and with a CCC handle, not
-- 0, exactly if the characteristic notifies or indicates.
abbrev pub HasCcc : Option ℕ → Bool → Type 0
HasCcc none wanted = wanted ≡ false
HasCcc (some ccc) wanted = (wanted ≡ true) × (ccc ≢ 0)

abbrev pub IsResolved : ℕ → RuntimeCharacteristic → Type 0
IsResolved h ch =
    (ch.value_handle ≡ h)
    × (h ≢ 0)
    × (ch.value ≡ ch.spec.initial_value)
    × HasCcc ch.ccc_handle
        (contains ch.spec.properties notify || contains ch.spec.properties indicate)

found-ok : (handle h : ℕ) → found handle ≡ ok h → h ≢ 0
found-ok handle h e = ground arith

pub ok-injective : {A : Type 0} (a b : A) → ok a ≡ ok b → a ≡ b
ok-injective {A} a b e = ap get e
  where
    get : Result A → A
    get (ok x) = x
    get (err _) = a

pub bind-ok :
    {A B : Type 0} (r : Result A) (f : A → Result B) (b : B)
    → (r >>= f) ≡ ok b
    → (a : A) × (r ≡ ok a) × (f a ≡ ok b)
bind-ok (ok a) f b e = (a, refl, e)
bind-ok (err x) f b e = ground arith

HasCcc-bind :
    (wanted : Bool) (r : Result ℕ) (o : Option ℕ)
    → ((h : ℕ) → r ≡ ok h → h ≢ 0)
    → (if wanted then (do handle ← r; ok (some handle)) else ok none) ≡ ok o
    → HasCcc o wanted
HasCcc-bind true (ok h) o ne e =
    subst (λ x. HasCcc x true) (ok-injective (some h) o e) (refl, ne h refl)
HasCcc-bind true (err x) o ne e = ground arith
HasCcc-bind false r o ne e = subst (λ x. HasCcc x false) (ok-injective none o e) refl

module _ (𝓑 : Btstack) where
  resolve_value_handle-ok :
      (s e : ℕ) (uuid : GattUuid) (h : ℕ) → resolve_value_handle 𝓑 s e uuid ≡ ok h → h ≢ 0
  unfolding resolve_value_handle
  resolve_value_handle-ok s e (uuid16 u) h ok_ = found-ok (𝓑.value_handle16 s e u) h ok_
  resolve_value_handle-ok s e (uuid128 u) h ok_ = found-ok (𝓑.value_handle128 s e u) h ok_

  resolve_ccc_handle-ok :
      (s e : ℕ) (uuid : GattUuid) (h : ℕ) → resolve_ccc_handle 𝓑 s e uuid ≡ ok h → h ≢ 0
  unfolding resolve_ccc_handle
  resolve_ccc_handle-ok s e (uuid16 u) h ok_ = found-ok (𝓑.ccc_handle16 s e u) h ok_
  resolve_ccc_handle-ok s e (uuid128 u) h ok_ = found-ok (𝓑.ccc_handle128 s e u) h ok_

  resolve_ccc-ok :
      (s e : ℕ) (c : CharacteristicSpec) (o : Option ℕ)
      → resolve_ccc 𝓑 s e c ≡ ok o
      → HasCcc o (contains c.properties notify || contains c.properties indicate)
  unfolding resolve_ccc
  resolve_ccc-ok s e c o h =
      HasCcc-bind (contains c.properties notify || contains c.properties indicate)
        (resolve_ccc_handle 𝓑 s e c.uuid) o (resolve_ccc_handle-ok s e c.uuid) h

  resolve_characteristic-ok :
      (s e : ℕ) (c : CharacteristicSpec) (ch : RuntimeCharacteristic)
      → resolve_characteristic 𝓑 s e c ≡ ok ch
      → IsResolved ch.value_handle ch
  unfolding resolve_characteristic
  resolve_characteristic-ok s e c ch h =
      let (v, value, h') = bind-ok (resolve_value_handle 𝓑 s e c.uuid) _ ch h in
      let (ccc, wanted, made) = bind-ok (resolve_ccc 𝓑 s e c) _ ch h' in
      subst (λ x. IsResolved x.value_handle x) (ok-injective _ ch made)
        (refl, resolve_value_handle-ok s e c.uuid v value, refl, resolve_ccc-ok s e c ccc wanted)

  resolve_service-ok :
      (s e : ℕ) (cs : List CharacteristicSpec) (m m' : Dict RuntimeCharacteristic)
      → resolve_service 𝓑 s e cs m ≡ ok m'
      → Every IsResolved m
      → Distinct m
      → Every IsResolved m' × Distinct m'
  unfolding resolve_service
  resolve_service-ok s e [] m m' h all once =
      subst (λ x. Every IsResolved x × Distinct x) (ok-injective m m' h) (all, once)
  resolve_service-ok s e (c ∷ cs) m m' h all once =
      let (meta, made, h') = bind-ok (resolve_characteristic 𝓑 s e c) _ m' h in
      resolve_service-ok s e cs (insert meta.value_handle meta m) m' h'
        (Every-insert IsResolved meta.value_handle meta m
          (resolve_characteristic-ok s e c meta made) all)
        (Distinct-insert meta.value_handle meta m once)

  resolve_services-ok :
      (services : List ServiceSpec) (m m' : Dict RuntimeCharacteristic)
      → resolve_services 𝓑 services m ≡ ok m'
      → Every IsResolved m
      → Distinct m
      → Every IsResolved m' × Distinct m'
  unfolding resolve_services
  resolve_services-ok [] m m' h all once =
      subst (λ x. Every IsResolved x × Distinct x) (ok-injective m m' h) (all, once)
  resolve_services-ok (service ∷ services) m m' h all once =
      let (range, _, h') = bind-ok (resolve_service_handle_range 𝓑 service.uuid) _ m' h in
      let (m'', made, h'') =
        bind-ok (resolve_service 𝓑 range.0 range.1 service.characteristics m) _ m' h' in
      let (all', once') =
        resolve_service-ok range.0 range.1 service.characteristics m m'' made all once in
      resolve_services-ok services m'' m' h'' all' once'

  -- Where the resolution succeeds, each entry of the map stands under its own handle, which is not
  -- 0, once; it has the initial value, and a CCC handle, which is not 0, exactly if the
  -- characteristic notifies or indicates.
  pub resolve_characteristics-ok :
      (services : List ServiceSpec) (m : Dict RuntimeCharacteristic)
      → resolve_characteristics 𝓑 services ≡ ok m
      → Every IsResolved m × Distinct m
  unfolding resolve_characteristics
  resolve_characteristics-ok services m h = resolve_services-ok services [] m h tt tt
