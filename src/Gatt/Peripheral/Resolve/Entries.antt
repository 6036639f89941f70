-- ===== src/Gatt/Peripheral/Resolve/Entries.antt =====
-- The entry of a characteristic in terms of BTstack's look-ups, and the last one at a handle.
use btstack_rs.Common.{
  ℕ, ◌≡◌, ◌≢◌, ◌∙◌, refl, ap, subst, Bool, true, false, ◌||◌, Option, none, some, List, [], ◌∷◌,
  arith, All, ◌==◌, if◌then◌else◌, is_some,
}
use btstack_rs.Common.Dict.{Dict, lookup, insert, lookup-insert}
use btstack_rs.Gatt.Peripheral.Types.{
  Result, ok, err, ◌>>=◌, GattUuid, uuid16, uuid128, notify, indicate, contains, CharacteristicSpec,
  ServiceSpec, RuntimeCharacteristic,
}
use btstack_rs.Gatt.Peripheral.Btstack.{Btstack}
use btstack_rs.Gatt.Peripheral.Resolve.{
  found, service_range, resolve_value_handle, resolve_ccc_handle, resolve_ccc,
  resolve_characteristic,
}
use btstack_rs.Gatt.Peripheral.Resolve.Handles.{ok-injective, bind-ok}

-- The second, where there is no first.
abbrev pub later : {A : Type 0} → Option A → Option A → Option A
later (some x) old = some x
later none old = old

pub later-if :
    {A : Type 0} (o old : Option A) (x : A) (b : Bool)
    → later o (if b then some x else old) ≡ later (later o (if b then some x else none)) old
later-if (some y) old x b = refl
later-if none old x true = refl
later-if none old x false = refl

pub later-later : {A : Type 0} (a b c : Option A) → later a (later b c) ≡ later (later a b) c
later-later (some x) b c = refl
later-later none b c = refl

pub later-nothing : {V : Type 0} (h : ℕ) (o : Option V) → later o (lookup {V = V} h []) ≡ o
unfolding lookup
later-nothing h (some x) = refl
later-nothing h none = refl

pub later-is_some :
    {A : Type 0} (o old : Option A) → is_some old ≡ true → is_some (later o old) ≡ true
later-is_some (some x) old e = refl
later-is_some none old e = e

pub same-is_some :
    {A : Type 0} (h : ℕ) (x : A) (o : Option A) → is_some (if h == h then some x else o) ≡ true
same-is_some h x o = ground arith

found-same : (handle h : ℕ) → found handle ≡ ok h → (handle ≡ h) × (handle ≢ 0)
found-same handle h e = ground arith

module _ (𝓑 : Btstack) where
  -- What BTstack says of a characteristic, in a range of handles; 0 if there is none.
  abbrev pub value_handle_at : ℕ → ℕ → GattUuid → ℕ
  value_handle_at s e (uuid16 u) = 𝓑.value_handle16 s e u
  value_handle_at s e (uuid128 u) = 𝓑.value_handle128 s e u

  abbrev pub ccc_handle_at : ℕ → ℕ → GattUuid → ℕ
  ccc_handle_at s e (uuid16 u) = 𝓑.ccc_handle16 s e u
  ccc_handle_at s e (uuid128 u) = 𝓑.ccc_handle128 s e u

  -- The entry of a characteristic: it starts with the initial value, and a CCC handle is looked up
  -- exactly if it notifies or indicates.
  abbrev pub entry : ℕ → ℕ → CharacteristicSpec → RuntimeCharacteristic
  entry s e c = record {
    spec = c;
    value_handle = value_handle_at s e c.uuid;
    ccc_handle =
        if contains c.properties notify || contains c.properties indicate
        then some (ccc_handle_at s e c.uuid)
        else none;
    value = c.initial_value;
  }

  -- The last of some characteristics that BTstack finds at a handle.
  abbrev pub latest_in : ℕ → ℕ → ℕ → List CharacteristicSpec → Option RuntimeCharacteristic
  latest_in h s e [] = none
  latest_in h s e (c ∷ cs) =
      later (latest_in h s e cs)
        (if value_handle_at s e c.uuid == h then some (entry s e c) else none)

  abbrev pub latest_of : ℕ → List CharacteristicSpec → Option (ℕ × ℕ) → Option RuntimeCharacteristic
  latest_of h cs none = none
  latest_of h cs (some range) = latest_in h range.0 range.1 cs

  -- The last of all the services' characteristics at a handle.
  abbrev pub latest : ℕ → List ServiceSpec → Option RuntimeCharacteristic
  latest h [] = none
  latest h (service ∷ services) =
      later (latest h services) (latest_of h service.characteristics (service_range 𝓑 service.uuid))

  -- BTstack has found the characteristic, and there is an entry at its handle.
  abbrev pub IsListed : Dict RuntimeCharacteristic → ℕ → ℕ → CharacteristicSpec → Type 0
  IsListed m s e c =
      (value_handle_at s e c.uuid ≢ 0) × (is_some (lookup (value_handle_at s e c.uuid) m) ≡ true)

  abbrev pub IsCovered : Dict RuntimeCharacteristic → ServiceSpec → Type 0
  IsCovered m service =
      (range : ℕ × ℕ) × (service_range 𝓑 service.uuid ≡ some range)
      × All (IsListed m range.0 range.1) service.characteristics

  resolve_value_handle-at :
      (s e : ℕ) (uuid : GattUuid) (h : ℕ)
      → resolve_value_handle 𝓑 s e uuid ≡ ok h
      → (value_handle_at s e uuid ≡ h) × (value_handle_at s e uuid ≢ 0)
  unfolding resolve_value_handle
  resolve_value_handle-at s e (uuid16 u) h = found-same (𝓑.value_handle16 s e u) h
  resolve_value_handle-at s e (uuid128 u) h = found-same (𝓑.value_handle128 s e u) h

  resolve_ccc_handle-at :
      (s e : ℕ) (uuid : GattUuid) (h : ℕ)
      → resolve_ccc_handle 𝓑 s e uuid ≡ ok h
      → ccc_handle_at s e uuid ≡ h
  unfolding resolve_ccc_handle
  resolve_ccc_handle-at s e (uuid16 u) h eq = (found-same (𝓑.ccc_handle16 s e u) h eq).0
  resolve_ccc_handle-at s e (uuid128 u) h eq = (found-same (𝓑.ccc_handle128 s e u) h eq).0

  ccc-at :
      (wanted : Bool) (handle : ℕ) (r : Result ℕ) (o : Option ℕ)
      → ((h : ℕ) → r ≡ ok h → handle ≡ h)
      → (if wanted then (do h ← r; ok (some h)) else ok none) ≡ ok o
      → (if wanted then some handle else none) ≡ o
  ccc-at true handle (ok h) o same e = ap some (same h refl) ∙ ok-injective (some h) o e
  ccc-at true handle (err x) o same e = ground arith
  ccc-at false handle r o same e = ok-injective none o e

  pub resolve_characteristic-entry :
      (s e : ℕ) (c : CharacteristicSpec) (ch : RuntimeCharacteristic)
      → resolve_characteristic 𝓑 s e c ≡ ok ch
      → (entry s e c ≡ ch) × (value_handle_at s e c.uuid ≢ 0)
  unfolding resolve_characteristic resolve_ccc
  resolve_characteristic-entry s e c ch h =
      let (v, value, h') = bind-ok (resolve_value_handle 𝓑 s e c.uuid) _ ch h in
      let (ccc, wanted, made) = bind-ok (resolve_ccc 𝓑 s e c) _ ch h' in
      let (at, nonzero) = resolve_value_handle-at s e c.uuid v value in
      let ccc_at =
        ccc-at (contains c.properties notify || contains c.properties indicate)
          (ccc_handle_at s e c.uuid) (resolve_ccc_handle 𝓑 s e c.uuid) ccc
          (resolve_ccc_handle-at s e c.uuid) wanted in
      (entry-parts s e c v ccc at ccc_at ∙ ok-injective _ ch made, nonzero)
    where
      entry-parts :
          (s e : ℕ) (c : CharacteristicSpec) (v : ℕ) (ccc : Option ℕ)
          → value_handle_at s e c.uuid ≡ v
          → (entry s e c).ccc_handle ≡ ccc
          → entry s e c
            ≡ record { spec = c; value_handle = v; ccc_handle = ccc; value = c.initial_value }
      entry-parts s e c v ccc p q i = record {
        spec = c;
        value_handle = p i;
        ccc_handle = q i;
        value = c.initial_value;
      }

  pub lookup-entry :
      (s e h : ℕ) (c : CharacteristicSpec) (meta : RuntimeCharacteristic)
      (m : Dict RuntimeCharacteristic)
      → entry s e c ≡ meta
      → lookup h (insert meta.value_handle meta m)
        ≡ (if value_handle_at s e c.uuid == h then some (entry s e c) else lookup h m)
  lookup-entry s e h c meta m made =
      subst
        (λ x.
          lookup h (insert x.value_handle x m)
          ≡ (if value_handle_at s e c.uuid == h then some (entry s e c) else lookup h m))
        made (lookup-insert (value_handle_at s e c.uuid) h (entry s e c) m)
