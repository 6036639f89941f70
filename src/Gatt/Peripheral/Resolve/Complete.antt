-- ===== src/Gatt/Peripheral/Resolve/Complete.antt =====
-- The map that a resolution gives, entry by entry, in terms of BTstack's look-ups.
use btstack_rs.Common.{
  ℕ, ◌≡◌, ◌∙◌, sym, ap, true, Option, none, some, List, [], ◌∷◌, arith, All, ◌==◌, is_some,
}
use btstack_rs.Common.Dict.{Dict, lookup, insert}
use btstack_rs.Common.Dict.Every.{Every, Distinct}
use btstack_rs.Gatt.Peripheral.Types.{
  ok, err, service_not_found, GattUuid, CharacteristicSpec, ServiceSpec, RuntimeCharacteristic,
}
use btstack_rs.Gatt.Peripheral.Btstack.{Btstack}
use btstack_rs.Gatt.Peripheral.Resolve.{
  service_range, resolve_characteristic, resolve_service, resolve_services,
  resolve_service_handle_range, resolve_characteristics,
}
use btstack_rs.Gatt.Peripheral.Resolve.Handles.{
  IsResolved, ok-injective, bind-ok, resolve_characteristics-ok,
}
use btstack_rs.Gatt.Peripheral.Resolve.Entries.{
  later, later-if, later-later, later-nothing, same-is_some, later-is_some, value_handle_at, entry,
  latest_in, latest_of, latest, IsListed, IsCovered, resolve_characteristic-entry, lookup-entry,
}

module _ (𝓑 : Btstack) where
  resolve_service-latest :
      (s e : ℕ) (cs : List CharacteristicSpec) (m m' : Dict RuntimeCharacteristic) (h : ℕ)
      → resolve_service 𝓑 s e cs m ≡ ok m'
      → lookup h m' ≡ later (latest_in 𝓑 h s e cs) (lookup h m)
  unfolding resolve_service
  resolve_service-latest s e [] m m' h eq = ap (lookup h) (sym (ok-injective m m' eq))
  resolve_service-latest s e (c ∷ cs) m m' h eq =
      let (meta, made, eq') = bind-ok (resolve_characteristic 𝓑 s e c) _ m' eq in
      let (same, _) = resolve_characteristic-entry 𝓑 s e c meta made in
      resolve_service-latest s e cs (insert meta.value_handle meta m) m' h eq'
      ∙ ap (later (latest_in 𝓑 h s e cs)) (lookup-entry 𝓑 s e h c meta m same)
      ∙ later-if (latest_in 𝓑 h s e cs) (lookup h m) (entry 𝓑 s e c)
          (value_handle_at 𝓑 s e c.uuid == h)

  resolve_service-IsListed :
      (s e : ℕ) (cs : List CharacteristicSpec) (m m' : Dict RuntimeCharacteristic)
      → resolve_service 𝓑 s e cs m ≡ ok m'
      → All (IsListed 𝓑 m' s e) cs
  unfolding resolve_service
  resolve_service-IsListed s e [] m m' eq = tt
  resolve_service-IsListed s e (c ∷ cs) m m' eq =
      let (meta, made, eq') = bind-ok (resolve_characteristic 𝓑 s e c) _ m' eq in
      let (same, nonzero) = resolve_characteristic-entry 𝓑 s e c meta made in
      let m₁ = insert meta.value_handle meta m in
      let h = value_handle_at 𝓑 s e c.uuid in
      let put : is_some (lookup h m₁) ≡ true =
        ap is_some (lookup-entry 𝓑 s e h c meta m same)
        ∙ same-is_some h (entry 𝓑 s e c) (lookup h m) in
      (
        (
          nonzero,
          ap is_some (resolve_service-latest s e cs m₁ m' h eq')
              ∙ later-is_some (latest_in 𝓑 h s e cs) (lookup h m₁) put,
        ),
        resolve_service-IsListed s e cs m₁ m' eq',
      )

  range-ok :
      (o : Option (ℕ × ℕ)) (range : ℕ × ℕ)
      → (elim o [ none ↦ err service_not_found | some r ↦ ok r ]) ≡ ok range
      → o ≡ some range
  range-ok none range e = ground arith
  range-ok (some r) range e = ap some (ok-injective r range e)

  resolve_service_handle_range-ok :
      (uuid : GattUuid) (range : ℕ × ℕ)
      → resolve_service_handle_range 𝓑 uuid ≡ ok range
      → service_range 𝓑 uuid ≡ some range
  unfolding resolve_service_handle_range
  resolve_service_handle_range-ok uuid range e = range-ok (service_range 𝓑 uuid) range e

  resolve_services-latest :
      (services : List ServiceSpec) (m m' : Dict RuntimeCharacteristic) (h : ℕ)
      → resolve_services 𝓑 services m ≡ ok m'
      → lookup h m' ≡ later (latest 𝓑 h services) (lookup h m)
  unfolding resolve_services
  resolve_services-latest [] m m' h eq = ap (lookup h) (sym (ok-injective m m' eq))
  resolve_services-latest (service ∷ services) m m' h eq =
      let cs = service.characteristics in
      let (range, at, eq') = bind-ok (resolve_service_handle_range 𝓑 service.uuid) _ m' eq in
      let (m₁, made, eq'') = bind-ok (resolve_service 𝓑 range.0 range.1 cs m) _ m' eq' in
      let there = resolve_service_handle_range-ok service.uuid range at in
      resolve_services-latest services m₁ m' h eq''
      ∙ ap (later (latest 𝓑 h services)) (
          resolve_service-latest range.0 range.1 cs m m₁ h made
          ∙ ap (λ o. later (latest_of 𝓑 h cs o) (lookup h m)) (sym there))
      ∙ later-later (latest 𝓑 h services) (latest_of 𝓑 h cs (service_range 𝓑 service.uuid))
          (lookup h m)

  IsListed-kept :
      (s e : ℕ) (cs : List CharacteristicSpec) (m m' : Dict RuntimeCharacteristic)
      → ((h : ℕ) → is_some (lookup h m) ≡ true → is_some (lookup h m') ≡ true)
      → All (IsListed 𝓑 m s e) cs
      → All (IsListed 𝓑 m' s e) cs
  IsListed-kept s e [] m m' keeps all = tt
  IsListed-kept s e (c ∷ cs) m m' keeps ((nonzero, there), all) =
      ((nonzero, keeps _ there), IsListed-kept s e cs m m' keeps all)

  resolve_services-IsCovered :
      (services : List ServiceSpec) (m m' : Dict RuntimeCharacteristic)
      → resolve_services 𝓑 services m ≡ ok m'
      → All (IsCovered 𝓑 m') services
  unfolding resolve_services
  resolve_services-IsCovered [] m m' eq = tt
  resolve_services-IsCovered (service ∷ services) m m' eq =
      let cs = service.characteristics in
      let (range, at, eq') = bind-ok (resolve_service_handle_range 𝓑 service.uuid) _ m' eq in
      let (m₁, made, eq'') = bind-ok (resolve_service 𝓑 range.0 range.1 cs m) _ m' eq' in
      let keeps : (h : ℕ) → is_some (lookup h m₁) ≡ true → is_some (lookup h m') ≡ true = λ h there.
        (ap is_some (resolve_services-latest services m₁ m' h eq'')
          ∙ later-is_some (latest 𝓑 h services) (lookup h m₁) there) in
      (
        (
          range,
          resolve_service_handle_range-ok service.uuid range at,
          IsListed-kept range.0 range.1 cs m₁ m' keeps
              (resolve_service-IsListed range.0 range.1 cs m m₁ made),
        ),
        resolve_services-IsCovered services m₁ m' eq'',
      )

  -- Where the resolution succeeds, BTstack has found the range of every service and, in it, every
  -- characteristic of the service, and the map has an entry at its value handle. A look-up of any
  -- handle in the map gives the entry of the last characteristic that BTstack has at that handle, and
  -- nothing where there is none: the specification, the two handles looked up and the initial value.
  -- Each handle stands once, is not 0, and neither is a CCC handle.
  pub resolve_characteristics-latest :
      (services : List ServiceSpec) (m : Dict RuntimeCharacteristic)
      → resolve_characteristics 𝓑 services ≡ ok m
      → ((h : ℕ) → lookup h m ≡ latest 𝓑 h services)
        × All (IsCovered 𝓑 m) services
        × Every IsResolved m
        × Distinct m
  unfolding resolve_characteristics
  resolve_characteristics-latest services m eq =
      let (all, once) = resolve_characteristics-ok 𝓑 services m eq in
      (
        λ h. resolve_services-latest services [] m h eq ∙ later-nothing h (latest 𝓑 h services),
        resolve_services-IsCovered services [] m eq,
        all,
        once,
      )
