-- ===== src/Gatt/Peripheral/Valid.antt =====
-- What holds of the maps in `RuntimeState` of btstack-gatt/src/peripheral.rs between two callbacks,
-- and what the server relies on of Rust's iteration over a hash map.
use btstack_rs.Common.{ℕ, ◌≡◌, ◌≢◌, Bool, some}
use btstack_rs.Common.Dict.{Dict, lookup}
use btstack_rs.Common.Dict.Every.{Every}
use btstack_rs.Gatt.Peripheral.Types.{RuntimeCharacteristic, RuntimeState}

-- An iteration gives the entries of the map, each of them.
pub record Iteration : Type 1 where
  pub entries : Dict RuntimeCharacteristic → Dict RuntimeCharacteristic
  pub Every-entries :
      (P : ℕ → RuntimeCharacteristic → Type 0) (m : Dict RuntimeCharacteristic)
      → Every P m
      → Every P (entries m)
  pub lookup-entries : (k : ℕ) (m : Dict RuntimeCharacteristic) → lookup k (entries m) ≡ lookup k m

-- The CCC handle `ccc` belongs to the characteristic at `v`.
abbrev pub IsCccOf : Dict RuntimeCharacteristic → ℕ → ℕ → Type 0
IsCccOf chars v ccc =
    (ch : RuntimeCharacteristic) × (lookup v chars ≡ some ch) × (ch.ccc_handle ≡ some ccc)

-- Each characteristic stands under its own handle, which is not 0; each CCC handle leads to a
-- characteristic that has it and has a flag; each flag belongs to a characteristic with a CCC.
pub record IsValid (rt : RuntimeState) : Type 0 where
  pub handles :
      (h : ℕ) (ch : RuntimeCharacteristic)
      → lookup h rt.characteristics_by_value_handle ≡ some ch
      → (ch.value_handle ≡ h) × (h ≢ 0)
  pub cccs :
      (ccc v : ℕ)
      → lookup ccc rt.ccc_to_value_handle ≡ some v
      → IsCccOf rt.characteristics_by_value_handle v ccc
        × ((b : Bool) × (lookup v rt.notification_enabled ≡ some b))
  pub flags :
      (v : ℕ) (b : Bool)
      → lookup v rt.notification_enabled ≡ some b
      → (ccc : ℕ) × IsCccOf rt.characteristics_by_value_handle v ccc
