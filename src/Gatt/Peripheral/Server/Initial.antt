-- ===== src/Gatt/Peripheral/Server/Initial.antt =====
-- What a server shows at its construction by `new` (btstack-gatt/src/peripheral.rs), read off the
-- characteristics resolved, without the tables that `new` fills.
use mathlib.Core.Option
use btstack_rs.Common.{
  ℕ, ◌≡◌, ◌≢◌, ◌∙◌, refl, sym, ap, subst, Bool, true, false, Option, none, some, [], ◌∷◌, ◌==◌,
  if◌then◌else◌, get_elem?, arith, inl, inr, Option-cases, Bool-cases,
}
use btstack_rs.Common.Dict.{Dict, lookup, insert, lookup-insert}
use btstack_rs.Common.Dict.Every.{Every}
use btstack_rs.Gatt.Peripheral.Types.{RuntimeCharacteristic}
use btstack_rs.Gatt.Peripheral.Valid.{IsCccOf}
use btstack_rs.Gatt.Peripheral.Server.{fill_ccc}
use btstack_rs.Gatt.Peripheral.Callbacks.Abstract.{Profile, View, writable_of}

-- The flag of a characteristic with a configuration is off, and the others have none.
abbrev pub initial_flag : Option RuntimeCharacteristic → Option Bool
initial_flag none = none
initial_flag (some ch) = Option.map (λ _. false) ch.ccc_handle

abbrev pub initial_byte : Option RuntimeCharacteristic → ℕ → Option ℕ
initial_byte none i = none
initial_byte (some ch) i = get_elem? ch.spec.initial_value i

abbrev pub is_handle : ℕ → Option ℕ → Bool
is_handle ccc none = false
is_handle ccc (some h) = h == ccc

-- The first characteristic with this CCC handle.
abbrev pub find_owner : ℕ → Dict RuntimeCharacteristic → Option ℕ
find_owner ccc [] = none
find_owner ccc ((h, ch) ∷ m) = if is_handle ccc ch.ccc_handle then some h else find_owner ccc m

abbrev pub initial_view : Dict RuntimeCharacteristic → View
initial_view m = record {
  byte = λ h i. initial_byte (lookup h m) i;
  notifies = λ v. initial_flag (lookup v m);
  connected = none;
}

abbrev pub initial_profile : Dict RuntimeCharacteristic → Profile
initial_profile m = record {
  owner = λ ccc. find_owner ccc m;
  writable = λ h. writable_of (lookup h m);
}

-- No two characteristics share a CCC handle.
abbrev pub HasOwners : Dict RuntimeCharacteristic → Type 0
HasOwners m = (v v' ccc : ℕ) → IsCccOf m v ccc → IsCccOf m v' ccc → v ≡ v'

is_handle-some : (ccc : ℕ) (o : Option ℕ) → is_handle ccc o ≡ true → o ≡ some ccc
is_handle-some ccc none e = ground arith
is_handle-some ccc (some h) e = ground arith

some-is_handle : (ccc : ℕ) (o : Option ℕ) → o ≡ some ccc → is_handle ccc o ≡ true
some-is_handle ccc o e = ap (is_handle ccc) e ∙ ground arith

-- Over entries that are those of `chars`, what is found owns the handle.
pub find_owner-IsCccOf :
    (chars entries : Dict RuntimeCharacteristic) (ccc v : ℕ)
    → Every (λ h ch. lookup h chars ≡ some ch) entries
    → find_owner ccc entries ≡ some v
    → IsCccOf chars v ccc
find_owner-IsCccOf chars [] ccc v every e = ground arith
find_owner-IsCccOf chars ((h, ch) ∷ m) ccc v (found, every) e =
    elim (Bool-cases (is_handle ccc ch.ccc_handle)) [
      | inl mine ↦
          let key : h ≡ v = ground arith in
          (
            ch,
            subst (λ k. lookup k chars ≡ some ch) key found,
            is_handle-some ccc ch.ccc_handle mine,
          )
      | inr other ↦ find_owner-IsCccOf chars m ccc v every (ground arith)
    ]

-- An owner is found if there is one.
pub find_owner-Every :
    (entries : Dict RuntimeCharacteristic) (ccc : ℕ)
    → find_owner ccc entries ≡ none
    → Every (λ h ch. ch.ccc_handle ≢ some ccc) entries
find_owner-Every [] ccc e = tt
find_owner-Every ((h, ch) ∷ m) ccc e = elim (Bool-cases (is_handle ccc ch.ccc_handle)) [
  | inl mine ↦ absurd (ground arith)
  | inr other ↦ (
    λ own. (let yes_ = some-is_handle ccc ch.ccc_handle own in ground arith),
    find_owner-Every m ccc (ground arith),
  )
]

-- What `fill_ccc` has put in stays in.
fill_ccc-still_there :
    (entries : Dict RuntimeCharacteristic) (cccs : Dict ℕ) (flags : Dict Bool) (ccc : ℕ)
    → lookup ccc cccs ≢ none
    → lookup ccc (fill_ccc entries (cccs, flags)).0 ≢ none
unfolding fill_ccc
fill_ccc-still_there [] cccs flags ccc e = e
fill_ccc-still_there ((h, meta) ∷ entries) cccs flags ccc e = elim (Option-cases meta.ccc_handle) [
  | inl without ↦ rw without (fill_ccc-still_there entries cccs flags ccc e)
  | inr (c, with_) ↦ rw with_ (
      fill_ccc-still_there entries (insert c h cccs) (insert h false flags) ccc
        (λ gone. e (ground (arith, lookup-insert c ccc h cccs, gone))))
]

pub fill_ccc-Every :
    (entries : Dict RuntimeCharacteristic) (cccs : Dict ℕ) (flags : Dict Bool) (ccc : ℕ)
    → lookup ccc (fill_ccc entries (cccs, flags)).0 ≡ none
    → Every (λ h ch. ch.ccc_handle ≢ some ccc) entries
unfolding fill_ccc
fill_ccc-Every [] cccs flags ccc e = tt
fill_ccc-Every ((h, meta) ∷ entries) cccs flags ccc e = elim (Option-cases meta.ccc_handle) [
  | inl without ↦
      let same : fill_ccc ((h, meta) ∷ entries) (cccs, flags) ≡ fill_ccc entries (cccs, flags) =
        rw without refl in
      (
        λ own. ground arith,
        fill_ccc-Every entries cccs flags ccc (ap (λ maps. lookup ccc maps.0) (sym same) ∙ e),
      )
  | inr (c, with_) ↦
      let same : fill_ccc ((h, meta) ∷ entries) (cccs, flags)
          ≡ fill_ccc entries (insert c h cccs, insert h false flags) =
        rw with_ refl in
      let gone = ap (λ maps. lookup ccc maps.0) (sym same) ∙ e in
      (
        λ own.
            fill_ccc-still_there entries (insert c h cccs) (insert h false flags) ccc
              (λ missing. ground (arith, lookup-insert c ccc h cccs, missing, own, with_)) gone,
        fill_ccc-Every entries (insert c h cccs) (insert h false flags) ccc gone,
      )
]

-- Two searches that find only owners, and find one if there is one, find the same.
pub same_owner :
    (P : ℕ → Type 0) (o o' : Option ℕ)
    → ((v v' : ℕ) → P v → P v' → v ≡ v')
    → ((v : ℕ) → o ≡ some v → P v)
    → ((v : ℕ) → o' ≡ some v → P v)
    → ((v : ℕ) → P v → o ≢ none)
    → ((v : ℕ) → P v → o' ≢ none)
    → o ≡ o'
same_owner P none none one p p' q q' = refl
same_owner P none (some v) one p p' q q' = absurd (q v (p' v refl) refl)
same_owner P (some v) none one p p' q q' = absurd (q' v (p v refl) refl)
same_owner P (some v) (some v') one p p' q q' = ap some (one v v' (p v refl) (p' v' refl))
