-- ===== src/Gatt/Peripheral/Callbacks/Shown.antt =====
-- Writes refine the abstract server's.
use mathlib.Core.Path.{fun_ext}
use btstack_rs.Common.{
  zero, suc, ◌<◌, ℕ, ◌%◌, ◌≡◌, ◌∙◌, sym, refl, ap, Bool, true, false, not, Option, none, some,
  get_or, List, [], ◌∷◌, arith, ◌==◌, if◌then◌else◌, length, take, get_elem?, ◌≤◌, Option-cases,
  Bool-cases, inl, inr,
}
use btstack_rs.Common.Dict.{Dict, lookup, insert, lookup-insert}
use btstack_rs.Common.Index.{get_elem?-none}
use btstack_rs.Gatt.Peripheral.Types.{RuntimeCharacteristic, RuntimeState}
use btstack_rs.Gatt.Peripheral.Callbacks.{
  overwrite, is_writable, write_ccc, with_value, write_value, write_runtime,
}
use btstack_rs.Gatt.Peripheral.Callbacks.Values.{get_elem?-overwrite}
use btstack_rs.Gatt.Peripheral.Callbacks.Write.{
  with_flag, write_ccc-pair, write_value-writable, write_runtime-ccc, write_runtime-value,
}
use btstack_rs.Gatt.Peripheral.Callbacks.Abstract.{
  View, byte_of, writable_of, writable_of-is_writable, profile, view, spliced, spec_value, spec_ccc,
  spec_write,
}

get_elem?-found :
    (v : List ℕ) (i : ℕ) → i < length v → get_elem? v i ≡ some (get_or (get_elem? v i) 0)
get_elem?-found [] i h = ground arith
get_elem?-found (x ∷ v) zero h = refl
get_elem?-found (x ∷ v) (suc i) h = get_elem?-found v i (omega arith)

overwrite-spliced :
    (v : List ℕ) (offset : ℕ) (bytes : List ℕ) (i : ℕ)
    → get_elem? (overwrite v offset bytes) i ≡ spliced (get_elem? v) offset bytes i
overwrite-spliced v offset bytes i =
    get_elem?-overwrite v offset bytes i ∙ ground (arith, get_elem?-found v i, get_elem?-none v i)

-- A result that is there and is seen as the abstract server says.
abbrev pub Shows : Option RuntimeState → View → Type 0
Shows o w = (rt' : RuntimeState) × (o ≡ some rt') × (view rt' ≡ w)

if-true : {A : Type 0} {b : Bool} (x y : A) → b ≡ true → (if b then x else y) ≡ x
if-true x y e = rw e refl

if-false : {A : Type 0} {b : Bool} (x y : A) → b ≡ false → (if b then x else y) ≡ y
if-false x y e = rw e refl

byte_of-if :
    (b : Bool) (ch : RuntimeCharacteristic) (o : Option RuntimeCharacteristic) (i : ℕ)
    → byte_of (if b then some ch else o) i ≡ (if b then get_elem? ch.value i else byte_of o i)
byte_of-if true ch o i = refl
byte_of-if false ch o i = refl

byte_of-insert :
    (chars : Dict RuntimeCharacteristic) (h offset : ℕ) (bytes : List ℕ)
    (ch : RuntimeCharacteristic)
    → lookup h chars ≡ some ch
    → (k i : ℕ)
    → byte_of (lookup k (insert h (record ch { value = overwrite ch.value offset bytes }) chars)) i
      ≡ (if h == k
          then spliced (byte_of (lookup h chars)) offset bytes i
          else byte_of (lookup k chars) i)
byte_of-insert chars h offset bytes ch found k i =
    let ch' : RuntimeCharacteristic = record ch { value = overwrite ch.value offset bytes } in
    let old = byte_of (lookup k chars) i in
    ap (λ o. byte_of o i) (lookup-insert h k ch' chars)
    ∙ byte_of-if (h == k) ch' (lookup k chars) i
    ∙ ap (λ x. if h == k then x else old)
        (overwrite-spliced ch.value offset bytes i
          ∙ ap (λ o. spliced (byte_of o) offset bytes i) (sym found))

view-with_value :
    (rt : RuntimeState) (h offset : ℕ) (bytes : List ℕ) (ch : RuntimeCharacteristic)
    → lookup h rt.characteristics_by_value_handle ≡ some ch
    → is_writable ch ≡ true
    → view (with_value rt h ch (overwrite ch.value offset bytes))
      ≡ spec_value (profile rt) h offset bytes (view rt)
view-with_value rt h offset bytes ch found open_ =
    let chars = rt.characteristics_by_value_handle in
    let asked : writable_of (lookup h chars) ≡ true =
      ap writable_of found ∙ writable_of-is_writable ch ∙ open_ in
    ap (λ f. record (view rt) { byte = f })
      (fun_ext λ k. fun_ext λ i. byte_of-insert chars h offset bytes ch found k i)
    ∙ sym (if-true _ (view rt) asked)

view-write_value :
    (rt : RuntimeState) (h offset : ℕ) (buffer : List ℕ) (size : ℕ)
    (o : Option RuntimeCharacteristic)
    → size ≤ length buffer
    → lookup h rt.characteristics_by_value_handle ≡ o
    → Shows
        (write_value rt h offset buffer size o)
        (spec_value (profile rt) h offset (take size buffer) (view rt))
view-write_value rt h offset buffer size none enough found =
    (rt, unfold write_value in refl, sym (if-false _ (view rt) (ap writable_of found)))
view-write_value rt h offset buffer size (some ch) enough found =
    elim (Bool-cases (is_writable ch)) [
      | inl open_ ↦ (
        with_value rt h ch (overwrite ch.value offset (take size buffer)),
        write_value-writable rt h offset buffer size ch open_ enough,
        view-with_value rt h offset (take size buffer) ch found open_,
      )
      | inr closed ↦ (
        rt,
        unfold write_value in rw closed refl,
        sym (if-false _ (view rt) (ap writable_of found ∙ writable_of-is_writable ch ∙ closed)),
      )
    ]

view-with_flag :
    (rt : RuntimeState) (v lo hi : ℕ) (rest : List ℕ)
    → view (with_flag rt v lo) ≡ spec_ccc v (lo ∷ hi ∷ rest) (view rt)
view-with_flag rt v lo hi rest =
    ap (λ f. record (view rt) { notifies = f })
      (fun_ext λ k. lookup-insert v k (not (lo % 2 == 0)) rt.notification_enabled)

view-write_ccc :
    (rt : RuntimeState) (v : ℕ) (buffer : List ℕ) (size : ℕ)
    → size ≤ length buffer
    → Shows (write_ccc rt v buffer size) (spec_ccc v (take size buffer) (view rt))
view-write_ccc rt v buffer zero enough = (rt, unfold write_ccc in refl, refl)
view-write_ccc rt v [] (suc zero) enough = (rt, unfold write_ccc in refl, refl)
view-write_ccc rt v (lo ∷ rest) (suc zero) enough = (rt, unfold write_ccc in refl, refl)
view-write_ccc rt v [] (suc (suc n)) enough = ground arith
view-write_ccc rt v (lo ∷ []) (suc (suc n)) enough = ground arith
view-write_ccc rt v (lo ∷ hi ∷ rest) (suc (suc n)) enough = (
  with_flag rt v lo,
  write_ccc-pair rt v lo hi (suc (suc n)) rest ∙ ground arith,
  view-with_flag rt v lo hi (take n rest),
)

pub view-write_runtime :
    (rt : RuntimeState) (h offset : ℕ) (buffer : List ℕ) (size : ℕ)
    → size ≤ length buffer
    → Shows
        (write_runtime rt h offset buffer size)
        (spec_write ((profile rt).owner h) (profile rt) h offset (take size buffer) (view rt))
view-write_runtime rt h offset buffer size enough =
    let seen_as : Option ℕ → View =
      λ o. spec_write o (profile rt) h offset (take size buffer) (view rt) in
    elim (Option-cases (lookup h rt.ccc_to_value_handle)) [
      | inl other ↦
          let (rt', returns, shown) =
            view-write_value rt h offset buffer size (lookup h rt.characteristics_by_value_handle)
              enough refl in
          (
            rt',
            write_runtime-value rt h offset buffer size other ∙ returns,
            shown ∙ sym (ap seen_as other),
          )
      | inr (v, ccc) ↦
          let (rt', returns, shown) = view-write_ccc rt v buffer size enough in
          (
            rt',
            write_runtime-ccc rt h offset buffer size v ccc ∙ returns,
            shown ∙ sym (ap seen_as ccc),
          )
    ]
