-- ===== src/Gatt/Peripheral/Callbacks/Read.antt =====
-- What `att_read_callback` of btstack-gatt/src/peripheral.rs serves, for values of any length.
use btstack_rs.Common.{
  ◌↔◌, ◌≢◌, zero, suc, sym, refl, ◌+◌, ◌%◌, ◌^◌, ◌<◌, ℕ, ◌≡◌, ◌∙◌, ap, Option, none, some, List, [],
  ◌∷◌, arith, ltb, ◌&&◌, if◌then◌else◌, length, take, drop, as_u16, get_elem?, Bool, true, false,
}
use btstack_rs.Common.Dict.{lookup}
use btstack_rs.Common.Index.{get_elem?-take, get_elem?-drop}
use btstack_rs.Gatt.Peripheral.Btstack.{Btstack}
use btstack_rs.Gatt.Peripheral.Types.{RuntimeCharacteristic, RuntimeState}
use btstack_rs.Gatt.Peripheral.Callbacks.{att_read_callback, read_found}
use btstack_rs.Gatt.Peripheral.Callbacks.Abstract.{byte_of, view}

-- There is a byte at exactly the positions below `n`.
abbrev pub IsLength : (ℕ → Option ℕ) → ℕ → Type 0
IsLength byte n = (i : ℕ) → (i < n) ↔ (byte i ≢ none)

pub get_elem?-IsLength : (v : List ℕ) → IsLength (get_elem? v) (length v)
get_elem?-IsLength [] i = (λ h. absurd (omega (arith, h)), λ h. absurd (h refl))
get_elem?-IsLength (x ∷ v) zero = (λ h e. ground arith, λ h. omega arith)
get_elem?-IsLength (x ∷ v) (suc i) =
    let (to, from) = get_elem?-IsLength v i in
    (λ h. to (omega (arith, h)), λ h. (let less = from h in omega (arith, less)))

IsLength-le : (byte : ℕ → Option ℕ) (n m : ℕ) → IsLength byte n → IsLength byte m → ¬ n < m
IsLength-le byte n m p q h = let less : n < n = (p n).1 ((q n).0 h) in omega (arith, less)

IsLength-unique : (byte : ℕ → Option ℕ) (n m : ℕ) → IsLength byte n → IsLength byte m → n ≡ m
IsLength-unique byte n m p q = omega (arith, IsLength-le byte n m p q, IsLength-le byte m n q p)

and-if :
    (b c : Bool) (o : Option ℕ)
    → (if b then (if c then o else none) else none) ≡ (if b && c then o else none)
and-if true c o = refl
and-if false c o = refl

read_found-view :
    (𝓑 : Btstack) (offset buffer_size i n : ℕ) (o : Option RuntimeCharacteristic)
    → IsLength (byte_of o) n
    → (get_elem? (read_found 𝓑 offset (some buffer_size) o).1 i ≡ (
        if ltb i buffer_size && ltb (offset + i) (n % 2 ^ 16)
        then byte_of o (offset + i)
        else none))
      × ((read_found 𝓑 offset none o).0 ≡ n % 2 ^ 16)
unfolding read_found
read_found-view 𝓑 offset buffer_size i n none long =
    let empty : n ≡ 0 =
      IsLength-unique (λ _. none) n 0 long
        (λ k. (λ h. absurd (omega (arith, h)), λ h. absurd (h refl))) in
    (ground arith, ground arith)
read_found-view 𝓑 offset buffer_size i n (some ch) long =
    let value = ch.value in
    let same : n ≡ length value =
      IsLength-unique (get_elem? value) n (length value) long (get_elem?-IsLength value) in
    let size : as_u16 (length value) ≡ n % 2 ^ 16 = ap as_u16 (sym same) in
    (
      ap (λ reply. get_elem? reply.1 i)
            (𝓑.read_blob_lem value (as_u16 (length value)) offset buffer_size)
          ∙ get_elem?-take buffer_size (drop offset (take (as_u16 (length value)) value)) i
          ∙ ap (λ x. if ltb i buffer_size then x else none)
              (get_elem?-drop offset (take (as_u16 (length value)) value) i
                ∙ get_elem?-take (as_u16 (length value)) value (offset + i)
                ∙ ap (λ k. if ltb (offset + i) k then get_elem? value (offset + i) else none) size)
          ∙ and-if (ltb i buffer_size) (ltb (offset + i) (n % 2 ^ 16))
              (get_elem? value (offset + i)),
      ap (λ reply. reply.0) (𝓑.read_blob_null value (as_u16 (length value)) offset) ∙ size,
    )

-- A read is served from what a client can tell of the state: where the value at the handle has `n`
-- bytes, 0 if there is none, byte `i` of the reply is the one at `offset + i`, if `i` is below the
-- buffer's size and `offset + i` below `n` modulo 65536; the reply has no other bytes; and a read with a null
-- buffer, which asks for the length, returns `n` modulo 65536.
pub att_read_callback-view :
    (𝓑 : Btstack) (rt : RuntimeState) (h offset buffer_size i n : ℕ)
    → IsLength ((view rt).byte h) n
    → (get_elem? (att_read_callback 𝓑 (some rt) h offset (some buffer_size)).1 i ≡ (
        if ltb i buffer_size && ltb (offset + i) (n % 2 ^ 16)
        then (view rt).byte h (offset + i)
        else none))
      × ((att_read_callback 𝓑 (some rt) h offset none).0 ≡ n % 2 ^ 16)
unfolding att_read_callback
att_read_callback-view 𝓑 rt h offset buffer_size i n long =
    read_found-view 𝓑 offset buffer_size i n (lookup h rt.characteristics_by_value_handle) long
