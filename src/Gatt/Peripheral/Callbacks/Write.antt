-- ===== src/Gatt/Peripheral/Callbacks/Write.antt =====
-- The write callback, and a read after it.
use btstack_rs.Common.{
  ℕ, ◌+◌, ◌-◌, ltb, get_elem?, ◌*◌, ◌%◌, ◌^◌, ◌≤◌, ◌<◌, ◌≡◌, ◌≢◌, ◌∙◌, sym, refl, ap, true, not,
  Option, none, some, List, [], ◌∷◌, arith, leb, ◌==◌, if◌then◌else◌, length, take, drop, as_u16,
  take-length, length-take, pos, Option-cases, Bool-cases, inl, inr,
}
use btstack_rs.Common.Dict.{lookup, insert, lookup-insert}
use btstack_rs.Common.Index.{get_elem?-take}
use btstack_rs.Gatt.Peripheral.Types.{RuntimeCharacteristic, RuntimeState}
use btstack_rs.Gatt.Peripheral.Btstack.{Btstack, copied}
use btstack_rs.Gatt.Peripheral.Callbacks.{
  overwrite, is_writable, write_ccc, with_value, write_value, write_runtime, att_write_callback,
  att_read_callback, read_found,
}
use btstack_rs.Gatt.Peripheral.Callbacks.Values.{
  length-overwrite, get_elem?-overwrite, take-drop-overwrite,
}

-- The state after a CCC write: only the flag of one characteristic is set, to bit 0 of the value.
abbrev pub with_flag : RuntimeState → ℕ → ℕ → RuntimeState
with_flag rt v lo = record rt {
  notification_enabled = insert v (not (lo % 2 == 0)) rt.notification_enabled;
}

pub write_ccc-pair :
    (rt : RuntimeState) (v lo hi size : ℕ) (rest : List ℕ)
    → write_ccc rt v (lo ∷ hi ∷ rest) size
      ≡ (if leb 2 size then some (with_flag rt v lo) else some rt)
unfolding write_ccc
write_ccc-pair rt v lo hi size rest =
    let even : (lo + 256 * hi) % 2 ≡ lo % 2 = omega arith in rw even

write_ccc-total :
    (rt : RuntimeState) (v : ℕ) (buffer : List ℕ) (size : ℕ)
    → size ≤ length buffer
    → (rt' : RuntimeState) × (write_ccc rt v buffer size ≡ some rt')
write_ccc-total rt v [] size h = (rt, unfold write_ccc in ground arith)
write_ccc-total rt v (lo ∷ []) size h = (rt, unfold write_ccc in ground arith)
write_ccc-total rt v (lo ∷ hi ∷ rest) size h = elim (Bool-cases (leb 2 size)) [
  | inr short ↦ (rt, rw (write_ccc-pair rt v lo hi size rest, short))
  | inl long ↦ (with_flag rt v lo, rw (write_ccc-pair rt v lo hi size rest, long))
]

write_value-total :
    (rt : RuntimeState) (handle offset : ℕ) (buffer : List ℕ) (size : ℕ)
    (o : Option RuntimeCharacteristic)
    → size ≤ length buffer
    → (rt' : RuntimeState) × (write_value rt handle offset buffer size o ≡ some rt')
unfolding write_value
write_value-total rt handle offset buffer size none h = (rt, refl)
write_value-total rt handle offset buffer size (some ch) h = elim (Bool-cases (is_writable ch)) [
  | inr closed ↦ (rt, rw closed)
  | inl open_ ↦
      (with_value rt handle ch (overwrite ch.value offset (take size buffer)), ground arith)
]

pub write_runtime-ccc :
    (rt : RuntimeState) (handle offset : ℕ) (buffer : List ℕ) (size v : ℕ)
    → lookup handle rt.ccc_to_value_handle ≡ some v
    → write_runtime rt handle offset buffer size ≡ write_ccc rt v buffer size
write_runtime-ccc rt handle offset buffer size v ccc =
    unfold write_runtime in rw (ccc, write_runtime) refl

pub write_runtime-value :
    (rt : RuntimeState) (handle offset : ℕ) (buffer : List ℕ) (size : ℕ)
    → lookup handle rt.ccc_to_value_handle ≡ none
    → write_runtime rt handle offset buffer size
      ≡ write_value rt handle offset buffer size (lookup handle rt.characteristics_by_value_handle)
write_runtime-value rt handle offset buffer size other =
    unfold write_runtime in rw (other, write_runtime) refl

pub write_runtime-total :
    (rt : RuntimeState) (handle offset : ℕ) (buffer : List ℕ) (size : ℕ)
    → size ≤ length buffer
    → (rt' : RuntimeState) × (write_runtime rt handle offset buffer size ≡ some rt')
write_runtime-total rt handle offset buffer size h =
    elim (Option-cases (lookup handle rt.ccc_to_value_handle)) [
      | inl other ↦
          let (rt', e) =
            write_value-total rt handle offset buffer size
              (lookup handle rt.characteristics_by_value_handle) h in
          (rt', write_runtime-value rt handle offset buffer size other ∙ e)
      | inr (v, ccc) ↦
          let (rt', e) = write_ccc-total rt v buffer size h in
          (rt', write_runtime-ccc rt handle offset buffer size v ccc ∙ e)
    ]

pub att_write_callback-some :
    (rt rt' : RuntimeState) (handle offset : ℕ) (buffer : List ℕ) (size : ℕ)
    → write_runtime rt handle offset buffer size ≡ some rt'
    → att_write_callback (some rt) handle offset (some buffer) size ≡ some (some rt', pos 0)
att_write_callback-some rt rt' handle offset buffer size e =
    unfold att_write_callback in rw (e, att_write_callback) refl

pub write_value-writable :
    (rt : RuntimeState) (handle offset : ℕ) (buffer : List ℕ) (size : ℕ)
    (ch : RuntimeCharacteristic)
    → is_writable ch ≡ true
    → size ≤ length buffer
    → write_value rt handle offset buffer size (some ch)
      ≡ some (with_value rt handle ch (overwrite ch.value offset (take size buffer)))
unfolding write_value
write_value-writable rt handle offset buffer size ch open_ enough = rw open_ (ground arith)

-- Reading back what a write has put at the same place.
read_found-overwrite :
    (𝓑 : Btstack) (ch : RuntimeCharacteristic) (offset size : ℕ) (bytes : List ℕ)
    → length bytes ≡ size
    → offset + size < 2 ^ 16
    → length ch.value < 2 ^ 16
    → read_found 𝓑 offset (some size) (some (record ch { value = overwrite ch.value offset bytes }))
      ≡ (size, bytes)
unfolding read_found
read_found-overwrite 𝓑 ch offset size bytes e fits short =
    let v' : List ℕ = overwrite ch.value offset bytes in
    let narrow : as_u16 (length v') ≡ length v' =
      ground (arith, length-overwrite ch.value offset bytes) in
    𝓑.read_blob_lem v' (as_u16 (length v')) offset size
    ∙ ap copied (
        ap (λ n. take size (drop offset (take n v'))) narrow
        ∙ ap (λ l. take size (drop offset l)) (take-length v')
        ∙ ap (λ n. take n (drop offset v')) (sym e)
        ∙ take-drop-overwrite ch.value offset bytes)
    ∙ ap (λ n. (n, bytes)) e

lookup-with_value :
    (rt : RuntimeState) (handle k : ℕ) (ch : RuntimeCharacteristic) (value : List ℕ)
    → lookup k (with_value rt handle ch value).characteristics_by_value_handle ≡ (
        if handle == k
        then some (record ch { value = value })
        else lookup k rt.characteristics_by_value_handle)
lookup-with_value rt handle k ch value =
    lookup-insert handle k (record ch { value = value }) rt.characteristics_by_value_handle

-- Byte by byte, the value after a write of `size` bytes of a buffer at an offset: the bytes before and
-- behind the write are the old ones, a gap before it is filled with zeros, and its length is the old
-- one, or the end of the write.
abbrev pub IsSpliced : List ℕ → ℕ → ℕ → List ℕ → List ℕ → Type 0
IsSpliced old offset size buffer value =
    (length value ≡ (if ltb (length old) (offset + size) then offset + size else length old))
    × ((i : ℕ)
        → get_elem? value i ≡ (
            if ltb i offset
            then (if ltb i (length old) then get_elem? old i else some 0)
            else if ltb i (offset + size)
            then get_elem? buffer (i - offset)
            else get_elem? old i))

overwrite-IsSpliced :
    (v : List ℕ) (offset size : ℕ) (buffer : List ℕ)
    → size ≤ length buffer
    → IsSpliced v offset size buffer (overwrite v offset (take size buffer))
overwrite-IsSpliced v offset size buffer enough =
    let full : length (take size buffer) ≡ size = ground (arith, length-take size buffer) in
    (
      ground (arith, full, length-overwrite v offset (take size buffer)),
      λ i. ground (
        arith,
        full,
        get_elem?-overwrite v offset (take size buffer) i,
        get_elem?-take size buffer (i - offset),
      ),
    )

-- A write to a writable characteristic can be read back: the bytes written, and their number, come
-- back from a read at the same offset, if the value stays below 65536 bytes. The characteristic
-- keeps everything but its value, and the value every byte before and behind the write, a gap before
-- it being filled with zeros; the other characteristics and the rest of the state are as they were.
pub att_read_callback-att_write_callback :
    (𝓑 : Btstack) (rt : RuntimeState) (handle offset : ℕ) (buffer : List ℕ) (size : ℕ)
    (ch : RuntimeCharacteristic)
    → lookup handle rt.ccc_to_value_handle ≡ none
    → lookup handle rt.characteristics_by_value_handle ≡ some ch
    → is_writable ch ≡ true
    → size ≤ length buffer
    → offset + size < 2 ^ 16
    → length ch.value < 2 ^ 16
    → (rt' : RuntimeState) × (att_write_callback (some rt) handle offset (some buffer) size
        ≡ some (some rt', pos 0))
      × (att_read_callback 𝓑 (some rt') handle offset (some size) ≡ (size, take size buffer))
      × ((k : ℕ)
          → k ≢ handle
          → lookup k rt'.characteristics_by_value_handle
            ≡ lookup k rt.characteristics_by_value_handle)
      × ((value : List ℕ) × (lookup handle rt'.characteristics_by_value_handle
            ≡ some (record ch { value = value }))
          × IsSpliced ch.value offset size buffer value)
      × (record rt' { characteristics_by_value_handle = rt.characteristics_by_value_handle } ≡ rt)
att_read_callback-att_write_callback 𝓑 rt handle offset buffer size ch other found open_ enough fits
      short =
    let bytes : List ℕ = take size buffer in
    let value : List ℕ = overwrite ch.value offset bytes in
    let rt' : RuntimeState = with_value rt handle ch value in
    let here : (if handle == handle
          then some (record ch { value = value })
          else lookup handle rt.characteristics_by_value_handle)
        ≡ some (record ch { value = value }) =
      ground arith in
    let full : length bytes ≡ size = ground (arith, length-take size buffer) in
    (
      rt',
      att_write_callback-some rt rt' handle offset buffer size (
          write_runtime-value rt handle offset buffer size other
          ∙ ap (write_value rt handle offset buffer size) found
          ∙ write_value-writable rt handle offset buffer size ch open_ enough),
      unfold att_read_callback in
          (ap (read_found 𝓑 offset (some size)) (lookup-with_value rt handle handle ch value ∙ here)
            ∙ read_found-overwrite 𝓑 ch offset size bytes full fits short),
      λ k ne. lookup-with_value rt handle k ch value ∙ ground arith,
      (
        value,
        lookup-with_value rt handle handle ch value ∙ here,
        overwrite-IsSpliced ch.value offset size buffer enough,
      ),
      refl,
    )
