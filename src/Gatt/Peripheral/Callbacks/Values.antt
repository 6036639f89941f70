-- ===== src/Gatt/Peripheral/Callbacks/Values.antt =====
-- What a write does to the bytes of a value.
use btstack_rs.Common.{
  ℕ, ◌+◌, ◌-◌, ◌≤◌, ◌≡◌, ◌∙◌, refl, none, some, List, ◌++◌, arith, ltb, if◌then◌else◌, length,
  length-append, length-take, length-drop, length-replicate, get_elem?, take, drop, replicate,
}
use btstack_rs.Common.Index.{
  get_elem?-append, get_elem?-take, get_elem?-drop, get_elem?-replicate, get_elem?-none,
  take-append, drop-append,
}
use btstack_rs.Gatt.Peripheral.Callbacks.{grow, overwrite}

length-grow :
    (v : List ℕ) (n : ℕ)
    → (n ≤ length (grow v n))
      × (length v ≤ length (grow v n))
      × (length (grow v n) ≤ length v + (n - length v))
unfolding grow
length-grow v n =
    ground (
      arith,
      length-append v (replicate (n - length v) 0),
      length-replicate {A = ℕ} (n - length v) 0,
    )

get_elem?-grow :
    (v : List ℕ) (n i : ℕ)
    → get_elem? (grow v n) i
      ≡ (if ltb i (length v) then get_elem? v i else if ltb i n then some 0 else none)
unfolding grow
get_elem?-grow v n i = ground (
  arith,
  get_elem?-append v (replicate (n - length v) 0) i,
  get_elem?-replicate {A = ℕ} (n - length v) 0 (i - length v),
  get_elem?-none v i,
)

-- Bytes put in the place of others, in a list that is long enough.
get_elem?-splice :
    (g : List ℕ) (offset n : ℕ) (bytes : List ℕ) (i : ℕ)
    → n ≡ offset + length bytes
    → n ≤ length g
    → get_elem? (take offset g ++ (bytes ++ drop n g)) i ≡ (
        if ltb i offset
        then get_elem? g i
        else if ltb i n
        then get_elem? bytes (i - offset)
        else get_elem? g i)
get_elem?-splice g offset n bytes i e long =
    let cut : length (take offset g) ≡ offset = omega (arith, length-take offset g) in
    ground (
      arith,
      cut,
      get_elem?-append (take offset g) (bytes ++ drop n g) i,
      get_elem?-take offset g i,
      get_elem?-append bytes (drop n g) (i - offset),
      get_elem?-drop n g (i - offset - length bytes),
    )

take-drop-splice :
    (g : List ℕ) (offset n : ℕ) (bytes : List ℕ)
    → n ≡ offset + length bytes
    → n ≤ length g
    → take (length bytes) (drop offset (take offset g ++ (bytes ++ drop n g))) ≡ bytes
take-drop-splice g offset n bytes e long =
    let cut : offset ≡ length (take offset g) = omega (arith, length-take offset g) in
    rw (drop-append (take offset g) (bytes ++ drop n g) offset cut)
      (take-append bytes (drop n g) (length bytes) refl)

-- A write keeps the bytes before and behind it, fills a gap before it with zeros, and puts the bytes
-- written in their place; the value is as long as it was, or reaches to the end of the write.
pub get_elem?-overwrite :
    (v : List ℕ) (offset : ℕ) (bytes : List ℕ) (i : ℕ)
    → get_elem? (overwrite v offset bytes) i ≡ (
        if ltb i offset
        then (if ltb i (length v) then get_elem? v i else some 0)
        else if ltb i (offset + length bytes)
        then get_elem? bytes (i - offset)
        else get_elem? v i)
unfolding overwrite
get_elem?-overwrite v offset bytes i =
    let n : ℕ = offset + length bytes in
    get_elem?-splice (grow v n) offset n bytes i refl (length-grow v n).0
    ∙ ground (arith, get_elem?-grow v n i, get_elem?-none v i)

pub length-overwrite :
    (v : List ℕ) (offset : ℕ) (bytes : List ℕ)
    → (length (overwrite v offset bytes))
      ≡ (if ltb (length v) (offset + length bytes) then offset + length bytes else length v)
unfolding overwrite
length-overwrite v offset bytes =
    let n : ℕ = offset + length bytes in
    let g = grow v n in
    ground (
      arith,
      length-append (take offset g) (bytes ++ drop n g),
      length-append bytes (drop n g),
      length-take offset g,
      length-drop n g,
      length-grow v n,
    )

-- Reading where a write has been gives the bytes written.
pub take-drop-overwrite :
    (v : List ℕ) (offset : ℕ) (bytes : List ℕ)
    → take (length bytes) (drop offset (overwrite v offset bytes)) ≡ bytes
unfolding overwrite
take-drop-overwrite v offset bytes =
    let n : ℕ = offset + length bytes in
    take-drop-splice (grow v n) offset n bytes refl (length-grow v n).0
