-- ===== src/Transport/Usb/Path.antt =====
-- `parse_usb_path` of btstack-hci-transport-nusb/src/usb.rs, with what it calls of Rust's `str`.
-- A name is `<bus>-<port>.<port>...`, as Linux's sysfs has it.
pub mod RoundTrip
pub mod Bounds
mod Tests
use btstack_rs.Common.{
  ℕ, ◌+◌, ◌-◌, ◌*◌, Bool, ◌&&◌, ◌||◌, Option, none, some, List, [], ◌∷◌, ◌++◌, ◌==◌, ltb, leb,
  if◌then◌else◌, length,
}
use btstack_rs.Transport.Constants.{usb_max_path_len}

-- `str::split_once`
split_once : ℕ → List ℕ → Option (List ℕ × List ℕ)
split_once c [] = none
split_once c (x ∷ xs) =
    if x == c
    then some ([], xs)
    else elim (split_once c xs) [ none ↦ none | some (before, after) ↦ some (x ∷ before, after) ]

abbrev push_front : ℕ → List (List ℕ) → List (List ℕ)
push_front x [] = (x ∷ []) ∷ []
push_front x (word ∷ words) = (x ∷ word) ∷ words

-- `str::split`: there is always a first part.
split : ℕ → List ℕ → List (List ℕ)
split c [] = [] ∷ []
split c (x ∷ xs) = let rest = split c xs in if x == c then [] ∷ rest else push_front x rest

-- `str::parse::<u8>`: an optional `+`, and at least one digit; a value of 256 or more is an error.
parse_digits : ℕ → List ℕ → Option ℕ
parse_digits acc [] = some acc
parse_digits acc (c ∷ cs) =
    let value : ℕ = acc * 10 + (c - b'0') in
    let rest = parse_digits value cs in
    if leb b'0' c && leb c b'9' && ltb value 256 then rest else none

abbrev is_sign : ℕ → Bool
is_sign c = c == b'+' || c == b'-'

parse_u8 : List ℕ → Option ℕ
parse_u8 [] = none
parse_u8 (c ∷ []) = if is_sign c then none else parse_digits 0 (c ∷ [])
parse_u8 (c ∷ d ∷ cs) = if c == b'+' then parse_digits 0 (d ∷ cs) else parse_digits 0 (c ∷ d ∷ cs)

-- The `for` loop over the parts of the chain.
parse_ports : List (List ℕ) → List ℕ → Option (List ℕ)
parse_ports [] path = some path
parse_ports (elem ∷ elems) path = elim (parse_u8 elem) [
  | none ↦ none
  | some port ↦ parse_ports elems (path ++ port ∷ [])
]

abbrev check_len : Option (List ℕ) → Option (List ℕ)
check_len none = none
check_len (some path) =
    if length path == 0 || ltb usb_max_path_len (length path) then none else some path

abbrev parse_chain : Option (List ℕ × List ℕ) → Option (List ℕ)
parse_chain none = none
parse_chain (some (_, chain)) = check_len (parse_ports (split b'.' chain) [])

pub parse_usb_path : List ℕ → Option (List ℕ)
parse_usb_path sysfs_name = parse_chain (split_once b'-' sysfs_name)
