-- ===== src/Transport/Usb/Path/Bounds.antt =====
-- What a path that `parse_usb_path` accepts looks like.
use btstack_rs.Common.{
  ℕ, ◌+◌, ◌-◌, ◌*◌, ◌≤◌, ◌<◌, ◌≡◌, inl, inr, some, List, [], ◌∷◌, ◌++◌, arith, length, All,
  Option-cases, length-append,
}
use btstack_rs.Transport.Constants.{usb_max_path_len}
use btstack_rs.Transport.Usb.Path.{
  split_once, split, parse_digits, parse_u8, parse_ports, parse_usb_path,
}

-- A byte.
abbrev pub IsU8 : ℕ → Type 0
IsU8 n = n < 256

parse_digits-IsU8 :
    (acc : ℕ) (cs : List ℕ) (n : ℕ) → acc < 256 → parse_digits acc cs ≡ some n → n < 256
unfolding parse_digits
parse_digits-IsU8 acc [] n small h = ground arith
parse_digits-IsU8 acc (c ∷ cs) n small h =
    ground (arith, parse_digits-IsU8 (acc * 10 + (c - b'0')) cs n)

parse_u8-IsU8 : (cs : List ℕ) (n : ℕ) → parse_u8 cs ≡ some n → n < 256
unfolding parse_u8
parse_u8-IsU8 [] n h = cc
parse_u8-IsU8 (c ∷ []) n h = ground (arith, parse_digits-IsU8 0 (c ∷ []) n)
parse_u8-IsU8 (c ∷ d ∷ cs) n h =
    ground (arith, parse_digits-IsU8 0 (c ∷ d ∷ cs) n, parse_digits-IsU8 0 (d ∷ cs) n)

All-append : (P : ℕ → Type 0) (xs : List ℕ) (y : ℕ) → All P xs → P y → All P (xs ++ y ∷ [])
All-append P [] y hx hy = (hy, tt)
All-append P (x ∷ xs) y hx hy = (hx.0, All-append P xs y hx.1 hy)

parse_ports-bounds :
    (elems : List (List ℕ)) (path : List ℕ) (ports : List ℕ)
    → All IsU8 path
    → parse_ports elems path ≡ some ports
    → All IsU8 ports × (length ports ≡ length path + length elems)
unfolding parse_ports
parse_ports-bounds [] path ports small h = ground arith
parse_ports-bounds (elem ∷ elems) path ports small h = elim (Option-cases (parse_u8 elem)) [
  | inl bad ↦ ground arith
  | inr (port, e) ↦ ground (
    arith,
    length-append path (port ∷ []),
    parse_ports-bounds elems (path ++ port ∷ []) ports
        (All-append IsU8 path port small (parse_u8-IsU8 elem port e)),
  )
]

-- An accepted path has between one and `usb_max_path_len` ports, each of them a byte.
parse_usb_path-bounds :
    (name path : List ℕ)
    → parse_usb_path name ≡ some path
    → (0 < length path) × (length path ≤ usb_max_path_len) × All IsU8 path
unfolding parse_usb_path
parse_usb_path-bounds name path h = elim (Option-cases (split_once b'-' name)) [
  | inl no_dash ↦ ground arith
  | inr ((bus, chain), e) ↦ elim (Option-cases (parse_ports (split b'.' chain) [])) [
    | inl bad ↦ ground arith
    | inr (ports, p) ↦ ground (arith, parse_ports-bounds (split b'.' chain) [] path tt)
  ]
]
