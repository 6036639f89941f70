-- ===== src/Transport/Usb/Path/Tests.antt =====
-- Runs of the path parser, and its theorems at concrete names.
use btstack_rs.Common.{ℕ, ◌≡◌, refl, none, some, List, [], ◌∷◌, arith}
use btstack_rs.Transport.Usb.Path.{
  split_once, split, parse_digits, parse_u8, parse_ports, parse_usb_path,
}
use btstack_rs.Transport.Usb.Path.RoundTrip.{print_usb_path, parse_usb_path-print_usb_path}

-- `1-4.2`
abbrev name : List ℕ
name = b'1' ∷ b'-' ∷ b'4' ∷ b'.' ∷ b'2' ∷ []

name-parses : parse_usb_path name ≡ some (4 ∷ 2 ∷ [])
unfolding parse_usb_path split_once split parse_ports parse_u8 parse_digits
name-parses = refl

-- A root hub, `usb1`, has no path.
root_hub : parse_usb_path (b'u' ∷ b's' ∷ b'b' ∷ b'1' ∷ []) ≡ none
unfolding parse_usb_path split_once
root_hub = refl

-- `1-`, `1-256` and `1-2:1.0` are refused, `1-+7` is not.
empty_chain : parse_usb_path (b'1' ∷ b'-' ∷ []) ≡ none
unfolding parse_usb_path split_once split parse_ports parse_u8
empty_chain = refl

port_overflow : parse_usb_path (b'1' ∷ b'-' ∷ b'2' ∷ b'5' ∷ b'6' ∷ []) ≡ none
unfolding parse_usb_path split_once split parse_ports parse_u8 parse_digits
port_overflow = refl

interface_name : parse_usb_path (b'1' ∷ b'-' ∷ b'2' ∷ b':' ∷ b'1' ∷ b'.' ∷ b'0' ∷ []) ≡ none
unfolding parse_usb_path split_once split parse_ports parse_u8 parse_digits
interface_name = refl

plus_sign : parse_usb_path (b'1' ∷ b'-' ∷ b'+' ∷ b'7' ∷ []) ≡ some (7 ∷ [])
unfolding parse_usb_path split_once split parse_ports parse_u8 parse_digits
plus_sign = refl

parse_usb_path-print_usb_path_example :
    parse_usb_path (print_usb_path (b'1' ∷ []) 14 (2 ∷ 107 ∷ [])) ≡ some (14 ∷ 2 ∷ 107 ∷ [])
parse_usb_path-print_usb_path_example =
    parse_usb_path-print_usb_path (b'1' ∷ []) 14 (2 ∷ 107 ∷ []) (omega arith) (omega arith)
      (omega arith)

abbrev ports : List ℕ
ports = 4 ∷ 2 ∷ []
