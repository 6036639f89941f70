-- ===== src/Transport/Usb/Path/RoundTrip.antt =====
-- Printing a path as sysfs does, and parsing it back.
use btstack_rs.Common.{
  map, ap, ◌∙◌, ℕ, ◌+◌, ◌/◌, ◌%◌, ◌≤◌, ◌<◌, ◌≡◌, ◌≢◌, refl, some, List, [], ◌∷◌, ◌++◌, arith, ltb,
  if◌then◌else◌, length, All, append_assoc, append-nil,
}
use btstack_rs.Transport.Constants.{usb_max_path_len}
use btstack_rs.Transport.Usb.Path.{
  split_once, split, parse_digits, parse_u8, parse_ports, parse_usb_path,
}

-- A byte in decimal, without leading zeros.
pub decimal : ℕ → List ℕ
decimal n =
    if ltb n 10
    then (b'0' + n) ∷ []
    else if ltb n 100
    then (b'0' + n / 10) ∷ (b'0' + n % 10) ∷ []
    else (b'0' + n / 100) ∷ (b'0' + n / 10 % 10) ∷ (b'0' + n % 10) ∷ []

-- `<port>.<port>...`
pub print_chain : ℕ → List ℕ → List ℕ
print_chain port [] = decimal port
print_chain port (next ∷ ports) = decimal port ++ b'.' ∷ print_chain next ports

-- `<bus>-<port>.<port>...`
pub print_usb_path : List ℕ → ℕ → List ℕ → List ℕ
print_usb_path bus port ports = bus ++ b'-' ∷ print_chain port ports

abbrev Avoids : ℕ → List ℕ → Type 0
Avoids c = All (λ x. x ≢ c)

split_once-append :
    (c : ℕ) (before after : List ℕ)
    → Avoids c before
    → split_once c (before ++ c ∷ after) ≡ some (before, after)
unfolding split_once
split_once-append c [] after h = ground arith
split_once-append c (x ∷ before) after h = ground (arith, split_once-append c before after h.1)

split-none : (c : ℕ) (word : List ℕ) → Avoids c word → split c word ≡ word ∷ []
unfolding split
split-none c [] h = refl
split-none c (x ∷ word) h = ground (arith, split-none c word h.1)

split-append :
    (c : ℕ) (word rest : List ℕ) → Avoids c word → split c (word ++ c ∷ rest) ≡ word ∷ split c rest
unfolding split
split-append c [] rest h = ground arith
split-append c (x ∷ word) rest h = ground (arith, split-append c word rest h.1)

decimal-Avoids : (n : ℕ) → n < 256 → Avoids b'.' (decimal n)
unfolding decimal
decimal-Avoids n h = ground arith

parse_u8-decimal : (n : ℕ) → n < 256 → parse_u8 (decimal n) ≡ some n
unfolding decimal parse_u8 parse_digits
parse_u8-decimal n h = ground arith

split-print_chain :
    (port : ℕ) (ports : List ℕ)
    → All (λ p. p < 256) (port ∷ ports)
    → split b'.' (print_chain port ports) ≡ map decimal (port ∷ ports)
unfolding print_chain
split-print_chain port [] h = split-none b'.' (decimal port) (decimal-Avoids port h.0)
split-print_chain port (next ∷ ports) h =
    rw (split-append b'.' (decimal port) (print_chain next ports) (decimal-Avoids port h.0))
      (ap (◌∷◌ (decimal port)) (split-print_chain next ports h.1))

parse_ports-map :
    (ports path : List ℕ)
    → All (λ p. p < 256) ports
    → parse_ports (map decimal ports) path ≡ some (path ++ ports)
unfolding parse_ports
parse_ports-map [] path h = rw append-nil
parse_ports-map (port ∷ ports) path h =
    rw (parse_u8-decimal port h.0, parse_ports)
      (parse_ports-map ports (path ++ port ∷ []) h.1
        ∙ ap some (append_assoc path (port ∷ []) ports))

-- Every path of one to `usb_max_path_len` ports, each a byte, is parsed back from the name that
-- sysfs gives it, for a bus name without `-`.
pub parse_usb_path-print_usb_path :
    (bus : List ℕ) (port : ℕ) (ports : List ℕ)
    → All (λ c. c ≢ b'-') bus
    → All (λ p. p < 256) (port ∷ ports)
    → length (port ∷ ports) ≤ usb_max_path_len
    → parse_usb_path (print_usb_path bus port ports) ≡ some (port ∷ ports)
unfolding parse_usb_path print_usb_path
parse_usb_path-print_usb_path bus port ports no_dash small short =
    rw
      (
        split_once-append b'-' bus (print_chain port ports) no_dash,
        split-print_chain port ports small,
        parse_ports-map (port ∷ ports) [] small,
      )
      (ground arith)
