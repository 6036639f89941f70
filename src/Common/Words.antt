-- ===== src/Common/Words.antt =====
-- Machine integers: the casts to `u8` and `u16`, their little-endian bytes, and C's signed `int`.
use Prim.Native.Nat.{ℕ, ◌+◌, ◌-◌, ◌*◌, ◌/◌, ◌%◌, ◌^◌, ◌<◌}
use mathlib.Core.Path.{◌≡◌}
use mathlib.Core.List.{List, [], ◌∷◌}
use native.Mathlib.Omega.{arith}

-- `x as u8`, `x as u16`
abbrev pub as_u8 : ℕ → ℕ
as_u8 n = n % 2 ^ 8

abbrev pub as_u16 : ℕ → ℕ
as_u16 n = n % 2 ^ 16

-- `u16::to_le_bytes` and `u16::from_le_bytes`
abbrev pub to_le_bytes : ℕ → List ℕ
to_le_bytes n = n % 256 ∷ n / 256 % 256 ∷ []

abbrev pub from_le_bytes : ℕ → ℕ → ℕ
from_le_bytes lo hi = lo + 256 * hi

pub from_le_bytes-to_le_bytes : (n : ℕ) → n < 2 ^ 16 → from_le_bytes (n % 256) (n / 256 % 256) ≡ n
from_le_bytes-to_le_bytes n h = omega arith

-- C's `int`. `negsuc n` is -(n + 1).
pub data ℤ : Type 0 where
  pos : ℕ → ℤ
  negsuc : ℕ → ℤ

-- The return codes 0, 1 and -1.
abbrev pub success : ℤ
success = pos 0

abbrev pub failure : ℤ
failure = negsuc 0

-- `AtomicUsize::fetch_sub(1)` on a 64-bit machine: it wraps.
abbrev pub usize_mod : ℕ
usize_mod = 2 ^ 64

abbrev pub fetch_sub_one : ℕ → ℕ
fetch_sub_one n = (n + usize_mod - 1) % usize_mod

-- `AtomicUsize::fetch_sub(1)` undoes an increment that did not overflow.
pub fetch_sub_one-suc : (n : ℕ) → n < usize_mod → fetch_sub_one (n + 1) ≡ n
fetch_sub_one-suc n h = omega arith
