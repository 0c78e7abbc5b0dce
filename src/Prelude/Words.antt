-- ===== src/Prelude/Words.antt =====
-- Machine words: what Rust's casts and saturating operations do on 32 and 64 bits.
use Prim.Native.Nat.{ℕ, ◌+◌, ◌-◌, ◌*◌, ◌%◌, min}
use breez_sdk.Prelude.Int.{ℤ, pos, negsuc}

-- `u64` arithmetic wraps around in a release build.
abbrev pub wrap_u64 : ℕ → ℕ
wrap_u64 n = n % 18446744073709551616

-- `a - b` on `u64`.
abbrev pub sub_u64 : ℕ → ℕ → ℕ
sub_u64 a b = wrap_u64 (a + 18446744073709551616 - b)

-- `as u32` and `as u64` on an `i64` keep the low bits.
unfoldable pub as_u32 : ℤ → ℕ
as_u32 (pos n) = n % 4294967296
as_u32 (negsuc n) = 4294967295 - n % 4294967296

unfoldable pub as_u64 : ℤ → ℕ
as_u64 (pos n) = n % 18446744073709551616
as_u64 (negsuc n) = 18446744073709551615 - n % 18446744073709551616

abbrev pub saturating_add_u32 : ℕ → ℕ → ℕ
saturating_add_u32 a b = min (a + b) 4294967295

abbrev pub saturating_mul_u32 : ℕ → ℕ → ℕ
saturating_mul_u32 a b = min (a * b) 4294967295
