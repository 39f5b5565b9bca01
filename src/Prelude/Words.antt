-- ===== src/Prelude/Words.antt =====
-- Machine integers as numbers with their range: the greatest values and the saturating operations.
use Prim.Native.Nat.{ℕ, ◌+◌, ◌*◌, min}

abbrev pub u8_max : ℕ
u8_max = 255

abbrev pub u32_max : ℕ
u32_max = 4294967295

abbrev pub u64_max : ℕ
u64_max = 18446744073709551615

-- `saturating_add` and `saturating_mul` of the type with the greatest value `m`.
abbrev pub saturating_add : ℕ → ℕ → ℕ → ℕ
saturating_add m a b = min (a + b) m

abbrev pub saturating_mul : ℕ → ℕ → ℕ → ℕ
saturating_mul m a b = min (a * b) m
