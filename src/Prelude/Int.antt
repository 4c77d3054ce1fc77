-- ===== src/Prelude/Int.antt =====
-- Go's signed integers, as mathematical ones: `negsuc n` is -(n + 1).
use Prim.Native.Nat.{ℕ}
use mathlib.Core.Bool.{Bool, true, false}
use gongcli_mcp.Prelude.Tests.{ltb, nat_eq}

pub data ℤ : Type 0 where
  pos : ℕ → ℤ
  negsuc : ℕ → ℤ

-- v <= 0
abbrev pub is_nonpos : ℤ → Bool
is_nonpos (pos n) = nat_eq n 0
is_nonpos (negsuc n) = true

-- v == n, for a numeral n
abbrev pub is_nat : ℤ → ℕ → Bool
is_nat (pos m) n = nat_eq m n
is_nat (negsuc m) n = false

-- n < v, for a natural number n
abbrev pub exceeds : ℤ → ℕ → Bool
exceeds (pos m) n = ltb n m
exceeds (negsuc m) n = false
