-- ===== src/Common/Int.antt =====
-- The C type `int` where negative values occur: return codes, process and file ids.
use Prim.Native.Nat.{ℕ}

-- `negsuc n` is -(n + 1).
pub data ℤ : Type 0 where
  pos : ℕ → ℤ
  negsuc : ℕ → ℤ

-- The error code -1; also NOFILE and NOPROC.
abbrev pub minus_one : ℤ
minus_one = negsuc 0
