-- ===== src/Common/Integer.antt =====
-- Python's integers where a sign can occur.
use Prim.Native.Nat.{ℕ}
use mathlib.Core.Bool.{Bool, true, false}
use ai_writing.Common.Equality.{Eq, leb, ltb, if◌then◌else◌}
use native.Mathlib.Decide.{ℕ_discrete}

-- `negsuc n` is -(n + 1).
pub data ℤ : Type 0 where
  pos : ℕ → ℤ
  negsuc : ℕ → ℤ

unfoldable pub ℤ-discrete : Discrete ℤ
ℤ-discrete = hlevel (ℕ_discrete)

instance abbrev pub integer_eq : Eq ℤ
integer_eq = record { dec = ℤ-discrete }

abbrev pub integer_lt : ℤ → ℤ → Bool
integer_lt (pos m) (pos n) = ltb m n
integer_lt (pos m) (negsuc n) = false
integer_lt (negsuc m) (pos n) = true
integer_lt (negsuc m) (negsuc n) = ltb n m

-- `ge=low, le=high`, for bounds that are not negative.
abbrev pub between : ℕ → ℕ → ℤ → Bool
between low high (pos n) = if leb low n then leb n high else false
between low high (negsuc n) = false
