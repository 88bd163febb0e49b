-- ===== src/Common/Text.antt =====
-- Python's `str` as the list of its code points, and the methods that the program calls on it.
use Prim.Native.Char.{code}
use Prim.Native.Nat.{ℕ, zero, suc, ◌+◌, ◌-◌, ◌*◌, ◌/◌, ◌%◌, ◌<◌, compare, Ordering}
use Prim.Native.String.{String}
use mathlib.Core.Bool.{Bool, true, false}
use mathlib.Core.List.{List, [], ◌∷◌, reverse}
use mathlib.Core.Path.{◌≡◌, ap, sym, ◌∙◌}
use native.Mathlib.Omega.{arith}
use ai_writing.Common.Equality.{==_iff, if◌then◌else◌, ◌==◌, nat_eq, Bool-cases}
use mathlib.Core.Logic.{inl, inr}

abbrev pub Str : Type 0
Str = List ℕ

-- A literal.
abbrev pub codes : String → Str
codes String.[] = []
codes (String.◌∷◌ c s) = code c ∷ codes s

-- `s == ""`, that is `not s`.
abbrev pub is_empty {ℓ} : {A : Type ℓ} → List A → Bool
is_empty [] = true
is_empty (_ ∷ _) = false

-- `s < t` of Python and of SQLite's BINARY collation: by code points, from the left.
unfoldable pub str_lt : Str → Str → Bool
str_lt [] [] = false
str_lt [] (_ ∷ _) = true
str_lt (_ ∷ _) [] = false
str_lt (c ∷ s) (d ∷ t) =
    let rest = str_lt s t in
    elim (compare c d) [ Ordering.lt ↦ true | Ordering.eq ↦ rest | Ordering.gt ↦ false ]

-- Drops the leading characters that pass the test.
unfoldable pub drop_while : (ℕ → Bool) → Str → Str
drop_while p [] = []
drop_while p (c ∷ s) = let rest = drop_while p s in if p c then rest else c ∷ s

-- `s.strip(chars)`, for a set of characters given by a test.
unfoldable pub strip_by : (ℕ → Bool) → Str → Str
unfolding drop_while
strip_by p s = reverse (drop_while p (reverse (drop_while p s)))

-- The digits of `n` in front of `out`; each round divides by ten, so fuel above `n` is enough.
unfoldable pub emit : ℕ → ℕ → Str → Str
emit zero n out = out
emit (suc fuel) n out =
    let rest = emit fuel (n / 10) ((b'0' + n % 10) ∷ out) in if n == 0 then out else rest

-- `str(n)`, as in an f-string.
unfoldable pub decimal : ℕ → Str
decimal n = if n == 0 then b'0' ∷ [] else emit (suc n) n []

-- The number that a text of digits stands for, after the digits of `acc`.
abbrev value : ℕ → Str → ℕ
value acc [] = acc
value acc (c ∷ s) = value (acc * 10 + (c - b'0')) s

value-emit : (fuel n : ℕ) (out : Str) → n < fuel → value 0 (emit fuel n out) ≡ value n out
unfolding emit
value-emit zero n out h = elim h [ ]
value-emit (suc fuel) n out h = elim (Bool-cases (n == 0)) [
  | inl e ↦ rw e (rw ((==_iff n 0).0 e))
  | inr e ↦ rw e (
      value-emit fuel (n / 10) ((b'0' + n % 10) ∷ out) (ground arith)
      ∙ ap (λ (m : ℕ). value m out) (omega arith))
]

pub value-decimal : (n : ℕ) → value 0 (decimal n) ≡ n
unfolding decimal
value-decimal n = elim (Bool-cases (n == 0)) [
  | inl e ↦ rw e (sym ((==_iff n 0).0 e))
  | inr e ↦ rw e (value-emit (suc n) n [] (omega arith))
]

-- Two numbers that print alike are equal.
pub decimal-injective : (m n : ℕ) → decimal m ≡ decimal n → m ≡ n
decimal-injective m n h = sym (value-decimal m) ∙ ap (value 0) h ∙ value-decimal n
