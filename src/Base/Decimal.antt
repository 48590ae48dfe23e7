-- ===== src/Base/Decimal.antt =====
-- Numbers in decimal, as a template literal writes them and `Number` reads them. Numbers are exact
-- here; the language's are, below 2 ^ 53.
use Prim.Native.Nat.{ℕ, zero, suc, ◌+◌, ◌-◌, ◌*◌, ◌/◌, ◌%◌, ◌<◌}
use mathlib.Core.Path.{◌≡◌, refl}
use mathlib.Core.Logic.{inl, inr}
use mathlib.Core.Bool.{Bool, true, false, ◌&&◌}
use mathlib.Core.List.{[], ◌∷◌, ◌++◌}
use native.Mathlib.Omega.{arith}
use dhf.Base.Tests.{ltb, leb, if◌then◌else◌, Bool-cases}
use dhf.Base.Texts.{Text}
use dhf.Base.Lists.{All, is_empty}

digits : ℕ → ℕ → Text
digits zero k = []
digits (suc fuel) k =
    let front = digits fuel (k / 10) in
    if ltb k 10 then (k + b'0') ∷ [] else front ++ (k % 10 + b'0') ∷ []

unfoldable pub to_decimal : ℕ → Text
unfolding digits
to_decimal k = digits (k + 1) k

unfoldable pub is_digit : ℕ → Bool
is_digit c = leb b'0' c && leb c b'9'

-- The value of a run of digits, behind the value of those before.
unfoldable pub from_decimal : ℕ → Text → ℕ
from_decimal acc [] = acc
from_decimal acc (c ∷ cs) = from_decimal (acc * 10 + (c - b'0')) cs

from_decimal-append :
    (acc : ℕ) (s t : Text) → from_decimal acc (s ++ t) ≡ from_decimal (from_decimal acc s) t
unfolding from_decimal
from_decimal-append acc [] t = refl
from_decimal-append acc (c ∷ s) t = from_decimal-append (acc * 10 + (c - b'0')) s t

from_decimal-digits : (fuel k : ℕ) → k < fuel → from_decimal 0 (digits fuel k) ≡ k
unfolding digits
from_decimal-digits zero k h = elim h [ ]
from_decimal-digits (suc fuel) k h = elim (Bool-cases (ltb k 10)) [
  | inl small ↦ rw small (unfold from_decimal in omega arith)
  | inr large ↦
      rw (large, from_decimal-append, from_decimal-digits fuel (k / 10) (ground arith))
        (unfold from_decimal in omega arith)
]

pub from_decimal-to_decimal : (k : ℕ) → from_decimal 0 (to_decimal k) ≡ k
unfolding to_decimal
from_decimal-to_decimal k = from_decimal-digits (k + 1) k (omega arith)

All-snoc :
    (s : Text) (c : ℕ)
    → All (λ x. is_digit x ≡ true) s
    → is_digit c ≡ true
    → All (λ x. is_digit x ≡ true) (s ++ c ∷ [])
All-snoc [] c v h = (h, tt)
All-snoc (x ∷ s) c v h = (v.0, All-snoc s c v.1 h)

digit_code : (d : ℕ) → d < 10 → is_digit (d + b'0') ≡ true
unfolding is_digit
digit_code d h = ground arith

digits-IsDigits : (fuel k : ℕ) → All (λ c. is_digit c ≡ true) (digits fuel k)
unfolding digits
digits-IsDigits zero k = tt
digits-IsDigits (suc fuel) k = elim (Bool-cases (ltb k 10)) [
  | inl small ↦ rw small (digit_code k (ground arith), tt)
  | inr large ↦ rw large (
      All-snoc (digits fuel (k / 10)) (k % 10 + b'0') (digits-IsDigits fuel (k / 10))
        (digit_code (k % 10) (omega arith)))
]

-- The decimal form of a number is digits, and it reads back.
pub to_decimal-IsDigits : (k : ℕ) → All (λ c. is_digit c ≡ true) (to_decimal k)
unfolding to_decimal
to_decimal-IsDigits k = digits-IsDigits (k + 1) k

snoc_is_not_empty : (s : Text) (c : ℕ) → is_empty (s ++ c ∷ []) ≡ false
snoc_is_not_empty [] c = refl
snoc_is_not_empty (x ∷ s) c = refl

digits_are_not_empty : (fuel k : ℕ) → k < fuel → is_empty (digits fuel k) ≡ false
unfolding digits
digits_are_not_empty zero k h = elim h [ ]
digits_are_not_empty (suc fuel) k h = elim (Bool-cases (ltb k 10)) [
  | inl small ↦ rw small refl
  | inr large ↦ rw large (snoc_is_not_empty (digits fuel (k / 10)) (k % 10 + b'0'))
]

pub to_decimal_is_not_empty : (k : ℕ) → is_empty (to_decimal k) ≡ false
unfolding to_decimal
to_decimal_is_not_empty k = digits_are_not_empty (k + 1) k (omega arith)
