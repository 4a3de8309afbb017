-- ===== src/Common/Decimal.antt =====
-- `%d` of package fmt.
use Prim.Native.Nat.{ℕ, zero, suc, ◌+◌, ◌-◌, ◌*◌, ◌/◌, ◌%◌, ◌<◌}
use mathlib.Core.Path.{◌≡◌, sym, ap, ◌∙◌}
use mathlib.Core.Logic.{inl, inr}
use mathlib.Core.List.{[], ◌∷◌, ◌++◌, foldl, foldl-append}
use native.Mathlib.Omega.{arith}
use etcd_snapshot_driver.Common.Tests.{ltb, Bool-cases, if◌then◌else◌, ℤ, pos, negsuc}
use etcd_snapshot_driver.Common.Bytes.{Str}

-- The digits of `n`, highest first. Any fuel above `n` is enough.
unfoldable pub digits : ℕ → ℕ → Str
digits zero n = []
digits (suc f) n =
    let rest = digits f (n / 10) ++ (b'0' + n % 10) ∷ [] in
    if ltb n 10 then (b'0' + n) ∷ [] else rest

unfoldable pub itoa : ℕ → Str
unfolding digits
itoa n = digits (suc n) n

unfoldable pub itoa_ℤ : ℤ → Str
unfolding itoa
itoa_ℤ (pos n) = itoa n
itoa_ℤ (negsuc n) = b'-' ∷ itoa (suc n)

abbrev push_digit : ℕ → ℕ → ℕ
push_digit acc c = acc * 10 + (c - b'0')

-- The number that a row of digits stands for.
unfoldable pub number : Str → ℕ
number = foldl push_digit 0

number-digits : (f n : ℕ) → n < f → number (digits f n) ≡ n
unfolding digits number
number-digits zero n h = elim h [ ]
number-digits (suc f) n h = elim (Bool-cases (ltb n 10)) [
  | inl small ↦ rw small (omega arith)
  | inr large ↦ rw (large, foldl-append, number-digits f (n / 10) (ground arith)) (omega arith)
]

-- Printing loses nothing.
pub number-itoa : (n : ℕ) → number (itoa n) ≡ n
unfolding itoa
number-itoa n = number-digits (suc n) n (omega arith)

pub itoa-injective : (a b : ℕ) → itoa a ≡ itoa b → a ≡ b
itoa-injective a b h = sym (number-itoa a) ∙ ap number h ∙ number-itoa b
