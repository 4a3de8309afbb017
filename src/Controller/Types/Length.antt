-- ===== src/Controller/Types/Length.antt =====
-- How long the identifiers are.
use etcd_snapshot_driver.Common.{
  ℕ, zero, suc, ◌+◌, ◌*◌, ◌/◌, ◌≤◌, ◌<◌, Str, lit, ltb, length, length-append, Bool-cases, inl, inr,
  arith,
}
use etcd_snapshot_driver.Common.Decimal.{digits, itoa}
use etcd_snapshot_driver.Controller.Types.{unix, stamped}

-- The least number with `k + 1` digits.
abbrev least : ℕ → ℕ
least zero = 1
least (suc k) = 10 * least k

least-positive : (k : ℕ) → 1 ≤ least k
least-positive zero = omega arith
least-positive (suc k) = let below = least-positive k in omega arith

length-digits : (k f n : ℕ) → n < f → least k ≤ n → k < length (digits f n)
unfolding digits
length-digits k zero n h large = elim h [ ]
length-digits zero (suc f) n h large = elim (Bool-cases (ltb n 10)) [
  | inl small ↦ rw small (omega arith)
  | inr big ↦ rw (big, length-append (digits f (n / 10)) _) (omega arith)
]
length-digits (suc k) (suc f) n h large = elim (Bool-cases (ltb n 10)) [
  | inl small ↦ absurd (let below = least-positive k in ground arith)
  | inr big ↦
      let shorter = length-digits k f (n / 10) (ground arith) (omega arith) in
      rw (big, length-append (digits f (n / 10)) _) (omega (arith, shorter))
]

-- A time stamp of this century has ten digits at least.
pub length-stamped :
    (s : Str) (t : ℕ) → 1000000000000000000 ≤ t → length s + 11 ≤ length (stamped s t)
unfolding stamped lit itoa
length-stamped s t late =
    let ten = length-digits 9 (suc (unix t)) (unix t) (omega arith) (omega arith) in
    rw (length-append s) (omega (arith, ten))
