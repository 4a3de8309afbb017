-- ===== src/Controller/Types/Unique.antt =====
-- Which requests get the same identifier.
use etcd_snapshot_driver.Common.{
  ℕ, zero, suc, ◌/◌, Str, lit, [], ◌∷◌, ◌++◌, ltb, ◌≡◌, ◌≢◌, refl, Bool-cases, inl, inr, arith,
}
use etcd_snapshot_driver.Common.Decimal.{digits, itoa, itoa-injective}
use etcd_snapshot_driver.Controller.Types.{unix, stamped}

-- A text without the byte `c`.
abbrev IsFree : ℕ → Str → Type 0
IsFree c [] = Unit
IsFree c (d ∷ s) = (d ≢ c) × IsFree c s

IsFree-append : (c : ℕ) (s t : Str) → IsFree c s → IsFree c t → IsFree c (s ++ t)
IsFree-append c [] t p q = q
IsFree-append c (d ∷ s) t (n, p) q = (n, IsFree-append c s t p q)

not_free : (c : ℕ) (s t : Str) → IsFree c (s ++ c ∷ t) → ⊥
not_free c [] t (n, _) = n refl
not_free c (_ ∷ s) t (_, p) = not_free c s t p

-- The last dash splits a text in one way.
last_split :
    (c : ℕ) (s s' t t' : Str)
    → IsFree c t
    → IsFree c t'
    → s ++ c ∷ t ≡ s' ++ c ∷ t'
    → (s ≡ s') × (t ≡ t')
last_split c [] [] t t' p q e = (refl, cc)
last_split c [] (d ∷ s') t t' p q e =
    let same : t ≡ s' ++ c ∷ t' = cc in absurd (not_free c s' t' (rw (← same) p))
last_split c (d ∷ s) [] t t' p q e =
    let same : t' ≡ s ++ c ∷ t = cc in absurd (not_free c s t (rw (← same) q))
last_split c (d ∷ s) (d' ∷ s') t t' p q e =
    let head : d ≡ d' = cc in
    let (first, second) = last_split c s s' t t' p q cc in (cc (head, first), second)

digits-IsFree : (f n : ℕ) → IsFree b'-' (digits f n)
unfolding digits
digits-IsFree zero n = tt
digits-IsFree (suc f) n = elim (Bool-cases (ltb n 10)) [
  | inl small ↦ rw small (λ e. omega arith, tt)
  | inr large ↦
      rw large
        (IsFree-append b'-' (digits f (n / 10)) _ (digits-IsFree f (n / 10)) (λ e. omega arith, tt))
]

itoa-IsFree : (n : ℕ) → IsFree b'-' (itoa n)
unfolding itoa
itoa-IsFree n = digits-IsFree (suc n) n

-- Two requests get the same group ID only if they have the same name and were served within the same
-- second.
pub stamped-injective :
    (s s' : Str) (t t' : ℕ) → stamped s t ≡ stamped s' t' → (s ≡ s') × (unix t ≡ unix t')
unfolding stamped lit
stamped-injective s s' t t' e =
    let (names, times) =
      last_split b'-' s s' (itoa (unix t)) (itoa (unix t')) (itoa-IsFree (unix t))
        (itoa-IsFree (unix t')) e in
    (names, itoa-injective (unix t) (unix t') times)
