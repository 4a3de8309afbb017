-- ===== src/Common/Errors.antt =====
-- What a Go call gives back, and the calls that read and change the outside world.
use mathlib.Core.Path.{◌∙◌, ap, ◌≡◌, refl}
use mathlib.Core.Bool.{Bool, true, false}
use mathlib.Core.Logic.{◌⊎◌, inl, inr}
use mathlib.Core.List.{◌++◌}
use native.Mathlib.Omega.{arith}
use etcd_snapshot_driver.Common.Bytes.{Str, lit}

-- What the code can see of an error that comes from a library: its text, and the two answers of
-- k8s.io/apimachinery's `errors.IsNotFound` and `errors.IsAlreadyExists`.
pub record LibError : Type 0 where
  pub text : Str
  pub is_not_found : Bool
  pub is_already_exists : Bool

-- The answer of a library call.
pub data Reply (A : Type 0) : Type 0 where
  value : A → Reply A
  failure : LibError → Reply A

pub Reply-cases :
    {A : Type 0} (r : Reply A) → ((a : A) × (r ≡ value a)) ⊎ ((e : LibError) × (r ≡ failure e))
Reply-cases (value a) = inl (a, refl)
Reply-cases (failure e) = inr (e, refl)

-- The gRPC codes that the driver uses.
pub data Code : Type 0 where
  invalid_argument failed_precondition internal not_found : Code

-- `ctx.Err()` of a context that is done.
pub data CtxErr : Type 0 where
  deadline_exceeded canceled : CtxErr

-- A Go `error`.
pub data Error : Type 0 where
  errorf : Str → Error  -- fmt.Errorf without a cause
  wrapped : Str → Error → Error  -- fmt.Errorf("text: %w", err)
  lib : LibError → Error
  ctx : CtxErr → Error
  status : Code → Str → Error  -- status.Error, status.Errorf

code_text : Code → Str
code_text invalid_argument = lit "InvalidArgument"
code_text failed_precondition = lit "FailedPrecondition"
code_text internal = lit "Internal"
code_text not_found = lit "NotFound"

-- `err.Error()`
unfoldable pub error_text : Error → Str
unfolding code_text lit
error_text (errorf s) = s
error_text (wrapped s e) = s ++ (lit ": " ++ error_text e)
error_text (lib e) = e.text
error_text (ctx deadline_exceeded) = lit "context deadline exceeded"
error_text (ctx canceled) = lit "context canceled"
error_text (status c s) = lit "rpc error: code = " ++ (code_text c ++ (lit " desc = " ++ s))

-- `panic` ends the process: no handler of the driver recovers.
pub data Result (A : Type 0) : Type 0 where
  ok : A → Result A
  err : Error → Result A
  panic : Str → Result A

abbrev pub is_err : {A : Type 0} → Result A → Bool
is_err (err _) = true
is_err _ = false

abbrev pub is_value : {A : Type 0} → Reply A → Bool
is_value (value _) = true
is_value (failure _) = false

abbrev pub is_panic : {A : Type 0} → Result A → Bool
is_panic (panic _) = true
is_panic _ = false

-- A call that works on the state of the world.
abbrev pub Act : Type 0 → Type 0 → Type 0
Act S A = S → Result A × S

module _ {S A : Type 0} where
  abbrev pub pure : A → Act S A
  pure a s = (ok a, s)

  abbrev pub throw : Error → Act S A
  throw e s = (err e, s)

  abbrev pub panics : Str → Act S A
  panics m s = (panic m, s)

pub err-ne-ok : {A : Type 0} {e : Error} {a : A} → err e ≡ ok a → ⊥
err-ne-ok h = cc

pub panic-ne-ok : {A : Type 0} {p : Str} {a : A} → panic p ≡ ok a → ⊥
panic-ne-ok h = cc

infixl 5 ◌>>=◌ ◌>>◌
abbrev pub ◌>>=◌ : {S A B : Type 0} → Act S A → (A → Act S B) → Act S B
◌>>=◌ m f s =
    let (r, s') = m s in elim r [ ok a ↦ f a s' | err e ↦ (err e, s') | panic p ↦ (panic p, s') ]

abbrev pub ◌>>◌ : {S A B : Type 0} → Act S A → Act S B → Act S B
m >> k = m >>= λ _. k

-- Binding after each kind of result, and taking a successful bind apart.
module _ {S A B : Type 0} (m : Act S A) (f : A → Act S B) (s : S) where
  pub >>=-ok : {a : A} → (m s).0 ≡ ok a → (m >>= f) s ≡ f a (m s).1
  >>=-ok h = rw (h, ◌>>=◌) refl

  pub >>=-panic : is_panic (m s).0 ≡ true → is_panic ((m >>= f) s).0 ≡ true
  >>=-panic h = ground arith

  pub >>=-panic_after :
      is_err (m s).0 ≡ false
      → ((a : A) → is_panic (f a (m s).1).0 ≡ true)
      → is_panic ((m >>= f) s).0 ≡ true
  >>=-panic_after no_err later = go (m s).0 refl
    where
      go : (r : Result A) → (m s).0 ≡ r → is_panic ((m >>= f) s).0 ≡ true
      go (ok a) e = rw (e, ◌>>=◌) (later a)
      go (err x) e = cc (rw e at no_err)
      go (panic p) e = rw (e, ◌>>=◌) refl

  pub >>=-eq-ok :
      {b : B} → ((m >>= f) s).0 ≡ ok b → (a : A) × ((m s).0 ≡ ok a) × ((f a (m s).1).0 ≡ ok b)
  >>=-eq-ok {b = b} h = go (m s).0 refl
    where
      go : (r : Result A) → (m s).0 ≡ r → (a : A) × ((m s).0 ≡ ok a) × ((f a (m s).1).0 ≡ ok b)
      go (ok a) e = (a, e, rw (e, ◌>>=◌) at h)
      go (err x) e = absurd (err-ne-ok (rw (e, ◌>>=◌) at h))
      go (panic p) e = absurd (panic-ne-ok (rw (e, ◌>>=◌) at h))

pub >>=-NoPanic :
    {S A B : Type 0} (m : Act S A) (f : A → Act S B)
    → ((s : S) → is_panic (m s).0 ≡ false)
    → ((a : A) (s : S) → is_panic (f a s).0 ≡ false)
    → (s : S) → is_panic ((m >>= f) s).0 ≡ false
>>=-NoPanic {A} m f hm hf s = go (m s).0 refl
  where
    go : (r : Result A) → (m s).0 ≡ r → is_panic ((m >>= f) s).0 ≡ false
    go (ok a) e = rw (e, ◌>>=◌) (hf a (m s).1)
    go (err x) e = rw (e, ◌>>=◌) refl
    go (panic p) e = cc (rw e at (hm s))

-- `if bad { return nil, err }`
abbrev pub reject_if : {S : Type 0} → Bool → Error → Act S Unit
reject_if true e = throw e
reject_if false e = pure tt

-- A library call whose error is returned after `f` has been put around it.
abbrev pub call_or : {S A : Type 0} → (S → Reply A × S) → (LibError → Error) → Act S A
call_or m f s = let (r, s') = m s in elim r [ value a ↦ (ok a, s') | failure e ↦ (err (f e), s') ]

-- A call whose error is returned after `f` has been put around it.
abbrev pub map_err : {S A : Type 0} → (Error → Error) → Act S A → Act S A
map_err f m s =
    let (r, s') = m s in
    elim r [ ok a ↦ (ok a, s') | err e ↦ (err (f e), s') | panic p ↦ (panic p, s') ]

-- A call whose error is logged and dropped.
abbrev pub logged : {S A : Type 0} → Act S A → Act S Unit
logged m s =
    let (r, s') = m s in
    elim r [ ok _ ↦ (ok tt, s') | err _ ↦ (ok tt, s') | panic p ↦ (panic p, s') ]

-- A clock or another source that cannot fail.
abbrev pub read : {S A : Type 0} → (S → A × S) → Act S A
read m s = let (a, s') = m s in (ok a, s')

-- A call that answers is followed by what comes next.
pub after_call :
    {S A B : Type 0} (m : S → Reply A × S) (f : LibError → Error) (k : A → Act S B) (s : S) {a : A}
    → (m s).0 ≡ value a
    → (call_or m f >>= k) s ≡ k a (m s).1
after_call m f k s e =
    >>=-ok (call_or m f) k s (rw (e, call_or) refl) ∙ ap (k _) (rw (e, call_or) refl)

-- A call that fails ends the chain.
pub failed_call :
    {S A B : Type 0} (m : S → Reply A × S) (f : LibError → Error) (k : A → Act S B) (s : S)
    {x : LibError}
    → (m s).0 ≡ failure x
    → ((call_or m f >>= k) s).0 ≡ err (f x)
failed_call m f k s e = ground arith

-- A call that succeeds under a changed error succeeds, and the change leaves the state alone.
pub map_err-ok :
    {S A : Type 0} (f : Error → Error) (m : Act S A) (s : S) {a : A}
    → (map_err f m s).0 ≡ ok a
    → (m s).0 ≡ ok a
map_err-ok {A = A} f m s {a} h = go (m s).0 refl
  where
    go : (r : Result A) → (m s).0 ≡ r → (m s).0 ≡ ok a
    go (ok b) e = e ∙ (rw (e, map_err) at h)
    go (err x) e = cc (rw (e, map_err) at h)
    go (panic x) e = cc (rw (e, map_err) at h)

pub map_err_state :
    {S A : Type 0} (f : Error → Error) (m : Act S A) (s : S) → (map_err f m s).1 ≡ (m s).1
map_err_state f m s = ground arith
