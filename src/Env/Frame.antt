-- ===== src/Env/Frame.antt =====
-- What the calls of the environment leave as it was, and how chains of calls inherit that.
use etcd_snapshot_driver.Common.{
  Str, Bool, true, false, Option, List, ℤ, LibError, Reply, value, failure, Error, Result, ok, err,
  panic, Act, reject_if, logged, arith, call_or, map_err, ◌>>=◌, ◌≡◌, refl,
}
use etcd_snapshot_driver.Env.{Env}

-- A call that keeps the property `P` of the state, however it ends.
abbrev pub Keeps : {S A : Type 0} → (S → Type 0) → Act S A → Type 0
Keeps P m = (s : _) → P s → P (m s).1

module _ {S : Type 0} (P : S → Type 0) {A : Type 0} where
  pub >>=-Keeps :
      {B : Type 0} (m : Act S A) (f : A → Act S B)
      → Keeps P m
      → ((a : A) → Keeps P (f a))
      → Keeps P (m >>= f)
  >>=-Keeps {B} m f hm hf s p = go (m s).0 refl
    where
      go : (r : Result A) → (m s).0 ≡ r → P ((m >>= f) s).1
      go (ok a) e = rw (e, ◌>>=◌) (hf a (m s).1 (hm s p))
      go (err x) e = rw (e, ◌>>=◌) (hm s p)
      go (panic x) e = rw (e, ◌>>=◌) (hm s p)

  pub call_or-Keeps :
      (m : S → Reply A × S) (f : LibError → Error)
      → ((s : S) → P s → P (m s).1)
      → Keeps P (call_or m f)
  call_or-Keeps m f h s p = go (m s).0 refl
    where
      go : (r : Reply A) → (m s).0 ≡ r → P (call_or m f s).1
      go (value a) e = rw (e, call_or) (h s p)
      go (failure x) e = rw (e, call_or) (h s p)

  pub map_err-Keeps : (f : Error → Error) (m : Act S A) → Keeps P m → Keeps P (map_err f m)
  map_err-Keeps f m h s p = go (m s).0 refl
    where
      go : (r : Result A) → (m s).0 ≡ r → P (map_err f m s).1
      go (ok a) e = rw (e, map_err) (h s p)
      go (err x) e = rw (e, map_err) (h s p)
      go (panic x) e = rw (e, map_err) (h s p)

pub logged-Keeps : {S A : Type 0} (P : S → Type 0) (m : Act S A) → Keeps P m → Keeps P (logged m)
logged-Keeps P m k s h = let kept = k s h in ground arith

pub reject_if-Keeps :
    {S : Type 0} (P : S → Type 0) (b : Bool) (e : Error) → Keeps P (reject_if {S = S} b e)
reject_if-Keeps P true e s p = p
reject_if-Keeps P false e s p = p

-- The calls that read keep `P`.
pub record ReadsKeep (E : Env) (P : E.State → Type 0) : Type 0 where
  pub now : (s : E.State) → P s → P (E.now s).1
  pub ticks : (t : ℤ) (s : E.State) → P s → P (E.ticks t s).1
  pub get_pvc : (ns name : Str) (s : E.State) → P s → P (E.get_pvc ns name s).1
  pub list_pods : (ns sel : Str) (s : E.State) → P s → P (E.list_pods ns sel s).1
  pub pod_logs : (ns name : Str) (s : E.State) → P s → P (E.pod_logs ns name s).1
  pub get_config_map : (ns name : Str) (s : E.State) → P s → P (E.get_config_map ns name s).1
  pub get_job : (ns name : Str) (s : E.State) → P s → P (E.get_job ns name s).1
  pub new_client :
      (urls : List Str) (tls : Option E.TlsConfig) (s : E.State)
      → P s
      → P (E.new_client urls tls s).1
  pub member_list : (c : E.Client) (s : E.State) → P s → P (E.member_list c s).1
  pub get_key : (c : E.Client) (key : Str) (s : E.State) → P s → P (E.get_key c key s).1
  pub close_client : (c : Option E.Client) (s : E.State) → P s → P (E.close_client c s).1
