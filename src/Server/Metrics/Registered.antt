-- ===== src/Server/Metrics/Registered.antt =====
-- The metrics can be registered once, and no more.
use etcd_snapshot_driver.Common.{
  is_value, ℕ, Str, lit, str_eq, str_eq_refl, Bool, true, false, not, ◌&&◌, ◌||◌, leb, ◌==◌, List,
  [], ◌∷◌, ok, is_panic, >>=-ok, >>=-panic, ◌≡◌, ◌≢◌, refl, ap, ◌∙◌, Bool-cases, inl, inr, arith,
}
use etcd_snapshot_driver.Host.{Metric}
use etcd_snapshot_driver.Server.Metrics.{
  metrics, Registry, must_register, register_all, new_metrics,
}

-- The names that Prometheus allows: letters, digits and underscores, with no digit at the head. (A
-- colon is allowed too, in metric names; none is used.)
abbrev is_letter : ℕ → Bool
is_letter c = (leb b'a' c && leb c b'z') || ((leb b'A' c && leb c b'Z') || (c == b'_'))

abbrev all_word : Str → Bool
all_word [] = true
all_word (c ∷ s) = (is_letter c || (leb b'0' c && leb c b'9')) && all_word s

abbrev pub is_name : Str → Bool
is_name [] = false
is_name (c ∷ s) = is_letter c && all_word s

abbrev mentions : Str → List Str → Bool
mentions n [] = false
mentions n (m ∷ ms) = str_eq m n || mentions n ms

abbrev labels_fit : List Str → Bool
labels_fit [] = true
labels_fit (l ∷ ls) = is_name l && (not (mentions l ls) && labels_fit ls)

-- A descriptor that Prometheus accepts.
abbrev pub fits : Metric → Bool
fits m = is_name m.name && labels_fit m.labels

-- The documented behaviour of `Register`: it refuses a name that is taken, and takes the name of a
-- valid descriptor otherwise.
pub record RegistryLaws (R : Registry) : Type 0 where
  pub taken : R.State → Str → Bool
  pub register_value :
      (m : Metric) (s : R.State)
      → fits m ≡ true
      → taken s m.name ≡ false
      → is_value (R.register m s).0 ≡ true
  pub register_taken :
      (m : Metric) (s : R.State) → taken s m.name ≡ true → is_value (R.register m s).0 ≡ false
  pub register_takes :
      (m : Metric) (s : R.State)
      → is_value (R.register m s).0 ≡ true
      → (n : Str) → taken (R.register m s).1 n ≡ (str_eq m.name n || taken s n)

module _ (R : Registry) where
  must_state : (m : Metric) (s : R.State) → (must_register R m s).1 ≡ (R.register m s).1
  unfolding must_register
  must_state m s = ground arith

  must_ok :
      (m : Metric) (s : R.State)
      → is_value (R.register m s).0 ≡ true
      → (must_register R m s).0 ≡ ok tt
  unfolding must_register
  must_ok m s h = ground arith

  must_panic :
      (m : Metric) (s : R.State)
      → is_value (R.register m s).0 ≡ false
      → is_panic (must_register R m s).0 ≡ true
  unfolding must_register
  must_panic m s h = ground arith

  -- The metrics after a first one that is accepted, and after one that is refused.
  pub register_step :
      (m : Metric) (ms : List Metric) (s : R.State)
      → is_value (R.register m s).0 ≡ true
      → register_all R (m ∷ ms) s ≡ register_all R ms (R.register m s).1
  unfolding register_all
  register_step m ms s h =
      >>=-ok (must_register R m) (λ _. register_all R ms) s (must_ok m s h)
      ∙ ap (register_all R ms) (must_state m s)

  pub register_stop :
      (m : Metric) (ms : List Metric) (s : R.State)
      → is_value (R.register m s).0 ≡ false
      → is_panic (register_all R (m ∷ ms) s).0 ≡ true
  unfolding register_all
  register_stop m ms s h =
      >>=-panic (must_register R m) (λ _. register_all R ms) s (must_panic m s h)

module _ (R : Registry) (L : RegistryLaws R) where
  open L use {taken, register_value, register_taken, register_takes}

  -- Every descriptor fits, and its name is free: in the registry, and of the ones before it.
  abbrev pub AllFree : R.State → List Metric → Type 0
  AllFree s [] = Unit
  AllFree s (m ∷ ms) = (taken s m.name ≡ false) × AllFree s ms

  abbrev named_before : Str → List Metric → Bool
  named_before n [] = false
  named_before n (m ∷ ms) = str_eq n m.name || named_before n ms

  abbrev acceptable : List Metric → Bool
  acceptable [] = true
  acceptable (m ∷ ms) = fits m && (not (named_before m.name ms) && acceptable ms)

  still_free :
      (m : Metric) (s : R.State) (ms : List Metric)
      → is_value (R.register m s).0 ≡ true
      → named_before m.name ms ≡ false
      → AllFree s ms
      → AllFree (R.register m s).1 ms
  still_free m s [] h distinct free = tt
  still_free m s (n ∷ ms) h distinct (first, rest) =
      (ground (arith, register_takes m s h n.name), still_free m s ms h (ground arith) rest)

  register_all_ok :
      (ms : List Metric) (s : R.State)
      → acceptable ms ≡ true
      → AllFree s ms
      → (register_all R ms s).0 ≡ ok tt
  unfolding register_all
  register_all_ok [] s a f = refl
  register_all_ok (m ∷ ms) s a (first, rest) =
      let won = register_value m s (ground arith) first in
      rw (register_step R m ms s won) (
        register_all_ok ms (R.register m s).1 (ground arith)
          (still_free m s ms won (ground arith) rest))

  -- A name that is taken stays taken.
  register_all_keeps :
      (ms : List Metric) (s : R.State) (n : Str)
      → taken s n ≡ true
      → (register_all R ms s).0 ≡ ok tt
      → taken (register_all R ms s).1 n ≡ true
  unfolding register_all
  register_all_keeps [] s n h e = h
  register_all_keeps (m ∷ ms) s n h e = elim (Bool-cases (is_value (R.register m s).0)) [
    | inl won ↦ rw (register_step R m ms s won) (
        register_all_keeps ms (R.register m s).1 n (ground (arith, register_takes m s won n))
          (rw (register_step R m ms s won) at e))
    | inr lost ↦ cc (rw e at (register_stop R m ms s lost))
  ]

  register_all_twice :
      (ms : List Metric) (s : R.State)
      → ms ≢ []
      → acceptable ms ≡ true
      → AllFree s ms
      → is_panic (register_all R ms (register_all R ms s).1).0 ≡ true
  register_all_twice [] s some_metric a free = absurd (some_metric refl)
  register_all_twice (m ∷ ms) s some_metric a (first, rest) =
      let won = register_value m s (ground arith) first in
      let own : taken (R.register m s).1 m.name ≡ true =
        ground (arith, register_takes m s won m.name, str_eq_refl m.name) in
      let later =
        register_all_ok ms (R.register m s).1 (ground arith)
          (still_free m s ms won (ground arith) rest) in
      let still = register_all_keeps ms (R.register m s).1 m.name own later in
      register_stop R m ms (register_all R (m ∷ ms) s).1
        (register_taken m (register_all R (m ∷ ms) s).1 (rw (register_step R m ms s won) still))

  metrics-acceptable : acceptable metrics ≡ true
  unfolding metrics lit str_eq
  metrics-acceptable = refl

  some_metric : metrics ≢ []
  unfolding metrics
  some_metric e = cc

  -- Where none of the names is taken, the metrics are made; making them once more panics. The registry
  -- takes a valid descriptor whose name is free, and refuses a name that is taken.
  pub new_metrics_once :
      (s : R.State)
      → AllFree s metrics
      → ((new_metrics R s).0 ≡ ok tt) × (is_panic (new_metrics R (new_metrics R s).1).0 ≡ true)
  unfolding new_metrics
  new_metrics_once s free = (
    register_all_ok metrics s metrics-acceptable free,
    register_all_twice metrics s some_metric metrics-acceptable free,
  )
