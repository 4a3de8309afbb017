-- ===== src/Server/Listener.antt =====
-- `setupListener` (internal/driver/driver.go).
pub mod Endpoint
use etcd_snapshot_driver.Common.{
  ℕ, Str, lit, length, drop, take, str_eq, Bool, true, false, Option, none, some, List, [], ◌∷◌,
  ◌++◌, ◌&&◌, ◌==◌, Reply, value, failure, Error, errorf, wrapped, lib, Result, ok, err, panic, Act,
  pure, throw, panics, call_or, ◌>>=◌, ◌>>◌,
}
use etcd_snapshot_driver.Volume.{last_slash}
use etcd_snapshot_driver.Host.{Host}

-- strings.HasPrefix
unfoldable pub has_prefix : Str → Str → Bool
has_prefix s [] = true
has_prefix [] (_ ∷ _) = false
has_prefix (a ∷ s) (b ∷ t) = (a == b) && has_prefix s t

-- strings.TrimPrefix, of a text that has the prefix
abbrev pub trim_prefix : Str → Str → Str
trim_prefix s t = drop (length t) s

abbrev pub unix_scheme : Str
unix_scheme = lit "unix://"

module _ (H : Host) where
  -- `os.Remove`; its error, where there is one, is logged.
  abbrev pub removed : Str → Act H.State Unit
  removed address s = let (_, s') = H.remove_file address s in pure tt s'

  -- `address[:strings.LastIndex(address, "/")]`, where LastIndex gives -1 if there is no slash
  abbrev pub directory : Str → Option ℕ → Act H.State Str
  directory address none = panics (lit "runtime error: slice bounds out of range [:-1]")
  directory address (some i) = pure (take i address)

  unfoldable pub listen_at : Str → Act H.State H.Listener
  listen_at address = do
    removed address
    dir ← directory address (last_slash address (length address))
    call_or (H.mkdir_all dir) (λ e. wrapped (lit "failed to create socket directory") (lib e))
    call_or (H.listen_unix address) (λ e. wrapped (lit "failed to listen on unix socket") (lib e))

  unfoldable pub setup_listener : Str → Act H.State H.Listener
  unfolding has_prefix listen_at
  setup_listener end_point = elim (has_prefix end_point unix_scheme) [
    | true ↦ listen_at (trim_prefix end_point unix_scheme)
    | false ↦ throw (errorf (lit "unsupported endpoint format: " ++ end_point))
  ]
