-- ===== src/Command/Settings.antt =====
-- `SetupViper` and `LoadOptions` (cmd/etcd-snapshot-driver/options.go): the calls of viper.
use etcd_snapshot_driver.Common.{Str, lit, value, failure, wrapped, lib, Act, call_or}
use etcd_snapshot_driver.Host.{Host}
use etcd_snapshot_driver.Command.Flags.{flags}

module _ (H : Host) where
  unfoldable pub setup_viper : Act H.State H.Viper
  unfolding flags
  setup_viper = call_or (H.bind_flags flags) (λ e. wrapped (lit "binding flags") (lib e))

  -- The type and the place of the file, and the variables of the environment.
  abbrev pub with_sources : Str → H.Viper → H.Viper
  with_sources cfg_file v = H.automatic_env (
      H.set_env_key_replacer (lit "-") (lit "_")
        (H.set_config_file cfg_file (H.set_config_type (lit "yaml") v)))

  -- A file that cannot be read is no error; one that was read is watched.
  unfoldable pub load_options : Str → H.Viper → H.State → H.Viper × H.State
  load_options cfg_file v s =
      let ((reply, w), s₁) = H.read_in_config (with_sources cfg_file v) s in
      elim reply [ value _ ↦ H.watch_config w s₁ | failure _ ↦ (w, s₁) ]
