-- ===== src/Command/Flags.antt =====
-- `SetupViper` (cmd/etcd-snapshot-driver/options.go): the flags and their defaults.
use etcd_snapshot_driver.Common.{Str, lit, String, Bool, true, false, List, [], ◌∷◌, ℤ, pos}

pub data Default : Type 0 where
  string_flag : Str → Default
  duration_flag : ℤ → Default  -- nanoseconds
  int32_flag : ℤ → Default
  int64_flag : ℤ → Default
  bool_flag : Bool → Default

-- A flag without its help text.
pub record Flag : Type 0 where
  pub name : Str
  pub default : Default

abbrev text_flag : String → String → Flag
text_flag name default = record { name = lit name; default = string_flag (lit default) }

abbrev typed_flag : String → Default → Flag
typed_flag name default = record { name = lit name; default = default }

unfoldable pub flags : List Flag
flags =
    text_flag "csi-endpoint" "unix:///var/lib/kubelet/plugins/etcd-snapshot-driver/csi.sock"
    ∷ text_flag "driver-name" "etcd-snapshot-driver"
    ∷ text_flag "etcd-namespace" "etcd"
    ∷ text_flag "cluster-label-key" "etcd.io/cluster"
    ∷ typed_flag "snapshot-timeout" (duration_flag (pos 300000000000))
    ∷ typed_flag "job-backoff-limit" (int32_flag (pos 3))
    ∷ typed_flag "job-active-deadline" (int64_flag (pos 600))
    ∷ text_flag "default-storage-class" "standard"
    ∷ text_flag "snapshot-pvc-size" "10Gi"
    ∷ typed_flag "etcd-tls-enabled" (bool_flag true)
    ∷ text_flag "etcd-tls-secret-name" "etcd-client-tls"
    ∷ text_flag "etcd-tls-secret-namespace" ""
    ∷ text_flag "etcd-client-cert-path" "/etc/etcd/tls/client/etcd-client.crt"
    ∷ text_flag "etcd-client-key-path" "/etc/etcd/tls/client/etcd-client.key"
    ∷ text_flag "etcd-ca-path" "/etc/etcd/tls/etcd-ca/ca.crt"
    ∷ text_flag "etcd-image" "quay.io/coreos/etcd:v3.5.0"
    ∷ text_flag "busybox-image" "busybox:1.35"
    ∷ text_flag "metrics-bind-address" ":8080"
    ∷ text_flag "log-level" "info"
    ∷ text_flag "log-format" "json"
    ∷ typed_flag "leader-elect" (bool_flag false)
    ∷ []

-- The persistent flag, which fills the variable `cfgFile`.
unfoldable pub config_flag : Flag
config_flag = text_flag "config" ".etcd-snapshot-driver.yaml"
