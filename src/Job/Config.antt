-- ===== src/Job/Config.antt =====
-- `JobConfig` (internal/job/templates.go) and the shell command of a save job.
use etcd_snapshot_driver.Common.{Str, lit, Bool, true, false, List, [], ◌∷◌, ◌++◌, ℤ}

pub record JobConfig : Type 0 where
  pub snapshot_id : Str
  pub namespace : Str
  pub etcd_endpoints : List Str
  pub snapshot_pvc_name : Str
  pub snapshot_pvc_namespace : Str
  pub timeout : ℤ
  pub backoff_limit : ℤ
  pub active_deadline_seconds : ℤ
  pub operation : Str
  pub tls_enabled : Bool
  pub tls_secret_name : Str
  pub client_cert_path : Str
  pub client_key_path : Str
  pub ca_path : Str
  pub etcd_image : Str
  pub busybox_image : Str

-- `fmt.Sprintf("%v", list)`: the elements with spaces between, in brackets.
unfoldable pub spaced : List Str → Str
spaced [] = []
spaced (s ∷ []) = s
spaced (s ∷ t ∷ rest) = s ++ (lit " " ++ spaced (t ∷ rest))

unfoldable pub format_list : List Str → Str
unfolding spaced
format_list xs = lit "[" ++ (spaced xs ++ lit "]")

-- The file of a snapshot on the snapshot volume.
unfoldable pub snapshot_path : Str → Str
snapshot_path id = lit "/snapshots/" ++ (id ++ lit ".db")

tls_flags : Bool → JobConfig → Str
tls_flags false cfg = []
tls_flags true cfg =
    lit " --cacert '"
    ++ (cfg.ca_path
        ++ (lit "' --cert '"
            ++ (cfg.client_cert_path ++ (lit "' --key '" ++ (cfg.client_key_path ++ lit "'")))))

unfoldable pub conditional_tls_flags : JobConfig → Str
unfolding tls_flags
conditional_tls_flags cfg = tls_flags cfg.tls_enabled cfg

-- The slice `cmdParts` of the source is never read, and left out.
unfoldable pub build_snapshot_command : JobConfig → Str
unfolding format_list snapshot_path conditional_tls_flags
build_snapshot_command cfg =
    lit "set -e\n"
    ++ (lit "etcdutl --endpoints '"
        ++ (format_list cfg.etcd_endpoints
            ++ (lit "'"
                ++ (conditional_tls_flags cfg
                    ++ (lit " snapshot save "
                        ++ (snapshot_path cfg.snapshot_id
                            ++ (lit "\netcdutl snapshot status "
                                ++ (snapshot_path cfg.snapshot_id ++ lit " -w json\n"))))))))
