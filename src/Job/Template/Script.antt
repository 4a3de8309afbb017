-- ===== src/Job/Template/Script.antt =====
-- What the pods of the two jobs run: the file that one saves and the other removes, and where.
use etcd_snapshot_driver.Common.{
  Str, lit, Bool, true, false, List, [], ◌∷◌, ◌++◌, map, ok, ◌≡◌, refl, ap, ◌∙◌, Bool-cases, inl,
  inr, arith,
}
use etcd_snapshot_driver.Env.{Env}
use etcd_snapshot_driver.Kube.{
  VolumeSource, Volume, VolumeMount, persistent_volume_claim, PodSpec, Job,
}
use etcd_snapshot_driver.Job.Config.{
  JobConfig, snapshot_path, spaced, format_list, conditional_tls_flags, build_snapshot_command,
}
use etcd_snapshot_driver.Job.Template.{
  save_mounts, save_volumes, generate_snapshot_save_job, generate_snapshot_delete_job,
}

-- The names of the claims that a pod mounts.
abbrev claim_of : VolumeSource → List Str
claim_of (VolumeSource.persistent_volume_claim claim _) = claim ∷ []
claim_of (VolumeSource.empty_dir) = []
claim_of (VolumeSource.secret _ _) = []

abbrev pub claims : List Volume → List Str
claims [] = []
claims (v ∷ vs) = claim_of v.source ++ claims vs

abbrev pub commands : {Q : Type 0} → PodSpec Q → List (List Str)
commands spec = map (λ c. c.command) spec.containers

-- The file of a snapshot, the endpoints as they are printed, and the flags that name the TLS files.
abbrev pub file_of : Str → Str
file_of id = lit "/snapshots/" ++ (id ++ lit ".db")

abbrev pub printed : List Str → Str
printed [] = []
printed (e ∷ []) = e
printed (e ∷ e' ∷ es) = e ++ (lit " " ++ printed (e' ∷ es))

abbrev pub tls_arguments : Bool → Str → Str → Str → Str
tls_arguments false ca cert key = []
tls_arguments true ca cert key =
    lit " --cacert '"
    ++ (ca ++ (lit "' --cert '" ++ (cert ++ (lit "' --key '" ++ (key ++ lit "'")))))

-- The whole script: two commands, of which the first saves to the file and the second looks at it.
abbrev pub save_script : Str → List Str → Str → Str
save_script file endpoints arguments =
    lit "set -e\n"
    ++ (lit "etcdutl --endpoints '"
        ++ ((lit "[" ++ (printed endpoints ++ lit "]"))
            ++ (lit "'"
                ++ (arguments
                    ++ (lit " snapshot save "
                        ++ (file
                            ++ (lit "\netcdutl snapshot status "
                                ++ (file ++ lit " -w json\n"))))))))

-- A pod runs this script, and nothing else.
abbrev pub Saves : Str → List Str → Str → List (List Str) → Type 0
Saves file endpoints arguments cs =
    cs ≡ (lit "sh" ∷ lit "-c" ∷ save_script file endpoints arguments ∷ []) ∷ []

spaced-printed : (es : List Str) → spaced es ≡ printed es
unfolding spaced
spaced-printed [] = refl
spaced-printed (e ∷ []) = refl
spaced-printed (e ∷ e' ∷ es) = ap (λ t. e ++ (lit " " ++ t)) (spaced-printed (e' ∷ es))

format_list-printed : (es : List Str) → format_list es ≡ lit "[" ++ (printed es ++ lit "]")
unfolding format_list
format_list-printed es = ap (λ t. lit "[" ++ (t ++ lit "]")) (spaced-printed es)

flags-tls_arguments :
    (cfg : JobConfig)
    → conditional_tls_flags cfg
      ≡ tls_arguments cfg.tls_enabled cfg.ca_path cfg.client_cert_path cfg.client_key_path
unfolding conditional_tls_flags
flags-tls_arguments cfg = elim (Bool-cases cfg.tls_enabled) [
  | inl on ↦ rw (on, conditional_tls_flags) refl
  | inr off ↦ rw (off, conditional_tls_flags) refl
]

pub build-save_script :
    (cfg : JobConfig)
    → build_snapshot_command cfg
      ≡ save_script
          (file_of cfg.snapshot_id)
          cfg.etcd_endpoints
          (tls_arguments cfg.tls_enabled cfg.ca_path cfg.client_cert_path cfg.client_key_path)
unfolding build_snapshot_command
build-save_script cfg = rw (format_list-printed cfg.etcd_endpoints, flags-tls_arguments cfg) refl

-- The one container of a pod has the claim at the directory of the snapshots, and can write there.
abbrev pub MountsClaim : {Q : Type 0} → Str → PodSpec Q → Type 0
MountsClaim claim spec =
    (name : Str) × (vs : List Volume) × (ms : List VolumeMount) × (spec.volumes
      ≡ record { name = name; source = persistent_volume_claim claim false } ∷ vs)
    × (map (λ c. c.volume_mounts) spec.containers
        ≡ (record { name = name; mount_path = lit "/snapshots"; read_only = false } ∷ ms) ∷ [])

save_volumes_head :
    (tls : Bool) (claim secret_name : Str)
    → (vs : List Volume) × (save_volumes tls claim secret_name
        ≡ record { name = lit "snapshot-pvc"; source = persistent_volume_claim claim false } ∷ vs)
unfolding save_volumes
save_volumes_head false claim secret_name = (_, refl)
save_volumes_head true claim secret_name = (_, refl)

save_mounts_head :
    (tls : Bool)
    → (ms : List VolumeMount) × (save_mounts tls
        ≡ record { name = lit "snapshot-pvc"; mount_path = lit "/snapshots"; read_only = false }
          ∷ ms)
unfolding save_mounts
save_mounts_head false = (_, refl)
save_mounts_head true = (_, refl)

-- What the save job and the delete job of a configuration do.
module _ (E : Env) (cfg : JobConfig) {j : Job E.Quantity} where
  save_job_volumes :
      generate_snapshot_save_job E cfg ≡ ok j
      → (j.template.volumes
          ≡ save_volumes cfg.tls_enabled cfg.snapshot_pvc_name cfg.tls_secret_name)
        × (map (λ c. c.volume_mounts) j.template.containers ≡ save_mounts cfg.tls_enabled ∷ [])
  unfolding generate_snapshot_save_job
  save_job_volumes h = ground arith

  pub save_job-MountsClaim :
      generate_snapshot_save_job E cfg ≡ ok j → MountsClaim cfg.snapshot_pvc_name j.template
  save_job-MountsClaim h =
      let (volumes, mounts) = save_job_volumes h in
      let (vs, first_volume) =
        save_volumes_head cfg.tls_enabled cfg.snapshot_pvc_name cfg.tls_secret_name in
      let (ms, first_mount) = save_mounts_head cfg.tls_enabled in
      (lit "snapshot-pvc", vs, ms, volumes ∙ first_volume, mounts ∙ ap (λ m. m ∷ []) first_mount)

  delete_job_volumes :
      generate_snapshot_delete_job E cfg ≡ ok j
      → (j.template.volumes ≡ save_volumes false cfg.snapshot_pvc_name [])
        × (map (λ c. c.volume_mounts) j.template.containers ≡ save_mounts false ∷ [])
  unfolding generate_snapshot_delete_job save_mounts save_volumes
  delete_job_volumes h = ground arith

  pub delete_job-MountsClaim :
      generate_snapshot_delete_job E cfg ≡ ok j → MountsClaim cfg.snapshot_pvc_name j.template
  delete_job-MountsClaim h =
      let (volumes, mounts) = delete_job_volumes h in
      let (vs, first_volume) = save_volumes_head false cfg.snapshot_pvc_name [] in
      let (ms, first_mount) = save_mounts_head false in
      (lit "snapshot-pvc", vs, ms, volumes ∙ first_volume, mounts ∙ ap (λ m. m ∷ []) first_mount)

  pub save_job_lem :
      generate_snapshot_save_job E cfg ≡ ok j
      → (j.meta.namespace ≡ cfg.namespace)
        × (claims j.template.volumes ≡ cfg.snapshot_pvc_name ∷ [])
        × (commands j.template ≡ (lit "sh" ∷ lit "-c" ∷ build_snapshot_command cfg ∷ []) ∷ [])
  unfolding generate_snapshot_save_job
  save_job_lem h = ground arith

  pub delete_job_lem :
      generate_snapshot_delete_job E cfg ≡ ok j
      → (j.meta.namespace ≡ cfg.namespace)
        × (claims j.template.volumes ≡ cfg.snapshot_pvc_name ∷ [])
        × (commands j.template ≡ (lit "rm" ∷ lit "-f" ∷ file_of cfg.snapshot_id ∷ []) ∷ [])
  unfolding generate_snapshot_delete_job snapshot_path
  delete_job_lem h = ground arith
