-- ===== src/Job/Template/WellFormed.antt =====
-- The pod specs of the two jobs hold together.
use etcd_snapshot_driver.Common.{
  Str, lit, str_eq, Bool, true, false, ◌&&◌, ◌||◌, not, List, [], ◌∷◌, ◌≡◌, ok, arith,
}
use etcd_snapshot_driver.Env.{Env}
use etcd_snapshot_driver.Kube.{Volume, VolumeMount, Container, PodSpec, Job}
use etcd_snapshot_driver.Job.Config.{JobConfig}
use etcd_snapshot_driver.Job.Template.{generate_snapshot_save_job, generate_snapshot_delete_job}

-- Some volume has the name.
abbrev has_volume : List Volume → Str → Bool
has_volume [] name = false
has_volume (v ∷ vs) name = str_eq v.name name || has_volume vs name

abbrev names_distinct : List Volume → Bool
names_distinct [] = true
names_distinct (v ∷ vs) = not (has_volume vs v.name) && names_distinct vs

abbrev mounts_resolve : List Volume → List VolumeMount → Bool
mounts_resolve vs [] = true
mounts_resolve vs (m ∷ ms) = has_volume vs m.name && mounts_resolve vs ms

abbrev containers_resolve : {Q : Type 0} → List Volume → List (Container Q) → Bool
containers_resolve vs [] = true
containers_resolve vs (c ∷ cs) = mounts_resolve vs c.volume_mounts && containers_resolve vs cs

-- The volumes have different names, and every mount of every container names one of them.
abbrev pub is_mountable : {Q : Type 0} → PodSpec Q → Bool
is_mountable spec = names_distinct spec.volumes && containers_resolve spec.volumes spec.containers

module _ (E : Env) (cfg : JobConfig) {j : Job E.Quantity} where
  save-mountable : generate_snapshot_save_job E cfg ≡ ok j → is_mountable j.template ≡ true
  unfolding generate_snapshot_save_job lit str_eq
  save-mountable h = ground arith

  delete-mountable : generate_snapshot_delete_job E cfg ≡ ok j → is_mountable j.template ≡ true
  unfolding generate_snapshot_delete_job lit str_eq
  delete-mountable h = ground arith

-- Whatever the configurations, and with and without TLS, where the two jobs can be made (the
-- quantities parse): in the pod of a save job and in that of a
-- delete job, the volumes have different names and every mount names one of them.
pub generated-mountable :
    (E : Env) (cfg cfg' : JobConfig) {j j' : Job E.Quantity}
    → generate_snapshot_save_job E cfg ≡ ok j
    → generate_snapshot_delete_job E cfg' ≡ ok j'
    → (is_mountable j.template ≡ true) × (is_mountable j'.template ≡ true)
generated-mountable E cfg cfg' h h' = (save-mountable E cfg h, delete-mountable E cfg' h')
