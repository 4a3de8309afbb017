-- ===== src/Controller/Delete/Target.antt =====
-- The cleanup job removes the file that the save job wrote.
use etcd_snapshot_driver.Common.{Str, lit, [], ◌∷◌, ok, ◌≡◌, refl, sym, subst, ◌∙◌}
use etcd_snapshot_driver.Env.{Env}
use etcd_snapshot_driver.Kube.{Job}
use etcd_snapshot_driver.Job.Template.{generate_snapshot_save_job, generate_snapshot_delete_job}
use etcd_snapshot_driver.Job.Template.Script.{
  claims, commands, Saves, MountsClaim, file_of, delete_job_lem, delete_job-MountsClaim,
}
use etcd_snapshot_driver.Snapshot.{SnapshotMetadata}
use etcd_snapshot_driver.Controller.Types.{ControllerConfig}
use etcd_snapshot_driver.Controller.Checks.{ClusterEntry}
use etcd_snapshot_driver.Controller.Create.{save_config}
use etcd_snapshot_driver.Controller.Create.Saved.{arguments, save_config_job}
use etcd_snapshot_driver.Controller.Delete.{cleanup_config}

module _ (E : Env) (cfg : ControllerConfig) (id pvc : Str) (first : ClusterEntry)
    (metadata : SnapshotMetadata) where
  -- Where the metadata name the claim and the namespace that a creation used, and both jobs can be made:
  -- the cleanup job runs in the namespace of the save job, and both mount the claim, and no other, at
  -- /snapshots; the script of the save job saves to the file /snapshots/ID.db and looks at it, and the
  -- cleanup job removes this file and does nothing else.
  pub cleanup_target :
      {j j' : Job E.Quantity}
      → metadata.pvc_name ≡ pvc
      → metadata.namespace ≡ first.volume_info.namespace
      → generate_snapshot_save_job E (save_config cfg id pvc first) ≡ ok j
      → generate_snapshot_delete_job E (cleanup_config id metadata) ≡ ok j'
      → (j'.meta.namespace ≡ j.meta.namespace)
        × (claims j'.template.volumes ≡ claims j.template.volumes)
        × (claims j.template.volumes ≡ pvc ∷ [])
        × MountsClaim pvc j.template
        × MountsClaim pvc j'.template
        × (commands j'.template ≡ (lit "rm" ∷ lit "-f" ∷ file_of id ∷ []) ∷ [])
        × Saves (file_of id) first.info.endpoints (arguments cfg) (commands j.template)
  unfolding cleanup_config
  cleanup_target {j} {j'} same_claim same_namespace saves deletes =
      let (ns, claim, mounts, saved) = save_config_job E cfg id pvc first saves in
      let (ns', claim', removal) = delete_job_lem E (cleanup_config id metadata) deletes in
      let mounts' = delete_job-MountsClaim E (cleanup_config id metadata) deletes in
      (
        ns' ∙ same_namespace ∙ sym ns,
        claim' ∙ rw same_claim refl ∙ sym claim,
        claim,
        mounts,
        subst (λ claim. MountsClaim claim j'.template) same_claim mounts',
        removal,
        saved,
      )
