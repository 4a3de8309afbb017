-- ===== src/Controller/Create/LongName.antt =====
-- How long the name of a request may be.
use etcd_snapshot_driver.Common.{
  ◌≤◌, ◌<◌, Str, lit, str_eq, false, some, [], ◌∷◌, length, LibError, Reply, value, failure, ok,
  ◌≡◌, arith,
}
use etcd_snapshot_driver.Common.Dict.{lookup}
use etcd_snapshot_driver.Env.{Env}
use etcd_snapshot_driver.Kube.{Job}
use etcd_snapshot_driver.Job.Config.{JobConfig}
use etcd_snapshot_driver.Job.Template.{generate_snapshot_save_job}
use etcd_snapshot_driver.Job.Executor.Success.{IsStarted}
use etcd_snapshot_driver.Snapshot.{Codecs}
use etcd_snapshot_driver.Controller.Types.{ControllerConfig, CreateRequest, stamped}
use etcd_snapshot_driver.Controller.Types.Length.{length-stamped}
use etcd_snapshot_driver.Controller.Checks.{ClusterEntry}
use etcd_snapshot_driver.Controller.Create.{save_config, create_volume_group_snapshot}
use etcd_snapshot_driver.Controller.Create.Succeeds.{Answered, JobSucceeds, Takes, create-ok_iff}

-- The documented behaviour of the API: the value of a label has 63 bytes at most. An object with a
-- longer one is refused, and the error is not that it exists already.
pub record LimitsLabels (E : Env) : Type 0 where
  pub refused :
      (ns : Str) (j : Job E.Quantity) (s : E.State) (key : Str) {text : Str}
      → lookup key j.meta.labels ≡ some text
      → 63 < length text
      → (e : LibError) × ((E.create_job ns j s).0 ≡ failure e) × (e.is_already_exists ≡ false)

module _ (E : Env) where
  -- The save job is labelled with the ID of its snapshot.
  labelled :
      (cfg : JobConfig) {j : Job E.Quantity}
      → generate_snapshot_save_job E cfg ≡ ok j
      → lookup (lit "snapshot-id") j.meta.labels ≡ some cfg.snapshot_id
  unfolding generate_snapshot_save_job lookup str_eq lit
  labelled cfg h = ground arith

  not_started :
      (j j' : Job E.Quantity) (r : Reply (Job E.Quantity)) (e : LibError)
      → r ≡ failure e
      → e.is_already_exists ≡ false
      → IsStarted E j r j'
      → ⊥
  not_started j j' (value made) e refusal other started = cc
  not_started j j' (failure x) e refusal other (there, _) = cc

  module _ (limits : LimitsLabels E) (late : (s : E.State) → 1000000000000000000 ≤ (E.now s).0)
      (cfg : ControllerConfig) where
    refused_job :
        (gid : Str) (first : ClusterEntry) (pvc_name : Str) (s : E.State)
        → 52 < length gid
        → JobSucceeds E cfg gid first pvc_name s
        → ⊥
    unfolding save_config
    refused_job gid first pvc_name s long (j, j', made, (started, _)) =
        let longer = length-stamped gid (E.now s).0 (late s) in
        let (e, refusal, other) =
          limits.refused j.meta.namespace j (E.now (E.now s).1).1 (lit "snapshot-id")
            (labelled (save_config cfg (stamped gid (E.now s).0) pvc_name first) made)
            (omega (arith, longer)) in
        not_started j j' _ e refusal other started

    refused_taking :
        (gid : Str) (clusters : _) (s : E.State) → 52 < length gid → Takes E cfg gid clusters s → ⊥
    refused_taking gid [] s long takes = takes
    refused_taking gid (first ∷ _) s long (pvc_name, _, runs) =
        refused_job gid first pvc_name _ long runs

    -- On a server that refuses labels of more than 63 bytes, and at a time after 9 September 2001, a
    -- creation with a name of more than 41 bytes does not succeed, whatever else it asks for: the ID of its
    -- snapshot, with the two time stamps, is too long for the label of the save job.
    pub long_name_fails :
        (cs : Codecs) (req : CreateRequest) (s : E.State)
        → 41 < length req.name
        → ¬ Answered (create_volume_group_snapshot E cfg cs req s)
    long_name_fails cs req s long answered =
        let (f, _, takes) = (create-ok_iff E cfg cs req s).0 answered in
        let longer = length-stamped req.name (E.now s).0 (late s) in
        refused_taking (stamped req.name (E.now s).0) f.cluster_infos _ (omega (arith, longer))
          takes
