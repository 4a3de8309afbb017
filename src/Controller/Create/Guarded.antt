-- ===== src/Controller/Create/Guarded.antt =====
-- What has been checked before a snapshot is taken.
use etcd_snapshot_driver.Env.{Env}
use etcd_snapshot_driver.Env.Frame.{ReadsKeep}
use etcd_snapshot_driver.Snapshot.{Codecs}
use etcd_snapshot_driver.Controller.Types.{ControllerConfig, CreateRequest, stamped}
use etcd_snapshot_driver.Controller.Checks.{Found}
use etcd_snapshot_driver.Controller.Checks.Validation.{
  AreParsed, IsUniform, volumes_of, check_request-ok,
}
use etcd_snapshot_driver.Controller.Checks.ReadOnly.{check_request-Keeps}
use etcd_snapshot_driver.Controller.Checks.Guards.{AllBound, AllHealthy, check_request-Seen}
use etcd_snapshot_driver.Controller.Create.{discovery, create_volume_group_snapshot}
use etcd_snapshot_driver.Controller.Create.Succeeds.{Answered, Takes, create-ok_iff}

-- A creation that succeeds has parsed every volume ID, has seen every claim bound and with a mode that
-- allows writing, and has found the cluster of each volume by its label, all with the same name and
-- number of endpoints. Each cluster has passed the check of its health right after it was found, and it
-- is from these clusters that the snapshot is taken. At each of these moments the state has any property
-- that it had at the start and that the calls that read keep.
pub create-Guarded :
    (E : Env) (P : E.State → Type 0)
    → ReadsKeep E P
    → (cfg : ControllerConfig) (cs : Codecs) (req : CreateRequest) (s : E.State) → P s
    → Answered (create_volume_group_snapshot E cfg cs req s)
    → (f : Found) × (t : E.State) × P t
      × AreParsed req.source_volume_ids (volumes_of f)
      × AllBound E P (volumes_of f)
      × IsUniform f
      × AllHealthy E P (discovery E cfg) f.cluster_infos
      × Takes E cfg (stamped req.name (E.now s).0) f.cluster_infos t
create-Guarded E P K cfg cs req s p answered =
    let (f, checked, takes) = (create-ok_iff E cfg cs req s).0 answered in
    let d = discovery E cfg in
    let (_, _, parsed, uniform) =
      check_request-ok E d req.name req.source_volume_ids (E.now s).1 checked in
    let (bound, healthy) =
      check_request-Seen E P K d req.name req.source_volume_ids f (E.now s).1 (K.now s p) checked in
    (
      f,
      _,
      check_request-Keeps E P K d req.name req.source_volume_ids (E.now s).1 (K.now s p),
      parsed,
      bound,
      uniform,
      healthy,
      takes,
    )
