-- ===== src/Controller/Create/Rejected.antt =====
-- A creation that is refused by the checks.
use etcd_snapshot_driver.Common.{true, Error, [], err, ◌≡◌, ◌⊎◌, arith}
use etcd_snapshot_driver.Env.{Env}
use etcd_snapshot_driver.Env.Frame.{ReadsKeep}
use etcd_snapshot_driver.Snapshot.{Codecs}
use etcd_snapshot_driver.Controller.Types.{ControllerConfig, CreateRequest}
use etcd_snapshot_driver.Controller.Checks.{check_request}
use etcd_snapshot_driver.Controller.Checks.Validation.{
  SomeMalformed, is_invalid_argument, check_request-malformed,
}
use etcd_snapshot_driver.Controller.Checks.ReadOnly.{check_request-Keeps}
use etcd_snapshot_driver.Controller.Create.{discovery, create_volume_group_snapshot}

module _ (E : Env) (cfg : ControllerConfig) (cs : Codecs) (req : CreateRequest) where
  -- A request that fails the checks (an invalid request, a PVC that is missing, unbound or read-only,
  -- a cluster that is not found, unhealthy or not the first one) is refused with the error of the
  -- checks, and nothing is written: every property of the state that the reading calls keep still
  -- holds.
  pub create_rejected :
      (P : E.State → Type 0) (s : E.State) {x : Error}
      → ReadsKeep E P
      → (check_request E (discovery E cfg) req.name req.source_volume_ids (E.now s).1).0 ≡ err x
      → P s
      → ((create_volume_group_snapshot E cfg cs req s).0 ≡ err x)
        × P (create_volume_group_snapshot E cfg cs req s).1
  unfolding create_volume_group_snapshot
  create_rejected P s K refused p = ground (
    arith,
    check_request-Keeps E P K (discovery E cfg) req.name req.source_volume_ids (E.now s).1
        (K.now s p),
  )

  -- A request without a name, without volume IDs or with a malformed one is refused with the code
  -- InvalidArgument, and all that has happened is that the clock was read.
  pub create_malformed :
      (s : E.State)
      → (req.name ≡ []) ⊎ ((req.source_volume_ids ≡ []) ⊎ SomeMalformed req.source_volume_ids)
      → (is_invalid_argument (create_volume_group_snapshot E cfg cs req s).0 ≡ true)
        × ((create_volume_group_snapshot E cfg cs req s).1 ≡ (E.now s).1)
  unfolding create_volume_group_snapshot
  create_malformed s bad = ground (
    arith,
    check_request-malformed E (discovery E cfg) req.name req.source_volume_ids (E.now s).1 bad,
  )
