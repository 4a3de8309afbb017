-- ===== src/Controller/Delete/Orphan.antt =====
-- The cleanup creates its job twice, and what that means on a server that refuses the second time.
use etcd_snapshot_driver.Common.{
  Str, lit, str_eq, true, false, Option, none, some, [], LibError, Reply-cases, value, failure,
  Error, lib, Result, ok, err, panic, is_err, pos, ◌>>=◌, ◌≡◌, ◌≢◌, inl, inr, refl, ◌∙◌, arith,
}
use etcd_snapshot_driver.Env.{Env}
use etcd_snapshot_driver.Env.Frame.{Keeps, >>=-Keeps}
use etcd_snapshot_driver.Kube.{Job}
use etcd_snapshot_driver.Job.Executor.{execute_snapshot_job}
use etcd_snapshot_driver.Snapshot.{SnapshotMetadata, Codecs}
use etcd_snapshot_driver.Snapshot.Manager.{single_kind, group_kind, delete_entry}
use etcd_snapshot_driver.Snapshot.Table.{Contents, ConfigMapLaws, entry}
use etcd_snapshot_driver.Snapshot.Table.Writes.{delete_entry-Sets, delete_entry_unread}
use etcd_snapshot_driver.Controller.Types.{metadata_namespace}
use etcd_snapshot_driver.Controller.Delete.{
  generated, job_run, job_done, run_cleanup, delete_volume_group_snapshot,
}
use etcd_snapshot_driver.Controller.Delete.Total.{DeleteQuantitiesParse, delete_ok}
use etcd_snapshot_driver.Controller.Delete.Removal.{IsSeparate, Sets-other}
use etcd_snapshot_driver.Controller.Delete.Frame.{job_run-Keeps, delete_runs-Keeps}

-- The documented behaviour of the API: an object that was created has a resource version, and one that
-- has a resource version cannot be created. The error is not that it exists already.
pub record RefusesVersions (E : Env) : Type 0 where
  pub versioned :
      (ns : Str) (j : Job E.Quantity) (s : E.State) {made : Job E.Quantity}
      → (E.create_job ns j s).0 ≡ value made
      → made.meta.resource_version ≢ []
  pub refused :
      (ns : Str) (j : Job E.Quantity) (s : E.State)
      → j.meta.resource_version ≢ []
      → (e : LibError) × ((E.create_job ns j s).0 ≡ failure e) × (e.is_already_exists ≡ false)

-- What the table of snapshots says of a key.
abbrev pub single_entry : Contents → Str → Option Str
single_entry m = entry m metadata_namespace single_kind.config_map_name

kinds_apart : str_eq group_kind.config_map_name single_kind.config_map_name ≡ false
unfolding single_kind group_kind str_eq lit
kinds_apart = refl

module _ (E : Env) (L : ConfigMapLaws E) (Q : IsSeparate E L) (V : RefusesVersions E)
    (cs : Codecs) where
  -- The job is made at most once, and so its run never ends well.
  executed_fails :
      (j : Job E.Quantity) (t : _) (s : E.State)
      → j.meta.resource_version ≢ []
      → (e : Error) × ((execute_snapshot_job E j t s).0.1 ≡ some e)
  unfolding execute_snapshot_job
  executed_fails j t s versioned =
      let (e, refusal, other) = V.refused j.meta.namespace j (E.now s).1 versioned in
      (lib e, ground arith)

  job_run_fails :
      (ns : Str) (j : Job E.Quantity) (s : E.State) → is_err (job_run E cs ns j s).0 ≡ true
  job_run_fails ns j s = elim (Reply-cases (E.create_job ns j s).0) [
    | inl (made, e) ↦
        let (x, failed) =
          executed_fails made (pos 60000000000) (E.create_job ns j s).1 (V.versioned ns j s e) in
        ground arith
    | inr (x, e) ↦ ground arith
  ]

  module _ (P : Contents → Type 0) where
    Kept : E.State → Type 0
    Kept s = P (L.maps s)

    run_cleanup-Kept : (id : Str) (d : SnapshotMetadata) → Keeps Kept (run_cleanup E cs id d)
    unfolding run_cleanup Kept
    run_cleanup-Kept id d =
        >>=-Keeps Kept (generated E cs id d) (job_done E cs d.namespace id) (λ s p. p)
          (λ j s p. go j s p (job_run E cs d.namespace j s).0 refl)
      where
        ran : (j : Job E.Quantity) → Keeps Kept (job_run E cs d.namespace j)
        ran j = job_run-Keeps E Kept (Q.reads P) (λ ns j s h. rw (Q.jobs ns j s) h) cs d.namespace j

        go :
            (j : Job E.Quantity) (s : E.State)
            → Kept s
            → (r : Result Unit) → (job_run E cs d.namespace j s).0 ≡ r
            → Kept (job_done E cs d.namespace id j s).1
        go j s p (ok _) e = cc (rw e at (job_run_fails d.namespace j s))
        go j s p (err x) e = rw (e, ◌>>=◌) (ran j s p)
        go j s p (panic x) e = rw (e, ◌>>=◌) (ran j s p)

  module _ (m : Contents) where
    abbrev Same : Contents → Type 0
    Same m' = (key : Str) → single_entry m' key ≡ single_entry m key

    group-Same :
        (id : Str) → Keeps (λ s. Same (L.maps s)) (delete_entry E metadata_namespace group_kind id)
    group-Same id s same key =
        elim (Reply-cases (E.get_config_map metadata_namespace group_kind.config_map_name s).0) [
          | inl (cm, e) ↦
              Sets-other L.maps s metadata_namespace group_kind.config_map_name id none
                (delete_entry E metadata_namespace group_kind id s) single_kind.config_map_name
                (delete_entry-Sets E L metadata_namespace group_kind id s (λ x f. cc)) kinds_apart
                key
              ∙ same key
          | inr (x, e) ↦
              rw ((delete_entry_unread E L metadata_namespace group_kind id s e).1) (same key)
        ]

  -- On a server that gives what it creates a resource version, and refuses to create an object that has
  -- one: a deletion with a group ID reports success, and every entry in the table of snapshots stays, that
  -- of the group's snapshot as well. The ConfigMaps follow the laws of the API, only calls on ConfigMaps
  -- change them, and the quantities of the template parse.
  pub delete_orphans :
      DeleteQuantitiesParse E
      → (id : Str) (s : E.State) → id ≢ []
      → ((delete_volume_group_snapshot E cs id s).0 ≡ ok tt)
        × ((key : Str)
            → single_entry (L.maps (delete_volume_group_snapshot E cs id s).1) key
              ≡ single_entry (L.maps s) key)
  unfolding Kept
  delete_orphans parses id s some_id = (
    delete_ok E parses cs id s some_id,
    delete_runs-Keeps E (λ t. Same (L.maps s) (L.maps t)) (Q.reads (Same (L.maps s)))
        (λ ns j t h. rw (Q.jobs ns j t) h) cs (run_cleanup-Kept (Same (L.maps s)))
        (group-Same (L.maps s)) id s (λ key. refl),
  )
