-- ===== src/Controller/Delete/Total.antt =====
-- A deletion always says that it succeeded.
use etcd_snapshot_driver.Common.{
  is_value, Str, lit, true, false, [], ◌∷◌, Result, ok, err, panic, is_panic, Act, >>=-NoPanic,
  >>=-ok, ap, ◌∙◌, logged, ◌≡◌, ◌≢◌, refl, arith,
}
use etcd_snapshot_driver.Env.{Env}
use etcd_snapshot_driver.Job.Config.{JobConfig}
use etcd_snapshot_driver.Job.Template.{generate_snapshot_delete_job}
use etcd_snapshot_driver.Kube.{Job}
use etcd_snapshot_driver.Snapshot.{Codecs, SnapshotMetadata, GroupSnapshotMetadata}
use etcd_snapshot_driver.Snapshot.Manager.{
  single_kind, group_kind, retrieve_snapshot_metadata, delete_snapshot_metadata,
  retrieve_group_snapshot_metadata, delete_group_snapshot_metadata,
}
use etcd_snapshot_driver.Snapshot.Manager.Ends.{NoPanic, retrieve_ends, delete_entry_ends}
use etcd_snapshot_driver.Controller.Types.{metadata_namespace}
use etcd_snapshot_driver.Controller.Delete.{
  generated, job_run, metadata_deleted, job_done, run_cleanup, cleanup_snapshot, remove_group,
  delete_known, delete_volume_group_snapshot,
}

-- The four quantities in the template of a delete job parse.
abbrev pub DeleteQuantitiesParse : Env → Type 0
DeleteQuantitiesParse E =
    (is_value (E.parse_quantity (lit "32Mi")) ≡ true)
    × (is_value (E.parse_quantity (lit "50m")) ≡ true)
    × (is_value (E.parse_quantity (lit "128Mi")) ≡ true)
    × (is_value (E.parse_quantity (lit "100m")) ≡ true)

pub logged_ok : {S A : Type 0} (m : Act S A) → NoPanic m → (s : S) → (logged m s).0 ≡ ok tt
logged_ok m h s = ground (arith, h s)

module _ (E : Env) (parses : DeleteQuantitiesParse E) where
  pub generated_ends : (cfg : JobConfig) → is_panic (generate_snapshot_delete_job E cfg) ≡ false
  unfolding generate_snapshot_delete_job
  generated_ends cfg = ground arith

  module _ (cs : Codecs) where
    pub job_run_ends : (ns : Str) (j : Job E.Quantity) → NoPanic (job_run E cs ns j)
    job_run_ends ns j s = ground arith

    metadata_deleted_ends : (id : Str) → NoPanic (metadata_deleted E cs id)
    unfolding delete_snapshot_metadata
    metadata_deleted_ends id s = ground (arith, delete_entry_ends E metadata_namespace _ id s)

    run_cleanup_ends : (id : Str) (m : SnapshotMetadata) → NoPanic (run_cleanup E cs id m)
    unfolding run_cleanup
    run_cleanup_ends id m =
        >>=-NoPanic (generated E cs id m) (job_done E cs m.namespace id) (λ s. generated_ends _)
          (λ j.
            >>=-NoPanic (job_run E cs m.namespace j) (λ _. metadata_deleted E cs id)
              (job_run_ends m.namespace j) (λ _. metadata_deleted_ends id))

    pub cleanup_ends : (id : Str) → NoPanic (cleanup_snapshot E cs id)
    unfolding cleanup_snapshot retrieve_snapshot_metadata
    cleanup_ends id s = go (retrieve_snapshot_metadata E metadata_namespace cs id s).0 refl
      where
        go :
            (r : Result SnapshotMetadata)
            → (retrieve_snapshot_metadata E metadata_namespace cs id s).0 ≡ r
            → is_panic (cleanup_snapshot E cs id s).0 ≡ false
        go (ok m) e = rw (e, cleanup_snapshot) (run_cleanup_ends id m _)
        go (err x) e = rw (e, cleanup_snapshot) refl
        go (panic x) e =
            cc (rw e at (retrieve_ends E metadata_namespace cs.single single_kind id s))

    remove_group_ok :
        (id : Str) (m : GroupSnapshotMetadata) (s : E.State) → (remove_group E cs id m s).0 ≡ ok tt
    unfolding remove_group delete_group_snapshot_metadata
    remove_group_ok id m s =
        ap (λ p. p.0)
          (>>=-ok (logged (cleanup_snapshot E cs m.snapshot_id))
            (λ _. logged (delete_group_snapshot_metadata E metadata_namespace id)) s
            (logged_ok (cleanup_snapshot E cs m.snapshot_id) (cleanup_ends m.snapshot_id) s))
        ∙ logged_ok (delete_group_snapshot_metadata E metadata_namespace id)
            (delete_entry_ends E metadata_namespace group_kind id) _

    delete_known_ok : (id : Str) (s : E.State) → (delete_known E cs id s).0 ≡ ok tt
    unfolding delete_known retrieve_group_snapshot_metadata
    delete_known_ok id s = go (retrieve_group_snapshot_metadata E metadata_namespace cs id s).0 refl
      where
        go :
            (r : Result GroupSnapshotMetadata)
            → (retrieve_group_snapshot_metadata E metadata_namespace cs id s).0 ≡ r
            → (delete_known E cs id s).0 ≡ ok tt
        go (ok m) e = rw (e, delete_known) (remove_group_ok id m _)
        go (err x) e = rw (e, delete_known) refl
        go (panic x) e = cc (rw e at (retrieve_ends E metadata_namespace cs.group group_kind id s))

    -- A deletion of a group that is named succeeds whatever the API answers: whether the metadata are
    -- found, the job runs or fails, and the metadata can be removed or not. The only condition is that
    -- the four quantities of the template parse.
    pub delete_ok :
        (id : Str) (s : E.State) → id ≢ [] → (delete_volume_group_snapshot E cs id s).0 ≡ ok tt
    unfolding delete_volume_group_snapshot
    delete_ok [] s h = absurd (h refl)
    delete_ok (c ∷ id) s h = delete_known_ok (c ∷ id) s
