-- ===== src/Controller/Delete/Cleanup.antt =====
-- What the cleanup of a snapshot leaves in the ConfigMaps.
use etcd_snapshot_driver.Common.{
  true-false, Str, lit, true, none, LibError, Error, wrapped, failure, Result, ok, err, panic, Act,
  map_err, ◌>>=◌, >>=-ok, ◌≡◌, refl, ◌∙◌,
}
use etcd_snapshot_driver.Env.{Env}
use etcd_snapshot_driver.Kube.{Job}
use etcd_snapshot_driver.Job.Template.{generate_snapshot_delete_job}
use etcd_snapshot_driver.Snapshot.{Codecs, SnapshotMetadata}
use etcd_snapshot_driver.Snapshot.Manager.{
  single_kind, delete_entry, retrieve_snapshot_metadata, delete_snapshot_metadata,
}
use etcd_snapshot_driver.Snapshot.Table.{ConfigMapLaws, Sets}
use etcd_snapshot_driver.Snapshot.Table.Writes.{delete_entry-Sets}
use etcd_snapshot_driver.Snapshot.Table.RoundTrip.{retrieve-keeps}
use etcd_snapshot_driver.Controller.Types.{metadata_namespace}
use etcd_snapshot_driver.Controller.Delete.{
  cleanup_config, generated, job_run, metadata_deleted, job_done, run_cleanup, cleanup_snapshot,
}
use etcd_snapshot_driver.Controller.Delete.Frame.{job_run-Keeps}
use etcd_snapshot_driver.Controller.Delete.Removal.{IsSeparate}
use etcd_snapshot_driver.Controller.Delete.Total.{
  DeleteQuantitiesParse, generated_ends, job_run_ends,
}

module _ (E : Env) (L : ConfigMapLaws E) (Q : IsSeparate E L) (cs : Codecs) where
  -- The entry of the snapshot is removed, or nothing is.
  abbrev pub Removes : Str → E.State → Result Unit × E.State → Type 0
  Removes id s p = Sets L.maps s metadata_namespace single_kind.config_map_name id none p

  job_run_maps :
      (ns : Str) (j : Job E.Quantity) (s : E.State) → L.maps (job_run E cs ns j s).1 ≡ L.maps s
  job_run_maps ns j s =
      job_run-Keeps E (λ t. L.maps t ≡ L.maps s) (Q.reads (λ m. m ≡ L.maps s))
        (λ ns j t h. Q.jobs ns j t ∙ h) cs ns j s refl

  -- An error that is put around the result of a removal changes nothing.
  map_err-Removes :
      (f : Error → Error) (m : Act E.State Unit) (id : Str) (s t : E.State)
      → Removes id s (m t)
      → Removes id s (map_err f m t)
  map_err-Removes f m id s t h = go (m t).0 h refl
    where
      go :
          (r : Result Unit) → Removes id s (r, (m t).1) → (m t).0 ≡ r → Removes id s (map_err f m t)
      go (ok a) h e = rw (e, map_err) h
      go (err x) h e = rw (e, map_err) h
      go (panic x) h e = absurd h

  -- The same for another state with the same ConfigMaps.
  moved :
      (id : Str) (s t : E.State)
      → L.maps t ≡ L.maps s
      → (p : Result Unit × E.State) → Removes id t p
      → Removes id s p
  moved id s t same (ok _, t') h = rw (← same) h
  moved id s t same (err _, t') h = h ∙ same
  moved id s t same (panic _, t') h = h

  module _ (parses : DeleteQuantitiesParse E)
      (reached : (s : E.State) (e : LibError)
        → (E.get_config_map metadata_namespace single_kind.config_map_name s).0 ≡ failure e
        → e.is_not_found ≡ true) where
    deleted-Removes :
        (id : Str) (s t : E.State) → L.maps t ≡ L.maps s → Removes id s (metadata_deleted E cs id t)
    unfolding delete_snapshot_metadata
    deleted-Removes id s t same =
        map_err-Removes (wrapped (lit "failed to delete metadata"))
          (delete_snapshot_metadata E metadata_namespace id) id s t
          (moved id s t same (delete_entry E metadata_namespace single_kind id t)
            (delete_entry-Sets E L metadata_namespace single_kind id t (reached t)))

    job_done-Removes :
        (ns id : Str) (j : Job E.Quantity) (s : E.State) → Removes id s (job_done E cs ns id j s)
    job_done-Removes ns id j s = go (job_run E cs ns j s).0 refl
      where
        go :
            (r : Result Unit) → (job_run E cs ns j s).0 ≡ r → Removes id s (job_done E cs ns id j s)
        go (ok _) e =
            rw (>>=-ok (job_run E cs ns j) (λ _. metadata_deleted E cs id) s e)
              (deleted-Removes id s (job_run E cs ns j s).1 (job_run_maps ns j s))
        go (err x) e = rw (e, ◌>>=◌) (job_run_maps ns j s)
        go (panic x) e = absurd (true-false (rw e at (job_run_ends E parses cs ns j s)))

    -- The cleanup of a snapshot whose metadata are read takes its entry out of the table of snapshots if
    -- it succeeds, and leaves every other entry of every ConfigMap as it was; if it fails, no ConfigMap
    -- has changed. It does not panic. The ConfigMaps follow the laws of the API, only calls on ConfigMaps
    -- change them, reading the one with the snapshots fails only if it does not exist, and the quantities
    -- of the template parse.
    pub cleanup-Sets :
        (id : Str) (s : E.State) {m : SnapshotMetadata}
        → (retrieve_snapshot_metadata E metadata_namespace cs id s).0 ≡ ok m
        → Sets L.maps s metadata_namespace single_kind.config_map_name id none
            (cleanup_snapshot E cs id s)
    unfolding cleanup_snapshot run_cleanup retrieve_snapshot_metadata
    cleanup-Sets id s {m} read_ok =
        rw (read_ok, cleanup_snapshot)
          (moved id s s' (retrieve-keeps E L metadata_namespace cs.single single_kind id s)
            (run_cleanup E cs id m s')
            (go (generate_snapshot_delete_job E (cleanup_config id m)) refl))
      where
        s' : E.State
        s' = (retrieve_snapshot_metadata E metadata_namespace cs id s).1

        go :
            (r : Result (Job E.Quantity))
            → generate_snapshot_delete_job E (cleanup_config id m) ≡ r
            → Removes id s' (run_cleanup E cs id m s')
        go (ok j) e =
            rw (>>=-ok (generated E cs id m) (job_done E cs m.namespace id) s' e)
              (job_done-Removes m.namespace id j s')
        go (err x) e = rw (e, run_cleanup, generated, ◌>>=◌) refl
        go (panic x) e =
            absurd (true-false (rw e at (generated_ends E parses (cleanup_config id m))))
